-- ===== src/SingleList/Change.antt =====
-- `Inset_Linklist` and `Remove_Linklist`.
use study_c_know.Common.{
  ℕ, ◌<◌, ◌≡◌, ◌≢◌, refl, Bool, true, false, Option, some, List, [], ◌∷◌, ◌++◌, length, arith,
  if◌then◌else◌, ◌==◌, subst, sym,
}
use study_c_know.Common.Int.{ℤ, ◌==ℤ◌}
use study_c_know.NodeHeap.{Ptr, null, Heap, update, get_next}
use study_c_know.NodeHeap.Chain.{
  has, Chain, Prefix, has-append, has-alive, Distinct-append, append-Distinct, last-mem,
}
use study_c_know.NodeHeap.Splice.{Chain-insert, Chain-remove}
use study_c_know.SingleList.{IsList, insert, remove, link_between, unlink}
use study_c_know.SingleList.Locate.{before, from, before-append-from, locate_lem}

-- The heap after a new node `n` with the value `d` is linked behind `w`.
unfoldable pub linked : Heap ℤ → (w n : Ptr) → ℤ → Heap ℤ
linked h w n d = record {
  alive = update h.alive n true;
  value = update h.value n d;
  next = update (update (update h.next n null) n (h.next w)) w n;
}

module _ (h : Heap ℤ) (header : Ptr) (ys zs : List (Ptr × ℤ)) (is : IsList h header (ys ++ zs))
    (w : Ptr) (front : Prefix h header ys w) (back : Chain h w zs null) where
  -- The node before the place of a change is allocated.
  last-alive : h.alive w ≡ true
  last-alive =
      let member = last-mem h header ys w front in
      let inside = has-append w ys zs in
      let root = is.root in ground (arith, has-alive h w header (ys ++ zs) null is.chain)

  pub linked-IsList :
      (n : Ptr) (d : ℤ)
      → n ≢ null
      → h.alive n ≡ false
      → IsList (linked h w n d) header (ys ++ (n, d) ∷ zs)
  unfolding linked
  linked-IsList n d ne fresh =
      let (dy, dz, cross) = Distinct-append ys zs is.distinct in
      let alive_n = has-alive h n header (ys ++ zs) null is.chain in
      let new : has n (ys ++ zs) ≡ false = ground arith in
      let root = is.root in
      let ne_u : n ≢ header = λ e. ground arith in
      let ne_w : n ≢ w = λ e. ground (arith, last-alive) in
      let in_n = has-append n ys zs in
      record {
        chain =
            Chain-insert h (linked h w n d) header ys zs w null n d front back is.apart is.distinct
              new ne_u (ne, ground arith, ground arith) (ground arith) (ground arith)
              (λ a i k. ground arith) (λ a i. ground arith);
        root = ground arith;
        ne = is.ne;
        apart =
            ground (arith, has-append header ys zs, has-append header ys ((n, d) ∷ zs), is.apart);
        distinct =
            append-Distinct ys ((n, d) ∷ zs) dy (ground arith, dz)
              (λ a i. ground (arith, cross a i));
      }

-- `Inset_Linklist` with memory and fuel for the whole list puts a node with the new value before
-- the first node with the old one, and behind all nodes if there is none; the other nodes keep their
-- values and their order, and no other address is allocated or freed.
pub insert-before :
    (h : Heap ℤ) (header : Ptr) (xs : List (Ptr × ℤ)) (fuel : ℕ) (n : Ptr) (old_val new_val : ℤ)
    → IsList h header xs
    → length xs < fuel
    → n ≢ null
    → h.alive n ≡ false
    → (g : Heap ℤ) × (insert fuel n header old_val new_val h ≡ some (tt, g))
      × IsList g header (before old_val xs ++ (n, new_val) ∷ from old_val xs)
      × ((a : Ptr) → a ≢ n → g.alive a ≡ h.alive a)
unfolding insert get_next link_between linked
insert-before h header xs fuel n old_val new_val is enough ne fresh =
    let (w, run, front, back) =
      locate_lem h fuel old_val header (h.next header) xs is.chain refl enough in
    let ys = before old_val xs in
    let zs = from old_val xs in
    let is' = subst (IsList h header) (sym (before-append-from old_val xs)) is in
    let alive_w = last-alive h header ys zs is' w front back in
    let root = is.root in
    let ne_header = is.ne in
    let ne_w : n ≢ w = λ e. ground arith in
    (
      linked h w n new_val,
      ground (arith, run),
      linked-IsList h header ys zs is' w front back n new_val ne fresh,
      λ a i. ground arith,
    )

-- The values without the first `val`.
unfoldable pub remove_first : ℤ → List (Ptr × ℤ) → List (Ptr × ℤ)
remove_first val [] = []
remove_first val ((p, d) ∷ xs) = if d ==ℤ val then xs else (p, d) ∷ remove_first val xs

abbrev rest : List (Ptr × ℤ) → List (Ptr × ℤ)
rest [] = []
rest (c ∷ xs) = xs

remove_first-split :
    (val : ℤ) (xs : List (Ptr × ℤ)) → remove_first val xs ≡ before val xs ++ rest (from val xs)
unfolding remove_first before from
remove_first-split val [] = refl
remove_first-split val ((p, d) ∷ xs) = ground (arith, remove_first-split val xs)

-- Whether `a` is the first node of a list.
abbrev pub is_first : Ptr → List (Ptr × ℤ) → Bool
is_first a [] = false
is_first a ((p, d) ∷ xs) = a == p

-- The heap after the node `n` behind `w` is unlinked and freed.
unfoldable without : Heap ℤ → (w n : Ptr) → Heap ℤ
without h w n = record {
  alive = update h.alive n false;
  value = h.value;
  next = update h.next w (h.next n);
}

-- What `remove` does once the place is found.
remove-found :
    (h : Heap ℤ) (header : Ptr) (ys zs : List (Ptr × ℤ)) (w : Ptr)
    → IsList h header (ys ++ zs)
    → Prefix h header ys w
    → Chain h w zs null
    → (g : Heap ℤ) × ((if◌then◌else◌ {A = Option (Unit {0} × Heap ℤ)}
          (h.next w == null)
          (some (tt, h))
          (unlink (w, h.next w) h))
        ≡ some (tt, g))
      × IsList g header (ys ++ rest zs)
      × ((a : Ptr) → g.alive a ≡ (if is_first a zs then false else h.alive a))
unfolding unlink without
remove-found h header ys [] w is front back = (h, ground arith, is, λ a. refl)
remove-found h header ys ((n, d) ∷ zs) w is front back =
    let (dy, dz, cross) = Distinct-append ys ((n, d) ∷ zs) is.distinct in
    let alive_w = last-alive h header ys ((n, d) ∷ zs) is w front back in
    let member = last-mem h header ys w front in
    let in_header = has-append header ys ((n, d) ∷ zs) in
    let outside = is.apart in
    let root = is.root in
    let ne_w : w ≢ n = λ e. ground (arith, cross w) in
    let g = without h w n in
    (
      g,
      ground arith,
      record {
        chain =
            Chain-remove h g header ys zs w null n d front back is.apart is.distinct (ground arith)
              (λ a i. ground arith) (λ a i. ground arith);
        root = ground arith;
        ne = is.ne;
        apart = ground (arith, has-append header ys zs);
        distinct = append-Distinct ys zs dy (dz.1) (λ a i. ground (arith, cross a i));
      },
      λ a. ground arith,
    )

-- `Remove_Linklist` with fuel for the whole list takes out and frees the first node with the value,
-- if there is one; the others stay in order, and no other node is freed.
pub remove-remove_first :
    (h : Heap ℤ) (header : Ptr) (xs : List (Ptr × ℤ)) (fuel : ℕ) (val : ℤ)
    → IsList h header xs
    → length xs < fuel
    → (g : Heap ℤ) × (remove fuel header val h ≡ some (tt, g))
      × IsList g header (remove_first val xs)
      × ((a : Ptr) → g.alive a ≡ (if is_first a (from val xs) then false else h.alive a))
unfolding remove get_next
remove-remove_first h header xs fuel val is enough =
    let (w, run, front, back) =
      locate_lem h fuel val header (h.next header) xs is.chain refl enough in
    let is' = subst (IsList h header) (sym (before-append-from val xs)) is in
    let (g, run', left, freed) =
      remove-found h header (before val xs) (from val xs) w is' front back in
    (g, ground (arith, run, run', is.root, is.ne), rw (remove_first-split val xs) left, freed)
