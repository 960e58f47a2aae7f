-- ===== src/SingleList/Build.antt =====
-- `Init_Linklist`: the list that is read from the input.
use study_c_know.Common.{
  ◌≡◌, ◌≢◌, refl, true, false, Option, none, some, List, [], ◌∷◌, ◌++◌, arith, if◌then◌else◌, subst,
}
use mathlib.Core.List.{append-nil, append_assoc}
use study_c_know.Common.Int.{ℤ, negsuc, ◌==ℤ◌}
use study_c_know.NodeHeap.{Ptr, null, Heap, update, allocate, set_next, set_value}
use study_c_know.NodeHeap.Chain.{
  has, Prefix, has-append, has-alive, append-Distinct, last-mem, Prefix-frame, Prefix-append,
}
use study_c_know.NodeHeap.Splice.{Chain-insert}
use study_c_know.SingleList.{IsList, append_node, init_loop, init}

-- The input up to the first -1, `none` if there is none.
unfoldable pub read_until : List (ℤ × Ptr) → Option (List (Ptr × ℤ))
read_until [] = none
read_until ((val, p) ∷ input) =
    if val ==ℤ negsuc 0
    then some []
    else elim (read_until input) [ none ↦ none | some xs ↦ some ((p, val) ∷ xs) ]

-- What `malloc` returns: addresses that are not in use, each once.
abbrev pub Unused : Heap ℤ → List (Ptr × ℤ) → Type 0
Unused h [] = Unit
Unused h ((p, d) ∷ xs) = (p ≢ null) × (h.alive p ≡ false) × (has p xs ≡ false) × Unused h xs

Unused-frame :
    (h g : Heap ℤ) (n : Ptr) (xs : List (Ptr × ℤ))
    → Unused h xs
    → has n xs ≡ false
    → ((a : Ptr) → a ≢ n → g.alive a ≡ h.alive a)
    → Unused g xs
Unused-frame h g n [] r out same = tt
Unused-frame h g n ((q, d) ∷ xs) r out same =
    (r.0, ground (arith, same q), r.2, Unused-frame h g n xs (r.3) (ground arith) same)

-- One more node behind the last one.
append_node_lem :
    (h : Heap ℤ) (header rear n : Ptr) (d : ℤ) (xs : List (Ptr × ℤ))
    → IsList h header xs
    → Prefix h header xs rear
    → h.next rear ≡ null
    → n ≢ null
    → h.alive n ≡ false
    → (g : Heap ℤ) × (append_node n rear d h ≡ some (n, g))
      × IsList g header (xs ++ (n, d) ∷ [])
      × Prefix g header (xs ++ (n, d) ∷ []) n
      × (g.next n ≡ null)
      × ((a : Ptr) → a ≢ n → g.alive a ≡ h.alive a)
unfolding append_node
append_node_lem h header rear n d xs is front last ne fresh =
    let all = append-nil xs in
    let member = last-mem h header xs rear front in
    let alive_rear = has-alive h rear header xs null is.chain in
    let alive_n = has-alive h n header xs null is.chain in
    let new : has n xs ≡ false = ground arith in
    let root = is.root in
    let ne_u : n ≢ header = λ e. ground arith in
    let ne_w : n ≢ rear = λ e. ground arith in
    let g : Heap ℤ = record {
      alive = update h.alive n true;
      value = update h.value n d;
      next = update (update h.next n null) rear n;
    } in
    let chain =
      Chain-insert h g header xs [] rear null n d front last (rw all is.apart) (rw all is.distinct)
        (rw all new) ne_u (ne, ground arith, ground arith) (ground arith) (ground arith)
        (λ a i k. ground arith) (λ a i. ground arith) in
    (
      g,
      ground arith,
      record {
        chain = chain;
        root = ground arith;
        ne = is.ne;
        apart = ground (arith, has-append header xs ((n, d) ∷ []), is.apart);
        distinct = append-Distinct xs ((n, d) ∷ []) is.distinct (refl, tt) (λ a i. ground arith);
      },
      Prefix-append g header xs n d
          (Prefix-frame h g header xs rear front is.apart is.distinct (λ a i ne_a. ground arith)
            (λ a i. ground arith))
          (ground arith) (ne, ground arith, ground arith),
      ground arith,
      λ a i. ground arith,
    )

init_loop_lem :
    (h : Heap ℤ) (header rear : Ptr) (xs : List (Ptr × ℤ)) (input : List (ℤ × Ptr))
    (ys : List (Ptr × ℤ))
    → IsList h header xs
    → Prefix h header xs rear
    → h.next rear ≡ null
    → read_until input ≡ some ys
    → Unused h ys
    → (g : Heap ℤ) × (init_loop input rear h ≡ some (tt, g)) × IsList g header (xs ++ ys)
unfolding init_loop read_until
init_loop_lem h header rear xs [] ys is front last e unused = cc
init_loop_lem h header rear xs ((val, p) ∷ input) [] is front last e unused =
    (h, ground (arith, e), rw (append-nil xs) is)
init_loop_lem h header rear xs ((val, p) ∷ input) ((q, d) ∷ ys) is front last e unused =
    let go : (val ==ℤ negsuc 0) ≡ false = ground (arith, e) in
    let same : (p ≡ q) × (val ≡ d) × (read_until input ≡ some ys) = ground (arith, e) in
    let (g, run, is', front', last', alive) =
      append_node_lem h header rear p val xs is front last (ground arith) (ground arith) in
    let (k, run', done) =
      init_loop_lem g header p (xs ++ (p, val) ∷ []) input ys is' front' last' (same.2)
        (Unused-frame h g p ys (unused.3) (ground arith) alive) in
    let cell : ◌≡◌ {A = Ptr × ℤ} (p, val) (q, d) = ground arith in
    (
      k,
      rw (go, run) run',
      subst (λ (c : Ptr × ℤ). IsList k header (xs ++ c ∷ ys)) {x = (p, val)} {y = (q, d)} cell
          (rw (append_assoc xs ((p, val) ∷ []) ys) at done),
    )

-- `Init_Linklist` on input with a -1, and with memory for the header and every node, returns the
-- header of a list of the numbers before the first -1, in order.
pub init-read_until :
    (h : Heap ℤ) (fresh : Ptr) (input : List (ℤ × Ptr)) (ys : List (Ptr × ℤ))
    → fresh ≢ null
    → read_until input ≡ some ys
    → Unused h ((fresh, negsuc 0) ∷ ys)
    → (g : Heap ℤ) × (init fresh input h ≡ some (fresh, g)) × IsList g fresh ys
unfolding init allocate set_value set_next
init-read_until h fresh input ys ne e unused =
    let k : Heap ℤ = record {
      alive = update h.alive fresh true;
      value = update h.value fresh (negsuc 0);
      next = update h.next fresh null;
    } in
    let empty : IsList k fresh [] = record {
      chain = ground arith;
      root = ground arith;
      ne = ne;
      apart = refl;
      distinct = tt;
    } in
    let (g, run, is) =
      init_loop_lem k fresh fresh [] input ys empty refl (ground arith) e
        (Unused-frame h k fresh ys (unused.3) (unused.2) (λ a i. ground arith)) in
    (g, ground (arith, run), is)
