-- ===== src/Josephus/Kill.antt =====
-- `kill_sl` against the counting out of a list.
use study_c_know.Common.{
  ℕ, zero, suc, ◌<◌, ◌≡◌, ◌≢◌, refl, true, false, some, [], ◌∷◌, ◌++◌, length, arith, if◌then◌else◌,
  ◌==◌, ap, ◌∙◌,
}
use study_c_know.Common.Int.{ℤ}
use study_c_know.NodeHeap.{Ptr, null, Heap, update, get_next, get_value, set_next, free, allocate}
use study_c_know.NodeHeap.Chain.{has, values, Chain-frame, has-append, has-alive}
use study_c_know.Josephus.{advance, kill_one, kill_loop, kill}
use study_c_know.Josephus.Order.{spin, order, length-spin, order-suc}
use study_c_know.Josephus.Circle.{Nodes, Circle, turn, take_out-two, take_out-more}

-- After at least one turn `tmp` is the last node, which `cur` comes after.
pub advance-spin :
    (h : Heap ℤ) (k : ℕ) (tmp u : Ptr) (d : ℤ) (a : Ptr) (e : ℤ) (xs : Nodes)
    → Circle h u d ((a, e) ∷ xs)
    → (t : Ptr) × (b : ℤ) × (c : Ptr) × (f : ℤ) × (ys : Nodes) × (advance (suc k) tmp u h
        ≡ some ((t, c), h))
      × (spin (suc k) ((u, d) ∷ (a, e) ∷ xs) ≡ (c, f) ∷ ys ++ (t, b) ∷ [])
      × Circle h c f (ys ++ (t, b) ∷ [])
unfolding advance spin get_next
advance-spin h zero tmp u d a e xs is =
    let alive = is.node.1 in
    let next = is.ring.0 in (u, d, a, e, xs, ground arith, refl, turn h u d a e xs is)
advance-spin h (suc k) tmp u d a e [] is =
    let alive = is.node.1 in
    let next = is.ring.0 in
    let (t, b, c, f, ys, run, same, left) = advance-spin h k u a e u d [] (turn h u d a e [] is) in
    (t, b, c, f, ys, ground (arith, run), same, left)
advance-spin h (suc k) tmp u d a e ((p, q) ∷ xs) is =
    let alive = is.node.1 in
    let next = is.ring.0 in
    let (t, b, c, f, ys, run, same, left) =
      advance-spin h k u a e p q (xs ++ (u, d) ∷ []) (turn h u d a e ((p, q) ∷ xs) is) in
    (t, b, c, f, ys, ground (arith, run), same, left)

-- The heap after the node `c` behind `t` is taken out.
unfoldable pub cut : Heap ℤ → (t c : Ptr) → Heap ℤ
cut h t c = record {
  alive = update h.alive c false;
  value = h.value;
  next = update h.next t (h.next c);
}

alive-cut : (h : Heap ℤ) (t c a : Ptr) → (cut h t c).alive a ≡ (if a == c then false else h.alive a)
unfolding cut
alive-cut h t c a = ground arith

-- One node of a circle of at least two is taken out; the circle starts with its successor then.
pub kill_one-cut :
    (h : Heap ℤ) (t : Ptr) (b : ℤ) (c : Ptr) (f : ℤ) (ys : Nodes)
    → Circle h c f (ys ++ (t, b) ∷ [])
    → (u : Ptr) × (d : ℤ) × (xs : Nodes) × (kill_one t c h ≡ some ((f, u), cut h t c))
      × (ys ++ (t, b) ∷ [] ≡ (u, d) ∷ xs)
      × Circle (cut h t c) u d xs
unfolding kill_one cut get_next get_value set_next free
kill_one-cut h t b c f [] is =
    let node = is.node in
    let (i, other, k) = is.ring in
    let ne = is.distinct.0 in
    (
      t,
      b,
      [],
      ground arith,
      refl,
      take_out-two h
          (record {
            alive = update h.alive c false;
            value = h.value;
            next = update h.next t (h.next c);
          })
          c f t b is (ground arith) (refl, ground arith),
    )
kill_one-cut h t b c f ((p, q) ∷ ys) is =
    let node = is.node in
    let (i, other, ring) = is.ring in
    let out = is.distinct.0 in
    let in_t = has-append t ys ((t, b) ∷ []) in
    let in_c = has-append c ys ((t, b) ∷ []) in
    let alive = has-alive h t p (ys ++ (t, b) ∷ []) c ring in
    (
      p,
      q,
      ys ++ (t, b) ∷ [],
      ground arith,
      refl,
      take_out-more h
          (record {
            alive = update h.alive c false;
            value = h.value;
            next = update h.next t (h.next c);
          })
          c f p q ys t b is (ground arith) (λ a ne. ground arith) (λ a ne. (refl, ground arith)),
    )

-- What the loop of `kill_sl` does to a circle.
pub record Killed (h g : Heap ℤ) (u last : Ptr) (spec : Nodes × Nodes) : Type 0 where
  pub value : ℤ
  pub survivor : spec.1 ≡ (last, value) ∷ []
  pub alone : Circle g last value []
  pub freed : (a : Ptr) → g.alive a ≡ (if has a (spec.0) then false else h.alive a)

kill_loop-order :
    (m : ℕ) (fuel k : ℕ) (h : Heap ℤ) (tmp u : Ptr) (d : ℤ) (xs : Nodes)
    → Circle h u d xs
    → length xs ≡ m
    → m < fuel
    → (last : Ptr) × (g : Heap ℤ) × (kill_loop fuel (suc (suc k)) tmp u h
        ≡ some ((values ((order m (suc k) ((u, d) ∷ xs)).0), last), g))
      × Killed h g u last (order m (suc k) ((u, d) ∷ xs))
unfolding kill_loop get_next
kill_loop-order m zero k h tmp u d xs is size enough = absurd (omega arith)
kill_loop-order zero (suc fuel) k h tmp u d [] is size enough =
    let node = is.node in
    let ring = is.ring in
    unfold order in
    (u, h, ground arith, record { value = d; survivor = refl; alone = is; freed = λ a. refl })
kill_loop-order zero (suc fuel) k h tmp u d (x ∷ xs) is size enough = absurd (omega arith)
kill_loop-order (suc m) (suc fuel) k h tmp u d [] is size enough = absurd (omega arith)
kill_loop-order (suc m) (suc fuel) k h tmp u d ((a, e) ∷ xs) is size enough =
    let node = is.node in
    let ring = is.ring.0 in
    let apart = is.distinct.0 in
    let (t, b, c, f, ys, run, same, turned) = advance-spin h k tmp u d a e xs is in
    let (v, w, zs, run', same', left) = kill_one-cut h t b c f ys turned in
    let spun : spin (suc k) ((u, d) ∷ (a, e) ∷ xs) ≡ (c, f) ∷ (v, w) ∷ zs =
      same ∙ ap (λ (r : Nodes). (c, f) ∷ r) same' in
    let counted = order-suc m (suc k) ((u, d) ∷ (a, e) ∷ xs) ((v, w) ∷ zs) c f spun in
    let total = length-spin (suc k) ((u, d) ∷ (a, e) ∷ xs) in
    let size' : length zs ≡ m = omega (arith, ap length spun) in
    let (last, g, run'', done) =
      kill_loop-order m fuel k (cut h t c) t v w zs left size' (omega arith) in
    let freed = done.freed in
    rw counted (
      last,
      g,
      ground (arith, run, run', run''),
      record {
        value = done.value;
        survivor = done.survivor;
        alone = done.alone;
        freed = λ p. ground (arith, freed p, alive-cut h t c p);
      },
    )

-- A new block leaves a circle as it is.
allocate-Circle :
    (h : Heap ℤ) (fresh u : Ptr) (d : ℤ) (xs : Nodes)
    → Circle h u d xs
    → h.alive fresh ≡ false
    → Circle (record h { alive = update h.alive fresh true }) u d xs
allocate-Circle h fresh u d xs is unused =
    let node = is.node in
    record {
      node = (node.0, ground arith, node.2);
      ring =
          Chain-frame h (record h { alive = update h.alive fresh true }) u u xs u is.ring refl
            (λ a i. refl) (λ a i. (refl, ground (arith, has-alive h a u xs u is.ring)));
      distinct = is.distinct;
    }

-- `kill_sl` with n ≥ 2, on a circle and with fuel for it, with memory for its block, ends. It
-- prints the values in the order in which counting to n puts the nodes out, and leaves the circle
-- of the one node that is left; it frees the others, each once, and nothing else.
pub kill-order :
    (h : Heap ℤ) (fresh u : Ptr) (d : ℤ) (xs : Nodes) (fuel k : ℕ)
    → Circle h u d xs
    → fresh ≢ null
    → h.alive fresh ≡ false
    → length xs < fuel
    → (last : Ptr) × (g : Heap ℤ) × (kill fuel fresh u (suc (suc k)) h
        ≡ some ((values ((order (length xs) (suc k) ((u, d) ∷ xs)).0), last), g))
      × Killed
          (record h { alive = update h.alive fresh true })
          g
          u
          last
          (order (length xs) (suc k) ((u, d) ∷ xs))
unfolding kill allocate
kill-order h fresh u d xs fuel k is ne unused enough =
    let (last, g, run, done) =
      kill_loop-order (length xs) fuel k (record h { alive = update h.alive fresh true }) fresh u d
        xs (allocate-Circle h fresh u d xs is unused) refl enough in
    (last, g, ground (arith, run), done)
