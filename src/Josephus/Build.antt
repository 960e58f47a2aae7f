-- ===== src/Josephus/Build.antt =====
-- `Init_Linklist` and `list_show` of yuesefu.c: the circle of the numbers from 1 on.
use study_c_know.Common.{
  ℕ, zero, suc, ◌+◌, ◌<◌, ◌≤◌, ◌≡◌, ◌≢◌, refl, true, false, some, [], ◌∷◌, ◌++◌, length, arith,
  subst,
}
use mathlib.Core.List.{append-nil, append_assoc}
use study_c_know.Common.Int.{ℤ, pos}
use study_c_know.NodeHeap.{
  Ptr, null, Heap, update, get_next, get_value, allocate, set_next, set_value,
}
use study_c_know.NodeHeap.Chain.{
  has, values, Node, Prefix, Chain, has-append, has-alive, append-Distinct, last-mem, Prefix-frame,
  Prefix-append,
}
use study_c_know.NodeHeap.Splice.{Chain-insert}
use study_c_know.Josephus.{init_loop, init, show_loop, show}
use study_c_know.Josephus.Circle.{Nodes, Circle}

show_loop-values :
    (h : Heap ℤ) (fuel : ℕ) (u c : Ptr) (d : ℤ) (xs : Nodes)
    → Node h c d
    → Chain h c xs u
    → has u xs ≡ false
    → length xs < fuel
    → show_loop fuel u c h ≡ some (d ∷ values xs, h)
unfolding show_loop get_next get_value
show_loop-values h zero u c d xs node ring apart enough = absurd (omega arith)
show_loop-values h (suc fuel) u c d [] node ring apart enough = ground arith
show_loop-values h (suc fuel) u c d ((a, e) ∷ xs) node ring apart enough =
    ground (arith, show_loop-values h fuel u a e xs (ring.1) (ring.2))

-- `list_show` of a circle, with fuel for it, ends, prints every value once, in order, and changes
-- nothing.
pub show-Circle :
    (h : Heap ℤ) (u : Ptr) (d : ℤ) (xs : Nodes) (fuel : ℕ)
    → Circle h u d xs
    → length xs < fuel
    → show fuel u h ≡ some (d ∷ values xs, h)
unfolding show
show-Circle h u d xs fuel is enough =
    show_loop-values h fuel u u d xs is.node is.ring (is.distinct.0) enough

-- The nodes of the numbers from `i` on, `k` of them.
unfoldable pub numbered : (malloc : ℕ → Ptr) → (k i : ℕ) → Nodes
numbered malloc zero i = []
numbered malloc (suc k) i = (malloc i, pos i) ∷ numbered malloc k (i + 1)

-- There is memory for the nodes of the numbers from `i` on, `k` of them.
pub record Memory (malloc : ℕ → Ptr) (h : Heap ℤ) (k i : ℕ) : Type 0 where
  pub some_left : (j : ℕ) → i ≤ j → j < i + k → malloc j ≢ null
  pub unused : (j : ℕ) → i ≤ j → j < i + k → h.alive (malloc j) ≡ false
  pub apart : (j l : ℕ) → i ≤ j → j < i + k → i ≤ l → l < i + k → malloc j ≡ malloc l → j ≡ l

Memory-suc :
    (malloc : ℕ → Ptr) (h g : Heap ℤ) (k i : ℕ)
    → Memory malloc h (suc k) i
    → ((a : Ptr) → a ≢ malloc i → g.alive a ≡ h.alive a)
    → Memory malloc g k (i + 1)
Memory-suc malloc h g k i m same = record {
  some_left = λ j lo hi. m.some_left j (omega arith) (omega arith);
  unused = λ j lo hi. ground (
    arith,
    m.unused j (omega arith) (omega arith),
    same (malloc j)
        (λ e. omega (arith, m.apart j i (omega arith) (omega arith) (omega arith) (omega arith) e)),
  );
  apart = λ j l a b c d e. m.apart j l (omega arith) (omega arith) (omega arith) (omega arith) e;
}

-- The circle `xs` behind `u` with a new last node `n`.
append-Circle :
    (h : Heap ℤ) (u : Ptr) (d : ℤ) (xs : Nodes) (w n : Ptr) (e : ℤ)
    → Circle h u d xs
    → Prefix h u xs w
    → h.next w ≡ u
    → n ≢ null
    → h.alive n ≡ false
    → let g : Heap ℤ = record {
      alive = update h.alive n true;
      value = update h.value n e;
      next = update (update h.next n u) w n;
    } in
      (h.alive w ≡ true)
      × (w ≢ n)
      × Circle g u d (xs ++ (n, e) ∷ [])
      × Prefix g u (xs ++ (n, e) ∷ []) n
      × (g.next n ≡ u)
append-Circle h u d xs w n e is front last ne fresh =
    let all = append-nil xs in
    let member = last-mem h u xs w front in
    let alive_w = has-alive h w u xs u is.ring in
    let alive_n = has-alive h n u xs u is.ring in
    let node = is.node in
    let (out, distinct) = is.distinct in
    let new : has n xs ≡ false = ground arith in
    let ne_u : n ≢ u = λ q. ground arith in
    let ne_w : n ≢ w = λ q. ground arith in
    let g : Heap ℤ = record {
      alive = update h.alive n true;
      value = update h.value n e;
      next = update (update h.next n u) w n;
    } in
    let ring =
      Chain-insert h g u xs [] w u n e front last (rw all out) (rw all distinct) (rw all new) ne_u
        (ne, ground arith, ground arith) (ground arith) (ground arith) (λ a i k. ground arith)
        (λ a i. ground arith) in
    (
      ground arith,
      λ q. ground arith,
      record {
        node = (node.0, ground arith, ground arith);
        ring = ring;
        distinct = (
          ground (arith, has-append u xs ((n, e) ∷ [])),
          append-Distinct xs ((n, e) ∷ []) distinct (refl, tt) (λ a i. ground arith),
        );
      },
      Prefix-append g u xs n e
          (Prefix-frame h g u xs w front out distinct (λ a i ne_a. ground arith)
            (λ a i. ground arith))
          (ground arith) (ne, ground arith, ground arith),
      ground arith,
    )

init_loop-numbered :
    (malloc : ℕ → Ptr) (h : Heap ℤ) (u : Ptr) (d : ℤ) (xs : Nodes) (w : Ptr) (k i : ℕ)
    → Circle h u d xs
    → Prefix h u xs w
    → h.next w ≡ u
    → Memory malloc h k i
    → (g : Heap ℤ) × (init_loop malloc k i u w h ≡ some (some u, g))
      × Circle g u d (xs ++ numbered malloc k i)
unfolding init_loop numbered allocate set_value set_next
init_loop-numbered malloc h u d xs w zero i is front last mem = (h, refl, rw (append-nil xs) is)
init_loop-numbered malloc h u d xs w (suc k) i is front last mem =
    let n = malloc i in
    let ne = mem.some_left i (omega arith) (omega arith) in
    let fresh = mem.unused i (omega arith) (omega arith) in
    let (alive_w, ne_w, is', front', last') =
      append-Circle h u d xs w n (pos i) is front last ne fresh in
    let g' : Heap ℤ = record {
      alive = update h.alive n true;
      value = update h.value n (pos i);
      next = update (update h.next n u) w n;
    } in
    let (g, run, done) =
      init_loop-numbered malloc g' u d (xs ++ (n, pos i) ∷ []) n k (i + 1) is' front' last'
        (Memory-suc malloc h g' k i mem (λ a q. ground arith)) in
    (
      g,
      ground (arith, run),
      subst (λ (r : Nodes). Circle g u d r)
          (append_assoc xs ((n, pos i) ∷ []) (numbered malloc k (i + 1))) done,
    )

-- `Init_Linklist` with n ≥ 1 and memory for n nodes returns a circle of the numbers 1 to n, in
-- order, that starts with 1.
pub init-numbered :
    (malloc : ℕ → Ptr) (h : Heap ℤ) (n : ℕ)
    → Memory malloc h (suc n) 1
    → (g : Heap ℤ) × (init malloc (suc n) h ≡ some (some (malloc 1), g))
      × Circle g (malloc 1) (pos 1) (numbered malloc n 2)
unfolding init allocate set_value set_next
init-numbered malloc h n mem =
    let u = malloc 1 in
    let ne = mem.some_left 1 (omega arith) (omega arith) in
    let k : Heap ℤ = record {
      alive = update h.alive u true;
      value = update h.value u (pos 1);
      next = update h.next u u;
    } in
    let one : Circle k u (pos 1) [] = record {
      node = (ne, ground arith, ground arith);
      ring = ground arith;
      distinct = (refl, tt);
    } in
    let (g, run, done) =
      init_loop-numbered malloc k u (pos 1) [] u n 2 one refl (ground arith)
        (Memory-suc malloc h k n 1 mem (λ a q. ground arith)) in
    (g, ground (arith, run), done)
