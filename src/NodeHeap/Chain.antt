-- ===== src/NodeHeap/Chain.antt =====
-- What the `next` pointers stand for: the nodes in order, with their values.
use study_c_know.Common.{
  suc, ◌≡◌, ◌≢◌, refl, Bool, true, false, ◌||◌, List, [], ◌∷◌, ◌++◌, arith, ◌==◌, sym, subst, ap,
  length,
}
use study_c_know.NodeHeap.{Ptr, null, Heap}

module _ {D : Type 0} where
  -- Address and value of each node.
  abbrev pub has : Ptr → List (Ptr × D) → Bool
  has a [] = false
  has a ((p, d) ∷ xs) = (a == p) || has a xs

  abbrev pub Distinct : List (Ptr × D) → Type 0
  Distinct [] = Unit
  Distinct ((p, d) ∷ xs) = (has p xs ≡ false) × Distinct xs

  abbrev pub values : List (Ptr × D) → List D
  values [] = []
  values ((p, d) ∷ xs) = d ∷ values xs

  pub has-append : (a : Ptr) (xs ys : List (Ptr × D)) → has a (xs ++ ys) ≡ (has a xs || has a ys)
  has-append a [] ys = refl
  has-append a ((p, d) ∷ xs) ys = ground (arith, has-append a xs ys)

  pub values-append : (xs ys : List (Ptr × D)) → values (xs ++ ys) ≡ values xs ++ values ys
  values-append [] ys = refl
  values-append ((p, d) ∷ xs) ys = ap (λ (t : List D). d ∷ t) (values-append xs ys)

  pub length-values : (xs : List (Ptr × D)) → length (values xs) ≡ length xs
  length-values [] = refl
  length-values ((p, d) ∷ xs) = ap suc (length-values xs)

  pub Distinct-append :
      (xs ys : List (Ptr × D))
      → Distinct (xs ++ ys)
      → Distinct xs × Distinct ys × ((a : Ptr) → has a xs ≡ true → has a ys ≡ false)
  Distinct-append [] ys h = (tt, h, λ a i. cc)
  Distinct-append ((p, d) ∷ xs) ys h =
      let (left, right, apart) = Distinct-append xs ys (h.1) in
      (
        (ground (arith, has-append p xs ys), left),
        right,
        λ a i. ground (arith, has-append p xs ys, apart a),
      )

  pub append-Distinct :
      (xs ys : List (Ptr × D))
      → Distinct xs
      → Distinct ys
      → ((a : Ptr) → has a xs ≡ true → has a ys ≡ false)
      → Distinct (xs ++ ys)
  append-Distinct [] ys h k apart = k
  append-Distinct ((p, d) ∷ xs) ys h k apart = (
    ground (arith, has-append p xs ys, apart p),
    append-Distinct xs ys (h.1) k (λ a i. apart a (ground arith)),
  )

  -- A node with this value that may be used.
  abbrev pub Node : Heap D → Ptr → D → Type 0
  Node h a d = (a ≢ null) × (h.alive a ≡ true) × (h.value a ≡ d)

  -- From `u` the nodes `xs` follow one another, and `w` is the last of `u` and `xs`.
  abbrev pub Prefix : Heap D → Ptr → List (Ptr × D) → Ptr → Type 0
  Prefix h u [] w = u ≡ w
  Prefix h u ((a, d) ∷ xs) w = (h.next u ≡ a) × Node h a d × Prefix h a xs w

  -- The successors from `u` on are the nodes `xs` and then `v`.
  abbrev pub Chain : Heap D → Ptr → List (Ptr × D) → Ptr → Type 0
  Chain h u [] v = h.next u ≡ v
  Chain h u ((a, d) ∷ xs) v = (h.next u ≡ a) × Node h a d × Chain h a xs v

  pub last-mem :
      (h : Heap D) (u : Ptr) (xs : List (Ptr × D)) (w : Ptr)
      → Prefix h u xs w
      → ((w == u) || has w xs) ≡ true
  last-mem h u [] w c = ground arith
  last-mem h u ((a, d) ∷ xs) w c = ground (arith, last-mem h a xs w (c.2))

  pub Chain-join :
      (h : Heap D) (u : Ptr) (xs ys : List (Ptr × D)) (w v : Ptr)
      → Prefix h u xs w
      → Chain h w ys v
      → Chain h u (xs ++ ys) v
  Chain-join h u [] ys w v e c = subst (λ p. Chain h p ys v) (sym e) c
  Chain-join h u ((a, d) ∷ xs) ys w v p c = (p.0, p.1, Chain-join h a xs ys w v (p.2) c)

  pub Chain-split :
      (h : Heap D) (u : Ptr) (xs ys : List (Ptr × D)) (v : Ptr)
      → Chain h u (xs ++ ys) v
      → (w : Ptr) × Prefix h u xs w × Chain h w ys v
  Chain-split h u [] ys v c = (u, refl, c)
  Chain-split h u ((a, d) ∷ xs) ys v c =
      let (w, front, back) = Chain-split h a xs ys v (c.2) in (w, (c.0, c.1, front), back)

  pub has-alive :
      (h : Heap D) (a u : Ptr) (xs : List (Ptr × D)) (v : Ptr)
      → Chain h u xs v
      → has a xs ≡ true
      → (h.alive a ≡ true) × (a ≢ null)
  has-alive h a u [] v c i = cc
  has-alive h a u ((b, d) ∷ xs) v c i = ground (arith, has-alive h a b xs v (c.2))

  -- Two heaps give a node the same value and the same right to be used.
  abbrev pub SameNode : Heap D → Heap D → Ptr → Type 0
  SameNode h g a = (g.value a ≡ h.value a) × (g.alive a ≡ h.alive a)

  pub Prefix-frame :
      (h g : Heap D) (u : Ptr) (xs : List (Ptr × D)) (w : Ptr)
      → Prefix h u xs w
      → has u xs ≡ false
      → Distinct xs
      → ((a : Ptr) → ((a == u) || has a xs) ≡ true → a ≢ w → g.next a ≡ h.next a)
      → ((a : Ptr) → has a xs ≡ true → SameNode h g a)
      → Prefix g u xs w
  Prefix-frame h g u [] w c out apart next same = c
  Prefix-frame h g u ((a, d) ∷ xs) w c out apart next same = (
    ground (arith, next u, last-mem h a xs w (c.2)),
    (c.1.0, ground (arith, same a), ground (arith, same a)),
    Prefix-frame h g a xs w (c.2) (apart.0) (apart.1) (λ b i ne. next b (ground arith) ne)
        (λ b i. same b (ground arith)),
  )

  pub Chain-frame :
      (h g : Heap D) (u w : Ptr) (xs : List (Ptr × D)) (v : Ptr)
      → Chain h u xs v
      → g.next w ≡ h.next u
      → ((a : Ptr) → has a xs ≡ true → g.next a ≡ h.next a)
      → ((a : Ptr) → has a xs ≡ true → SameNode h g a)
      → Chain g w xs v
  Chain-frame h g u w [] v c e next same = ground arith
  Chain-frame h g u w ((a, d) ∷ xs) v c e next same = (
    ground arith,
    (c.1.0, ground (arith, same a), ground (arith, same a)),
    Chain-frame h g a a xs v (c.2) (next a (ground arith)) (λ b i. next b (ground arith))
        (λ b i. same b (ground arith)),
  )

  -- A prefix with one more node.
  pub Prefix-append :
      (h : Heap D) (u : Ptr) (xs : List (Ptr × D)) (n : Ptr) (d : D) {w : Ptr}
      → Prefix h u xs w
      → h.next w ≡ n
      → Node h n d
      → Prefix h u (xs ++ (n, d) ∷ []) n
  Prefix-append h u [] n d p e node = (ground arith, node, refl)
  Prefix-append h u ((a, b) ∷ xs) n d p e node = (p.0, p.1, Prefix-append h a xs n d (p.2) e node)
