-- ===== src/LinkedList/Chain.antt =====
-- What the pointers of a circular list stand for: the nodes in order, with their bytes.
use study_c_know.Common.{
  suc, ◌≡◌, ◌≢◌, refl, Bool, true, false, ◌||◌, List, [], ◌∷◌, ◌++◌, arith, ◌==◌, sym, subst, ap,
  length,
}
use study_c_know.LinkedList.{Ptr, Bytes, Heap, LList}

-- Address and bytes of each node.
abbrev pub Cells : Type 0
Cells = List (Ptr × Bytes)

abbrev pub has : Ptr → Cells → Bool
has a [] = false
has a ((p, d) ∷ xs) = (a == p) || has a xs

abbrev pub Distinct : Cells → Type 0
Distinct [] = Unit
Distinct ((p, d) ∷ xs) = (has p xs ≡ false) × Distinct xs

-- The bytes alone.
abbrev pub payload : Cells → List Bytes
payload [] = []
payload ((p, d) ∷ xs) = d ∷ payload xs

module _ (h : Heap) where
  -- From `u` the nodes `xs` follow one another, and `w` is the last of `u` and `xs`.
  abbrev pub Prefix : Ptr → Cells → Ptr → Type 0
  Prefix u [] w = u ≡ w
  Prefix u ((a, d) ∷ xs) w =
      (h.next u ≡ a) × (h.prve a ≡ u) × (h.bytes a ≡ d) × (h.alive a ≡ true) × Prefix a xs w

  -- From `u` through `xs` to `v`, linked both ways.
  abbrev pub Chain : Ptr → Cells → Ptr → Type 0
  Chain u [] v = (h.next u ≡ v) × (h.prve v ≡ u)
  Chain u ((a, d) ∷ xs) v =
      (h.next u ≡ a) × (h.prve a ≡ u) × (h.bytes a ≡ d) × (h.alive a ≡ true) × Chain a xs v

-- The handle's head with the nodes `xs`, all distinct and allocated.
pub record IsList (h : Heap) (l : LList) (xs : Cells) : Type 0 where
  pub ring : Chain h l.head xs l.head
  pub root : h.alive l.head ≡ true
  pub apart : has l.head xs ≡ false
  pub distinct : Distinct xs

-- Two heaps agree at an address.
pub record SameAt (h g : Heap) (a : Ptr) : Type 0 where
  pub alive : g.alive a ≡ h.alive a
  pub prve : g.prve a ≡ h.prve a
  pub next : g.next a ≡ h.next a
  pub bytes : g.bytes a ≡ h.bytes a

-- They agree at every address that is neither the head of `l` nor a node of `xs`.
abbrev pub SameOutside : Heap → Heap → LList → Cells → Type 0
SameOutside h g l xs = (a : Ptr) → a ≢ l.head → has a xs ≡ false → SameAt h g a

pub has-append : (a : Ptr) (xs ys : Cells) → has a (xs ++ ys) ≡ (has a xs || has a ys)
has-append a [] ys = refl
has-append a ((p, d) ∷ xs) ys = ground (arith, has-append a xs ys)

pub payload-append : (xs ys : Cells) → payload (xs ++ ys) ≡ payload xs ++ payload ys
payload-append [] ys = refl
payload-append ((p, d) ∷ xs) ys = ap (λ (t : List Bytes). d ∷ t) (payload-append xs ys)

pub length-payload : (xs : Cells) → length (payload xs) ≡ length xs
length-payload [] = refl
length-payload ((p, d) ∷ xs) = ap suc (length-payload xs)

pub Distinct-append :
    (xs ys : Cells)
    → Distinct (xs ++ ys)
    → Distinct xs × Distinct ys × ((a : Ptr) → has a xs ≡ true → has a ys ≡ false)
Distinct-append [] ys h = (tt, h, λ a i. cc)
Distinct-append ((p, d) ∷ xs) ys h =
    let (left, right, apart) = Distinct-append xs ys (h.1) in
    (
      (ground (arith, has-append p xs ys), left),
      right,
      λ a i. ground (arith, has-append p xs ys, apart a),
    )

pub append-Distinct :
    (xs ys : Cells)
    → Distinct xs
    → Distinct ys
    → ((a : Ptr) → has a xs ≡ true → has a ys ≡ false)
    → Distinct (xs ++ ys)
append-Distinct [] ys h k apart = k
append-Distinct ((p, d) ∷ xs) ys h k apart = (
  ground (arith, has-append p xs ys, apart p),
  append-Distinct xs ys (h.1) k (λ a i. apart a (ground arith)),
)

module _ (h : Heap) where
  -- The last of the nodes is the origin or one of them.
  pub last-mem : (u : Ptr) (xs : Cells) (w : Ptr) → Prefix h u xs w → ((w == u) || has w xs) ≡ true
  last-mem u [] w c = ground arith
  last-mem u ((a, d) ∷ xs) w c = ground (arith, last-mem a xs w (c.4))

  -- The last node of a chain is the predecessor of its end.
  pub Chain-Prefix :
      (u : Ptr) (xs : Cells) (v : Ptr)
      → Chain h u xs v
      → Prefix h u xs (h.prve v) × (h.next (h.prve v) ≡ v)
  Chain-Prefix u [] v c = ground arith
  Chain-Prefix u ((a, d) ∷ xs) v c =
      let (front, last) = Chain-Prefix a xs v (c.4) in ((c.0, c.1, c.2, c.3, front), last)

  pub Chain-split :
      (u : Ptr) (xs ys : Cells) (v : Ptr)
      → Chain h u (xs ++ ys) v
      → (w : Ptr) × Prefix h u xs w × Chain h w ys v
  Chain-split u [] ys v c = (u, refl, c)
  Chain-split u ((a, d) ∷ xs) ys v c =
      let (w, front, back) = Chain-split a xs ys v (c.4) in (w, (c.0, c.1, c.2, c.3, front), back)

  pub Chain-join :
      (u : Ptr) (xs ys : Cells) (w v : Ptr)
      → Prefix h u xs w
      → Chain h w ys v
      → Chain h u (xs ++ ys) v
  Chain-join u [] ys w v e c = subst (λ p. Chain h p ys v) (sym e) c
  Chain-join u ((a, d) ∷ xs) ys w v p c = (p.0, p.1, p.2, p.3, Chain-join a xs ys w v (p.4) c)

  -- A node of a chain is allocated.
  pub has-alive :
      (a u : Ptr) (xs : Cells) (v : Ptr) → Chain h u xs v → has a xs ≡ true → h.alive a ≡ true
  has-alive a u [] v c i = cc
  has-alive a u ((b, d) ∷ xs) v c i = ground (arith, has-alive a b xs v (c.4))

module _ (h g : Heap) where
  -- Two heaps give a node the same bytes.
  abbrev pub SameNode : Ptr → Type 0
  SameNode a = (g.bytes a ≡ h.bytes a) × (g.alive a ≡ h.alive a)

  pub Prefix-frame :
      (u : Ptr) (xs : Cells) (w : Ptr)
      → Prefix h u xs w
      → has u xs ≡ false
      → Distinct xs
      → ((a : Ptr) → ((a == u) || has a xs) ≡ true → a ≢ w → g.next a ≡ h.next a)
      → ((a : Ptr) → has a xs ≡ true → g.prve a ≡ h.prve a)
      → ((a : Ptr) → has a xs ≡ true → SameNode a)
      → Prefix g u xs w
  Prefix-frame u [] w c out apart next prve same = c
  Prefix-frame u ((a, d) ∷ xs) w c out apart next prve same = (
    ground (arith, next u, last-mem h a xs w (c.4)),
    ground (arith, prve a),
    ground (arith, same a),
    ground (arith, same a),
    Prefix-frame a xs w (c.4) (apart.0) (apart.1) (λ b i ne. next b (ground arith) ne)
        (λ b i. prve b (ground arith)) (λ b i. same b (ground arith)),
  )

  pub Chain-frame :
      (u : Ptr) (xs : Cells) (v : Ptr)
      → Chain h u xs v
      → ((a : Ptr) → ((a == u) || has a xs) ≡ true → g.next a ≡ h.next a)
      → ((a : Ptr) → ((a == v) || has a xs) ≡ true → g.prve a ≡ h.prve a)
      → ((a : Ptr) → has a xs ≡ true → SameNode a)
      → Chain g u xs v
  Chain-frame u [] v c next prve same = (ground (arith, next u), ground (arith, prve v))
  Chain-frame u ((a, d) ∷ xs) v c next prve same = (
    ground (arith, next u),
    ground (arith, prve a),
    ground (arith, same a),
    ground (arith, same a),
    Chain-frame a xs v (c.4) (λ b i. next b (ground arith)) (λ b i. prve b (ground arith))
        (λ b i. same b (ground arith)),
  )
