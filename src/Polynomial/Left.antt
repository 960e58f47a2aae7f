-- ===== src/Polynomial/Left.antt =====
-- The two lists that `un_LinkNode` has left, and what the loop and the two tests after it make of them.
use study_c_know.Common.{
  ◌≡◌, ◌≢◌, refl, true, false, ◌||◌, some, List, [], ◌∷◌, ◌==◌, arith, inl, inr, Bool-cases, sym,
  subst,
}
use study_c_know.NodeHeap.{Ptr, null, Heap, update, set_next}
use study_c_know.NodeHeap.Chain.{has, Distinct, Node, Chain, SameNode}
use study_c_know.Polynomial.{Pol, attach}

-- The nodes from `p` on are `xs`.
abbrev pub From : Heap Pol → Ptr → List (Ptr × Pol) → Type 0
From h p [] = p ≡ null
From h p ((a, d) ∷ xs) = (p ≡ a) × Node h a d × From h (h.next a) xs

pub Chain-From :
    (h : Heap Pol) (u : Ptr) (xs : List (Ptr × Pol)) → Chain h u xs null → From h (h.next u) xs
Chain-From h u [] c = c
Chain-From h u ((a, d) ∷ xs) c = (c.0, c.1, Chain-From h a xs (c.2))

pub From-Chain :
    (h g : Heap Pol) (u p : Ptr) (xs : List (Ptr × Pol))
    → From h p xs
    → g.next u ≡ p
    → ((a : Ptr) → has a xs ≡ true → g.next a ≡ h.next a)
    → ((a : Ptr) → has a xs ≡ true → SameNode h g a)
    → Chain g u xs null
From-Chain h g u p [] c e next same = ground arith
From-Chain h g u p ((a, d) ∷ xs) c e next same = (
  ground arith,
  (c.1.0, ground (arith, same a), ground (arith, same a)),
  From-Chain h g a (h.next a) xs (c.2) (next a (ground arith)) (λ b i. next b (ground arith))
      (λ b i. same b (ground arith)),
)

pub From-frame :
    (h g : Heap Pol) (p : Ptr) (xs : List (Ptr × Pol))
    → From h p xs
    → ((a : Ptr) → has a xs ≡ true → g.next a ≡ h.next a)
    → ((a : Ptr) → has a xs ≡ true → SameNode h g a)
    → From g p xs
From-frame h g p [] c next same = c
From-frame h g p ((a, d) ∷ xs) c next same = (
  c.0,
  (c.1.0, ground (arith, same a), ground (arith, same a)),
  subst (λ t. From g t xs) (sym (next a (ground arith)))
      (From-frame h g (h.next a) xs (c.2) (λ b i. next b (ground arith))
        (λ b i. same b (ground arith))),
)

-- The lists that are left, with the last node `r` of the sum so far.
pub record Left (h : Heap Pol) (r p q : Ptr) (xs ys : List (Ptr × Pol)) : Type 0 where
  pub first : From h p xs
  pub second : From h q ys
  pub distinct_1 : Distinct xs
  pub distinct_2 : Distinct ys
  pub apart : (a : Ptr) → has a xs ≡ true → has a ys ≡ false
  pub out_1 : has r xs ≡ false
  pub out_2 : has r ys ≡ false
  pub root : h.alive r ≡ true

-- What the loop and the two tests after it make of them.
pub record Merged (h g : Heap Pol) (r : Ptr) (xs ys zs : List (Ptr × Pol)) : Type 0 where
  pub chain : Chain g r zs null
  pub distinct : Distinct zs
  pub of_both : (a : Ptr) → has a zs ≡ true → (has a xs || has a ys) ≡ true
  pub alive : (a : Ptr) → g.alive a ≡ h.alive a
  pub value : (a : Ptr) → (has a xs || has a ys) ≡ false → g.value a ≡ h.value a
  pub next : (a : Ptr) → (has a xs || has a ys) ≡ false → a ≢ r → g.next a ≡ h.next a

pub Left-swap :
    {h : Heap Pol} {r p q : Ptr} {xs ys : List (Ptr × Pol)}
    → Left h r p q xs ys
    → Left h r q p ys xs
Left-swap left = record {
  first = left.second;
  second = left.first;
  distinct_1 = left.distinct_2;
  distinct_2 = left.distinct_1;
  apart = λ a i. ground (arith, left.apart a);
  out_1 = left.out_2;
  out_2 = left.out_1;
  root = left.root;
}

pub Merged-swap :
    {h g : Heap Pol} {r : Ptr} {xs ys zs : List (Ptr × Pol)}
    → Merged h g r xs ys zs
    → Merged h g r ys xs zs
Merged-swap m = record {
  chain = m.chain;
  distinct = m.distinct;
  of_both = λ a i. ground (arith, m.of_both a);
  alive = m.alive;
  value = λ a i. m.value a (ground arith);
  next = λ a i ne. m.next a (ground arith) ne;
}

-- The node `a` is the last one of the sum now.
unfoldable pub link : Heap Pol → Ptr → Ptr → Heap Pol
link h r a = record h { next = update h.next r a }

unfoldable pub write : Heap Pol → Ptr → Pol → Heap Pol
write h a d = record h { value = update h.value a d }

-- One list is used up, and the other one follows.
pub linked-Merged :
    (h g : Heap Pol) (r q : Ptr) (ys : List (Ptr × Pol))
    → Left h r null q [] ys
    → g.next r ≡ q
    → ((a : Ptr) → a ≢ r → g.next a ≡ h.next a)
    → ((a : Ptr) → SameNode h g a)
    → Merged h g r [] ys ys
linked-Merged h g r q ys left e next same =
    let out = left.out_2 in
    record {
      chain = From-Chain h g r q ys left.second e (λ a i. next a (ground arith)) (λ a i. same a);
      distinct = left.distinct_2;
      of_both = λ a i. i;
      alive = λ a. (same a).1;
      value = λ a i. (same a).0;
      next = λ a i ne. next a ne;
    }

pub attach-Left :
    (h : Heap Pol) (r q : Ptr) (ys : List (Ptr × Pol))
    → Left h r null q [] ys
    → (g : Heap Pol) × (attach (r, (null, q)) h ≡ some (tt, g)) × Merged h g r [] ys ys
unfolding attach set_next link
attach-Left h r q ys left =
    let root = left.root in
    elim (Bool-cases (q == null)) [
      | inl last ↦ (
        link (link h r q) r null,
        ground arith,
        linked-Merged h (link (link h r q) r null) r q ys left (ground arith) (λ a ne. ground arith)
            (λ a. (refl, refl)),
      )
      | inr more ↦ (
        link h r q,
        ground arith,
        linked-Merged h (link h r q) r q ys left (ground arith) (λ a ne. ground arith)
            (λ a. (refl, refl)),
      )
    ]

pub attach_rest :
    (h : Heap Pol) (r p : Ptr) (xs : List (Ptr × Pol))
    → Left h r p null xs []
    → p ≢ null
    → (g : Heap Pol) × (attach (r, (p, null)) h ≡ some (tt, g)) × Merged h g r xs [] xs
unfolding attach set_next link
attach_rest h r p xs left more =
    let root = left.root in
    (
      link h r p,
      ground arith,
      Merged-swap (
          linked-Merged h (link h r p) r p xs (Left-swap left) (ground arith) (λ a ne. ground arith)
            (λ a. (refl, refl))),
    )
