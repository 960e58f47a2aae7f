-- ===== src/Polynomial/Steps.antt =====
-- What one round of `un_LinkNode` does to the two lists that are left.
use study_c_know.Common.{◌≢◌, refl, List, ◌∷◌, arith}
use study_c_know.NodeHeap.{Ptr, Heap}
use study_c_know.Polynomial.{Pol}
use study_c_know.Polynomial.Left.{From-frame, Left, Merged, link, write}

module _ {h : Heap Pol} {r p q a : Ptr} {d : Pol} {xs ys : List (Ptr × Pol)}
    (left : Left h r p q ((a, d) ∷ xs) ys) where
  pub root_ne : r ≢ a
  root_ne e = let out = left.out_1 in ground arith

  pub first-linked : Left (link h r a) a (h.next a) q xs ys
  unfolding link
  first-linked =
      let ne = root_ne in
      let out_1 = left.out_1 in
      let out_2 = left.out_2 in
      let (same, node, from) = left.first in
      record {
        first =
            From-frame h (link h r a) (h.next a) xs from (λ b i. ground arith)
              (λ b i. (refl, refl));
        second =
            From-frame h (link h r a) q ys left.second (λ b i. ground arith) (λ b i. (refl, refl));
        distinct_1 = left.distinct_1.1;
        distinct_2 = left.distinct_2;
        apart = λ b i. left.apart b (ground arith);
        out_1 = left.distinct_1.0;
        out_2 = left.apart a (ground arith);
        root = node.1;
      }

  pub Merged-linked :
      (g : Heap Pol) (zs : List (Ptr × Pol))
      → Merged (link h r a) g a xs ys zs
      → Merged h g r ((a, d) ∷ xs) ys ((a, d) ∷ zs)
  unfolding link
  Merged-linked g zs m =
      let ne = root_ne in
      let out_1 = left.out_1 in
      let out_2 = left.out_2 in
      let fresh = left.distinct_1.0 in
      let apart = left.apart a in
      let node = left.first.1 in
      record {
        chain = (
          ground (arith, m.next r),
          (node.0, ground (arith, m.alive a), ground (arith, m.value a)),
          m.chain,
        );
        distinct = (ground (arith, m.of_both a), m.distinct);
        of_both = λ b i. ground (arith, m.of_both b);
        alive = m.alive;
        value = λ b i. m.value b (ground arith);
        next = λ b i k. ground (arith, m.next b);
      }

  pub first-skipped : Left h r (h.next a) q xs ys
  first-skipped = record {
    first = left.first.2;
    second = left.second;
    distinct_1 = left.distinct_1.1;
    distinct_2 = left.distinct_2;
    apart = λ b i. left.apart b (ground arith);
    out_1 = let out = left.out_1 in ground arith;
    out_2 = left.out_2;
    root = left.root;
  }

  pub Merged-skipped :
      {g : Heap Pol} {zs : List (Ptr × Pol)}
      → Merged h g r xs ys zs
      → Merged h g r ((a, d) ∷ xs) ys zs
  Merged-skipped m = record {
    chain = m.chain;
    distinct = m.distinct;
    of_both = λ b i. ground (arith, m.of_both b);
    alive = m.alive;
    value = λ b i. m.value b (ground arith);
    next = λ b i k. m.next b (ground arith) k;
  }

  pub first-written : (d' : Pol) → Left (write h a d') r p q ((a, d') ∷ xs) ys
  unfolding write
  first-written d' =
      let fresh = left.distinct_1.0 in
      let (same, node, from) = left.first in
      record {
        first = (
          same,
          (node.0, node.1, ground arith),
          From-frame h (write h a d') (h.next a) xs from (λ b i. refl)
              (λ b i. (ground arith, refl)),
        );
        second =
            From-frame h (write h a d') q ys left.second (λ b i. refl)
              (λ b i. (ground (arith, left.apart a), refl));
        distinct_1 = left.distinct_1;
        distinct_2 = left.distinct_2;
        apart = left.apart;
        out_1 = left.out_1;
        out_2 = left.out_2;
        root = left.root;
      }

  pub Merged-written :
      (d' : Pol) {g : Heap Pol} {zs : List (Ptr × Pol)}
      → Merged (write h a d') g r ((a, d') ∷ xs) ys zs
      → Merged h g r ((a, d) ∷ xs) ys zs
  unfolding write
  Merged-written d' m = record {
    chain = m.chain;
    distinct = m.distinct;
    of_both = m.of_both;
    alive = m.alive;
    value = λ b i. ground (arith, m.value b);
    next = m.next;
  }
