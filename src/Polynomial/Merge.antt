-- ===== src/Polynomial/Merge.antt =====
-- `un_LinkNode`: the nodes of two polynomials become the nodes of the sum.
use study_c_know.Common.{
  ℕ, zero, suc, ◌+◌, ◌<◌, ◌≤◌, ◌≡◌, ◌≢◌, refl, true, false, ◌||◌, Option, some, List, [], ◌∷◌,
  length, arith, inl, inr, Bool-cases, subst, ap, ◌∙◌,
}
use study_c_know.Common.Int.{pos, ◌+ℤ◌, ◌==ℤ◌, ltb_ℤ, pos_part, neg_part}
use study_c_know.NodeHeap.{Ptr, null, Heap, and_then, get_next}
use study_c_know.NodeHeap.Chain.{has, Distinct, values, Chain}
use study_c_know.Polynomial.{Pol, attach, un_link_node}
use study_c_know.Polynomial.Sum.{IsSum, IsSum-left, IsSum-right}
use study_c_know.Polynomial.Left.{Chain-From, Left, Left-swap, write, attach-Left, attach_rest}
use study_c_know.Polynomial.Steps.{first-linked, first-skipped, first-written}
use study_c_know.Polynomial.Rounds.{
  Merges, merge-stop, first_round, second_round, both_dropped, both_kept,
}

-- Coefficients whose sums fit an `int`.
abbrev pub Small : List Pol → Type 0
Small [] = Unit {0}
Small (d ∷ ds) = (pos_part d.x + neg_part d.x < 1073741824) × Small ds

-- One round, where the rounds after it are right.
merge_round :
    (fuel : ℕ) (h : Heap Pol) (r a b : Ptr) (d e : Pol) (xs ys : List (Ptr × Pol))
    → Left h r a b ((a, d) ∷ xs) ((b, e) ∷ ys)
    → Small (d ∷ values xs)
    → Small (e ∷ values ys)
    → ((h' : Heap Pol) (r' p' q' : Ptr) (xs' ys' : List (Ptr × Pol))
        → Left h' r' p' q' xs' ys'
        → Small (values xs')
        → Small (values ys')
        → length xs' + length ys' ≤ suc (length xs + length ys)
        → Merges fuel h' r' p' q' xs' ys')
    → Merges (suc fuel) h r a b ((a, d) ∷ xs) ((b, e) ∷ ys)
unfolding write
merge_round fuel h r a b d e xs ys left s1 s2 rounds = elim (Bool-cases (ltb_ℤ d.y e.y)) [
  | inl less ↦
      first_round fuel h r a b d e xs ys left less
        (rounds _ _ _ _ xs ((b, e) ∷ ys) (first-linked left) (s1.1) s2 (omega arith))
  | inr not_less ↦ elim (Bool-cases (ltb_ℤ e.y d.y)) [
    | inl greater ↦ second_round fuel h r a b d e xs ys left greater (
        rounds _ _ _ _ ((a, d) ∷ xs) ys (Left-swap (first-linked (Left-swap left))) s1 (s2.1)
          (omega arith))
    | inr not_greater ↦
        let d' = record d { x = d.x +ℤ e.x } in
        let rest = Left-swap (first-skipped (Left-swap (first-written left d'))) in
        elim (Bool-cases ((d.x +ℤ e.x) ==ℤ pos 0)) [
          | inl gone ↦
              both_dropped fuel h r a b d e xs ys left not_less not_greater (s1.0) (s2.0) gone
                (rounds _ _ _ _ xs ys (first-skipped rest) (s1.1) (s2.1) (omega arith))
          | inr some_left ↦
              both_kept fuel h r a b d e xs ys left not_less not_greater (s1.0) (s2.0) some_left
                (rounds _ _ _ _ xs ys (first-linked rest) (s1.1) (s2.1) (omega arith))
        ]
  ]
]

-- The loop, then what is left. It ends since every round takes a node from one of the lists.
merge_lem :
    (fuel : ℕ) (h : Heap Pol) (r p q : Ptr) (xs ys : List (Ptr × Pol))
    → Left h r p q xs ys
    → Small (values xs)
    → Small (values ys)
    → length xs + length ys < fuel
    → Merges fuel h r p q xs ys
merge_lem zero h r p q xs ys left s1 s2 enough = absurd (omega arith)
merge_lem (suc fuel) h r p q [] ys left s1 s2 enough =
    let (g, run, merged) = attach-Left h r q ys (subst (λ t. Left h r t q [] ys) left.first left) in
    rw left.first (
      g,
      ys,
      ap (λ (t : Option ((Ptr × (Ptr × Ptr)) × Heap Pol)). and_then t attach)
            (merge-stop fuel r null q h refl)
          ∙ run,
      merged,
      IsSum-right (values ys),
    )
merge_lem (suc fuel) h r p q ((a, d) ∷ xs) [] left s1 s2 enough =
    let node = left.first in
    let (g, run, merged) =
      attach_rest h r p ((a, d) ∷ xs) (subst (λ t. Left h r p t ((a, d) ∷ xs) []) left.second left)
        (λ e. ground (arith, node)) in
    rw left.second (
      g,
      (a, d) ∷ xs,
      ap (λ (t : Option ((Ptr × (Ptr × Ptr)) × Heap Pol)). and_then t attach)
            (merge-stop fuel r p null h (ground arith))
          ∙ run,
      merged,
      IsSum-left (values ((a, d) ∷ xs)),
    )
merge_lem (suc fuel) h r p q ((a, d) ∷ xs) ((b, e) ∷ ys) left s1 s2 enough =
    rw (left.first.0, left.second.0)
      (merge_round fuel h r a b d e xs ys
        (subst (λ t. Left h r a t ((a, d) ∷ xs) ((b, e) ∷ ys)) (left.second.0)
          (subst (λ t. Left h r t q ((a, d) ∷ xs) ((b, e) ∷ ys)) (left.first.0) left))
        s1 s2
        (λ h' r' p' q' xs' ys' left' t1 t2 less.
          merge_lem fuel h' r' p' q' xs' ys' left' t1 t2 (omega arith)))

-- The terms `xs` behind a header, all distinct and allocated.
pub record IsPolynomial (h : Heap Pol) (header : Ptr) (xs : List (Ptr × Pol)) : Type 0 where
  pub chain : Chain h header xs null
  pub root : h.alive header ≡ true
  pub apart : has header xs ≡ false
  pub distinct : Distinct xs

-- For two lists with no node in common, coefficients below 2 ^ 30 in size and fuel for both,
-- `un_LinkNode` ends with a list behind the first header that is the sum of the two: for every
-- exponent its coefficient is the sum of the two, its exponents ascend and it has no zero term if
-- both are so. Its nodes are nodes of the two, nothing is allocated or freed, and only the first
-- header and the nodes of the two are changed.
pub un_link_node-IsSum :
    (fuel : ℕ) (h : Heap Pol) (p1 p2 : Ptr) (xs ys : List (Ptr × Pol))
    → IsPolynomial h p1 xs
    → IsPolynomial h p2 ys
    → ((a : Ptr) → has a xs ≡ true → has a ys ≡ false)
    → has p1 ys ≡ false
    → Small (values xs)
    → Small (values ys)
    → length xs + length ys < fuel
    → (g : Heap Pol) × (zs : List (Ptr × Pol)) × (un_link_node fuel p1 p2 h ≡ some (tt, g))
      × IsPolynomial g p1 zs
      × IsSum (values xs) (values ys) (values zs)
      × ((a : Ptr) → has a zs ≡ true → (has a xs || has a ys) ≡ true)
      × ((a : Ptr) → g.alive a ≡ h.alive a)
      × ((a : Ptr)
          → (has a xs || has a ys) ≡ false
          → (g.value a ≡ h.value a) × (a ≢ p1 → g.next a ≡ h.next a))
unfolding un_link_node get_next
un_link_node-IsSum fuel h p1 p2 xs ys is_1 is_2 apart out s1 s2 enough =
    let (g, zs, run, merged, sum) =
      merge_lem fuel h p1 (h.next p1) (h.next p2) xs ys
        (record {
          first = Chain-From h p1 xs is_1.chain;
          second = Chain-From h p2 ys is_2.chain;
          distinct_1 = is_1.distinct;
          distinct_2 = is_2.distinct;
          apart = apart;
          out_1 = is_1.apart;
          out_2 = out;
          root = is_1.root;
        })
        s1 s2 enough in
    let root_1 = is_1.root in
    let root_2 = is_2.root in
    let out_1 = is_1.apart in
    (
      g,
      zs,
      ground (arith, run),
      record {
        chain = merged.chain;
        root = ground (arith, merged.alive p1);
        apart = ground (arith, merged.of_both p1);
        distinct = merged.distinct;
      },
      sum,
      merged.of_both,
      merged.alive,
      λ a i. (merged.value a i, merged.next a i),
    )
