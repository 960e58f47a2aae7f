-- ===== src/Sorting/Unique.antt =====
-- The two sorts against each other: a list has one sorted order.
use study_c_know.Common.{
  ℕ, ◌+◌, ◌<◌, ◌≡◌, refl, some, List, [], ◌∷◌, if◌then◌else◌, arith, true, Bool-cases, inl, inr,
  sym, ap, ◌∙◌,
}
use study_c_know.Common.Int.{ℤ, pos, negsuc, ◌≤ℤ◌, ◌==ℤ◌, eq_of_parts}
use study_c_know.Sorting.{bubble_sort, selection_sort}
use study_c_know.Sorting.Order.{Below, IsSorted, count, SameElements}
use study_c_know.Sorting.Bubble.{bubble_sort-IsSorted}
use study_c_know.Sorting.Selection.{selection_sort-IsSorted}

same_self : (x : ℤ) → (x ==ℤ x) ≡ true
same_self (pos n) = ground arith
same_self (negsuc n) = ground arith

==ℤ_eq : (x y : ℤ) → (x ==ℤ y) ≡ true → x ≡ y
==ℤ_eq (pos m) (pos n) h = ground arith
==ℤ_eq (pos m) (negsuc n) h = cc
==ℤ_eq (negsuc m) (pos n) h = cc
==ℤ_eq (negsuc m) (negsuc n) h = ground arith

-- A value that occurs is at least every bound.
Below-count : (b v : ℤ) (xs : List ℤ) → Below b xs → 0 < count v xs → b ≤ℤ v
Below-count b v [] below some_v = absurd (omega arith)
Below-count b v (x ∷ xs) below some_v = elim (Bool-cases (x ==ℤ v)) [
  | inl here ↦ rw (sym (==ℤ_eq x v here)) (below.0)
  | inr other ↦ Below-count b v xs (below.1) (ground arith)
]

first_least : (x y : ℤ) (xs ys : List ℤ) → Below x xs → SameElements (x ∷ xs) (y ∷ ys) → x ≤ℤ y
first_least x y xs ys below same = elim (Bool-cases (x ==ℤ y)) [
  | inl here ↦ rw (==ℤ_eq x y here) (omega arith)
  | inr other ↦ Below-count x y xs below (ground (arith, same y, same_self y))
]

drop_same :
    (v x y : ℤ) (m n : ℕ)
    → x ≡ y
    → (if x ==ℤ v then 1 else 0) + m ≡ (if y ==ℤ v then 1 else 0) + n
    → m ≡ n
drop_same v x y m n e h = let h' = rw e at h in omega (arith, h')

pub IsSorted-unique : (xs ys : List ℤ) → IsSorted xs → IsSorted ys → SameElements xs ys → xs ≡ ys
IsSorted-unique [] [] sx sy same = refl
IsSorted-unique [] (y ∷ ys) sx sy same = absurd (ground (arith, same y, same_self y))
IsSorted-unique (x ∷ xs) [] sx sy same = absurd (ground (arith, same x, same_self x))
IsSorted-unique (x ∷ xs) (y ∷ ys) sx sy same =
    let e : x ≡ y = eq_of_parts x y (
      omega (
        arith,
        first_least x y xs ys (sx.0) same,
        first_least y x ys xs (sy.0) (λ v. sym (same v)),
      )) in
    let rest : xs ≡ ys =
      IsSorted-unique xs ys (sx.1) (sy.1)
        (λ v. drop_same v x y (count v xs) (count v ys) e (same v)) in
    rw (e, rest) refl

-- On every array the bubble sort and the selection sort both end, with the same array.
pub bubble_sort-selection_sort :
    (a : List ℤ) → (b : List ℤ) × (bubble_sort a ≡ some b) × (selection_sort a ≡ some b)
bubble_sort-selection_sort a =
    let (b, run_b, sorted_b, same_b) = bubble_sort-IsSorted a in
    let (c, run_c, sorted_c, same_c) = selection_sort-IsSorted a in
    let e = IsSorted-unique c b sorted_c sorted_b (λ v. same_c v ∙ sym (same_b v)) in
    (b, run_b, run_c ∙ ap some e)
