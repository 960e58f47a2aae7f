-- ===== src/Sorting/Order.antt =====
-- Sorted lists, and lists with the same elements.
use study_c_know.Common.{
  ℕ, zero, suc, ◌+◌, ◌<◌, ◌≡◌, ◌≢◌, some, List, [], ◌∷◌, length, set, get_or, length-set,
  if◌then◌else◌, ◌==◌, arith,
}
use study_c_know.Common.Int.{ℤ, pos, ◌≤ℤ◌, ◌==ℤ◌}
use study_c_know.Common.Array.{store-some, get_elem?-get_or, get_or-set}
use study_c_know.Sorting.{swap}

-- `x` is at most every element.
abbrev pub Below : ℤ → List ℤ → Type 0
Below x [] = Unit
Below x (y ∷ ys) = (x ≤ℤ y) × Below x ys

abbrev pub IsSorted : List ℤ → Type 0
IsSorted [] = Unit
IsSorted (x ∷ xs) = Below x xs × IsSorted xs

-- How often a value occurs.
abbrev pub count : ℤ → List ℤ → ℕ
count v [] = 0
count v (x ∷ xs) = (if x ==ℤ v then 1 else 0) + count v xs

-- The same elements, each as often.
abbrev pub SameElements : List ℤ → List ℤ → Type 0
SameElements xs ys = (v : ℤ) → count v xs ≡ count v ys

pub Below-trans : (x y : ℤ) (zs : List ℤ) → x ≤ℤ y → Below y zs → Below x zs
Below-trans x y [] h b = tt
Below-trans x y (z ∷ zs) h b = (omega (arith, b.0), Below-trans x y zs h (b.1))

-- A write replaces one occurrence.
count-set :
    (v : ℤ) (a : List ℤ) (i : ℕ) (x : ℤ)
    → i < length a
    → count v (set a i x) + (if get_or a i (pos 0) ==ℤ v then 1 else 0)
      ≡ count v a + (if x ==ℤ v then 1 else 0)
count-set v [] i x h = absurd (omega arith)
count-set v (y ∷ a) zero x h = omega arith
count-set v (y ∷ a) (suc i) x h = omega (arith, count-set v a i x)

-- The swap of two cells inside the array, cell by cell.
pub swap_lem :
    (a : List ℤ) (i k : ℕ)
    → i < length a
    → k < length a
    → i ≢ k
    → (b : List ℤ) × (swap a i k ≡ some b)
      × (length b ≡ length a)
      × SameElements b a
      × ((j : ℕ)
          → get_or b j (pos 0) ≡ (
              if j == i
              then get_or a k (pos 0)
              else if j == k
              then get_or a i (pos 0)
              else get_or a j (pos 0)))
unfolding swap
swap_lem a i k hi hk ne =
    let x = get_or a i (pos 0) in
    let y = get_or a k (pos 0) in
    let a1 = set a i y in
    let size = length-set a i y in
    (
      set a1 k x,
      rw (
        get_elem?-get_or (pos 0) a i hi,
        get_elem?-get_or (pos 0) a k hk,
        store-some a i y hi,
        store-some a1 k x (omega arith),
      ),
      omega (arith, length-set a1 k x),
      λ v.
          let other : get_or a1 k (pos 0) ≡ y = ground (arith, get_or-set (pos 0) a i k y hi) in
          let second = rw other at (count-set v a1 k x (omega arith)) in
          omega (arith, count-set v a i y hi, second),
      λ j. ground (arith, get_or-set (pos 0) a i j y hi, get_or-set (pos 0) a1 k j x),
    )
