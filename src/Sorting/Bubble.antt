-- ===== src/Sorting/Bubble.antt =====
-- The bubble sort: its loops on the array are a pass over a list, and passes sort.
use study_c_know.Common.{
  ℕ, zero, suc, ◌+◌, ◌-◌, ◌≤◌, ◌≡◌, refl, some, List, [], ◌∷◌, ◌++◌, length, set, get_elem?, drop,
  length-append, if◌then◌else◌, arith, Bool-cases, inl, inr, ap, ◌∙◌,
}
use mathlib.Core.List.{append_assoc}
use study_c_know.Common.Int.{ℤ, ltb_ℤ, ◌≤ℤ◌}
use study_c_know.Common.Array.{store-some}
use study_c_know.Sorting.{swap, bubble_step, bubble_inner, bubble_outer, bubble_sort}
use study_c_know.Sorting.Order.{Below, IsSorted, SameElements}

-- A pass of `k` rounds over a list that starts with `x`.
unfoldable pub bubble : ℕ → ℤ → List ℤ → List ℤ
bubble zero x xs = x ∷ xs
bubble (suc k) x [] = x ∷ []
bubble (suc k) x (y ∷ ys) = if ltb_ℤ y x then y ∷ bubble k x ys else x ∷ bubble k y ys

get-at : (pre : List ℤ) (x : ℤ) (r : List ℤ) → get_elem? (pre ++ x ∷ r) (length pre) ≡ some x
get-at [] x r = refl
get-at (p ∷ pre) x r = get-at pre x r

get_after :
    (pre : List ℤ) (x y : ℤ) (r : List ℤ) (i : ℕ)
    → i ≡ length pre + 1
    → get_elem? (pre ++ x ∷ y ∷ r) i ≡ some y
get_after [] x y r i e = rw e
get_after (p ∷ pre) x y r zero e = absurd (omega arith)
get_after (p ∷ pre) x y r (suc i) e = get_after pre x y r i (omega arith)

set_at : (pre : List ℤ) (x v : ℤ) (r : List ℤ) → set (pre ++ x ∷ r) (length pre) v ≡ pre ++ v ∷ r
set_at [] x v r = refl
set_at (p ∷ pre) x v r = ap (λ (t : List ℤ). p ∷ t) (set_at pre x v r)

set_after :
    (pre : List ℤ) (x y v : ℤ) (r : List ℤ) (i : ℕ)
    → i ≡ length pre + 1
    → set (pre ++ x ∷ y ∷ r) i v ≡ pre ++ x ∷ v ∷ r
set_after [] x y v r i e = rw e
set_after (p ∷ pre) x y v r zero e = absurd (omega arith)
set_after (p ∷ pre) x y v r (suc i) e =
    ap (λ (t : List ℤ). p ∷ t) (set_after pre x y v r i (omega arith))

bubble_step-pair :
    (pre : List ℤ) (x y : ℤ) (r : List ℤ)
    → bubble_step (length pre) (pre ++ x ∷ y ∷ r)
      ≡ some (if ltb_ℤ y x then pre ++ y ∷ x ∷ r else pre ++ x ∷ y ∷ r)
unfolding bubble_step swap
bubble_step-pair pre x y r =
    let size = length-append {0} pre (x ∷ y ∷ r) in
    let size' = length-append {0} pre (y ∷ y ∷ r) in
    elim (Bool-cases (ltb_ℤ y x)) [
      | inl out_of_order ↦ rw (
        get-at pre x (y ∷ r),
        get_after pre x y r (length pre + 1) refl,
        out_of_order,
        store-some (pre ++ x ∷ y ∷ r) (length pre) y (omega arith),
        set_at pre x y (y ∷ r),
        store-some (pre ++ y ∷ y ∷ r) (length pre + 1) x (omega arith),
        set_after pre y y x r (length pre + 1) refl,
      )
      | inr in_order ↦
          rw (get-at pre x (y ∷ r), get_after pre x y r (length pre + 1) refl, in_order)
    ]

bubble_inner-bubble :
    (k : ℕ) (pre : List ℤ) (x : ℤ) (r : List ℤ) (j : ℕ)
    → j ≡ length pre
    → k ≤ length r
    → bubble_inner k j (pre ++ x ∷ r) ≡ some (pre ++ bubble k x r)
unfolding bubble_inner bubble
bubble_inner-bubble zero pre x r j e h = refl
bubble_inner-bubble (suc k) pre x [] j e h = absurd (omega arith)
bubble_inner-bubble (suc k) pre x (y ∷ r) j e h =
    rw (e, bubble_step-pair pre x y r)
      (elim (Bool-cases (ltb_ℤ y x)) [
        | inl out_of_order ↦
            rw (out_of_order, ← append_assoc pre (y ∷ []) (x ∷ r))
              (bubble_inner-bubble k (pre ++ y ∷ []) x r (length pre + 1)
                  (omega (arith, length-append {0} pre (y ∷ []))) (omega arith)
                ∙ ap some (append_assoc pre (y ∷ []) (bubble k x r)))
        | inr in_order ↦
            rw (in_order, ← append_assoc pre (x ∷ []) (y ∷ r))
              (bubble_inner-bubble k (pre ++ x ∷ []) y r (length pre + 1)
                  (omega (arith, length-append {0} pre (x ∷ []))) (omega arith)
                ∙ ap some (append_assoc pre (x ∷ []) (bubble k y r)))
      ])

length-bubble : (k : ℕ) (x : ℤ) (xs : List ℤ) → length (bubble k x xs) ≡ suc (length xs)
unfolding bubble
length-bubble zero x xs = refl
length-bubble (suc k) x [] = refl
length-bubble (suc k) x (y ∷ ys) = ground (arith, length-bubble k x ys, length-bubble k y ys)

bubble-SameElements : (k : ℕ) (x : ℤ) (xs : List ℤ) → SameElements (bubble k x xs) (x ∷ xs)
unfolding bubble
bubble-SameElements zero x xs v = refl
bubble-SameElements (suc k) x [] v = refl
bubble-SameElements (suc k) x (y ∷ ys) v =
    ground (arith, bubble-SameElements k x ys v, bubble-SameElements k y ys v)

-- From index `m` on the list is sorted, and every element before is at most those.
abbrev Tail : ℕ → List ℤ → Type 0
Tail zero xs = IsSorted xs
Tail (suc m) [] = Unit
Tail (suc m) (x ∷ xs) = Below x (drop m xs) × Tail m xs

Tail-all : (xs : List ℤ) (m : ℕ) → length xs ≤ m → Tail m xs
Tail-all [] zero h = tt
Tail-all [] (suc m) h = tt
Tail-all (x ∷ xs) zero h = absurd (omega arith)
Tail-all (x ∷ xs) (suc m) h = (Below-drop xs m (omega arith), Tail-all xs m (omega arith))
  where
    Below-drop : (ys : List ℤ) (n : ℕ) → length ys ≤ n → Below x (drop n ys)
    Below-drop [] zero h = tt
    Below-drop [] (suc n) h = tt
    Below-drop (y ∷ ys) zero h = absurd (omega arith)
    Below-drop (y ∷ ys) (suc n) h = Below-drop ys n (omega arith)

Below-nil : (z : ℤ) (k : ℕ) → Below z (drop k [])
Below-nil z zero = tt
Below-nil z (suc k) = tt

Below-bubble :
    (k : ℕ) (z x : ℤ) (xs : List ℤ)
    → z ≤ℤ x
    → Below z (drop k xs)
    → Below z (drop k (bubble k x xs))
unfolding bubble
Below-bubble zero z x xs h b = (h, b)
Below-bubble (suc k) z x [] h b = Below-nil z k
Below-bubble (suc k) z x (y ∷ ys) h b = elim (Bool-cases (ltb_ℤ y x)) [
  | inl out_of_order ↦ rw out_of_order (Below-bubble k z x ys h b)
  | inr in_order ↦ rw in_order (Below-bubble k z y ys (ground arith) b)
]

-- A pass of `k` rounds puts one more element in its place.
bubble-Tail : (k : ℕ) (x : ℤ) (xs : List ℤ) → Tail (suc k) (x ∷ xs) → Tail k (bubble k x xs)
unfolding bubble
bubble-Tail zero x xs t = t
bubble-Tail (suc k) x [] t = (Below-nil x k, Tail-all [] k (omega arith))
bubble-Tail (suc k) x (y ∷ ys) t = elim (Bool-cases (ltb_ℤ y x)) [
  | inl out_of_order ↦
      rw out_of_order
        (Below-bubble k y x ys (ground arith) (t.1.0), bubble-Tail k x ys (t.0, t.1.1))
  | inr in_order ↦
      rw in_order (Below-bubble k x y ys (ground arith) (t.0), bubble-Tail k y ys (t.1))
]

bubble_outer-sorts :
    (k i size : ℕ) (a : List ℤ)
    → k + i ≡ size
    → length a ≡ size
    → Tail k a
    → (b : List ℤ) × (bubble_outer k i size a ≡ some b) × IsSorted b × SameElements b a
unfolding bubble_outer
bubble_outer-sorts zero i size a e n t = (a, refl, t, λ v. refl)
bubble_outer-sorts (suc k) i size [] e n t = absurd (omega arith)
bubble_outer-sorts (suc k) i size (x ∷ xs) e n t =
    let rounds : size - 1 - i ≡ k = omega arith in
    let step : bubble_outer (suc k) i size (x ∷ xs) ≡ bubble_outer k (i + 1) size (bubble k x xs) =
      rw (rounds, bubble_inner-bubble k [] x xs 0 refl (omega arith)) in
    let (b, run, sorted, same) =
      bubble_outer-sorts k (i + 1) size (bubble k x xs) (omega arith) (length-bubble k x xs ∙ n)
        (bubble-Tail k x xs t) in
    (b, step ∙ run, sorted, λ v. same v ∙ bubble-SameElements k x xs v)

-- The bubble sort of any array ends, stays inside the array, and leaves a sorted array with the
-- same elements, each as often.
pub bubble_sort-IsSorted :
    (a : List ℤ) → (b : List ℤ) × (bubble_sort a ≡ some b) × IsSorted b × SameElements b a
unfolding bubble_sort
bubble_sort-IsSorted a =
    bubble_outer-sorts (length a) 0 (length a) a (omega arith) refl
      (Tail-all a (length a) (omega arith))
