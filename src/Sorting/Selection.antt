-- ===== src/Sorting/Selection.antt =====
-- The selection sort.
use study_c_know.Common.{
  ℕ, zero, suc, ◌+◌, ◌-◌, ◌<◌, ◌≤◌, ◌≡◌, ◌⊎◌, refl, some, List, [], ◌∷◌, length, get_or, arith,
  Bool-cases, inl, inr, ◌∙◌,
}
use study_c_know.Common.Int.{ℤ, pos, ltb_ℤ, ◌≤ℤ◌}
use study_c_know.Common.Array.{get_elem?-get_or}
use native.Mathlib.Decide.{ℕ_discrete}
use study_c_know.Sorting.{least, selection_step, selection_outer, selection_sort}
use study_c_know.Sorting.Order.{Below, IsSorted, SameElements, swap_lem}

-- The cell `i`.
abbrev at : List ℤ → ℕ → ℤ
at a i = get_or a i (pos 0)

-- The scan of the cells from `j` on returns the index of a least one among those and `k`.
least_lem :
    (r j k : ℕ) (a : List ℤ)
    → j + r ≡ length a
    → k < j
    → (m : ℕ) × (least r j k a ≡ some m)
      × ((m ≡ k) ⊎ (j ≤ m))
      × (m < length a)
      × (at a m ≤ℤ at a k)
      × ((t : ℕ) → j ≤ t → t < length a → at a m ≤ℤ at a t)
unfolding least
least_lem zero j k a e h =
    (k, refl, inl refl, omega arith, omega arith, λ t p q. absurd (omega arith))
least_lem (suc r) j k a e h = elim (Bool-cases (ltb_ℤ (at a j) (at a k))) [
  | inl less ↦
      let (m, run, place, inside, below, rest) =
        least_lem r (j + 1) j a (omega arith) (omega arith) in
      (
        m,
        rw
            (
              get_elem?-get_or (pos 0) a j (omega arith),
              get_elem?-get_or (pos 0) a k (omega arith),
              less,
            )
            run,
        inr (omega arith),
        inside,
        ground arith,
        λ t p q. elim (ℕ_discrete t j) [
          | yes same ↦ rw same below
          | no later ↦ rest t (omega arith) q
        ],
      )
  | inr more ↦
      let (m, run, place, inside, below, rest) =
        least_lem r (j + 1) k a (omega arith) (omega arith) in
      (
        m,
        rw
            (
              get_elem?-get_or (pos 0) a j (omega arith),
              get_elem?-get_or (pos 0) a k (omega arith),
              more,
            )
            run,
        ground arith,
        inside,
        below,
        λ t p q. elim (ℕ_discrete t j) [
          | yes same ↦ rw same (ground arith)
          | no later ↦ rest t (omega arith) q
        ],
      )
]

-- The cells before `i` are in order, and at most every later one.
abbrev Settled : ℕ → List ℤ → Type 0
Settled i a = (s t : ℕ) → s < i → s < t → t < length a → at a s ≤ℤ at a t

selection_step-Settled :
    (i : ℕ) (a : List ℤ)
    → i + 1 ≤ length a
    → Settled i a
    → (b : List ℤ) × (selection_step i (length a) a ≡ some b)
      × (length b ≡ length a)
      × SameElements b a
      × Settled (i + 1) b
unfolding selection_step
selection_step-Settled i a h done =
    let (m, run, place, inside, below, rest) =
      least_lem (length a - (i + 1)) (i + 1) i a (omega arith) (omega arith) in
    elim (ℕ_discrete i m) [
      | yes same ↦ (
        a,
        ground (arith, run),
        refl,
        λ v. refl,
        λ s t p q z. elim (ℕ_discrete s i) [
          | yes last ↦ rw (last, same) (rest t (omega arith) z)
          | no earlier ↦ done s t (omega arith) q z
        ],
      )
      | no other ↦
          let (b, run', size, elements, cell) = swap_lem a i m (omega arith) inside other in
          (
            b,
            ground (arith, run, run'),
            size,
            elements,
            λ s t p q z. elim (ℕ_discrete s i) [
              | yes last ↦ ground (arith, cell s, cell t, rest t, below)
              | no earlier ↦ ground (arith, cell s, cell t, done s t, done s m, done s i)
            ],
          )
    ]

step :
    (r i size : ℕ) (a b : List ℤ)
    → length a ≡ size
    → selection_step i (length a) a ≡ some b
    → selection_outer (suc r) i size a ≡ selection_outer r (i + 1) size b
unfolding selection_outer
step r i size a b n run = let run' = rw n at run in rw run'

selection_outer-Settled :
    (r i size : ℕ) (a : List ℤ)
    → r + i + 1 ≡ size
    → length a ≡ size
    → Settled i a
    → (b : List ℤ) × (selection_outer r i size a ≡ some b)
      × (length b ≡ size)
      × SameElements b a
      × Settled (size - 1) b
unfolding selection_outer
selection_outer-Settled zero i size a e n done =
    (a, refl, n, λ v. refl, λ s t p q z. done s t (omega arith) q z)
selection_outer-Settled (suc r) i size a e n done =
    let (b, run, length_b, same, more) = selection_step-Settled i a (omega arith) done in
    let (c, run', length_c, same', all) =
      selection_outer-Settled r (i + 1) size b (omega arith) (length_b ∙ n) more in
    (c, step r i size a b n run ∙ run', length_c, λ v. same' v ∙ same v, all)

-- Cell by cell in order is sorted.
Settled-IsSorted : (a : List ℤ) → ((s t : ℕ) → s < t → t < length a → at a s ≤ℤ at a t) → IsSorted a
Settled-IsSorted [] h = tt
Settled-IsSorted (x ∷ xs) h = (
  first xs (λ t p. h 0 (suc t) (omega arith) (omega arith)),
  Settled-IsSorted xs (λ s t p q. h (suc s) (suc t) (omega arith) (omega arith)),
)
  where
    first : (ys : List ℤ) → ((t : ℕ) → t < length ys → x ≤ℤ at ys t) → Below x ys
    first [] k = tt
    first (y ∷ ys) k = (k 0 (omega arith), first ys (λ t p. k (suc t) (omega arith)))

-- The selection sort of any array ends, stays inside the array, and leaves a sorted array with the
-- same elements, each as often.
pub selection_sort-IsSorted :
    (a : List ℤ) → (b : List ℤ) × (selection_sort a ≡ some b) × IsSorted b × SameElements b a
unfolding selection_sort selection_outer
selection_sort-IsSorted [] = ([], refl, tt, λ v. refl)
selection_sort-IsSorted (x ∷ xs) =
    let (b, run, size, same, done) =
      selection_outer-Settled (length xs) 0 (suc (length xs)) (x ∷ xs) (omega arith) refl
        (λ s t p. absurd (omega arith)) in
    let rounds : suc (length xs) - 1 ≡ length xs = omega arith in
    let sizes : selection_sort (x ∷ xs) ≡ selection_outer (length xs) 0 (suc (length xs)) (x ∷ xs) =
      rw rounds in
    (b, sizes ∙ run, Settled-IsSorted b (λ s t p q. done s t (omega arith) p (omega arith)), same)
