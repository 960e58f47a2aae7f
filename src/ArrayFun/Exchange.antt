-- ===== src/ArrayFun/Exchange.antt =====
-- What `change_ad` does to each cell: a reversal for arrays of odd size only.
use study_c_know.Common.{
  ℕ, zero, suc, ◌+◌, ◌-◌, ◌*◌, ◌/◌, ◌<◌, ◌≡◌, ◌≢◌, refl, Bool, true, false, some, List, length,
  get_or, if◌then◌else◌, ltb, leb, ◌==◌, ◌&&◌, ◌||◌, ◌⊎◌, inl, inr, arith, ◌∙◌, ap,
}
use native.Mathlib.Decide.{ℕ_discrete}
use study_c_know.Common.Int.{ℤ, pos}
use study_c_know.Sorting.Order.{swap_lem}
use study_c_know.ArrayFun.{exchange_loop, change_ad}

-- The cell `i`.
abbrev pub at : List ℤ → ℕ → ℤ
at a i = get_or a i (pos 0)

-- Whether the rounds i, ..., i + k - 1 move the cell `j` of an array of this size.
unfoldable moved : (i k size j : ℕ) → Bool
moved i k size j =
    (leb i j && ltb j (i + k)) || (leb i (size - 1 - j) && ltb (size - 1 - j) (i + k))

moved-zero : (i size j : ℕ) → moved i 0 size j ≡ false
unfolding moved
moved-zero i size j = ground arith

-- The first round moves its own two cells, which the later ones leave alone.
moved-first :
    (i k size j : ℕ)
    → 2 * (i + suc k) < size
    → (j ≡ i) ⊎ (j ≡ size - 1 - i)
    → (moved i (suc k) size j ≡ true) × (moved (i + 1) k size j ≡ false)
unfolding moved
moved-first i k size j h (inl e) = ground arith
moved-first i k size j h (inr e) = ground arith

moved-later :
    (i k size j : ℕ)
    → 2 * (i + suc k) < size
    → j < size
    → j ≢ i
    → j ≢ size - 1 - i
    → moved i (suc k) size j ≡ moved (i + 1) k size j
unfolding moved
moved-later i k size j h p n m = ground arith

exchange_loop-cells :
    (k i size : ℕ) (a : List ℤ)
    → length a ≡ size
    → 2 * (i + k) < size ⊎ (k ≡ 0)
    → (b : List ℤ) × (exchange_loop k i size a ≡ some b)
      × (length b ≡ size)
      × ((j : ℕ) → j < size → at b j ≡ (if moved i k size j then at a (size - 1 - j) else at a j))
unfolding exchange_loop
exchange_loop-cells zero i size a n h = (a, refl, n, λ j p. rw (moved-zero i size j))
exchange_loop-cells (suc k) i size a n (inr h) = absurd (omega arith)
exchange_loop-cells (suc k) i size a n (inl h) =
    let (b, run, size_b, same, cell) =
      swap_lem a i (size - 1 - i) (omega arith) (omega arith) (λ e. omega arith) in
    let (c, run', size_c, cell') =
      exchange_loop-cells k (i + 1) size b (size_b ∙ n) (inl (omega arith)) in
    (
      c,
      rw run run',
      size_c,
      λ j p. elim (ℕ_discrete j i) [
        | yes e ↦
            let (now, later) = moved-first i k size j h (inl e) in
            let value : at b j ≡ at a (size - 1 - i) = ground (arith, cell j) in
            rw now (cell' j p ∙ rw (later, value) (ap (λ t. at a (size - 1 - t)) (omega arith)))
        | no other ↦ elim (ℕ_discrete j (size - 1 - i)) [
          | yes e ↦
              let (now, later) = moved-first i k size j h (inr e) in
              let value : at b j ≡ at a i = ground (arith, cell j) in
              rw now (cell' j p ∙ rw (later, value) (ap (at a) (omega arith)))
          | no other' ↦
              let value : at b j ≡ at a j = ground (arith, cell j) in
              let mirror : at b (size - 1 - j) ≡ at a (size - 1 - j) =
                ground (arith, cell (size - 1 - j)) in
              rw (moved-later i k size j h p other other') (cell' j p ∙ rw (value, mirror))
        ]
      ],
    )

-- The two cells in the middle of an array of even size.
abbrev pub in_middle : (n j : ℕ) → Bool
in_middle n j = (2 * j + 2 == n) || (2 * j == n)

moved-in_middle :
    (n j : ℕ)
    → j < n
    → 2 * j + 1 ≢ n
    → ((moved 0 ((n - 1) / 2) n j ≡ false) × (in_middle n j ≡ true))
      ⊎ ((moved 0 ((n - 1) / 2) n j ≡ true) × (in_middle n j ≡ false))
unfolding moved
moved-in_middle n j p odd = elim (ℕ_discrete (2 * j + 2) n) [
  | yes e ↦ inl (ground arith, ground arith)
  | no ne ↦ elim (ℕ_discrete (2 * j) n) [
    | yes e ↦ inl (ground arith, ground arith)
    | no ne' ↦ inr (ground arith, ground arith)
  ]
]

same_branches : (b c : Bool) (x : ℤ) → (if b then x else x) ≡ (if c then x else x)
same_branches b c x = ground arith

middle :
    (a : List ℤ) (n j : ℕ)
    → j < n
    → (if moved 0 ((n - 1) / 2) n j then at a (n - 1 - j) else at a j)
      ≡ (if in_middle n j then at a j else at a (n - 1 - j))
middle a n j p = elim (ℕ_discrete (2 * j + 1) n) [
  | yes e ↦ let self : n - 1 - j ≡ j = omega arith in rw self (same_branches _ _ (at a j))
  | no odd ↦ elim (moved-in_middle n j p odd) [ inl (m, t) ↦ rw (m, t) | inr (m, t) ↦ rw (m, t) ]
]

-- `change_ad` ends, stays inside the array, and mirrors every cell but the two in the middle of an
-- array of even size, which keep their values.
pub change_ad-cells :
    (a : List ℤ)
    → (b : List ℤ) × (change_ad a ≡ some b)
      × (length b ≡ length a)
      × ((j : ℕ)
          → j < length a
          → at b j ≡ (if in_middle (length a) j then at a j else at a (length a - 1 - j)))
unfolding change_ad
change_ad-cells a =
    let n = length a in
    let (b, run, size, cell) = exchange_loop-cells ((n - 1) / 2) 0 n a refl (ground arith) in
    (b, run, size, λ j p. cell j p ∙ middle a n j p)
