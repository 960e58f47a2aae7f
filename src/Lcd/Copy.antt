-- ===== src/Lcd/Copy.antt =====
-- Rows of a picture that `memcpy` copies to the memory of a screen, in
-- study_test/L4F2/v4l2_camera.c and study_test/LCD/bmp_show.c.
use study_c_know.Common.{
  ℕ, zero, suc, ◌+◌, ◌-◌, ◌*◌, ◌<◌, ◌≤◌, ◌≡◌, refl, true, Bool-cases, inl, inr, ◌&&◌, Option, none,
  some, ◌==◌, ltb, leb, if◌then◌else◌, arith,
}
use study_c_know.Common.Array.{◌>>=◌}
use study_c_know.Lcd.{Screen, Cells, put}
use study_c_know.Lcd.Index.{IsScreen, index, index_in_row, rows_apart}

-- memcpy(screen_base + base, source + start, n cells), where the source has `limit` cells.
unfoldable pub copy :
    Screen → (limit : ℕ) → (source : ℕ → ℕ) → (base start n : ℕ) → Cells → Option Cells
copy s limit source base start zero cells = some cells
copy s limit source base start (suc n) cells =
    (if ltb start limit then put s base (source start) cells else none)
    >>= copy s limit source (base + 1) (start + 1) n

-- The first cell and the cells after it.
source_step :
    (base i start n c : ℕ) (source : ℕ → ℕ) {d : ℕ}
    → d ≡ (
        if leb (base + 1) i && ltb i (base + 1 + n)
        then source (start + 1 + (i - (base + 1)))
        else if base == i
        then source start
        else c)
    → d ≡ (if leb base i && ltb i (base + suc n) then source (start + (i - base)) else c)
source_step base i start n c source h = elim (Bool-cases (leb (base + 1) i)) [
  | inl later ↦
      let e : start + 1 + (i - (base + 1)) ≡ start + (i - base) = ground arith in
      let h' = rw e at h in ground arith
  | inr not_later ↦ elim (Bool-cases (base == i)) [
    | inl here ↦ let e : start + (i - base) ≡ start = ground arith in rw e (ground arith)
    | inr before ↦ ground arith
  ]
]

pub copy-cells :
    (s : Screen) (limit : ℕ) (source : ℕ → ℕ) (base start n : ℕ) (cells : Cells)
    → base + n ≤ s.size
    → start + n ≤ limit
    → (t : Cells) × (copy s limit source base start n cells ≡ some t)
      × ((i : ℕ)
          → t i ≡ (if leb base i && ltb i (base + n) then source (start + (i - base)) else cells i))
unfolding copy put
copy-cells s limit source base start zero cells room all = (cells, refl, λ i. ground arith)
copy-cells s limit source base start (suc n) cells room all =
    let here : ltb base s.size ≡ true = ground arith in
    let there : ltb start limit ≡ true = ground arith in
    let rest =
      copy-cells s limit source (base + 1) (start + 1) n
        (λ j. if base == j then source start else cells j) (omega arith) (omega arith) in
    (
      rest.0,
      rw (there, here) (rest.1),
      λ i. let h = rest.2 i in source_step base i start n (cells i) source h,
    )

row_step :
    (s : Screen) (y n px py start c : ℕ) (source : ℕ → ℕ) {d : ℕ}
    → n ≤ s.width
    → px < s.width
    → d ≡ (
        if leb (y * s.width) (index s px py) && ltb (index s px py) (y * s.width + n)
        then source (start + (index s px py - y * s.width))
        else c)
    → d ≡ (if (y == py) && ltb px n then source (start + px) else c)
row_step s y n px py start c source hn hp h =
    let where_is = index_in_row s 0 n y px py (omega arith) hp in
    elim (Bool-cases (y == py)) [
      | inl same ↦
          let e : y ≡ py = ground arith in
          let e' : start + (index s px py - y * s.width) ≡ start + px = rw e (omega arith) in
          let h' = rw e' at h in ground arith
      | inr other ↦ ground arith
    ]

-- A row of the screen from its first column on.
pub copy-row :
    (s : Screen) (limit : ℕ) (source : ℕ → ℕ) (y start n : ℕ) (cells : Cells)
    → IsScreen s
    → n ≤ s.width
    → y < s.height
    → start + n ≤ limit
    → (t : Cells) × (copy s limit source (y * s.width) start n cells ≡ some t)
      × ((px py : ℕ)
          → px < s.width
          → t (index s px py)
            ≡ (if (y == py) && ltb px n then source (start + px) else cells (index s px py)))
copy-row s limit source y start n cells ok hn hy all =
    let inside : y * s.width + s.width ≤ s.height * s.width = rows_apart y s.height s.width hy in
    let row =
      copy-cells s limit source (y * s.width) start n cells (ground (arith, ok.inside)) all in
    (
      row.0,
      row.1,
      λ px py h.
          row_step s y n px py start (cells (index s px py)) source hn h (row.2 (index s px py)),
    )
