-- ===== src/Lcd/Index.antt =====
-- Where a point of study_test/LCD/lcd_test.c lies in the memory of the screen.
use study_c_know.Common.{
  ℕ, zero, suc, ◌+◌, ◌*◌, ◌^◌, ◌<◌, ◌≤◌, ◌≡◌, ◌&&◌, ◌==◌, ltb, leb, arith, inl, inr, Bool-cases,
}
use study_c_know.Lcd.{Screen, word}

-- A screen whose points all lie in its memory, and whose numbers are ints.
pub record IsScreen (s : Screen) : Type 0 where
  pub wide : 0 < s.width
  pub high : 0 < s.height
  pub wide_int : s.width < 2 ^ 31
  pub high_int : s.height < 2 ^ 31
  pub inside : s.width * s.height ≤ s.size
  pub small : s.width * s.height ≤ word

-- The rows before a row end before it.
pub rows_apart : (a b w : ℕ) → a < b → a * w + w ≤ b * w
rows_apart a zero w h = absurd (omega arith)
rows_apart a (suc b) w h = elim (Bool-cases (a == b)) [
  | inl same ↦ let e : a ≡ b = ground arith in rw e (grind arith)
  | inr other ↦ let r : a * w + w ≤ b * w = rows_apart a b w (ground arith) in grind arith
]

-- The point in row `y` and column `x`.
abbrev pub index : Screen → (x y : ℕ) → ℕ
index s x y = y * s.width + x

pub index-inside :
    (s : Screen) (x y : ℕ)
    → IsScreen s
    → x < s.width
    → y < s.height
    → index s x y < s.width * s.height
index-inside s x y ok hx hy =
    let r : y * s.width + s.width ≤ s.height * s.width = rows_apart y s.height s.width hy in
    ground arith

-- A point lies between two points of a row when it is in the row, between their columns.
pub index_in_row :
    (s : Screen) (x k y px py : ℕ)
    → x + k ≤ s.width
    → px < s.width
    → (leb (index s x y) (index s px py) && ltb (index s px py) (index s x y + k))
      ≡ ((y == py) && (leb x px && ltb px (x + k)))
index_in_row s x k y px py hk hp = elim (Bool-cases (y == py)) [
  | inl same ↦ let e : y ≡ py = ground arith in rw e (ground arith)
  | inr other ↦ elim (Bool-cases (ltb y py)) [
    | inl above ↦
        let r : y * s.width + s.width ≤ py * s.width = rows_apart y py s.width (ground arith) in
        ground arith
    | inr below ↦
        let r : py * s.width + s.width ≤ y * s.width = rows_apart py y s.width (ground arith) in
        ground arith
  ]
]
