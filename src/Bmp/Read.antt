-- ===== src/Bmp/Read.antt =====
-- The row that a read of bmp_show.c delivers, and where the rows of the file go on the screen.
use study_c_know.Common.{
  ℕ, zero, suc, ◌+◌, ◌-◌, ◌*◌, ◌<◌, ◌≤◌, ◌≡◌, refl, Bool, ◌&&◌, List, [], ◌∷◌, ◌==◌, ltb, leb,
  if◌then◌else◌, arith, get_or, length, take, drop, ◌∙◌, Bool-cases, inl, inr,
}
use study_c_know.Common.Int.{ℤ, pos, ◌+ℤ◌, ◌-ℤ◌, int_laws}
use study_c_know.Bmp.{filled}

pub length-drop-take :
    (n : ℕ) (xs : List ℕ) (at : ℕ) → at + n ≤ length xs → length (take n (drop at xs)) ≡ n
length-drop-take zero xs at h = refl
length-drop-take (suc n) [] at h = absurd (omega arith)
length-drop-take (suc n) (x ∷ xs) zero h = ground (arith, length-drop-take n xs 0 (omega arith))
length-drop-take (suc n) (x ∷ xs) (suc at) h = length-drop-take (suc n) xs at (omega arith)

pub get_or-take :
    (n : ℕ) (xs : List ℕ) (i d : ℕ) → n ≤ length xs → i < n → get_or (take n xs) i d ≡ get_or xs i 0
get_or-take zero xs i d h k = absurd (omega arith)
get_or-take (suc n) [] i d h k = absurd (omega arith)
get_or-take (suc n) (x ∷ xs) zero d h k = refl
get_or-take (suc n) (x ∷ xs) (suc i) d h k = get_or-take n xs i d (omega arith) (omega arith)

-- A whole row that is read replaces the old one.
pub filled-take :
    (n : ℕ) (xs : List ℕ) (at i : ℕ) (line : ℕ → ℕ)
    → at + n ≤ length xs
    → i < n
    → filled (take n (drop at xs)) line i ≡ get_or xs (at + i) 0
filled-take zero xs at i line h k = absurd (omega arith)
filled-take (suc n) [] at i line h k = absurd (omega arith)
filled-take (suc n) (x ∷ xs) zero zero line h k = refl
filled-take (suc n) (x ∷ xs) zero (suc i) line h k =
    let e : 0 + suc i ≡ suc i = omega arith in
    rw e (get_or-take n xs i (line (suc i)) (omega arith) (omega arith))
filled-take (suc n) (x ∷ xs) (suc at) i line h k =
    let e : suc at + i ≡ suc (at + i) = omega arith in
    rw e (filled-take (suc n) xs at i line (omega arith) k)

pub new_row :
    (file : List ℕ) (lb : ℕ) (b : Bool) (px at n c : ℕ) (line : ℕ → ℕ) {d : ℕ}
    → at + lb ≤ length file
    → n ≤ lb
    → d ≡ (if b && ltb px n then filled (take lb (drop at file)) line (0 + px) else c)
    → d ≡ (if b && ltb px n then get_or file (at + px) 0 else c)
new_row file lb b px at n c line enough small h = elim (Bool-cases (ltb px n)) [
  | inl inside ↦
      let e : 0 + px ≡ px = omega arith in
      let f = filled-take lb file at px line enough (ground arith) in h ∙ rw (e, f) refl
  | inr outside ↦ h ∙ rw outside (ground arith)
]

pub next_down : (y w : ℕ) → pos (y * w) +ℤ pos w ≡ pos (suc y * w)
next_down y w = let e : suc y * w ≡ y * w + w = grind arith in rw e (grind int_laws)

-- Where the row above the row `k` of a screen begins.
abbrev pub row_start : (k w : ℕ) → ℤ
row_start zero w = pos 0 -ℤ pos w
row_start (suc k) w = pos (k * w)

pub next_up : (k w : ℕ) → pos (k * w) -ℤ pos w ≡ row_start k w
next_up zero w = let e : 0 * w ≡ 0 = omega arith in rw e refl
next_up (suc k) w = let e : suc k * w ≡ k * w + w = grind arith in rw e (grind int_laws)

-- The first row and the rows below it, or above it.
pub rows_below :
    (f : ℕ → ℕ) (y k py at px lb : ℕ) (b : Bool) (c : ℕ) {c' d : ℕ}
    → c' ≡ (if (y == py) && b then f (at + px) else c)
    → d ≡ (
        if (leb (suc y) py && ltb py (suc y + k)) && b
        then f (at + lb + (py - suc y) * lb + px)
        else c')
    → d ≡ (if (leb y py && ltb py (y + suc k)) && b then f (at + (py - y) * lb + px) else c)
rows_below f y k py at px lb b c first rest = elim (Bool-cases (leb (suc y) py)) [
  | inl below ↦
      let e : py - y ≡ suc (py - suc y) = ground arith in
      let e' : at + (py - y) * lb + px ≡ at + lb + (py - suc y) * lb + px = rw e (grind arith) in
      rw e' (ground arith)
  | inr here ↦
      let e : at + 0 * lb + px ≡ at + px = omega arith in
      let e' : y ≡ py → at + (py - y) * lb + px ≡ at + px =
        λ s. let z : py - y ≡ 0 = omega arith in rw z e in
      elim (Bool-cases (y == py)) [
        | inl same ↦ rw (e' (ground arith)) (ground arith)
        | inr other ↦ ground arith
      ]
]

pub start_of : (w : ℕ) → pos 0 ≡ pos (0 * w)
start_of w = let e : 0 * w ≡ 0 = omega arith in rw e refl

pub from_top :
    (f : ℕ → ℕ) (k py at px lb : ℕ) (b : Bool) (c : ℕ)
    → (if (leb 0 py && ltb py (0 + k)) && b then f (at + (py - 0) * lb + px) else c)
      ≡ (if ltb py k && b then f (at + py * lb + px) else c)
from_top f k py at px lb b c =
    let e : py - 0 ≡ py = omega arith in
    let e' : 0 + k ≡ k = omega arith in rw (e, e') (ground arith)

pub rows_above :
    (f : ℕ → ℕ) (j py at px lb : ℕ) (b : Bool) (c : ℕ) {c' d : ℕ}
    → c' ≡ (if (j == py) && b then f (at + px) else c)
    → d ≡ (if ltb py j && b then f (at + lb + (j - 1 - py) * lb + px) else c')
    → d ≡ (if ltb py (suc j) && b then f (at + (suc j - 1 - py) * lb + px) else c)
rows_above f j py at px lb b c first rest = elim (Bool-cases (ltb py j)) [
  | inl above ↦
      let e : suc j - 1 - py ≡ suc (j - 1 - py) = ground arith in
      let e' : at + (suc j - 1 - py) * lb + px ≡ at + lb + (j - 1 - py) * lb + px =
        rw e (grind arith) in
      rw e' (ground arith)
  | inr here ↦ elim (Bool-cases (j == py)) [
    | inl same ↦
        let z : suc j - 1 - py ≡ 0 = ground arith in
        let e : at + 0 * lb + px ≡ at + px = omega arith in rw (z, e) (ground arith)
    | inr other ↦ ground arith
  ]
]
