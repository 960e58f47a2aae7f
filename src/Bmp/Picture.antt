-- ===== src/Bmp/Picture.antt =====
-- Both ways in which bmp_show.c shows the rows of a picture: the point of the picture at each point.
use study_c_know.Common.{
  ℕ, zero, suc, ◌+◌, ◌-◌, ◌*◌, ◌^◌, ◌<◌, ◌≤◌, ◌≡◌, ◌≢◌, refl, true, ◌&&◌, some, List, ltb,
  if◌then◌else◌, arith, get_or, length, sym, ◌∙◌, ap, Bool-cases, inl, inr,
}
use study_c_know.Common.Int.{ℤ, pos, negsuc, ◌-ℤ◌, ◌*ℤ◌, ltb_ℤ, to_int, to_ℕ}
use study_c_know.Device.{Env, State}
use study_c_know.Device.Ends.{Ends, Ends-mono}
use study_c_know.Lcd.{Screen, Cells}
use study_c_know.Lcd.Index.{IsScreen, index}
use study_c_know.Bmp.{Call, smaller, last_row, skip, rows_up, rows_down, seek_cur}
use study_c_know.Bmp.Rows.{state, showing, NoErrors, rows_loop-up, rows_loop-top}
use study_c_know.Bmp.Read.{row_start}

-- The number of rows, and which of them, counted from the data on, is the row `y` from above.
abbrev pub rows : ℤ → ℕ
rows (pos n) = n
rows (negsuc n) = n + 1

abbrev pub row_of : ℤ → ℕ → ℕ
row_of (pos n) y = n - 1 - y
row_of (negsuc n) y = y

-- The point at the byte `px` of the row `py` of a picture, where it has one.
abbrev pub pictured : (file : List ℕ) → (at lb : ℕ) → (height : ℤ) → (px py before : ℕ) → ℕ
pictured file at lb height px py before =
    if ltb py (rows height) && ltb px lb
    then get_or file (at + row_of height py * lb + px) 0
    else before

-- The last rows of a picture, after the first ones are skipped.
skip_rows : (n k lb : ℕ) → k ≤ n → (n - k) * lb + k * lb ≡ n * lb
skip_rows n k lb h =
    let e : n ≡ (n - k) + k = omega arith in
    let d : ((n - k) + k) * lb ≡ (n - k) * lb + k * lb = grind arith in
    sym d ∙ ap (λ m. m * lb) (sym e)

skip_row :
    (n k y lb at px : ℕ)
    → k ≤ n
    → y < k
    → at + (n - k) * lb + (k - 1 - y) * lb + px ≡ at + (n - 1 - y) * lb + px
skip_row n k y lb at px h hy =
    let e : n - 1 - y ≡ (n - k) + (k - 1 - y) = omega arith in rw e (grind arith)

fewer_rows : (k n lb : ℕ) → k ≤ n → k * lb ≤ n * lb
fewer_rows k n lb h = let e = skip_rows n k lb h in omega (arith, e)

last_row-row_start : (fb : Screen) (n : ℕ) → last_row fb n ≡ row_start n fb.width
unfolding ◌*ℤ◌ ◌-ℤ◌
last_row-row_start fb zero = ground arith
last_row-row_start fb (suc n) = let e : fb.width * n ≡ n * fb.width = grind arith in ground arith

above_start : (w : ℕ) → 0 < w → row_start 0 w ≢ pos 0
unfolding ◌-ℤ◌
above_start w h e = ground arith

below_start : (k w : ℕ) → 0 < k → 0 < w → pos (k * w) ≢ pos 0
below_start zero w hk hw e = absurd (omega arith)
below_start (suc k) w hk hw e = let e' : suc k * w ≡ w + k * w = grind arith in ground arith

-- The number of rows that a picture of `n` rows whose first row comes first has on the screen.
abbrev shown_rows : (screen_rows : ℕ) → ℤ → ℕ
shown_rows screen_rows temp = if ltb_ℤ (pos screen_rows) temp then screen_rows else to_ℕ temp

shown_some : (h n : ℕ) → 0 < h → 0 < shown_rows h (pos (n + 1))
shown_some h n k = ground arith

shown_small : (h n : ℕ) → (shown_rows h (pos (n + 1)) ≤ h) × (shown_rows h (pos (n + 1)) ≤ n + 1)
shown_small h n = (ground arith, ground arith)

ltb-shown : (h n py : ℕ) → py < h → ltb py (shown_rows h (pos (n + 1))) ≡ ltb py (n + 1)
ltb-shown h n py k = ground arith

negated : (n : ℕ) → n + 1 < 2 ^ 31 → to_int (pos 0 -ℤ negsuc n) ≡ some (pos (n + 1))
unfolding to_int ◌-ℤ◌
negated n h = ground arith

smaller_left : (a b : ℕ) → smaller a b ≤ a
smaller_left a b = ground arith

smaller_right : (a b : ℕ) → smaller a b ≤ b
smaller_right a b = ground arith

ltb-smaller : (p a b : ℕ) → p < b → ltb p (smaller a b) ≡ ltb p a
ltb-smaller p a b h = ground arith

is_less : (a b : ℕ) → a < b → ltb a b ≡ true
is_less a b h = ground arith

-- One of the two loops has shown the picture, and screen_base has moved.
abbrev pub Pictured : Screen → List ℕ → (at lb : ℕ) → ℤ → Cells → ℤ × Cells → Type 0
Pictured fb file at lb height before r =
    (r.0 ≢ pos 0)
    × ((px py : ℕ)
        → px < fb.width
        → py < fb.height
        → r.1 (index fb px py) ≡ pictured file at lb height px py (before (index fb px py)))

-- A state in which the rows were shown.
abbrev pub Shown : Screen → List ℕ → (at lb : ℕ) → ℤ → Cells → ℤ × Cells → State Call → Type 0
Shown fb file at lb height before r t = (t.held ≡ showing) × Pictured fb file at lb height before r

module _ (e : Env Call) (good : NoErrors e) (fb : Screen) (ok : IsScreen fb) (file : List ℕ)
    (lb : ℕ) (line : ℕ → ℕ) (cells : Cells) (m : ℕ) (us : List Call) (at : ℕ) where
  pub rows_up-Shown :
      (n : ℕ)
      → at + n * lb ≤ length file
      → Ends
          (rows_up fb n file lb (smaller lb fb.width) at line cells e (state m showing us))
          (Shown fb file at lb (pos n) cells)
  unfolding rows_up skip
  rows_up-Shown n enough =
      let n1 = smaller_left lb fb.width in
      let n2 = smaller_right lb fb.width in
      let moved = above_start fb.width ok.wide in
      elim (Bool-cases (ltb fb.height n)) [
        | inl more ↦
            let few : fb.height ≤ n = ground arith in
            let whole = skip_rows n fb.height lb few in
            rw (more, good (seek_cur ((n - fb.height) * lb)) m, last_row-row_start fb fb.height)
              (Ends-mono
                (rows_loop-up e good fb ok file lb (smaller lb fb.width) n1 n2 fb.height
                  (at + (n - fb.height) * lb) line cells (suc m) _ (omega arith) (omega arith))
                λ r t (base, own, points). (
                  own,
                  (
                    λ same. moved (sym base ∙ same),
                    λ px py hx hy.
                        points px py hx
                        ∙ rw
                            (
                              ltb-smaller px lb fb.width hx,
                              is_less py fb.height hy,
                              is_less py n (omega arith),
                              skip_row n fb.height py lb at px few hy,
                            )
                            refl,
                  ),
                ))
        | inr fits ↦
            rw (fits, last_row-row_start fb n)
              (Ends-mono
                (rows_loop-up e good fb ok file lb (smaller lb fb.width) n1 n2 n at line cells m us
                  (ground arith) enough)
                λ r t (base, own, points). (
                  own,
                  (
                    λ same. moved (sym base ∙ same),
                    λ px py hx hy. points px py hx ∙ rw (ltb-smaller px lb fb.width hx) refl,
                  ),
                ))
      ]

  pub rows_down-Shown :
      (n : ℕ)
      → n + 1 < 2 ^ 31
      → at + (n + 1) * lb ≤ length file
      → Ends
          (rows_down fb
            (negsuc n)
            file
            lb
            (smaller lb fb.width)
            at
            line
            cells
            e
            (state m showing us))
          (Shown fb file at lb (negsuc n) cells)
  unfolding rows_down
  rows_down-Shown n small enough =
      let k = shown_rows fb.height (pos (n + 1)) in
      let (k1, k2) = shown_small fb.height n in
      let room = fewer_rows k (n + 1) lb k2 in
      rw (negated n small) (
        Ends-mono
          (rows_loop-top e good fb ok file lb (smaller lb fb.width) (smaller_left lb fb.width)
            (smaller_right lb fb.width) k at line cells m us k1 (omega arith))
          λ r t (base, own, points). (
            own,
            (
              λ same.
                  below_start k fb.width (shown_some fb.height n ok.high) ok.wide (sym base ∙ same),
              λ px py hx hy.
                  points px py hx
                  ∙ rw (ltb-smaller px lb fb.width hx, ltb-shown fb.height n py hy) refl,
            ),
          ))
