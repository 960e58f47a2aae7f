-- ===== src/Camera/Rows.antt =====
-- The loop of v4l2_read_data over the rows of a frame, and where its points go on the screen.
use study_c_know.Common.{
  ℕ, zero, suc, ◌+◌, ◌*◌, ◌/◌, ◌<◌, ◌≤◌, ◌≡◌, refl, ◌∙◌, ◌&&◌, Bool, Option, some, List, [], ◌∷◌,
  ◌==◌, ltb, leb, if◌then◌else◌, get_or, arith, Bool-cases, inl, inr,
}
use study_c_know.Common.Array.{◌>>=◌}
use study_c_know.Lcd.{Screen, Cells}
use study_c_know.Lcd.Index.{IsScreen, index, rows_apart}
use study_c_know.Lcd.Copy.{copy, copy-row}

-- for (j = 0; j < min_h; j++): the row `j` of a frame becomes the row `j` of the screen.
unfoldable pub show_rows :
    Screen → (limit : ℕ) → (frame : ℕ → ℕ) → (frm_width min_w rounds j : ℕ) → Cells → Option Cells
show_rows fb limit frame frm_width min_w zero j cells = some cells
show_rows fb limit frame frm_width min_w (suc rounds) j cells =
    copy fb limit frame (j * fb.width) (j * frm_width) min_w cells
    >>= show_rows fb limit frame frm_width min_w rounds (j + 1)

-- if (a > b) min = b; else min = a;
abbrev pub smaller : (a b : ℕ) → ℕ
smaller a b = if ltb b a then b else a

-- What one buffer of `length` bytes shows.
unfoldable pub show_frame :
    Screen → (length : ℕ) → (frame : ℕ → ℕ) → (frm_width frm_height : ℕ) → Cells → Option Cells
show_frame fb length frame frm_width frm_height cells =
    show_rows fb (length / 2) frame frm_width (smaller fb.width frm_width)
      (smaller fb.height frm_height) 0 cells

-- What the driver delivers: the index of a buffer, and the points in it.
abbrev pub pixels : List ℕ → ℕ → ℕ
pixels [] k = 0
pixels (i ∷ frame) k = get_or frame k 0

-- The inner loop starts again at the last buffer.
abbrev pub next_index : ℕ → ℕ
next_index i = if ltb i 3 then i else 0

-- The first row and the rows below it.
rows_step :
    (y k py : ℕ) (b : Bool) (first : ℕ → ℕ) (c : ℕ) {d r : ℕ}
    → r ≡ (if (y == py) && b then first y else c)
    → d ≡ (if (leb (y + 1) py && ltb py (y + 1 + k)) && b then first py else r)
    → d ≡ (if (leb y py && ltb py (y + suc k)) && b then first py else c)
rows_step y k py b first c row rest = elim (Bool-cases (y == py)) [
  | inl same ↦ let e : y ≡ py = ground arith in let row' = rw e at row in ground arith
  | inr other ↦ ground arith
]

show_rows-points :
    (fb : Screen) (limit : ℕ) (frame : ℕ → ℕ) (frm_width frm_height n k y : ℕ) (cells : Cells)
    → IsScreen fb
    → n ≤ fb.width
    → n ≤ frm_width
    → y + k ≤ fb.height
    → y + k ≤ frm_height
    → frm_height * frm_width ≤ limit
    → (t : Cells) × (show_rows fb limit frame frm_width n k y cells ≡ some t)
      × ((px py : ℕ)
          → px < fb.width
          → t (index fb px py) ≡ (
              if (leb y py && ltb py (y + k)) && ltb px n
              then frame (py * frm_width + px)
              else cells (index fb px py)))
unfolding show_rows
show_rows-points fb limit frame frm_width frm_height n zero y cells ok h1 h2 hy hf all =
    (cells, refl, λ px py h. ground arith)
show_rows-points fb limit frame frm_width frm_height n (suc k) y cells ok h1 h2 hy hf all =
    let room : y * frm_width + frm_width ≤ frm_height * frm_width =
      rows_apart y frm_height frm_width (omega arith) in
    let row = copy-row fb limit frame y (y * frm_width) n cells ok h1 (omega arith) (omega arith) in
    let rest =
      show_rows-points fb limit frame frm_width frm_height n k (y + 1) (row.0) ok h1 h2
        (omega arith) (omega arith) all in
    (
      rest.0,
      rw (row.1) (rest.1),
      λ px py h.
          rows_step y k py (ltb px n) (λ j. frame (j * frm_width + px)) (cells (index fb px py))
            (row.2 px py h) (rest.2 px py h),
    )

zero_plus : (n : ℕ) → 0 + n ≡ n
zero_plus n = omega arith

smaller_left : (a b : ℕ) → smaller a b ≤ a
smaller_left a b = ground arith

smaller_right : (a b : ℕ) → smaller a b ≤ b
smaller_right a b = ground arith

ltb-smaller : (p a b : ℕ) → p < a → ltb p (smaller a b) ≡ ltb p b
ltb-smaller p a b h = ground arith

-- The point in column `px` and row `py` after a frame is shown: that of the frame, where it has one.
abbrev pub framed : (frame : ℕ → ℕ) → (frm_width frm_height px py before : ℕ) → ℕ
framed frame frm_width frm_height px py before =
    if ltb py frm_height && ltb px frm_width then frame (py * frm_width + px) else before

-- A frame in a buffer that is large enough is shown without an access outside the buffer or the
-- memory of the screen: each point of the screen becomes the point of the frame in its column and
-- row, and stays as it is where the frame has none.
pub show_frame-points :
    (fb : Screen) (length : ℕ) (frame : ℕ → ℕ) (frm_width frm_height : ℕ) (cells : Cells)
    → IsScreen fb
    → frm_height * frm_width ≤ length / 2
    → (t : Cells) × (show_frame fb length frame frm_width frm_height cells ≡ some t)
      × ((px py : ℕ)
          → px < fb.width
          → py < fb.height
          → t (index fb px py) ≡ framed frame frm_width frm_height px py (cells (index fb px py)))
unfolding show_frame
show_frame-points fb length frame frm_width frm_height cells ok all =
    let r =
      show_rows-points fb (length / 2) frame frm_width frm_height (smaller fb.width frm_width)
        (smaller fb.height frm_height) 0 cells ok (smaller_left fb.width frm_width)
        (smaller_right fb.width frm_width) (omega (arith, smaller_left fb.height frm_height))
        (omega (arith, smaller_right fb.height frm_height)) all in
    (
      r.0,
      r.1,
      λ px py hx hy.
          r.2 px py hx
          ∙ rw
              (
                zero_plus (smaller fb.height frm_height),
                ltb-smaller px fb.width frm_width hx,
                ltb-smaller py fb.height frm_height hy,
              )
              (ground arith),
    )
