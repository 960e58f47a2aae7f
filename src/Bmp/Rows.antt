-- ===== src/Bmp/Rows.antt =====
-- The loops of bmp_show.c over the rows of a picture.
use study_c_know.Common.{
  ℕ, zero, suc, ◌+◌, ◌-◌, ◌*◌, ◌<◌, ◌≤◌, ◌≡◌, refl, Bool, true, false, ◌&&◌, List, [], ◌∷◌, ◌==◌,
  ltb, leb, if◌then◌else◌, arith, get_or, length, take, drop, ◌∙◌,
}
use study_c_know.Common.Int.{ℤ, pos, ◌+ℤ◌, ◌-ℤ◌, ltb_ℤ}
use study_c_know.Device.{Env, State, Resource, input, output, screen, buffer}
use study_c_know.Device.Ends.{Ends, Ends-pure, Ends-mono}
use study_c_know.Lcd.{Screen, Cells}
use study_c_know.Lcd.Index.{IsScreen, index}
use study_c_know.Lcd.Copy.{copy-row}
use study_c_know.Bmp.{Call, read_bmp, read, filled, copy_at, rows_loop}
use study_c_know.Bmp.Read.{
  length-drop-take, new_row, next_down, row_start, next_up, rows_below, start_of, from_top,
  rows_above,
}

abbrev pub state : ℕ → List Resource → List Call → State Call
state m held us = record { time = m; held = held; trace = us }

-- What is held while rows are shown.
abbrev pub showing : List Resource
showing = buffer ∷ input ∷ screen ∷ output ∷ []

-- No call fails.
abbrev pub NoErrors : Env Call → Type 0
NoErrors e = (c : Call) (t : ℕ) → ltb_ℤ (e.answer c t) (pos 0) ≡ false

module _ (e : Env Call) (good : NoErrors e) (fb : Screen) (ok : IsScreen fb) (file : List ℕ)
    (lb n : ℕ) (n_line : n ≤ lb) (n_screen : n ≤ fb.width) where
  -- One round, which copies to the row `y`, with the rounds after it.
  round-row :
      (j : ℕ) (up : Bool) (y at : ℕ) (line : ℕ → ℕ) (cells : Cells) (m : ℕ) (us : List Call)
      {Q : ℤ × Cells → State Call → Type 0}
      → y < fb.height
      → at + lb ≤ length file
      → ((line' : ℕ → ℕ) (cells' : Cells)
          → ((px py : ℕ)
              → px < fb.width
              → cells' (index fb px py) ≡ (
                  if (y == py) && ltb px n
                  then get_or file (at + px) 0
                  else cells (index fb px py)))
          → Ends
              (rows_loop j up fb file lb n
                (at + lb)
                (if up
                  then pos (y * fb.width) -ℤ pos fb.width
                  else pos (y * fb.width) +ℤ pos fb.width)
                line'
                cells'
                e
                (state (suc m) showing (read_bmp lb ∷ us)))
              Q)
      → Ends
          (rows_loop
            (suc j)
            up
            fb
            file
            lb
            n
            at
            (pos (y * fb.width))
            line
            cells
            e
            (state m showing us))
          Q
  unfolding rows_loop read copy_at
  round-row j up y at line cells m us hy enough rounds =
      let bytes = take lb (drop at file) in
      let (cells', copied, points) =
        copy-row fb lb (filled bytes line) y 0 n cells ok n_screen hy (omega arith) in
      rw (good (read_bmp lb) m, length-drop-take lb file at enough, copied)
        (rounds (filled bytes line) cells' λ px py h.
          new_row file lb (y == py) px at n (cells (index fb px py)) line enough n_line
            (points px py h))

  -- The rows from the row `y` of the screen down.
  rows_loop-down :
      (k y at : ℕ) (base : ℤ) (line : ℕ → ℕ) (cells : Cells) (m : ℕ) (us : List Call)
      → base ≡ pos (y * fb.width)
      → y + k ≤ fb.height
      → at + k * lb ≤ length file
      → Ends (rows_loop k false fb file lb n at base line cells e (state m showing us)) λ r t.
        (r.0 ≡ pos ((y + k) * fb.width))
        × (t.held ≡ showing)
        × ((px py : ℕ)
            → px < fb.width
            → r.1 (index fb px py) ≡ (
                if (leb y py && ltb py (y + k)) && ltb px n
                then get_or file (at + (py - y) * lb + px) 0
                else cells (index fb px py)))
  unfolding rows_loop
  rows_loop-down zero y at base line cells m us here hy enough =
      Ends-pure _ _
        (rw here (let e : y + 0 ≡ y = omega arith in rw e refl), refl, λ px py h. ground arith)
  rows_loop-down (suc k) y at base line cells m us here hy enough = rw here (
      round-row k false y at line cells m us (omega arith) (grind arith) λ line' cells' points.
        Ends-mono
          (rows_loop-down k (suc y) (at + lb) _ line' cells' (suc m) _ (next_down y fb.width)
            (omega arith) (grind arith))
          λ r t (last, own, rest). (
            let e : suc y + k ≡ y + suc k = omega arith in last ∙ rw e refl,
            own,
            λ px py h.
                rows_below (λ i. get_or file i 0) y k py at px lb (ltb px n)
                  (cells (index fb px py)) (points px py h) (rest px py h),
          ))

  -- The rows from the first one on.
  pub rows_loop-top :
      (k at : ℕ) (line : ℕ → ℕ) (cells : Cells) (m : ℕ) (us : List Call)
      → k ≤ fb.height
      → at + k * lb ≤ length file
      → Ends (rows_loop k false fb file lb n at (pos 0) line cells e (state m showing us)) λ r t.
        (r.0 ≡ pos (k * fb.width))
        × (t.held ≡ showing)
        × ((px py : ℕ)
            → px < fb.width
            → r.1 (index fb px py) ≡ (
                if ltb py k && ltb px n
                then get_or file (at + py * lb + px) 0
                else cells (index fb px py)))
  rows_loop-top k at line cells m us hy enough =
      let z : pos 0 ≡ pos (0 * fb.width) = start_of fb.width in
      Ends-mono (rows_loop-down k 0 at (pos 0) line cells m us z (omega arith) enough)
        λ r t (last, own, points). (
          last ∙ (let e : 0 + k ≡ k = omega arith in rw e refl),
          own,
          λ px py h.
              points px py h
              ∙ from_top (λ i. get_or file i 0) k py at px lb (ltb px n) (cells (index fb px py)),
        )

  -- The rows above the row `k` of the screen, from the lowest one up.
  pub rows_loop-up :
      (k at : ℕ) (line : ℕ → ℕ) (cells : Cells) (m : ℕ) (us : List Call)
      → k ≤ fb.height
      → at + k * lb ≤ length file
      → Ends
          (rows_loop k true fb file lb n at
            (row_start k fb.width)
            line
            cells
            e
            (state m showing us))
          λ r t.
            (r.0 ≡ row_start 0 fb.width)
            × (t.held ≡ showing)
            × ((px py : ℕ)
                → px < fb.width
                → r.1 (index fb px py) ≡ (
                    if ltb py k && ltb px n
                    then get_or file (at + (k - 1 - py) * lb + px) 0
                    else cells (index fb px py)))
  unfolding rows_loop
  rows_loop-up zero at line cells m us hy enough =
      Ends-pure _ _ (refl, refl, λ px py h. ground arith)
  rows_loop-up (suc k) at line cells m us hy enough =
      round-row k true k at line cells m us hy (grind arith) λ line' cells' points.
        rw (next_up k fb.width) (
          Ends-mono
            (rows_loop-up k (at + lb) line' cells' (suc m) (read_bmp lb ∷ us) (omega arith)
              (grind arith))
            λ r t (last, own, rest). (
              last,
              own,
              λ px py h.
                  rows_above (λ i. get_or file i 0) k py at px lb (ltb px n)
                    (cells (index fb px py)) (points px py h) (rest px py h),
            ))
