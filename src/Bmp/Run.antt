-- ===== src/Bmp/Run.antt =====
-- `show_bmp_image` and `main` of bmp_show.c on a file that is a picture.
use study_c_know.Common.{
  ℕ, zero, suc, ◌+◌, ◌*◌, ◌/◌, ◌%◌, ◌^◌, ◌<◌, ◌≤◌, ◌≡◌, ◌≢◌, refl, true, false, some, List, [], ◌∷◌,
  arith, get_or, length, take, drop, sym, ap, subst, Bool-cases, inl, inr,
}
use study_c_know.Common.Int.{ℤ, pos, negsuc, ◌*ℤ◌, ◌==ℤ◌, ==ℤ_iff, ltb_ℤ, to_int, to_ℕ}
use study_c_know.Device.{Env, State, Io, input, output, screen, buffer, branch, release, pure, ◌>>◌}
use study_c_know.Device.Ends.{Ends, Ends-pure, Ends-bind, Ends-at}
use study_c_know.Lcd.{Screen, Cells, word}
use study_c_know.Lcd.Index.{IsScreen, index}
use study_c_know.Bmp.{
  Call, Info, get_var, get_fix, info_of, is_bmp, line_size, smaller, rows_up, rows_down, show_lines,
  show_bmp_image, unmap, main, open_fb, mmap_fb, close_bmp, free_line, close_fb, malloc_line,
  open_bmp, read_bmp, seek_set, read,
}
use study_c_know.Bmp.Rows.{state, showing, NoErrors}
use study_c_know.Bmp.Read.{length-drop-take}
use study_c_know.Bmp.Picture.{rows, pictured, Pictured, Shown, rows_up-Shown, rows_down-Shown}

-- The headers of a file.
abbrev pub header : List ℕ → Info
header file = info_of (take 14 file) (take 40 (drop 14 file))

-- The number of bytes from a row of `w` points of 16 bits to the next one in a BMP file: a row is
-- padded to a multiple of 32 bits.
abbrev pub stride : (w : ℕ) → ℕ
stride w = (w * 16 + 31) / 32 * 4

-- A BMP file with points of 16 bits and a row at least, whose data the file contains. Its width is
-- even, so that its rows need no padding; they have less than 2 ^ 31 bits.
pub record IsBmp (file : List ℕ) (w : ℕ) : Type 0 where
  pub whole : 54 ≤ length file
  pub letters : is_bmp (take 14 file) ≡ true
  pub wide : (header file).width ≡ pos w
  pub bits : (header file).bpp ≡ 16
  pub even : w % 2 ≡ 0
  pub int : w * 16 < 2 ^ 31
  pub some_rows : 0 < rows (header file).height
  pub few_rows : rows (header file).height < 2 ^ 31
  pub contained : (header file).offset + rows (header file).height * stride w ≤ length file

unpadded : (w : ℕ) → w % 2 ≡ 0 → w * 16 / 8 ≡ stride w
unpadded w h = omega arith

int_product : (a b : ℕ) → pos a *ℤ pos b ≡ pos (a * b)
unfolding ◌*ℤ◌
int_product a b = let e : a * 0 + 0 * b ≡ 0 = grind arith in ground arith

to_int-small : (n : ℕ) → n < 2 ^ 31 → to_int (pos n) ≡ some (pos n)
unfolding to_int
to_int-small n h = ground arith

size_of_line :
    (info : Info) (w : ℕ)
    → info.width ≡ pos w
    → info.bpp ≡ 16
    → w % 2 ≡ 0
    → w * 16 < 2 ^ 31
    → line_size info ≡ some (stride w)
unfolding line_size
size_of_line info w wide bits even small =
    rw (wide, bits, int_product w 16, to_int-small (w * 16) small) (ap some (unpadded w even))

-- What `show_bmp_image` leaves: success, and the files and the memory that it opened given back.
abbrev pub Displayed : Screen → List ℕ → ℕ → Cells → ℤ × (ℤ × Cells) → State Call → Type 0
Displayed fb file w before r t =
    (r.0 ≡ pos 0)
    × (t.held ≡ screen ∷ output ∷ [])
    × Pictured fb file (header file).offset (stride w) (header file).height before (r.1)

not_same : (x y : ℤ) → x ≢ y → (x ==ℤ y) ≡ false
not_same x y ne = elim (Bool-cases (x ==ℤ y)) [
  | inl same ↦ absurd (ne ((==ℤ_iff x y).0 same))
  | inr other ↦ other
]

not_failed : (x : ℤ) → ltb_ℤ x (pos 0) ≡ false → (x ==ℤ negsuc 0) ≡ false
not_failed (pos n) h = refl
not_failed (negsuc n) h = absurd (ground arith)

module _ (e : Env Call) (good : NoErrors e) (fb : Screen) (ok : IsScreen fb) (file : List ℕ)
    (fresh : ℕ → ℕ) (cells : Cells) where
  -- The branch on the sign of the height.
  lines-Shown :
      (height : ℤ) (at lb m : ℕ) (us : List Call)
      → 0 < rows height
      → rows height < 2 ^ 31
      → at + rows height * lb ≤ length file
      → Ends
          (branch
            (ltb_ℤ (pos 0) height)
            (rows_up fb (to_ℕ height) file lb (smaller lb fb.width) at fresh cells)
            (rows_down fb height file lb (smaller lb fb.width) at fresh cells)
            e
            (state m showing us))
          (Shown fb file at lb height cells)
  lines-Shown (pos zero) at lb m us some_rows few_rows enough = absurd (omega arith)
  lines-Shown (pos (suc n)) at lb m us some_rows few_rows enough =
      let up : ltb_ℤ (pos 0) (pos (suc n)) ≡ true = ground arith in
      rw up (rows_up-Shown e good fb ok file lb fresh cells m us at (suc n) enough)
  lines-Shown (negsuc n) at lb m us some_rows few_rows enough =
      let down : ltb_ℤ (pos 0) (negsuc n) ≡ false = ground arith in
      rw down (rows_down-Shown e good fb ok file lb fresh cells m us at n few_rows enough)

  show_lines-Displayed :
      (info : Info) (lb m : ℕ) (us : List Call)
      → 0 < rows info.height
      → rows info.height < 2 ^ 31
      → info.offset + rows info.height * lb ≤ length file
      → Ends
          (show_lines fb fb.width file fresh info lb info.offset cells e
            (state m (input ∷ screen ∷ output ∷ []) us))
          λ r t.
            (r.0 ≡ pos 0)
            × (t.held ≡ screen ∷ output ∷ [])
            × Pictured fb file info.offset lb info.height cells (r.1)
  unfolding show_lines
  show_lines-Displayed info lb m us some_rows few_rows enough = rw (good (malloc_line lb) m) (
      Ends-bind finish e
        (lines-Shown info.height info.offset lb (suc m) (malloc_line lb ∷ us) some_rows few_rows
          enough)
        (λ r t (own, pictured). Ends-at (finish r) e t own (Ends-pure _ _ (refl, refl, pictured))))
    where
      finish : ℤ × Cells → Io Call (ℤ × (ℤ × Cells))
      finish r = do release input close_bmp; release buffer free_line; pure (pos 0, r)

  after_seek : (c : Call) (t : ℕ) → (e.answer c t ==ℤ negsuc 0) ≡ false
  after_seek c t = not_failed (e.answer c t) (good c t)

  show_bmp_image-Displayed :
      (w m : ℕ) (us : List Call)
      → IsBmp file w
      → Ends
          (show_bmp_image fb fb.width file fresh cells e (state m (screen ∷ output ∷ []) us))
          (Displayed fb file w cells)
  unfolding show_bmp_image read
  show_bmp_image-Displayed w m us is =
      let n14 = length-drop-take 14 file 0 (omega (arith, is.whole)) in
      let n40 = length-drop-take 40 file 14 (omega (arith, is.whole)) in
      rw (good open_bmp m, good (read_bmp 14) (suc m), n14)
        (rw (is.letters, good (read_bmp 40) (suc (suc m)), n40)
          (rw
            (
              after_seek (seek_set (header file).offset) (suc (suc (suc m))),
              size_of_line (header file) w is.wide is.bits is.even is.int,
            )
            (show_lines-Displayed (header file) (stride w) (suc (suc (suc (suc m)))) _ is.some_rows
              is.few_rows is.contained)))

-- The screen that the answers describe, its rows in bytes.
abbrev pub display : Env Call → Screen
display e = record {
  width = 2 * get_or (e.payload get_var 1) 0 0;
  height = get_or (e.payload get_var 1) 1 0;
  size = get_or (e.payload get_fix 2) 0 0 * get_or (e.payload get_var 1) 1 0 % word;
}

-- The calls that open the screen.
abbrev opened : List Call
opened = mmap_fb ∷ get_fix ∷ get_var ∷ open_fb ∷ []

-- If no call fails, the file is a BMP file of 16 bits a point and of an even width, and the rows of
-- the screen follow each other in its memory, then the program ends with EXIT_SUCCESS, and the screen
-- shows the picture, byte by byte, the right way up whether its first row comes first or its last
-- one, cut off at the edges of the screen, on white. The file and the memory are
-- given back, but not the screen: `munmap` gets screen_base, which the loop has moved.
pub bmp_main-Pictured :
    (e : Env Call) (file : List ℕ) (fresh : ℕ → ℕ) (w : ℕ)
    → NoErrors e
    → IsScreen (display e)
    → get_or (e.payload get_fix 2) 0 0 ≡ (display e).width
    → IsBmp file w
    → Ends (main file fresh e (state 0 [] [])) λ r t.
      (r.0 ≡ pos 0)
      × (t.held ≡ screen ∷ [])
      × ((px py : ℕ)
          → px < (display e).width
          → py < (display e).height
          → r.1 (index (display e) px py)
            ≡ pictured file (header file).offset (stride w) (header file).height px py 255)
unfolding main
bmp_main-Pictured e file fresh w good ok dense is = rw (good open_fb 0) (
    rw (good mmap_fb 3) (
      Ends-bind finish e
        (subst
          (λ n.
            Ends
              (show_bmp_image (display e) n file fresh (λ _. 255) e
                (state 4 (screen ∷ output ∷ []) opened))
              (Displayed (display e) file w (λ _. 255)))
          (sym dense)
          (show_bmp_image-Displayed e good (display e) ok file fresh (λ _. 255) w 4 _ is))
        (λ r t (ret, own, (moved, points)).
          Ends-at (finish r) e t own
            (rw (not_same (r.1.0) (pos 0) moved) (Ends-pure _ _ (refl, refl, points))))))
  where
    finish : ℤ × (ℤ × Cells) → Io Call (ℤ × Cells)
    finish r = do unmap (r.1.0); release output close_fb; pure (pos 0, r.1.1)
