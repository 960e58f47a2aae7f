-- ===== src/Bmp.antt =====
-- study_test/LCD/bmp_show.c: a picture from a file is shown on the screen. The cells of the screen
-- and of a row are bytes. What is printed and the check of argc are left out.
pub mod Read
pub mod Rows
pub mod Picture
pub mod Run
mod Tests
use study_c_know.Common.{
  ℕ, zero, suc, ◌+◌, ◌-◌, ◌*◌, ◌/◌, ◌%◌, ◌^◌, Bool, true, false, ◌&&◌, Option, none, some, List, [],
  ◌==◌, ltb, if◌then◌else◌, get_or, length, take, drop,
}
use study_c_know.Common.Int.{ℤ, pos, negsuc, ◌+ℤ◌, ◌-ℤ◌, ◌*ℤ◌, ◌==ℤ◌, ltb_ℤ, to_int, to_ℕ}
use study_c_know.Device.{
  Io, input, output, screen, buffer, pure, ◌>>=◌, ◌>>◌, with_held, ask, touch, acquire, release,
  fetch, branch, attempt,
}
use study_c_know.Lcd.{Screen, Cells, word}
use study_c_know.Lcd.Copy.{copy}

pub data Call : Type 0 where
  open_fb get_var get_fix mmap_fb close_fb munmap_fb munmap_other : Call
  open_bmp close_bmp : Call
  read_bmp : (size : ℕ) → Call
  seek_set : (offset : ℕ) → Call
  seek_cur : (offset : ℕ) → Call
  malloc_line : (size : ℕ) → Call
  free_line : Call

-- The fields of the two headers that are used.
pub record Info : Type 0 where
  pub offset : ℕ
  pub width : ℤ
  pub height : ℤ
  pub bpp : ℕ

-- A number of two or four bytes at a place, the lowest byte first.
abbrev pub u16_at : List ℕ → ℕ → ℕ
u16_at bytes i = get_or bytes i 0 + 256 * get_or bytes (i + 1) 0

abbrev pub u32_at : List ℕ → ℕ → ℕ
u32_at bytes i = u16_at bytes i + 2 ^ 16 * u16_at bytes (i + 2)

-- The same four bytes as an int.
abbrev pub int_at : List ℕ → ℕ → ℤ
int_at bytes i =
    if ltb (u32_at bytes i) (2 ^ 31)
    then pos (u32_at bytes i)
    else pos (u32_at bytes i) -ℤ pos (2 ^ 32)

abbrev pub info_of : (file_h info_h : List ℕ) → Info
info_of file_h info_h = record {
  offset = u32_at file_h 10;
  width = int_at info_h 4;
  height = int_at info_h 8;
  bpp = u16_at info_h 14;
}

-- A step that is undefined for some values.
abbrev pub lift : {A : Type 0} → Option A → Io Call A
lift none e s = none
lift (some a) e s = some (a, s)

-- A read of a file whose content is known, at a position: the result, the bytes that it delivers, and
-- the position after it. A read that does not fail delivers what there is, up to the size.
unfoldable pub read : (file : List ℕ) → (at size : ℕ) → Io Call (ℤ × (List ℕ × ℕ))
read file at size = do
  ret ← with_held input (read_bmp size)
  branch (ltb_ℤ ret (pos 0)) (pure (ret, ([], at))) (
      pure (
        pos (length (take size (drop at file))),
        (take size (drop at file), at + length (take size (drop at file))),
      ))

-- info_h.width * info_h.bpp / 8 as an unsigned long, where a product that does not fit an int is `none`
unfoldable pub line_size : Info → Option ℕ
line_size info = as_unsigned (to_int (info.width *ℤ pos info.bpp))
  where
    as_unsigned : Option ℤ → Option ℕ
    as_unsigned none = none
    as_unsigned (some (pos n)) = some (n / 8)
    as_unsigned (some (negsuc n)) = some ((2 ^ 64 - (n + 1) / 8) % 2 ^ 64)

-- The buffer after a read into it.
abbrev pub filled : List ℕ → (ℕ → ℕ) → ℕ → ℕ
filled bytes line i = get_or bytes i (line i)

-- memcpy(screen_base, line_buf, n), where the screen is entered at its start or after it
unfoldable pub copy_at :
    Screen → (limit : ℕ) → (line : ℕ → ℕ) → (base : ℤ) → (n : ℕ) → Cells → Option Cells
copy_at fb limit line (pos base) n cells = copy fb limit line base 0 n cells
copy_at fb limit line (negsuc _) n cells = none

-- The two loops over the rows, `up` for the one that goes up the screen: screen_base and the cells
-- after them. A row of the screen has `fb.width` bytes.
unfoldable pub rows_loop :
    (rounds : ℕ)
    → (up : Bool) → Screen
    → (file : List ℕ) → (line_bytes min_bytes at : ℕ) → (base : ℤ) → (line : ℕ → ℕ) → Cells
    → Io Call (ℤ × Cells)
rows_loop zero up fb file line_bytes min_bytes at base line cells = pure (base, cells)
rows_loop (suc j) up fb file line_bytes min_bytes at base line cells = do
  (ret, (bytes, at')) ← read file at line_bytes
  touch buffer
  touch screen
  cells' ← lift (copy_at fb line_bytes (filled bytes line) base min_bytes cells)
  rows_loop j up fb file line_bytes min_bytes at'
      (if up then base -ℤ pos fb.width else base +ℤ pos fb.width) (filled bytes line) cells'

-- lseek(fd, k, SEEK_CUR): the position after it.
unfoldable pub skip : (at k : ℕ) → Io Call ℕ
skip at k = do ret ← with_held input (seek_cur k); pure (if ltb_ℤ ret (pos 0) then at else at + k)

-- screen_base += width * (rows - 1)
abbrev pub last_row : Screen → (rows : ℕ) → ℤ
last_row fb rows = pos fb.width *ℤ (pos rows -ℤ pos 1)

-- The rows of a picture whose last row comes first (`height` is positive), and of one whose first row
-- comes first. 0 - info_h.height is undefined where it does not fit an int.
unfoldable pub rows_up :
    Screen
    → (height : ℕ) → (file : List ℕ) → (line_bytes min_bytes at : ℕ) → (line : ℕ → ℕ) → Cells
    → Io Call (ℤ × Cells)
rows_up fb height file line_bytes min_bytes at line cells =
    branch (ltb fb.height height)
      (do
        at' ← skip at ((height - fb.height) * line_bytes)
        rows_loop fb.height true fb file line_bytes min_bytes at' (last_row fb fb.height) line
            cells)
      (rows_loop height true fb file line_bytes min_bytes at (last_row fb height) line cells)

unfoldable pub rows_down :
    Screen
    → (height : ℤ) → (file : List ℕ) → (line_bytes min_bytes at : ℕ) → (line : ℕ → ℕ) → Cells
    → Io Call (ℤ × Cells)
rows_down fb height file line_bytes min_bytes at line cells = do
  temp ← lift (to_int (pos 0 -ℤ height))
  rows_loop (if ltb_ℤ (pos fb.height) temp then fb.height else to_ℕ temp) false fb file line_bytes
      min_bytes at (pos 0) line cells

-- if (b > a) min = a; else min = b;
abbrev pub smaller : (a b : ℕ) → ℕ
smaller a b = if ltb a b then a else b

-- show_bmp_image from `malloc` on, with what the fresh buffer contains: the result, screen_base and the cells.
unfoldable pub show_lines :
    Screen
    → (line_length : ℕ) → (file : List ℕ) → (fresh : ℕ → ℕ) → Info
    → (line_bytes at : ℕ) → Cells
    → Io Call (ℤ × (ℤ × Cells))
show_lines fb line_length file fresh info line_bytes at cells =
    attempt (acquire buffer (malloc_line line_bytes))
      (do release input close_bmp; pure (negsuc 0, (pos 0, cells)))
      (do
        r ←
            branch (ltb_ℤ (pos 0) info.height)
              (rows_up fb (to_ℕ info.height) file line_bytes (smaller line_bytes line_length) at
                fresh cells)
              (rows_down fb info.height file line_bytes (smaller line_bytes line_length) at fresh
                cells)
        release input close_bmp
        release buffer free_line
        pure (pos 0, r))

-- The letters B and M
abbrev pub is_bmp : List ℕ → Bool
is_bmp bytes = (get_or bytes 0 0 == 66) && (get_or bytes 1 0 == 77)

unfoldable pub show_bmp_image :
    Screen
    → (line_length : ℕ) → (file : List ℕ) → (fresh : ℕ → ℕ) → Cells
    → Io Call (ℤ × (ℤ × Cells))
show_bmp_image fb line_length file fresh cells =
    attempt (acquire input open_bmp) (pure (negsuc 0, (pos 0, cells))) do
      (n, (file_h, at)) ← read file 0 14
      branch (n ==ℤ pos 14)
          (branch (is_bmp file_h)
            (do
              (m, (info_h, at')) ← read file at 40
              branch (m ==ℤ pos 40)
                  (do
                    let info = info_of file_h info_h
                    moved ← with_held input (seek_set info.offset)
                    branch (moved ==ℤ negsuc 0) close_failed (do
                      line_bytes ← lift (line_size info)
                      show_lines fb line_length file fresh info line_bytes info.offset cells))
                  close_failed)
            close_failed)
          close_failed
  where
    close_failed : Io Call (ℤ × (ℤ × Cells))
    close_failed = do release input close_bmp; pure (negsuc 0, (pos 0, cells))

-- munmap(screen_base, screen_size), which gives the screen back where screen_base is its start.
abbrev pub unmap : (base : ℤ) → Io Call (Unit {0})
unmap base = branch (base ==ℤ pos 0) (release screen munmap_fb) (do _ ← ask munmap_other; pure tt)

-- `main`: the status, and what the screen shows.
unfoldable pub main : (file : List ℕ) → (fresh : ℕ → ℕ) → Io Call (ℤ × Cells)
main file fresh = attempt (acquire output open_fb) (pure (pos 1, λ _. 0)) do
  (_, var) ← fetch output get_var
  (_, fix) ← fetch output get_fix
  attempt (acquire screen mmap_fb) (do release output close_fb; pure (pos 1, λ _. 0))
      (do
        touch screen
        (ret, (base, cells)) ←
            show_bmp_image
              (record {
                width = 2 * get_or var 0 0;
                height = get_or var 1 0;
                size = get_or fix 0 0 * get_or var 1 0 % word;
              })
              (get_or fix 0 0) file fresh (λ _. 255)
        unmap base
        release output close_fb
        pure (pos 0, cells))
