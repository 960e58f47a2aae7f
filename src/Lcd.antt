-- ===== src/Lcd.antt =====
-- study_test/LCD/lcd_test.c: points, lines and filled areas in the memory of a screen. A write
-- outside that memory is `none`. The coordinates are unsigned numbers of 32 bits.
pub mod Index
pub mod Fill
pub mod Line
pub mod Copy
mod Tests
use study_c_know.Common.{
  ℕ, zero, suc, ◌+◌, ◌-◌, ◌*◌, ◌/◌, ◌%◌, ◌^◌, Bool, true, false, Option, none, some, ◌==◌, ltb, leb,
  if◌then◌else◌,
}
use study_c_know.Common.Array.{◌>>=◌, ◌>>◌}

-- The number of unsigned ints.
abbrev pub word : ℕ
word = 2 ^ 32

-- `width`, `height`, and the number of cells at `screen_base`.
pub record Screen : Type 0 where
  pub width : ℕ
  pub height : ℕ
  pub size : ℕ

-- What is in the cells.
abbrev pub Cells : Type 0
Cells = ℕ → ℕ

-- n - 1, as an unsigned int
abbrev pub pred_word : ℕ → ℕ
pred_word n = (n + (word - 1)) % word

-- argb8888_to_rgb565, for a color of 32 bits: each of the three parts is shifted by 8 bits. The
-- parts have no bit in common, so `|` is a sum.
unfoldable pub argb8888_to_rgb565 : ℕ → ℕ
argb8888_to_rgb565 color = (color / 2 ^ 19 % 2 ^ 5) * 2 ^ 11 + (color / 2 ^ 10 % 2 ^ 6) * 2 ^ 2 + 0

-- screen_base[i] = c
unfoldable pub put : Screen → (i c : ℕ) → Cells → Option Cells
put s i c cells = if ltb i s.size then some (λ j. if i == j then c else cells j) else none

-- if (x >= limit) x = limit - 1;
abbrev pub clamp : (limit x : ℕ) → ℕ
clamp limit x = if leb limit x then pred_word limit else x

-- for ( ; x <= end; x++, temp += step) screen_base[temp] = c; for this number of rounds
unfoldable pub run_loop : Screen → (step rounds temp c : ℕ) → Cells → Option Cells
run_loop s step zero temp c cells = some cells
run_loop s step (suc k) temp c cells = put s temp c cells >>= run_loop s step k (temp + step) c

unfoldable pub lcd_draw_point : Screen → (x y color : ℕ) → Cells → Option Cells
lcd_draw_point s x y color cells =
    put s ((clamp s.height y * s.width + clamp s.width x) % word) (argb8888_to_rgb565 color) cells

unfoldable pub lcd_draw_line :
    Screen → (x y : ℕ) → (dir : Bool) → (length color : ℕ) → Cells → Option Cells
lcd_draw_line s x₀ y₀ dir length color cells =
    let x = clamp s.width x₀ in
    let y = clamp s.height y₀ in
    let temp = (y * s.width + x) % word in
    let c = argb8888_to_rgb565 color in
    if dir
    then run_loop s 1 (suc (clamp s.width (pred_word (x + length))) - x) temp c cells
    else run_loop s s.width (suc (clamp s.height (pred_word (y + length))) - y) temp c cells

-- The loop over the rows of an area.
unfoldable pub fill_loop : Screen → (rounds temp start_x columns c : ℕ) → Cells → Option Cells
fill_loop s zero temp start_x columns c cells = some cells
fill_loop s (suc k) temp start_x columns c cells =
    run_loop s 1 columns (temp + start_x) c cells
    >>= fill_loop s k (temp + s.width) start_x columns c

unfoldable pub lcd_fill : Screen → (start_x end_x start_y end_y color : ℕ) → Cells → Option Cells
lcd_fill s start_x end_x start_y end_y color cells =
    fill_loop s (suc (clamp s.height end_y) - start_y) (start_y * s.width % word) start_x
      (suc (clamp s.width end_x) - start_x) (argb8888_to_rgb565 color) cells

-- The four sides: above, below, left and right. The lengths are ints that become unsigned ints.
unfoldable pub lcd_draw_rectangle :
    Screen → (start_x end_x start_y end_y color : ℕ) → Cells → Option Cells
lcd_draw_rectangle s start_x end_x start_y end_y color cells =
    let x_len = (end_x + (word - start_x) + 1) % word in
    let y_len = (end_y + (word - start_y) + (word - 1)) % word in
    lcd_draw_line s start_x start_y true x_len color cells
    >>= lcd_draw_line s start_x end_y true x_len color
    >>= lcd_draw_line s start_x (start_y + 1) false y_len color
    >>= lcd_draw_line s end_x (start_y + 1) false y_len color
