-- ===== src/Lcd/Line.antt =====
-- The lines and frames of study_test/LCD/lcd_test.c: the points that change.
use study_c_know.Common.{
  ℕ, zero, suc, ◌+◌, ◌-◌, ◌*◌, ◌%◌, ◌^◌, ◌<◌, ◌≤◌, ◌≡◌, refl, ◌∙◌, ap, true, false, ◌&&◌, ◌||◌,
  Option, none, some, ◌==◌, ltb, leb, if◌then◌else◌, arith,
}
use study_c_know.Common.Array.{◌>>=◌}
use study_c_know.Lcd.{
  Screen, Cells, word, pred_word, put, clamp, argb8888_to_rgb565, run_loop, fill_loop,
  lcd_draw_line, lcd_draw_rectangle,
}
use study_c_know.Lcd.Index.{IsScreen, index, index_in_row, rows_apart}
use study_c_know.Lcd.Fill.{
  run_loop-cells, fill_loop-points, rounds-inside, rounds-between, clamp-inside,
}

clamp-same : (limit x : ℕ) → x < limit → clamp limit x ≡ x
clamp-same limit x h = ground arith

-- The end of a line that is not empty, or does not begin at 0.
end-between :
    (limit a n p : ℕ)
    → 0 < limit
    → limit < 2 ^ 31
    → p < limit
    → 0 < a + n
    → a + n ≤ word
    → (leb a p && ltb p (a + (suc (clamp limit (pred_word (a + n))) - a)))
      ≡ (leb a p && ltb p (a + n))
end-between limit a n p low high h some_end fits =
    let e : leb p (pred_word (a + n)) ≡ ltb p (a + n) = ground arith in
    rounds-between limit a (pred_word (a + n)) p low high h ∙ ap (λ b. leb a p && b) e

start-at :
    (s : Screen) (x y : ℕ)
    → IsScreen s
    → x < s.width
    → y < s.height
    → (y * s.width + x) % word ≡ y * s.width + x
start-at s x y ok hx hy =
    let r : y * s.width + s.width ≤ s.height * s.width = rows_apart y s.height s.width hy in
    let small : y * s.width + x < word = ground (arith, ok.small) in omega (arith, small)

-- A horizontal line colors the points of its row that are on the screen and no others, and is drawn in
-- the memory of the screen, if it begins on the screen, its end does not wrap, and it is not empty
-- at the left edge.
pub lcd_draw_line-horizontal :
    (s : Screen) (x y length color : ℕ) (cells : Cells)
    → IsScreen s
    → x < s.width
    → y < s.height
    → 0 < x + length
    → x + length ≤ word
    → (t : Cells) × (lcd_draw_line s x y true length color cells ≡ some t)
      × ((px py : ℕ)
          → px < s.width
          → t (index s px py) ≡ (
              if (y == py) && (leb x px && ltb px (x + length))
              then argb8888_to_rgb565 color
              else cells (index s px py)))
unfolding lcd_draw_line
lcd_draw_line-horizontal s x y length color cells ok hx hy some_end fits =
    let c = argb8888_to_rgb565 color in
    let end = pred_word (x + length) in
    let k = suc (clamp s.width end) - x in
    let inside : x + k ≤ s.width =
      rounds-inside s.width x (clamp s.width end) hx
        (clamp-inside s.width end ok.wide ok.wide_int) in
    let r : y * s.width + s.width ≤ s.height * s.width = rows_apart y s.height s.width hy in
    let room : y * s.width + x + k ≤ s.size = ground (arith, ok.inside) in
    let row = run_loop-cells s k (y * s.width + x) c cells room in
    (
      row.0,
      rw (clamp-same s.width x hx, clamp-same s.height y hy, start-at s x y ok hx hy) (row.1),
      λ px py h.
          row.2 (index s px py)
          ∙ ap (λ b. if b then c else cells (index s px py))
              (index_in_row s x k y px py inside h
                ∙ ap (λ b. (y == py) && b)
                    (end-between s.width x length px ok.wide ok.wide_int h some_end fits)),
    )

one-column : (x px : ℕ) → (leb x px && ltb px (x + 1)) ≡ (x == px)
one-column x px = ground arith

then_same :
    (o : Option Cells) (f g : Cells → Option Cells)
    → ((t : Cells) → f t ≡ g t)
    → (o >>= f) ≡ ((o >>= λ t. some t) >>= g)
then_same none f g h = refl
then_same (some t) f g h = h t

-- A loop down a column is a loop over rows of one point.
column-rows :
    (s : Screen) (k temp x c : ℕ) (cells : Cells)
    → run_loop s s.width k (temp + x) c cells ≡ fill_loop s k temp x 1 c cells
unfolding run_loop fill_loop
column-rows s zero temp x c cells = refl
column-rows s (suc k) temp x c cells = then_same (put s (temp + x) c cells) _ _ (λ t.
    let e : temp + x + s.width ≡ temp + s.width + x = omega arith in
    rw e (column-rows s k (temp + s.width) x c t))

-- A vertical line colors the points of its column that are on the screen and no others, and is drawn
-- in the memory of the screen, if it begins on the screen, its end does not wrap, and it is not
-- empty at the upper edge.
pub lcd_draw_line-vertical :
    (s : Screen) (x y length color : ℕ) (cells : Cells)
    → IsScreen s
    → x < s.width
    → y < s.height
    → 0 < y + length
    → y + length ≤ word
    → (t : Cells) × (lcd_draw_line s x y false length color cells ≡ some t)
      × ((px py : ℕ)
          → px < s.width
          → py < s.height
          → t (index s px py) ≡ (
              if (leb y py && ltb py (y + length)) && (x == px)
              then argb8888_to_rgb565 color
              else cells (index s px py)))
unfolding lcd_draw_line
lcd_draw_line-vertical s x y length color cells ok hx hy some_end fits =
    let c = argb8888_to_rgb565 color in
    let end = pred_word (y + length) in
    let k = suc (clamp s.height end) - y in
    let inside : y + k ≤ s.height =
      rounds-inside s.height y (clamp s.height end) hy
        (clamp-inside s.height end ok.high ok.high_int) in
    let rows = fill_loop-points s k y (y * s.width) x 1 c cells ok (omega arith) inside refl in
    (
      rows.0,
      rw (clamp-same s.width x hx, clamp-same s.height y hy, start-at s x y ok hx hy)
          (column-rows s k (y * s.width) x c cells ∙ rows.1),
      λ px py h v.
          rows.2 px py h
          ∙ ap (λ b. if b && (leb x px && ltb px (x + 1)) then c else cells (index s px py))
              (end-between s.height y length py ok.high ok.high_int v some_end fits)
          ∙ ap (λ b. if (leb y py && ltb py (y + length)) && b then c else cells (index s px py))
              (one-column x px),
    )

-- The union of the four sides.
frame :
    (x₀ x₁ y₀ y₁ px py c d : ℕ)
    → x₀ < x₁
    → y₀ < y₁
    → (if (leb (y₀ + 1) py && ltb py (y₀ + 1 + (y₁ - y₀ - 1))) && (x₁ == px)
        then c
        else if (leb (y₀ + 1) py && ltb py (y₀ + 1 + (y₁ - y₀ - 1))) && (x₀ == px)
        then c
        else if (y₁ == py) && (leb x₀ px && ltb px (x₀ + (x₁ - x₀ + 1)))
        then c
        else if (y₀ == py) && (leb x₀ px && ltb px (x₀ + (x₁ - x₀ + 1)))
        then c
        else d)
      ≡ (if (leb x₀ px && leb px x₁)
            && (leb y₀ py && leb py y₁)
            && ((x₀ == px) || (x₁ == px) || (y₀ == py) || (y₁ == py))
          then c
          else d)
frame x₀ x₁ y₀ y₁ px py c d hx hy = ground arith

-- The lengths of the sides.
long_side : (a b : ℕ) → a < b → b < 2 ^ 31 → (b + (word - a) + 1) % word ≡ b - a + 1
long_side a b h small = omega arith

short_side : (a b : ℕ) → a < b → b < 2 ^ 31 → (b + (word - a) + (word - 1)) % word ≡ b - a - 1
short_side a b h small = omega arith

-- `lcd_draw_rectangle` colors the points on the edge of its area and no others, and is drawn in the
-- memory of the screen, if the area has two rows and two columns at least and lies on the screen.
pub lcd_draw_rectangle-frame :
    (s : Screen) (start_x end_x start_y end_y color : ℕ) (cells : Cells)
    → IsScreen s
    → start_x < end_x
    → end_x < s.width
    → start_y < end_y
    → end_y < s.height
    → (t : Cells) × (lcd_draw_rectangle s start_x end_x start_y end_y color cells ≡ some t)
      × ((px py : ℕ)
          → px < s.width
          → py < s.height
          → t (index s px py) ≡ (
              if (leb start_x px && leb px end_x)
                && (leb start_y py && leb py end_y)
                && ((start_x == px) || (end_x == px) || (start_y == py) || (end_y == py))
              then argb8888_to_rgb565 color
              else cells (index s px py)))
unfolding lcd_draw_rectangle
lcd_draw_rectangle-frame s x₀ x₁ y₀ y₁ color cells ok hx wx hy wy =
    let w = ok.wide_int in
    let v = ok.high_int in
    let above =
      lcd_draw_line-horizontal s x₀ y₀ (x₁ - x₀ + 1) color cells ok (omega arith) (omega arith)
        (omega arith) (omega (arith, w)) in
    let below =
      lcd_draw_line-horizontal s x₀ y₁ (x₁ - x₀ + 1) color (above.0) ok (omega arith) wy
        (omega arith) (omega (arith, w)) in
    let left =
      lcd_draw_line-vertical s x₀ (y₀ + 1) (y₁ - y₀ - 1) color (below.0) ok (omega arith)
        (omega arith) (omega arith) (omega (arith, v)) in
    let right =
      lcd_draw_line-vertical s x₁ (y₀ + 1) (y₁ - y₀ - 1) color (left.0) ok wx (omega arith)
        (omega arith) (omega (arith, v)) in
    (
      right.0,
      rw
          (
            long_side x₀ x₁ hx (omega (arith, w)),
            short_side y₀ y₁ hy (omega (arith, v)),
            above.1,
            below.1,
            left.1,
          )
          (right.1),
      λ px py h k.
          right.2 px py h k
          ∙ rw (left.2 px py h k, below.2 px py h, above.2 px py h)
              (frame x₀ x₁ y₀ y₁ px py (argb8888_to_rgb565 color) _ hx hy),
    )
