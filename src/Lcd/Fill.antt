-- ===== src/Lcd/Fill.antt =====
-- What study_test/LCD/lcd_test.c draws: the points that change.
use study_c_know.Common.{
  ℕ, zero, suc, ◌+◌, ◌-◌, ◌*◌, ◌%◌, ◌^◌, ◌<◌, ◌≤◌, ◌≡◌, refl, ◌∙◌, ap, Bool, true, false, ◌&&◌,
  some, ◌==◌, ltb, leb, if◌then◌else◌, arith,
}
use study_c_know.Lcd.{
  Screen, Cells, word, put, clamp, argb8888_to_rgb565, run_loop, fill_loop, lcd_fill,
}
use study_c_know.Lcd.Index.{IsScreen, index, index_in_row, rows_apart}

-- A loop over cells side by side colors these and no others.
pub run_loop-cells :
    (s : Screen) (k temp c : ℕ) (cells : Cells)
    → temp + k ≤ s.size
    → (t : Cells) × (run_loop s 1 k temp c cells ≡ some t)
      × ((i : ℕ) → t i ≡ (if leb temp i && ltb i (temp + k) then c else cells i))
unfolding run_loop put
run_loop-cells s zero temp c cells room = (cells, refl, λ i. ground arith)
run_loop-cells s (suc k) temp c cells room =
    let here : ltb temp s.size ≡ true = ground arith in
    let rest =
      run_loop-cells s k (temp + 1) c (λ j. if temp == j then c else cells j) (omega arith) in
    (rest.0, rw here (rest.1), λ i. let h = rest.2 i in ground arith)

-- The first row and the rows below it.
one_more_row :
    (y k py : ℕ) (b : Bool) (c d : ℕ)
    → (if (leb (suc y) py && ltb py (suc y + k)) && b then c else if (y == py) && b then c else d)
      ≡ (if (leb y py && ltb py (y + suc k)) && b then c else d)
one_more_row y k py true c d = ground arith
one_more_row y k py false c d = ground arith

-- A loop over rows colors the points of an area and no others.
pub fill_loop-points :
    (s : Screen) (k y temp x columns c : ℕ) (cells : Cells)
    → IsScreen s
    → x + columns ≤ s.width
    → y + k ≤ s.height
    → temp ≡ y * s.width
    → (t : Cells) × (fill_loop s k temp x columns c cells ≡ some t)
      × ((px py : ℕ)
          → px < s.width
          → t (index s px py) ≡ (
              if (leb y py && ltb py (y + k)) && (leb x px && ltb px (x + columns))
              then c
              else cells (index s px py)))
unfolding fill_loop
fill_loop-points s zero y temp x columns c cells ok hx hy at =
    (cells, refl, λ px py h. ground arith)
fill_loop-points s (suc k) y temp x columns c cells ok hx hy at =
    let inside : y * s.width + s.width ≤ s.height * s.width =
      rows_apart y s.height s.width (omega arith) in
    let room : temp + x + columns ≤ s.size = ground (arith, ok.inside) in
    let row = run_loop-cells s columns (temp + x) c cells room in
    let rest =
      fill_loop-points s k (suc y) (temp + s.width) x columns c (row.0) ok hx (omega arith)
        (grind arith) in
    (
      rest.0,
      rw (row.1) (rest.1),
      λ px py h.
          let first : row.0 (index s px py) ≡ (
              if (y == py) && (leb x px && ltb px (x + columns))
              then c
              else cells (index s px py)) =
            row.2 (index s px py)
            ∙ ap (λ b. if b then c else cells (index s px py))
                (rw at (index_in_row s x columns y px py hx h)) in
          rest.2 px py h ∙ rw first (one_more_row y k py (leb x px && ltb px (x + columns)) c _),
    )

-- The rounds of a loop that goes up to a clamped end.
pub rounds-inside : (limit a e : ℕ) → a < limit → e < limit → a + (suc e - a) ≤ limit
rounds-inside limit a e low high = omega arith

pub rounds-between :
    (limit a e p : ℕ)
    → 0 < limit
    → limit < 2 ^ 31
    → p < limit
    → (leb a p && ltb p (a + (suc (clamp limit e) - a))) ≡ (leb a p && leb p e)
rounds-between limit a e p low high h = ground arith

pub start-small :
    (s : Screen) (y : ℕ) → IsScreen s → y < s.height → y * s.width % word ≡ y * s.width
start-small s y ok h =
    let r : y * s.width + s.width ≤ s.height * s.width = rows_apart y s.height s.width h in
    let small : y * s.width < word = ground (arith, ok.small, ok.wide) in omega (arith, small)

pub clamp-inside : (limit e : ℕ) → 0 < limit → limit < 2 ^ 31 → clamp limit e < limit
clamp-inside limit e low high = ground arith

-- `lcd_fill` writes only to the memory of the screen. It colors the points of the area that are on the
-- screen and leaves the others, if the area begins on the screen.
pub lcd_fill-points :
    (s : Screen) (start_x end_x start_y end_y color : ℕ) (cells : Cells)
    → IsScreen s
    → start_x < s.width
    → start_y < s.height
    → (t : Cells) × (lcd_fill s start_x end_x start_y end_y color cells ≡ some t)
      × ((px py : ℕ)
          → px < s.width
          → py < s.height
          → t (index s px py) ≡ (
              if (leb start_y py && leb py end_y) && (leb start_x px && leb px end_x)
              then argb8888_to_rgb565 color
              else cells (index s px py)))
unfolding lcd_fill
lcd_fill-points s start_x end_x start_y end_y color cells ok hx hy =
    let cx : clamp s.width end_x < s.width = clamp-inside s.width end_x ok.wide ok.wide_int in
    let cy : clamp s.height end_y < s.height = clamp-inside s.height end_y ok.high ok.high_int in
    let r =
      fill_loop-points s (suc (clamp s.height end_y) - start_y) start_y (start_y * s.width % word)
        start_x (suc (clamp s.width end_x) - start_x) (argb8888_to_rgb565 color) cells ok
        (rounds-inside _ _ _ hx cx) (rounds-inside _ _ _ hy cy) (start-small s start_y ok hy) in
    (
      r.0,
      r.1,
      λ px py kx ky.
          r.2 px py kx
          ∙ ap (λ b. if b then argb8888_to_rgb565 color else cells (index s px py))
              (rw
                (
                  rounds-between s.height start_y end_y py ok.high ok.high_int ky,
                  rounds-between s.width start_x end_x px ok.wide ok.wide_int kx,
                )
                refl),
    )
