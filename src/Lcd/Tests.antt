-- ===== src/Lcd/Tests.antt =====
-- What study_test/LCD/lcd_test.c draws on a screen of 8 by 4 points.
use study_c_know.Common.{ℕ, ◌<◌, ◌≡◌, refl, ◌&&◌, ◌||◌, some, ◌==◌, leb, if◌then◌else◌, arith}
use study_c_know.Lcd.{Screen, Cells, argb8888_to_rgb565, lcd_fill, lcd_draw_rectangle}
use study_c_know.Lcd.Index.{IsScreen, index}
use study_c_know.Lcd.Fill.{lcd_fill-points}
use study_c_know.Lcd.Line.{lcd_draw_rectangle-frame}

abbrev screen : Screen
screen = record { width = 8; height = 4; size = 32 }

abbrev black : Cells
black i = 0

screen-IsScreen : IsScreen screen
screen-IsScreen = record {
  wide = omega arith;
  high = omega arith;
  wide_int = omega arith;
  high_int = omega arith;
  inside = omega arith;
  small = omega arith;
}

-- Red is the only part of a color that the macro keeps in its place.
rgb565_red : argb8888_to_rgb565 0xFF0000 ≡ 0xF800
unfolding argb8888_to_rgb565
rgb565_red = refl

-- An area that goes beyond the right edge.
lcd_fill-points_example :
    (t : Cells) × (lcd_fill screen 5 12 1 2 255 black ≡ some t)
    × ((px py : ℕ)
        → px < 8
        → py < 4
        → t (index screen px py) ≡ (
            if (leb 1 py && leb py 2) && (leb 5 px && leb px 12)
            then argb8888_to_rgb565 255
            else 0))
lcd_fill-points_example =
    lcd_fill-points screen 5 12 1 2 255 black screen-IsScreen (omega arith) (omega arith)

lcd_draw_rectangle-frame_example :
    (t : Cells) × (lcd_draw_rectangle screen 1 6 0 3 255 black ≡ some t)
    × ((px py : ℕ)
        → px < 8
        → py < 4
        → t (index screen px py) ≡ (
            if (leb 1 px && leb px 6)
              && (leb 0 py && leb py 3)
              && ((1 == px) || (6 == px) || (0 == py) || (3 == py))
            then argb8888_to_rgb565 255
            else 0))
lcd_draw_rectangle-frame_example =
    lcd_draw_rectangle-frame screen 1 6 0 3 255 black screen-IsScreen (omega arith) (omega arith)
      (omega arith) (omega arith)
