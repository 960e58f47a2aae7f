-- ===== src/Bmp/Tests.antt =====
-- The program of bmp_show.c with a picture of 2 by 2 points on a screen of 2 by 2 points.
use study_c_know.Common.{ℕ, ◌<◌, ◌≡◌, refl, List, [], ◌∷◌, arith}
use study_c_know.Common.Int.{pos}
use study_c_know.Device.{Env, screen}
use study_c_know.Device.Ends.{Ends}
use study_c_know.Lcd.Index.{IsScreen, index}
use study_c_know.Bmp.{Call, get_var, get_fix, main}
use study_c_know.Bmp.Rows.{state}
use study_c_know.Bmp.Picture.{pictured}
use study_c_know.Bmp.Run.{header, stride, IsBmp, display, bmp_main-Pictured}

-- The last row comes first.
abbrev picture : List ℕ
picture =
    66 ∷ 77 ∷ 62 ∷ 0 ∷ 0 ∷ 0 ∷ 0 ∷ 0 ∷ 0 ∷ 0 ∷ 54 ∷ 0 ∷ 0 ∷ 0 ∷ 40 ∷ 0 ∷ 0 ∷ 0 ∷ 2 ∷ 0 ∷ 0 ∷ 0 ∷ 2
    ∷ 0 ∷ 0 ∷ 0 ∷ 1 ∷ 0 ∷ 16 ∷ 0 ∷ 0 ∷ 0 ∷ 0 ∷ 0 ∷ 0 ∷ 0 ∷ 0 ∷ 0 ∷ 0 ∷ 0 ∷ 0 ∷ 0 ∷ 0 ∷ 0 ∷ 0 ∷ 0 ∷ 0
    ∷ 0 ∷ 0 ∷ 0 ∷ 0 ∷ 0 ∷ 0 ∷ 0 ∷ 1 ∷ 2 ∷ 3 ∷ 4 ∷ 5 ∷ 6 ∷ 7 ∷ 8 ∷ []

picture-IsBmp : IsBmp picture 2
picture-IsBmp = record {
  whole = omega arith;
  letters = refl;
  wide = refl;
  bits = refl;
  even = refl;
  int = omega arith;
  some_rows = omega arith;
  few_rows = omega arith;
  contained = omega arith;
}

abbrev payload : Call → ℕ → List ℕ
payload get_var t = 2 ∷ 2 ∷ []
payload get_fix t = 4 ∷ []
payload c t = []

abbrev devices : Env Call
devices = record { answer = λ c t. pos 0; payload = payload }

small-IsScreen : IsScreen (display devices)
small-IsScreen = record {
  wide = omega arith;
  high = omega arith;
  wide_int = omega arith;
  high_int = omega arith;
  inside = omega arith;
  small = omega arith;
}

-- What malloc gives.
abbrev fresh : ℕ → ℕ
fresh i = 9

bmp_main-Pictured_example : Ends (main picture fresh devices (state 0 [] [])) λ r t.
    (r.0 ≡ pos 0)
    × (t.held ≡ screen ∷ [])
    × ((px py : ℕ)
        → px < (display devices).width
        → py < (display devices).height
        → r.1 (index (display devices) px py)
          ≡ pictured picture (header picture).offset (stride 2) (header picture).height px py 255)
bmp_main-Pictured_example =
    bmp_main-Pictured devices picture fresh 2 (λ c t. refl) small-IsScreen refl picture-IsBmp
