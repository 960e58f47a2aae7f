-- ===== src/Camera/Tests.antt =====
-- The program of v4l2_camera.c on a screen of 2 by 2 points, with a camera of 1 by 2 points.
use study_c_know.Common.{ℕ, zero, suc, ◌<◌, ◌≡◌, refl, some, List, [], ◌∷◌, get_or, arith}
use study_c_know.Common.Int.{ℤ, pos, negsuc}
use study_c_know.Device.{Env}
use study_c_know.Device.Ends.{Ends}
use study_c_know.Lcd.{Cells}
use study_c_know.Lcd.Index.{IsScreen, index}
use study_c_know.Camera.{
  Call, get_var, get_fix, query_cap, enum_fmt, enum_frame_sizes, enum_frame_intervals, set_fmt,
  query_buffer, dequeue_buffer, rgb565, main,
}
use study_c_know.Camera.Rows.{framed, show_frame, show_frame-points}
use study_c_know.Camera.Driver.{state}
use study_c_know.Camera.Formats.{IsFinite}
use study_c_know.Camera.Stream.{IsCamera}
use study_c_know.Camera.Start.{display}
use study_c_know.Camera.Run.{Streamed, camera_main-Streamed}

-- One format and one size; all other calls succeed.
abbrev answer : Call → ℕ → ℤ
answer (enum_fmt zero) t = pos 0
answer (enum_fmt (suc i)) t = negsuc 0
answer (enum_frame_sizes f zero) t = pos 0
answer (enum_frame_sizes f (suc i)) t = negsuc 0
answer (enum_frame_intervals f w h i) t = negsuc 0
answer c t = pos 0

abbrev payload : Call → ℕ → List ℕ
payload get_var t = 2 ∷ 2 ∷ []
payload get_fix t = 4 ∷ []
payload query_cap t = 1 ∷ []
payload (enum_fmt i) t = rgb565 ∷ []
payload (enum_frame_sizes f i) t = 1 ∷ 2 ∷ []
payload (enum_frame_intervals f w h i) t = 30 ∷ 1 ∷ []
payload (set_fmt w h) t = 1 ∷ 2 ∷ rgb565 ∷ []
payload (query_buffer i) t = 4 ∷ []
payload dequeue_buffer t = 1 ∷ 7 ∷ 8 ∷ []
payload c t = []

abbrev camera : Env Call
camera = record { answer = answer; payload = payload }

camera-IsCamera : IsCamera camera
camera-IsCamera = record {
  taken = λ t. refl;
  buffer = λ t. omega arith;
  room = λ w h t i u small. omega arith;
}

camera-IsFinite : IsFinite camera 1 1 0
camera-IsFinite = record {
  few = omega arith;
  no_format = λ t. refl;
  no_size = λ f t. refl;
  no_rate = λ f w h t. refl;
  rate = λ f w h i t. refl;
}

small-IsScreen : IsScreen (display camera)
small-IsScreen = record {
  wide = omega arith;
  high = omega arith;
  wide_int = omega arith;
  high_int = omega arith;
  inside = omega arith;
  small = omega arith;
}

camera_main-Streamed_example : Ends (main 2 2 camera (state 0 [] [])) (Streamed camera 2)
camera_main-Streamed_example =
    camera_main-Streamed camera 1 1 0 2 1 camera-IsCamera camera-IsFinite small-IsScreen
      (omega arith) (omega arith) (omega arith)

abbrev white : Cells
white j = 65535

abbrev frame : ℕ → ℕ
frame k = get_or (7 ∷ 8 ∷ []) k 0

show_frame-points_example :
    (t : Cells) × (show_frame (display camera) 4 frame 1 2 white ≡ some t)
    × ((px py : ℕ)
        → px < (display camera).width
        → py < (display camera).height
        → t (index (display camera) px py)
          ≡ framed frame 1 2 px py (white (index (display camera) px py)))
show_frame-points_example =
    show_frame-points (display camera) 4 frame 1 2 white small-IsScreen (omega arith)
