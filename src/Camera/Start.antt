-- ===== src/Camera/Start.antt =====
-- The functions of v4l2_camera.c that open the devices and start the stream.
use study_c_know.Common.{
  ℕ, zero, suc, ◌*◌, ◌/◌, ◌%◌, ◌<◌, ◌≡◌, refl, Option, none, some, List, [], ◌∷◌, get_or, get_elem?,
  ◌==◌, arith, if◌then◌else◌,
}
use study_c_know.Common.Int.{pos, ltb_ℤ}
use study_c_know.Device.{Env, State, screen, output}
use study_c_know.Device.Ends.{Ends, Ends-pure, Ends-if, Ends-at}
use study_c_know.Lcd.{Screen, word}
use study_c_know.Camera.{
  Call, open_fb, get_var, get_fix, mmap_fb, open_camera, query_cap, stream_on, fb_dev_init,
  v4l2_dev_init, v4l2_stream_on, no_formats,
}
use study_c_know.Camera.Driver.{
  replay, idle, owned, Kept, state, refused, no_capture, then_closed_fb, then_closed,
}
use study_c_know.Camera.Reading.{Still, stopped}
use study_c_know.Camera.Stream.{running}

-- The screen that the answers describe.
abbrev pub display : Env Call → Screen
display e = record {
  width = get_or (e.payload get_var 1) 0 0;
  height = get_or (e.payload get_var 1) 1 0;
  size = get_or (e.payload get_fix 2) 0 0 * get_or (e.payload get_var 1) 1 0 % word / 2;
}

pub v4l2_stream_on-Kept :
    (e : Env Call) (u : ℕ) (t : State Call)
    → Kept e owned (stopped u 3 3) t
    → Ends (v4l2_stream_on e t) λ b v. if b then Kept e owned (running u 0 none) v else Still e v
unfolding v4l2_stream_on
v4l2_stream_on-Kept e u t (own, ok) = Ends-at v4l2_stream_on e t own (
    Ends-if (ltb_ℤ (e.answer stream_on t.time) (pos 0))
      (λ bad. Ends-pure _ _ (running u 0 none, rw ok refl, refl, refused bad))
      (λ good. Ends-pure _ _ (refl, rw ok refl)))

pub v4l2_dev_init-Kept :
    (e : Env Call) (m : ℕ) (us : List Call)
    → replay e m us ≡ some idle
    → Ends
        (v4l2_dev_init e (state m (screen ∷ output ∷ []) us))
        λ b t. if b then Kept e owned idle t else Still e t
unfolding v4l2_dev_init
v4l2_dev_init-Kept e m us legal =
    Ends-if (ltb_ℤ (e.answer open_camera m) (pos 0))
      (λ bad. Ends-pure _ _ (idle, rw legal refl, refl, refused bad))
      (λ good. rw good (
        Ends-if (get_or (e.payload query_cap (suc m)) 0 0 % 2 == 0)
          (λ other. Ends-pure _ _ (idle, rw legal refl, refl, then_closed (no_capture other)))
          (λ capture. Ends-pure _ _ (refl, rw legal refl))))

-- The screen is mapped, or a call has failed.
abbrev pub Opened : Env Call → Option Screen → State Call → Type 0
Opened e none t = Still e t
Opened e (some fb) t = (fb ≡ display e) × Kept e (screen ∷ output ∷ []) idle t

pub fb_dev_init-Kept : (e : Env Call) → Ends (fb_dev_init e (state 0 [] [])) (Opened e)
unfolding fb_dev_init
fb_dev_init-Kept e =
    Ends-if (ltb_ℤ (e.answer open_fb 0) (pos 0))
      (λ bad. Ends-pure _ _ (idle, refl, refl, refused bad))
      (λ good. rw good (
        Ends-if (ltb_ℤ (e.answer mmap_fb 3) (pos 0))
          (λ bad. rw bad (Ends-pure _ _ (idle, refl, refl, then_closed_fb (refused bad))))
          (λ mapped. rw mapped (Ends-pure _ _ (refl, (refl, refl))))))

abbrev pub zeros : ℕ → List ℕ
zeros zero = []
zeros (suc k) = 0 ∷ zeros k

pub zero_in : (k i : ℕ) → i < k → get_elem? (zeros k) i ≡ some 0
zero_in zero i h = absurd (omega arith)
zero_in (suc k) zero h = refl
zero_in (suc k) (suc i) h = zero_in k i (omega arith)

-- No format is stored at the start.
pub zero_format : (i : ℕ) → i < 10 → get_elem? no_formats i ≡ some 0
zero_format i h = zero_in 10 i h
