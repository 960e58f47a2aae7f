-- ===== src/Camera/Run.antt =====
-- The program of v4l2_camera.c from its start to its endless loop.
use study_c_know.Common.{
  ℕ, suc, ◌<◌, ◌≡◌, ◌⊎◌, inl, inr, refl, Bool, true, false, Option, none, some, List, [], ◌∷◌,
  get_or, arith, if◌then◌else◌,
}
use study_c_know.Common.Int.{pos}
use study_c_know.Device.{Env, State, screen, output, branch, pure, ◌>>=◌, ◌>>◌}
use study_c_know.Device.Ends.{Ends, Ends-pure, Ends-bind, Ends-at}
use study_c_know.Lcd.{Screen, Cells}
use study_c_know.Lcd.Index.{IsScreen}
use study_c_know.Camera.{
  Call, fb_dev_init, v4l2_enum_formats, v4l2_print_formats, v4l2_set_format, v4l2_init_buffer,
  v4l2_read_data, stream, set_up, with_camera, with_screen, Exit, exited, reading, or_exit, main,
  no_formats, set_fmt, dequeue_buffer,
}
use study_c_know.Camera.Rows.{pixels}
use study_c_know.Camera.Driver.{replay, idle, owned, Kept, state}
use study_c_know.Camera.Formats.{IsFinite, enum_loop-Kept, format_loop-Kept}
use study_c_know.Camera.Reading.{
  Still, stopped, formatted, Answered, Lengths, Mapped, v4l2_set_format-Answered,
  v4l2_init_buffer-Mapped,
}
use study_c_know.Camera.Stream.{IsCamera, running, Shows, read_rounds-Last}
use study_c_know.Camera.Start.{
  display, v4l2_stream_on-Kept, v4l2_dev_init-Kept, Opened, fb_dev_init-Kept, zero_format,
}

-- The screen shows the frame of the time `m`, of the size that the camera has answered at the time
-- `u`, on white.
abbrev pub ShowsAt : Env Call → (u m : ℕ) → Cells → Type 0
ShowsAt e u m =
    Shows (display e) (pixels (e.payload dequeue_buffer m))
      (get_or (e.payload (set_fmt (display e).width (display e).height) u) 0 0)
      (get_or (e.payload (set_fmt (display e).width (display e).height) u) 1 0) (λ _. 65535)

-- The program has exited before a frame was taken, or it reads: `u` is the time when the format was
-- set, and `m` the time when the last frame was taken.
abbrev pub Streamed : Env Call → (rounds : ℕ) → Exit → State Call → Type 0
Streamed e rounds r t =
    ((r ≡ exited (pos 1)) × Still e t)
    ⊎ ((cells : Cells) × (r ≡ reading cells)
        × ((u m : ℕ) × ShowsAt e u m cells × Kept e owned (running u rounds (some m)) t))

-- The size of a frame that the driver has answered at the time `u`.
abbrev frm : Env Call → ℕ → ℕ × ℕ
frm e u = (
  get_or (e.payload (set_fmt (display e).width (display e).height) u) 0 0,
  get_or (e.payload (set_fmt (display e).width (display e).height) u) 1 0,
)

module _ (e : Env Call) (is : IsCamera e) (ok : IsScreen (display e)) (n : ℕ) where
  stream-Streamed :
      (u : ℕ) (bufs : List ℕ) (t : State Call)
      → Kept e owned (stopped u 3 3) t
      → Lengths e bufs
      → Ends (stream (suc n) (display e) (frm e u) bufs e t) (Streamed e (suc n))
  unfolding stream v4l2_read_data
  stream-Streamed u bufs t kept lengths =
      Ends-bind
        (λ b.
          branch b
            (do
              cells ← v4l2_read_data (suc n) (display e) (frm e u) bufs (λ _. 65535)
              pure (reading cells))
            (pure (exited (pos 1))))
        e (v4l2_stream_on-Kept e u t kept) (λ b v. on b v)
    where
      on :
          (b : Bool) (v : State Call)
          → (if b then Kept e owned (running u 0 none) v else Still e v)
          → Ends
              (branch b
                (do
                  cells ← v4l2_read_data (suc n) (display e) (frm e u) bufs (λ _. 65535)
                  pure (reading cells))
                (pure (exited (pos 1)))
                e
                v)
              (Streamed e (suc n))
      on false v still = Ends-pure _ _ (inl (refl, still))
      on true v (own, legal) =
          Ends-bind (λ cells. pure (reading cells)) e
            (Ends-at (v4l2_read_data (suc n) (display e) (frm e u) bufs (λ _. 65535)) e v own (
              read_rounds-Last is (display e) ok _ _ u refl refl bufs lengths n (λ _. 65535) v.time
                v.trace legal))
            (λ cells w (m, shown, kept). Ends-pure _ _ (inr (cells, refl, (u, m, shown, kept))))

  set_up-Streamed :
      (u : ℕ) (t : State Call)
      → Kept e owned (formatted u) t
      → Ends (set_up (suc n) (display e) (frm e u) e t) (Streamed e (suc n))
  unfolding set_up
  set_up-Streamed u t (own, legal) =
      Ends-bind (λ bufs. or_exit bufs (stream (suc n) (display e) (frm e u))) e
        (Ends-at v4l2_init_buffer e t own (v4l2_init_buffer-Mapped e u t.time t.trace legal))
        (λ bufs v. on bufs v)
    where
      on :
          (bufs : Option (List ℕ)) (v : State Call)
          → Mapped e u 3 bufs v
          → Ends (or_exit bufs (stream (suc n) (display e) (frm e u)) e v) (Streamed e (suc n))
      on none v still = Ends-pure _ _ (inl (refl, still))
      on (some bufs) v (kept, lengths) = stream-Streamed u bufs v kept lengths

  module _ {formats sizes rates : ℕ} (finite : IsFinite e formats sizes rates) (fuel : ℕ)
      (f1 : formats < fuel) (f2 : sizes < fuel) (f3 : rates < fuel) where
    with_camera-Streamed :
        (m : ℕ) (us : List Call)
        → replay e m us ≡ some idle
        → Ends (with_camera fuel (suc n) (display e) e (state m owned us)) (Streamed e (suc n))
    unfolding with_camera v4l2_enum_formats v4l2_print_formats
    with_camera-Streamed m us legal =
        Ends-bind
          (λ cam_fmts. do
            v4l2_print_formats fuel cam_fmts
            frm? ← v4l2_set_format (display e)
            or_exit frm? (set_up (suc n) (display e)))
          e
          (enum_loop-Kept finite idle formats fuel 0 no_formats m us (omega arith) f1 refl
            (zero_format formats finite.few) legal)
          (λ cam_fmts t (kept, size, last).
            Ends-bind
              (λ _. do
                frm? ← v4l2_set_format (display e)
                or_exit frm? (set_up (suc n) (display e)))
              e
              (Ends-at (v4l2_print_formats fuel cam_fmts) e t (kept.0) (
                format_loop-Kept finite idle formats fuel fuel 0 cam_fmts t.time t.trace
                  (omega arith) f1 f2 f3 size last (kept.1)))
              (λ _ v (own, legal').
                Ends-bind (λ frm?. or_exit frm? (set_up (suc n) (display e))) e
                  (Ends-at (v4l2_set_format (display e)) e v own
                    (v4l2_set_format-Answered e (display e) v.time v.trace legal'))
                  (λ frm? w answered. on frm? w answered)))
      where
        on :
            (frm? : Option (ℕ × ℕ)) (w : State Call)
            → Answered e (display e) frm? w
            → Ends (or_exit frm? (set_up (suc n) (display e)) e w) (Streamed e (suc n))
        on none w still = Ends-pure _ _ (inl (refl, still))
        on (some (x, y)) w (u, kept', wide, high) = rw (wide, high) (set_up-Streamed u w kept')

    with_screen-Streamed :
        (m : ℕ) (us : List Call)
        → replay e m us ≡ some idle
        → Ends
            (with_screen fuel (suc n) (display e) e (state m (screen ∷ output ∷ []) us))
            (Streamed e (suc n))
    unfolding with_screen
    with_screen-Streamed m us legal =
        Ends-bind (λ b. branch b (with_camera fuel (suc n) (display e)) (pure (exited (pos 1)))) e
          (v4l2_dev_init-Kept e m us legal) (λ b v. on b v)
      where
        on :
            (b : Bool) (v : State Call)
            → (if b then Kept e owned idle v else Still e v)
            → Ends
                (branch b (with_camera fuel (suc n) (display e)) (pure (exited (pos 1))) e v)
                (Streamed e (suc n))
        on false v still = Ends-pure _ _ (inl (refl, still))
        on true v (own, legal') =
            Ends-at (with_camera fuel (suc n) (display e)) e v own
              (with_camera-Streamed v.time v.trace legal')

-- The program, whatever the devices answer to the other calls, ends with EXIT_FAILURE before a frame
-- was taken, after a call that failed, or a device that takes no pictures or none of RGB565; or it
-- reads for ever: after any number of rounds, one at least, as many frames were taken,
-- and the screen shows the last one on white, in the size that the camera has answered when the
-- format was set. The driver allows every call: the format is set before the buffers are requested,
-- three buffers are mapped and queued in order before the stream, and the buffer that a frame was
-- taken from, and no other, is queued again before the next frame is taken. It needs a screen whose
-- points all lie in its memory, fewer than ten formats, each with finitely many sizes and rates and
-- fuel for those, and a camera that takes frames without an error, from the three buffers, which are
-- large enough for a frame.
pub camera_main-Streamed :
    (e : Env Call) (formats sizes rates fuel n : ℕ)
    → IsCamera e
    → IsFinite e formats sizes rates
    → IsScreen (display e)
    → formats < fuel
    → sizes < fuel
    → rates < fuel
    → Ends (main fuel (suc n) e (state 0 [] [])) (Streamed e (suc n))
unfolding main fb_dev_init
camera_main-Streamed e formats sizes rates fuel n is finite ok f1 f2 f3 =
    Ends-bind (λ fb?. or_exit fb? (with_screen fuel (suc n))) e (fb_dev_init-Kept e)
      (λ fb? t. on fb? t)
  where
    on :
        (fb? : Option Screen) (t : State Call)
        → Opened e fb? t
        → Ends (or_exit fb? (with_screen fuel (suc n)) e t) (Streamed e (suc n))
    on none t still = Ends-pure _ _ (inl (refl, still))
    on (some fb) t (same, (own, legal)) = rw same (
        Ends-at (with_screen fuel (suc n) (display e)) e t own
          (with_screen-Streamed e is ok n finite fuel f1 f2 f3 t.time t.trace legal))
