-- ===== src/Camera/Reading.antt =====
-- The steps of v4l2_camera.c up to the stream.
use study_c_know.Common.{
  ℕ, zero, suc, ◌/◌, ◌%◌, ◌^◌, ◌<◌, ◌≡◌, refl, Bool, true, false, Option, none, some, List, [], ◌∷◌,
  get_or, get_elem?, ◌==◌, arith, if◌then◌else◌,
}
use study_c_know.Common.Int.{pos, ltb_ℤ}
use study_c_know.Common.Array.{store}
use study_c_know.Device.{Env, State, Io, pure, branch}
use study_c_know.Device.Ends.{Ends, Ends-pure, Ends-if, Ends-bind, Ends-at}
use study_c_know.Lcd.{Screen}
use study_c_know.Camera.{
  Call, set_fmt, get_parm, set_parm, request_buffers, query_buffer, mmap_frame, queue_buffer,
  rgb565, v4l2_set_format, map_loop, queue_loop, queue_mapped, v4l2_init_buffer,
}
use study_c_know.Camera.Driver.{
  Driver, replay, idle, owned, Kept, state, Failed, refused, other_format,
}

-- The buffers are requested, and there is no stream yet.
abbrev pub stopped : (format_time mapped queued : ℕ) → Driver
stopped u mapped queued = record {
  format_at = some u;
  requested = true;
  mapped = mapped;
  queued = queued;
  streaming = false;
  out = none;
  taken = 0;
  frame_at = none;
}

-- The format is set, and the buffers are not requested yet.
abbrev pub formatted : (format_time : ℕ) → Driver
formatted u = record idle { format_at = some u }

-- The driver has allowed every call, no frame was taken, and there is a reason to give up.
abbrev pub Still : Env Call → State Call → Type 0
Still e t =
    (d : Driver) × (replay e t.time t.trace ≡ some d) × (d.taken ≡ 0) × Failed e t.time t.trace

-- The size of a frame is what the driver has answered when the format was set.
abbrev pub Answered : Env Call → Screen → Option (ℕ × ℕ) → State Call → Type 0
Answered e fb none t = Still e t
Answered e fb (some (w, h)) t =
    (u : ℕ) × Kept e owned (formatted u) t
    × (w ≡ get_or (e.payload (set_fmt fb.width fb.height) u) 0 0)
    × (h ≡ get_or (e.payload (set_fmt fb.width fb.height) u) 1 0)

-- The lengths of the buffers are what the driver has answered.
abbrev pub Lengths : Env Call → List ℕ → Type 0
Lengths e bufs =
    (i : ℕ)
    → i < 3
    → (t : ℕ) × (get_elem? bufs i ≡ some (get_or (e.payload (query_buffer i) t) 0 0))

-- The buffers are mapped and this number of them is queued, or a call has failed.
abbrev pub Mapped : Env Call → (format_time queued : ℕ) → Option (List ℕ) → State Call → Type 0
Mapped e u queued none t = Still e t
Mapped e u queued (some bufs) t = Kept e owned (stopped u 3 queued) t × Lengths e bufs

module _ (e : Env Call) where
  pub v4l2_set_format-Answered :
      (fb : Screen) (m : ℕ) (us : List Call)
      → replay e m us ≡ some idle
      → Ends (v4l2_set_format fb e (state m owned us)) (Answered e fb)
  unfolding v4l2_set_format
  v4l2_set_format-Answered fb m us ok =
      Ends-if (ltb_ℤ (e.answer (set_fmt fb.width fb.height) m) (pos 0))
        (λ bad. Ends-pure _ _ (formatted m, rw ok refl, refl, refused bad))
        (λ good.
          Ends-if (get_or (e.payload (set_fmt fb.width fb.height) m) 2 0 == rgb565)
            (λ is.
              Ends-if (get_or (e.payload get_parm (suc m)) 0 0 / 2 ^ 12 % 2 == 1)
                (λ rate.
                  Ends-if (ltb_ℤ (e.answer set_parm (suc (suc m))) (pos 0))
                    (λ bad. Ends-pure _ _ (formatted m, rw ok refl, refl, refused bad))
                    (λ set. Ends-pure _ _ (m, (refl, rw ok refl), refl, refl)))
                (λ fixed. Ends-pure _ _ (m, (refl, rw ok refl), refl, refl)))
            (λ other. Ends-pure _ _ (formatted m, rw ok refl, refl, other_format other)))

  three-Lengths :
      (t0 t1 t2 : ℕ)
      → Lengths e (
          get_or (e.payload (query_buffer 0) t0) 0 0
          ∷ get_or (e.payload (query_buffer 1) t1) 0 0
          ∷ get_or (e.payload (query_buffer 2) t2) 0 0
          ∷ [])
  three-Lengths t0 t1 t2 zero h = (t0, refl)
  three-Lengths t0 t1 t2 (suc zero) h = (t1, refl)
  three-Lengths t0 t1 t2 (suc (suc zero)) h = (t2, refl)
  three-Lengths t0 t1 t2 (suc (suc (suc i))) h = absurd (omega arith)

  map_loop-Mapped :
      (u m : ℕ) (us : List Call)
      → replay e m us ≡ some (stopped u 0 0)
      → Ends (map_loop 3 0 (0 ∷ 0 ∷ 0 ∷ []) e (state m owned us)) (Mapped e u 0)
  unfolding map_loop store
  map_loop-Mapped u m us ok =
      Ends-if (ltb_ℤ (e.answer (mmap_frame 0) (suc m)) (pos 0))
        (λ bad. Ends-pure _ _ (stopped u 1 0, rw ok refl, refl, refused bad))
        (λ first.
          Ends-if (ltb_ℤ (e.answer (mmap_frame 1) (suc (suc (suc m)))) (pos 0))
            (λ bad. Ends-pure _ _ (stopped u 2 0, rw ok refl, refl, refused bad))
            (λ second.
              Ends-if (ltb_ℤ (e.answer (mmap_frame 2) (suc (suc (suc (suc (suc m)))))) (pos 0))
                (λ bad. Ends-pure _ _ (stopped u 3 0, rw ok refl, refl, refused bad))
                (λ third. Ends-pure _ _ ((refl, rw ok refl), three-Lengths _ _ _))))

  queue_loop-Mapped :
      (u m : ℕ) (us : List Call)
      → replay e m us ≡ some (stopped u 3 0)
      → Ends
          (queue_loop 3 0 e (state m owned us))
          λ b t. if b then Kept e owned (stopped u 3 3) t else Still e t
  unfolding queue_loop
  queue_loop-Mapped u m us ok =
      Ends-if (ltb_ℤ (e.answer (queue_buffer 0) m) (pos 0))
        (λ bad. Ends-pure _ _ (stopped u 3 1, rw ok refl, refl, refused bad))
        (λ first.
          Ends-if (ltb_ℤ (e.answer (queue_buffer 1) (suc m)) (pos 0))
            (λ bad. Ends-pure _ _ (stopped u 3 2, rw ok refl, refl, refused bad))
            (λ second.
              Ends-if (ltb_ℤ (e.answer (queue_buffer 2) (suc (suc m))) (pos 0))
                (λ bad. Ends-pure _ _ (stopped u 3 3, rw ok refl, refl, refused bad))
                (λ third. Ends-pure _ _ (refl, rw ok refl))))

  queue_mapped-Mapped :
      (u : ℕ) (bufs? : Option (List ℕ)) (t : State Call)
      → Mapped e u 0 bufs? t
      → Ends (queue_mapped bufs? e t) (Mapped e u 3)
  queue_mapped-Mapped u none t still = Ends-pure _ _ still
  queue_mapped-Mapped u (some bufs) t ((own, ok), large) =
      let then_on : Bool → Io Call (Option (List ℕ)) =
        λ b. branch b (pure (some bufs)) (pure none) in
      Ends-bind then_on e (Ends-at (queue_loop 3 0) e t own (queue_loop-Mapped u t.time t.trace ok))
        (λ b v. queued b v)
    where
      queued :
          (b : Bool) (v : State Call)
          → (if b then Kept e owned (stopped u 3 3) v else Still e v)
          → Ends (branch b (pure (some bufs)) (pure none) e v) (Mapped e u 3)
      queued true v kept = Ends-pure _ _ (kept, large)
      queued false v still = Ends-pure _ _ still

  pub v4l2_init_buffer-Mapped :
      (u m : ℕ) (us : List Call)
      → replay e m us ≡ some (formatted u)
      → Ends (v4l2_init_buffer e (state m owned us)) (Mapped e u 3)
  unfolding v4l2_init_buffer
  v4l2_init_buffer-Mapped u m us ok =
      Ends-if (ltb_ℤ (e.answer request_buffers m) (pos 0))
        (λ bad. Ends-pure _ _ (stopped u 0 0, rw ok refl, refl, refused bad))
        (λ good.
          Ends-bind queue_mapped e (map_loop-Mapped u (suc m) (request_buffers ∷ us) (rw ok refl))
            (queue_mapped-Mapped u))
