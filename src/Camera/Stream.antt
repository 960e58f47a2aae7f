-- ===== src/Camera/Stream.antt =====
-- v4l2_read_data: each frame that is taken is shown, and its buffer waits again.
use study_c_know.Common.{
  ℕ, zero, suc, ◌+◌, ◌*◌, ◌/◌, ◌<◌, ◌≤◌, ◌≡◌, refl, true, false, Option, none, some, List, ◌∷◌,
  get_or, ◌==◌, arith, sym, ◌∙◌,
}
use study_c_know.Common.Int.{pos, ltb_ℤ}
use study_c_know.Device.{Env, State}
use study_c_know.Device.Ends.{Ends, Ends-pure}
use study_c_know.Lcd.{Screen, Cells}
use study_c_know.Lcd.Index.{IsScreen, index}
use study_c_know.Camera.{Call, set_fmt, query_buffer, queue_buffer, dequeue_buffer, read_loop}
use study_c_know.Camera.Rows.{pixels, framed, show_frame-points}
use study_c_know.Camera.Driver.{Driver, replay, owned, Kept, state}
use study_c_know.Camera.Reading.{Lengths}

-- Frames are taken without an error, from the three buffers, which are large enough for a frame.
pub record IsCamera (e : Env Call) : Type 0 where
  pub taken : (t : ℕ) → ltb_ℤ (e.answer dequeue_buffer t) (pos 0) ≡ false
  pub buffer : (t : ℕ) → get_or (e.payload dequeue_buffer t) 0 0 < 3
  pub room :
      (w h t i u : ℕ)
      → i < 3
      → get_or (e.payload (set_fmt w h) t) 1 0 * get_or (e.payload (set_fmt w h) t) 0 0
        ≤ get_or (e.payload (query_buffer i) u) 0 0 / 2

-- Three buffers that wait, and a stream.
abbrev pub running : (format_time taken : ℕ) → (frame_time : Option ℕ) → Driver
running u taken last = record {
  format_at = some u;
  requested = true;
  mapped = 3;
  queued = 3;
  streaming = true;
  out = none;
  taken = taken;
  frame_at = last;
}

-- Each point of the screen is that of the frame, or what it was where the frame has none.
abbrev pub Shows : Screen → (frame : ℕ → ℕ) → (w h : ℕ) → (before cells : Cells) → Type 0
Shows fb frame w h before cells =
    (px py : ℕ)
    → px < fb.width
    → py < fb.height
    → cells (index fb px py) ≡ framed frame w h px py (before (index fb px py))

framed_again :
    (f g : ℕ → ℕ) (w h px py c : ℕ)
    → framed g w h px py (framed f w h px py c) ≡ framed g w h px py c
framed_again f g w h px py c = ground arith

same_buffer : (i : ℕ) → (i == i) ≡ true
same_buffer i = ground arith

module _ {e : Env Call} (is : IsCamera e) (fb : Screen) (ok : IsScreen fb) (w h u : ℕ)
    (wide : w ≡ get_or (e.payload (set_fmt fb.width fb.height) u) 0 0)
    (high : h ≡ get_or (e.payload (set_fmt fb.width fb.height) u) 1 0) (bufs : List ℕ)
    (lengths : Lengths e bufs) where
  -- One round, with the rounds after it.
  round-Shows :
      (n i : ℕ) (cells : Cells) (m c : ℕ) (last : Option ℕ) (us : List Call)
      {Q : Cells → State Call → Type 0}
      → replay e m us ≡ some (running u c last)
      → ((i' : ℕ) (cells' : Cells) (m' : ℕ) (us' : List Call)
          → Shows fb (pixels (e.payload dequeue_buffer m)) w h cells cells'
          → replay e m' us' ≡ some (running u (suc c) (some m))
          → Ends (read_loop n fb (w, h) bufs i' cells' e (state m' owned us')) Q)
      → Ends (read_loop (suc n) fb (w, h) bufs i cells e (state m owned us)) Q
  unfolding read_loop
  round-Shows n i cells m c last us legal rounds =
      let got = get_or (e.payload dequeue_buffer m) 0 0 in
      let it : (got == got) ≡ true = same_buffer got in
      let (t, found) = lengths got (is.buffer m) in
      let room : h * w ≤ get_or (e.payload (query_buffer got) t) 0 0 / 2 =
        rw (wide, high) (is.room fb.width fb.height u got t (is.buffer m)) in
      let (cells', shown, points) =
        show_frame-points fb (get_or (e.payload (query_buffer got) t) 0 0)
          (pixels (e.payload dequeue_buffer m)) w h cells ok room in
      rw (is.taken m, found, shown)
        (rounds (got + 1) cells' (suc (suc m)) (queue_buffer got ∷ dequeue_buffer ∷ us) points
          (rw (legal, it) refl))

  -- The last frame that was taken is shown, over what was there before the first.
  abbrev pub Last : Cells → ℕ → Cells → State Call → Type 0
  Last before total cells t =
      (m : ℕ) × Shows fb (pixels (e.payload dequeue_buffer m)) w h before cells
      × Kept e owned (running u total (some m)) t

  read_loop-Last :
      (n i : ℕ) (before cells : Cells) (k m c total : ℕ) (us : List Call)
      → Shows fb (pixels (e.payload dequeue_buffer k)) w h before cells
      → replay e m us ≡ some (running u c (some k))
      → c + n ≡ total
      → Ends (read_loop n fb (w, h) bufs i cells e (state m owned us)) (Last before total)
  unfolding read_loop
  read_loop-Last zero i before cells k m c total us shown legal sum =
      let all : c ≡ total = omega arith in Ends-pure _ _ (k, shown, (refl, rw (sym all) legal))
  read_loop-Last (suc n) i before cells k m c total us shown legal sum =
      round-Shows n i cells m c (some k) us legal λ i' cells' m' us' again legal'.
        read_loop-Last n i' before cells' m m' (suc c) total us'
          (λ px py hx hy.
            again px py hx hy
            ∙ rw (shown px py hx hy) (
                framed_again (pixels (e.payload dequeue_buffer k))
                  (pixels (e.payload dequeue_buffer m)) w h px py (before (index fb px py))))
          legal' (omega arith)

  pub read_rounds-Last :
      (n : ℕ) (before : Cells) (m : ℕ) (us : List Call)
      → replay e m us ≡ some (running u 0 none)
      → Ends (read_loop (suc n) fb (w, h) bufs 0 before e (state m owned us)) (Last before (suc n))
  read_rounds-Last n before m us legal =
      round-Shows n 0 before m 0 none us legal λ i' cells' m' us' shown legal'.
        read_loop-Last n i' before cells' m m' 1 (suc n) us' shown legal' (omega arith)
