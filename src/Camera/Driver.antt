-- ===== src/Camera/Driver.antt =====
-- What a driver of Video for Linux allows: a sequence of calls for its frame buffers, as an automaton.
use study_c_know.Common.{
  ℕ, zero, suc, ◌+◌, ◌-◌, ◌%◌, ◌≡◌, Bool, true, false, ◌&&◌, Option, none, some, List, [], ◌∷◌, ltb,
  ◌==◌, get_or, if◌then◌else◌,
}
use study_c_know.Common.Int.{pos, ltb_ℤ}
use study_c_know.Common.Array.{◌>>=◌}
use study_c_know.Device.{Env, State, Resource, input, output, screen}
use study_c_know.Camera.{
  Call, open_fb, get_var, get_fix, mmap_fb, close_fb, open_camera, query_cap, close_camera,
  enum_fmt, enum_frame_sizes, enum_frame_intervals, set_fmt, get_parm, set_parm, request_buffers,
  query_buffer, mmap_frame, queue_buffer, dequeue_buffer, stream_on, rgb565,
}

-- The time when the format was set, whether three buffers are there, how many are mapped and how
-- many wait for a frame, whether there is a stream, the buffer that is taken and does not wait, how
-- many frames were taken, and the time when the last one was.
pub record Driver : Type 0 where
  pub format_at : Option ℕ
  pub requested : Bool
  pub mapped : ℕ
  pub queued : ℕ
  pub streaming : Bool
  pub out : Option ℕ
  pub taken : ℕ
  pub frame_at : Option ℕ

abbrev pub idle : Driver
idle = record {
  format_at = none;
  requested = false;
  mapped = 0;
  queued = 0;
  streaming = false;
  out = none;
  taken = 0;
  frame_at = none;
}

-- Whether a time or a buffer is there.
abbrev is_some : Option ℕ → Bool
is_some none = false
is_some (some t) = true

abbrev is_none : Option ℕ → Bool
is_none none = true
is_none (some t) = false

-- The buffer `i` is the one that is taken.
abbrev pub is_out : Option ℕ → ℕ → Bool
is_out none i = false
is_out (some j) i = j == i

-- What a call at a time leads to. The format is set before the buffers are requested; the buffers are
-- mapped and queued in order before there is a stream. From then on a frame is taken if no buffer is
-- out and one waits, from the buffer whose number is delivered, and a buffer is queued only if it is
-- the one that was taken.
abbrev pub allow : Env Call → (time : ℕ) → Call → Driver → Option Driver
allow e time open_fb d = some d
allow e time get_var d = some d
allow e time get_fix d = some d
allow e time mmap_fb d = some d
allow e time close_fb d = some d
allow e time open_camera d = some d
allow e time query_cap d = some d
allow e time close_camera d = some d
allow e time (enum_fmt i) d = some d
allow e time (enum_frame_sizes f i) d = some d
allow e time (enum_frame_intervals f w h i) d = some d
allow e time (set_fmt w h) d =
    if d.requested then none else some (record d { format_at = some time })
allow e time get_parm d = some d
allow e time set_parm d = if d.requested then none else some d
allow e time request_buffers d =
    if d.requested
    then none
    else if is_some d.format_at
    then some (record d { requested = true })
    else none
allow e time (query_buffer i) d = if d.requested && ltb i 3 then some d else none
allow e time (mmap_frame i) d =
    if d.requested && (i == d.mapped && ltb i 3)
    then some (record d { mapped = d.mapped + 1 })
    else none
allow e time (queue_buffer i) d =
    if d.streaming
    then if is_out d.out i then some (record d { queued = d.queued + 1; out = none }) else none
    else if d.requested && (i == d.queued && ltb i d.mapped)
    then some (record d { queued = d.queued + 1 })
    else none
allow e time stream_on d =
    if d.streaming
    then none
    else if ltb 0 d.queued
    then some (record d { streaming = true })
    else none
allow e time dequeue_buffer d =
    if d.streaming && (ltb 0 d.queued && is_none d.out)
    then some (record d {
      queued = d.queued - 1;
      out = some (get_or (e.payload dequeue_buffer time) 0 0);
      taken = suc d.taken;
      frame_at = some time;
    })
    else none

-- The driver at this time, after these calls, the last one first: one at each time.
abbrev pub replay : Env Call → (time : ℕ) → List Call → Option Driver
replay e zero [] = some idle
replay e zero (c ∷ cs) = none
replay e (suc t) [] = none
replay e (suc t) (c ∷ cs) = replay e t cs >>= allow e t c

-- What the program holds once the devices are open.
abbrev pub owned : List Resource
owned = input ∷ screen ∷ output ∷ []

-- The program holds this, and the driver has allowed its calls and is in this state.
abbrev pub Kept : Env Call → List Resource → Driver → State Call → Type 0
Kept e held d s = (s.held ≡ held) × (replay e s.time s.trace ≡ some d)

abbrev pub state : ℕ → List Resource → List Call → State Call
state m held us = record { time = m; held = held; trace = us }

-- Why the program gives up: the last call, but for a close, has failed, or it has delivered a device
-- that takes no pictures, or a format that is not RGB565.
pub data Failed (e : Env Call) : ℕ → List Call → Type 0 where
  refused :
      {c : Call} {m : ℕ} {us : List Call}
      → ltb_ℤ (e.answer c m) (pos 0) ≡ true
      → Failed e (suc m) (c ∷ us)
  no_capture :
      {m : ℕ} {us : List Call}
      → (get_or (e.payload query_cap m) 0 0 % 2 == 0) ≡ true
      → Failed e (suc m) (query_cap ∷ us)
  other_format :
      {w h m : ℕ} {us : List Call}
      → (get_or (e.payload (set_fmt w h) m) 2 0 == rgb565) ≡ false
      → Failed e (suc m) (set_fmt w h ∷ us)
  then_closed_fb : {m : ℕ} {us : List Call} → Failed e m us → Failed e (suc m) (close_fb ∷ us)
  then_closed : {m : ℕ} {us : List Call} → Failed e m us → Failed e (suc m) (close_camera ∷ us)
