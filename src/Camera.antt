-- ===== src/Camera.antt =====
-- study_test/L4F2/v4l2_camera.c: what a camera takes is shown on the screen. What is printed is left
-- out; the sizes of the screen and of a frame are below 2 ^ 31, as numbers that are ints here.
pub mod Rows
pub mod Driver
pub mod Formats
pub mod Reading
pub mod Stream
pub mod Start
pub mod Run
mod Tests
use study_c_know.Common.{
  ℕ, zero, suc, ◌+◌, ◌*◌, ◌/◌, ◌%◌, ◌^◌, Bool, true, false, Option, none, some, List, [], ◌∷◌, ◌==◌,
  ltb, if◌then◌else◌, get_or,
}
use study_c_know.Common.Int.{ℤ, pos, negsuc, ◌==ℤ◌, ltb_ℤ}
use study_c_know.Common.Array.{load, store}
use study_c_know.Device.{
  Env, State, Io, input, output, screen, pure, ◌>>=◌, ◌>>◌, with_held, touch, acquire, release,
  fetch, branch, attempt,
}
use study_c_know.Lcd.{Screen, Cells, word}
use study_c_know.Camera.Rows.{show_frame, pixels, next_index}

pub data Call : Type 0 where
  open_fb get_var get_fix mmap_fb close_fb : Call
  open_camera query_cap close_camera : Call
  enum_fmt : (index : ℕ) → Call
  enum_frame_sizes : (pixel_format index : ℕ) → Call
  enum_frame_intervals : (pixel_format width height index : ℕ) → Call
  set_fmt : (width height : ℕ) → Call
  get_parm set_parm : Call
  request_buffers : Call
  query_buffer : (index : ℕ) → Call
  mmap_frame : (index : ℕ) → Call
  queue_buffer : (index : ℕ) → Call
  dequeue_buffer : Call
  stream_on : Call

-- FRAMEBUFFER_COUNT and V4L2_PIX_FMT_RGB565
abbrev pub frame_buffer_count : ℕ
frame_buffer_count = 3

abbrev pub rgb565 : ℕ
rgb565 = 1346520914

-- A step that may be outside an array.
abbrev pub lift : {A : Type 0} → Option A → Io Call A
lift none e s = none
lift (some a) e s = some (a, s)

-- fb_dev_init: the screen, if it succeeds. Its memory has 16 bits for a cell.
unfoldable pub fb_dev_init : Io Call (Option Screen)
fb_dev_init = attempt (acquire output open_fb) (pure none) do
  (_, var) ← fetch output get_var
  (_, fix) ← fetch output get_fix
  attempt (acquire screen mmap_fb) (do release output close_fb; pure none)
      (do
        touch screen
        pure (
            some (record {
              width = get_or var 0 0;
              height = get_or var 1 0;
              size = get_or fix 0 0 * get_or var 1 0 % word / 2;
            })))

-- v4l2_dev_init: whether it succeeds. V4L2_CAP_VIDEO_CAPTURE is the lowest bit.
unfoldable pub v4l2_dev_init : Io Call Bool
v4l2_dev_init = attempt (acquire input open_camera) (pure false) do
  (_, cap) ← fetch input query_cap
  branch (get_or cap 0 0 % 2 == 0) (do release input close_camera; pure false) (pure true)

-- The loop of v4l2_enum_formats from `index` on; `cam_fmts` has ten formats, 0 at the start.
unfoldable pub enum_loop : (fuel index : ℕ) → (cam_fmts : List ℕ) → Io Call (List ℕ)
enum_loop zero index cam_fmts = λ _ _. none
enum_loop (suc fuel) index cam_fmts = do
  (ret, fmtdesc) ← fetch input (enum_fmt index)
  branch (ret ==ℤ pos 0)
      (do
        cam_fmts' ← lift (store cam_fmts index (get_or fmtdesc 0 0))
        enum_loop fuel (index + 1) cam_fmts')
      (pure cam_fmts)

abbrev pub no_formats : List ℕ
no_formats = 0 ∷ 0 ∷ 0 ∷ 0 ∷ 0 ∷ 0 ∷ 0 ∷ 0 ∷ 0 ∷ 0 ∷ []

unfoldable pub v4l2_enum_formats : (fuel : ℕ) → Io Call (List ℕ)
v4l2_enum_formats fuel = enum_loop fuel 0 no_formats

-- The rates for a size of a frame: the division of the two numbers is undefined where the second is 0.
unfoldable pub rate_loop : (fuel : ℕ) → (format width height index : ℕ) → Io Call (Unit {0})
rate_loop zero format width height index = λ _ _. none
rate_loop (suc fuel) format width height index = do
  (ret, frmival) ← fetch input (enum_frame_intervals format width height index)
  branch (ret ==ℤ pos 0)
      (do
        lift (if get_or frmival 1 0 == 0 then none else some tt)
        rate_loop fuel format width height (index + 1))
      (pure tt)

unfoldable pub size_loop : (rate_fuel fuel : ℕ) → (format index : ℕ) → Io Call (Unit {0})
size_loop rate_fuel zero format index = λ _ _. none
size_loop rate_fuel (suc fuel) format index = do
  (ret, frmsize) ← fetch input (enum_frame_sizes format index)
  branch (ret ==ℤ pos 0)
      (do
        rate_loop rate_fuel format (get_or frmsize 0 0) (get_or frmsize 1 0) 0
        size_loop rate_fuel fuel format (index + 1))
      (pure tt)

-- The loop of v4l2_print_formats from the format `i` on.
unfoldable pub format_loop : (inner_fuel fuel i : ℕ) → (cam_fmts : List ℕ) → Io Call (Unit {0})
format_loop inner_fuel zero i cam_fmts = λ _ _. none
format_loop inner_fuel (suc fuel) i cam_fmts = do
  format ← lift (load cam_fmts i)
  branch (format == 0) (pure tt)
      (do size_loop inner_fuel inner_fuel format 0; format_loop inner_fuel fuel (i + 1) cam_fmts)

unfoldable pub v4l2_print_formats : (fuel : ℕ) → List ℕ → Io Call (Unit {0})
v4l2_print_formats fuel cam_fmts = format_loop fuel fuel 0 cam_fmts

-- v4l2_set_format: the width and the height of a frame, if it succeeds. V4L2_CAP_TIMEPERFRAME is
-- the bit 12.
unfoldable pub v4l2_set_format : Screen → Io Call (Option (ℕ × ℕ))
v4l2_set_format fb = do
  (ret, fmt) ← fetch input (set_fmt fb.width fb.height)
  branch (ltb_ℤ ret (pos 0)) (pure none) (
      branch (get_or fmt 2 0 == rgb565)
        (do
          (_, parm) ← fetch input get_parm
          branch (get_or parm 0 0 / 2 ^ 12 % 2 == 1)
              (attempt (with_held input set_parm) (pure none)
                (pure (some (get_or fmt 0 0, get_or fmt 1 0))))
              (pure (some (get_or fmt 0 0, get_or fmt 1 0))))
        (pure none))

-- The first loop of v4l2_init_buffer, for this number of rounds: the lengths of the buffers in bytes.
unfoldable pub map_loop : (rounds index : ℕ) → (buf_infos : List ℕ) → Io Call (Option (List ℕ))
map_loop zero index buf_infos = pure (some buf_infos)
map_loop (suc rounds) index buf_infos = do
  (_, buf) ← fetch input (query_buffer index)
  buf_infos' ← lift (store buf_infos index (get_or buf 0 0))
  attempt (with_held input (mmap_frame index)) (pure none) (map_loop rounds (index + 1) buf_infos')

-- Its second loop.
unfoldable pub queue_loop : (rounds index : ℕ) → Io Call Bool
queue_loop zero index = pure true
queue_loop (suc rounds) index =
    attempt (with_held input (queue_buffer index)) (pure false) (queue_loop rounds (index + 1))

-- The rest of v4l2_init_buffer, if the buffers are mapped.
abbrev pub queue_mapped : Option (List ℕ) → Io Call (Option (List ℕ))
queue_mapped none = pure none
queue_mapped (some buf_infos) = do
  ok ← queue_loop frame_buffer_count 0
  branch ok (pure (some buf_infos)) (pure none)

unfoldable pub v4l2_init_buffer : Io Call (Option (List ℕ))
v4l2_init_buffer =
    attempt (with_held input request_buffers) (pure none)
      do mapped ← map_loop frame_buffer_count 0 (0 ∷ 0 ∷ 0 ∷ []); queue_mapped mapped

unfoldable pub v4l2_stream_on : Io Call Bool
v4l2_stream_on = attempt (with_held input stream_on) (pure false) (pure true)

-- Rounds of the two loops of v4l2_read_data that end in no other way: `index` is buf.index, which
-- the driver sets where a frame is taken.
unfoldable pub read_loop :
    (rounds : ℕ) → Screen → ℕ × ℕ → (buf_infos : List ℕ) → (index : ℕ) → Cells → Io Call Cells
read_loop zero fb frm buf_infos index cells = pure cells
read_loop (suc rounds) fb (frm_width, frm_height) buf_infos index cells = do
  (ret, buf) ← fetch input dequeue_buffer
  let i = if ltb_ℤ ret (pos 0) then next_index index else get_or buf 0 0
  length ← lift (load buf_infos i)
  touch screen
  cells' ← lift (show_frame fb length (pixels buf) frm_width frm_height cells)
  _ ← with_held input (queue_buffer i)
  read_loop rounds fb (frm_width, frm_height) buf_infos (i + 1) cells'

unfoldable pub v4l2_read_data : (rounds : ℕ) → Screen → ℕ × ℕ → List ℕ → Cells → Io Call Cells
v4l2_read_data rounds fb frm buf_infos cells = read_loop rounds fb frm buf_infos 0 cells

-- How main is left: by `exit`, or in its endless loop.
pub data Exit : Type 0 where
  exited : ℤ → Exit
  reading : Cells → Exit

-- if (f()) exit(EXIT_FAILURE);
abbrev pub or_exit : {A : Type 0} → Option A → (A → Io Call Exit) → Io Call Exit
or_exit none k = pure (exited (pos 1))
or_exit (some a) k = k a

-- The parts of `main` after the check of argc, from the last one on, with a number of rounds of its
-- last loop. The screen is white.
unfoldable pub stream : (rounds : ℕ) → Screen → ℕ × ℕ → List ℕ → Io Call Exit
stream rounds fb frm buf_infos = do
  on ← v4l2_stream_on
  branch on (do cells ← v4l2_read_data rounds fb frm buf_infos (λ _. 65535); pure (reading cells))
      (pure (exited (pos 1)))

unfoldable pub set_up : (rounds : ℕ) → Screen → ℕ × ℕ → Io Call Exit
set_up rounds fb frm = do buf_infos? ← v4l2_init_buffer; or_exit buf_infos? (stream rounds fb frm)

unfoldable pub with_camera : (fuel rounds : ℕ) → Screen → Io Call Exit
with_camera fuel rounds fb = do
  cam_fmts ← v4l2_enum_formats fuel
  v4l2_print_formats fuel cam_fmts
  frm? ← v4l2_set_format fb
  or_exit frm? (set_up rounds fb)

unfoldable pub with_screen : (fuel rounds : ℕ) → Screen → Io Call Exit
with_screen fuel rounds fb = do
  ok ← v4l2_dev_init
  branch ok (with_camera fuel rounds fb) (pure (exited (pos 1)))

unfoldable pub main : (fuel rounds : ℕ) → Io Call Exit
main fuel rounds = do fb? ← fb_dev_init; or_exit fb? (with_screen fuel rounds)
