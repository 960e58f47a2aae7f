-- ===== src/Sound.antt =====
-- study_test/ALIS_pcm: programs that play and record sound with ALSA. The calls of the library and
-- of the system, and what the eight programs share: how `snd_pcm_init` opens and configures the
-- device, and how `open_wav_file` reads the header of a WAV file.
pub mod Opened
pub mod Wav
pub mod Periods
pub mod Player
pub mod Playback
pub mod PlaybackAsync
pub mod Polling
pub mod PlaybackPoll
pub mod Keys
pub mod PlaybackCtrl
pub mod Mixer
pub mod PlaybackMixer
pub mod Recorder
pub mod Capture
pub mod CaptureAsync
pub mod CapturePoll
mod Tests
use study_c_know.Common.{
  ℕ, zero, suc, ◌+◌, ◌*◌, Bool, true, false, ◌&&◌, Option, none, some, List, [], ◌∷◌, get_or, ◌==◌,
  if◌then◌else◌,
}
use study_c_know.Common.Int.{ℤ, pos, negsuc, ◌==ℤ◌, ltb_ℤ}
pub use study_c_know.Device.{Resource, Io, Env, State}
use study_c_know.Device.{
  pcm, params, input, pure, ◌>>=◌, ◌>>◌, with_held, acquire, release, fetch, branch, attempt,
}

-- SND_PCM_STREAM_PLAYBACK and SND_PCM_STREAM_CAPTURE
pub data Stream : Type 0 where
  playback capture : Stream

pub data Call : Type 0 where
  pcm_open : Stream → Call
  hw_params_malloc hw_params_any set_access_interleaved set_format_s16_le : Call
  set_rate set_channels set_period_size set_periods : ℕ → Call
  hw_params hw_params_free pcm_close add_pcm_handler pcm_start avail_update : Call
  writei readi : ℕ → Call
  poll_descriptors_count poll_descriptors poll revents : Call
  mixer_open mixer_attach selem_register mixer_load first_elem elem_next mixer_close : Call
  open_file close_file : Call
  read_file : ℕ → Call
  write_file : ℤ → Call
  seek_set : ℕ → Call
  seek_cur : ℤ → Call
  malloc_buffer : ℕ → Call
  calloc_poll_set : ℤ → Call
  free_buffer : Call
  pcm_drop pcm_drain pcm_state get_terminal set_raw restore_terminal : Call
  pcm_pause : ℕ → Call
  get_name has_volume range_min range_max get_volume : Call
  set_volume_90 : (min max : ℤ) → Call
  set_volume : ℤ → Call

-- What `snd_pcm_init` asks of the device.
pub record Config : Type 0 where
  pub stream : Stream
  pub rate : ℕ
  pub channels : ℕ

-- period_size, in frames, and periods
abbrev pub period_size : ℕ
period_size = 1024

abbrev pub periods : ℕ
periods = 16

abbrev pub close_pcm : Io Call ℤ
close_pcm = do release pcm pcm_close; pure (negsuc 0)

-- The end of `snd_pcm_init` where a handler of the device's signal is registered.
abbrev pub add_handler : Io Call ℤ
add_handler = attempt (with_held pcm add_pcm_handler) close_pcm (pure (pos 0))

-- Calls in a row that use the parameters, until one fails.
unfoldable pub set_all : List Call → Io Call ℤ
set_all [] = pure (pos 0)
set_all (c ∷ cs) = attempt (with_held params c) (pure (negsuc 0)) (set_all cs)

unfoldable pub settings : Config → List Call
settings c =
    hw_params_any
    ∷ set_access_interleaved
    ∷ set_format_s16_le
    ∷ set_rate c.rate
    ∷ set_channels c.channels
    ∷ set_period_size period_size
    ∷ set_periods periods
    ∷ []

-- The rest of `snd_pcm_init`, once the settings are made or one of them failed.
unfoldable pub after_settings : (finish : Io Call ℤ) → ℤ → Io Call ℤ
after_settings finish ret =
    branch (ltb_ℤ ret (pos 0)) (do release params hw_params_free; close_pcm)
      (do
        ret ← with_held params hw_params
        release params hw_params_free
        branch (ltb_ℤ ret (pos 0)) close_pcm finish)

-- `snd_pcm_init`: `finish` is what the program does after the configuration took effect. The result
-- of `snd_pcm_hw_params_malloc` is not tested.
unfoldable pub open_device : Config → (finish : Io Call ℤ) → Io Call ℤ
open_device c finish =
    attempt (acquire pcm (pcm_open c.stream)) (pure (negsuc 0))
      do _ ← acquire params hw_params_malloc; ret ← set_all (settings c); after_settings finish ret
