-- ===== src/Sound/Tests.antt =====
-- The programs of study_test/ALIS_pcm on small runs: an environment in which the file has a header
-- and one period of sound, and the device has room for it.
use study_c_know.Common.{ℕ, ◌≤◌, ◌≡◌, refl, false, List, [], ◌∷◌, ◌==◌, ltb, if◌then◌else◌, arith}
use study_c_know.Common.Int.{ℤ, pos, negsuc}
use study_c_know.Device.{◌>>=◌}
use study_c_know.Device.Ends.{Ends}
use study_c_know.Sound
use study_c_know.Sound.{
  Resource, Io, Env, State, Call, Config, open_device, playback, readi, read_file, poll, elem_next,
  first_elem,
}
use study_c_know.Sound.Opened.{Allocates}
use study_c_know.Sound.Wav.{open_wav_file}
use study_c_know.Sound.Wav.Search.{open_wav_file-Checked, ReadsEnd, Checked}
use study_c_know.Sound.Periods.{RecordingEnds}
use study_c_know.Sound.Polling.{PollEnds}
use study_c_know.Sound.Mixer.{ElementsEnd}
use study_c_know.Sound.Player.{Released, begin}
use study_c_know.Sound.Keys.{Event, signal, key}
use study_c_know.Sound.Playback
use study_c_know.Sound.PlaybackAsync
use study_c_know.Sound.PlaybackMixer
use study_c_know.Sound.Playback.{playback_main-Released}
use study_c_know.Sound.PlaybackAsync.{signals, signals-main-Settled, Settled}
use study_c_know.Sound.PlaybackMixer.{mixer_main-Waiting}

-- "RIFF", a size and "WAVE"
abbrev riff : List ℕ
riff = 82 ∷ 73 ∷ 70 ∷ 70 ∷ 0 ∷ 0 ∷ 0 ∷ 0 ∷ 87 ∷ 65 ∷ 86 ∷ 69 ∷ []

-- A format chunk: two channels, 44100 frames of 4 bytes in a second.
abbrev fmt : List ℕ
fmt =
    102 ∷ 109 ∷ 116 ∷ 32 ∷ 16 ∷ 0 ∷ 0 ∷ 0 ∷ 1 ∷ 0 ∷ 2 ∷ 0 ∷ 68 ∷ 172 ∷ 0 ∷ 0 ∷ 16 ∷ 177 ∷ 2 ∷ 0 ∷ 4
    ∷ 0 ∷ 16 ∷ 0 ∷ []

-- "data" and a size
abbrev data_chunk : List ℕ
data_chunk = 100 ∷ 97 ∷ 116 ∷ 97 ∷ 0 ∷ 16 ∷ 0 ∷ 0 ∷ []

-- The time when the calls begin to fail or to be at an end.
abbrev late : ℕ
late = 40

abbrev until_late : ℤ → ℤ → ℕ → ℤ
until_late early after t = if ltb t late then early else after

abbrev answers : Call → ℕ → ℤ
answers (read_file k) t = until_late (pos k) (pos 0) t
answers (readi k) t = until_late (pos k) (negsuc 4) t
answers poll t = until_late (pos 1) (negsuc 4) t
answers first_elem t = until_late (pos 1) (pos 0) t
answers elem_next t = pos 0
answers (Sound.writei k) t = pos k
answers Sound.avail_update t = pos 2048
answers Sound.poll_descriptors_count t = pos 1
answers _ t = pos 1

abbrev read_payload : ℕ → List ℕ
read_payload k = if k == 12 then riff else if k == 24 then fmt else data_chunk

abbrev payloads : Call → ℕ → List ℕ
payloads (read_file k) t = read_payload k
payloads Sound.revents t = 5 ∷ []
payloads _ t = []

abbrev env : Env Call
env = record { answer = answers; payload = payloads }

until_late-after : (early after : ℤ) (t : ℕ) → late ≤ t → until_late early after t ≡ after
until_late-after early after t h = rw (ltb_late t h) refl
  where
    ltb_late : (k : ℕ) → late ≤ k → ltb k late ≡ false
    ltb_late k h = ground arith

env-Allocates : Allocates env
env-Allocates t = refl

env-ReadsEnd : ReadsEnd env late
env-ReadsEnd k t h = rw (until_late-after (pos k) (pos 0) t h) refl

env-RecordingEnds : RecordingEnds env late
env-RecordingEnds k t h = rw (until_late-after (pos k) (negsuc 4) t h) refl

env-PollEnds : PollEnds env late
env-PollEnds t h = rw (until_late-after (pos 1) (negsuc 4) t h) refl

env-ElementsEnd : ElementsEnd env late
env-ElementsEnd t h = (rw (until_late-after (pos 1) (pos 0) t h) refl, refl)

abbrev stereo : Config
stereo = record { stream = playback; rate = 44100; channels = 2 }

open_wav_file-Checked_example : Ends (open_wav_file 41 env begin) (Checked env [])
open_wav_file-Checked_example =
    open_wav_file-Checked 41 env late 0 [] [] refl env-ReadsEnd (omega arith)

playback_main-Released_example : Ends (Playback.main 41 2 env begin) (Released env)
playback_main-Released_example =
    playback_main-Released env late 41 env-Allocates env-ReadsEnd (omega arith)

signals-main-Settled_example :
    Ends ((PlaybackAsync.main 41 2 >>= signals 3 41) env begin) (Settled env)
signals-main-Settled_example =
    signals-main-Settled env late 41 env-ReadsEnd (omega arith) 3 env-Allocates

-- The space key, the signal of the device, and 'q'.
abbrev events : List Event
events = key 32 ∷ signal ∷ key 113 ∷ []

mixer_main-Waiting_example :
    Ends (PlaybackMixer.main 42 events 2 env begin) (PlaybackMixer.Waiting env)
mixer_main-Waiting_example =
    mixer_main-Waiting env late 42 env-ReadsEnd (omega arith) events env-Allocates env-ElementsEnd
