-- ===== src/Sound/Capture.antt =====
-- study_test/ALIS_pcm/pcm_capture.c: sound is recorded period by period.
use study_c_know.Common.{ℕ, zero, suc, ◌+◌, ◌<◌, ◌≡◌, refl, none, List, [], arith, inl}
use study_c_know.Common.Int.{ℤ, pos}
use study_c_know.Device.{pure}
use study_c_know.Device.Ends.{Ends, Ends-pure}
use study_c_know.Sound.{Io, Env, State, Call, open_device}
use study_c_know.Sound.Opened.{Allocates}
use study_c_know.Sound.Periods.{record_period, record_period-Period, RecordingEnds}
use study_c_know.Sound.Player.{Exit, exited, begin}
use study_c_know.Sound.Recorder.{err3, config, recorder, owned, recorder-Ends}

abbrev pub finish : Io Call ℤ
finish = pure (pos 0)

unfoldable pub snd_pcm_init : Io Call ℤ
snd_pcm_init = open_device config finish

-- for (;;) one period
unfoldable pub record_loop : ℕ → Io Call Exit
record_loop zero = λ _ _. none
record_loop (suc fuel) = record_period err3 (record_loop fuel)

unfoldable pub main : ℕ → (argc : ℕ) → Io Call Exit
main fuel argc = recorder argc finish (record_loop fuel)

-- The program exited with EXIT_FAILURE and holds nothing.
abbrev pub Gone : Exit → State Call → Type 0
Gone r t = (r ≡ exited (pos 1)) × (t.held ≡ [])

record_loop-Gone :
    (fuel : ℕ) (e : Env Call) (n m : ℕ) (us : List Call)
    → RecordingEnds e n
    → 0 < fuel
    → n < m + fuel
    → Ends (record_loop fuel e (record { time = m; held = owned; trace = us })) Gone
unfolding record_loop
record_loop-Gone zero e n m us ends some_fuel enough = absurd (omega arith)
record_loop-Gone (suc fuel) e n m us ends some_fuel enough =
    record_period-Period e owned Gone n refl refl refl ends err3 (record_loop fuel) m us
      (λ t vs k. Ends-pure _ _ (refl, refl))
      (λ early t vs k. record_loop-Gone fuel e n t vs ends (omega arith) (omega arith))

-- The program uses only what it holds and ends, with fuel for the periods before the device
-- delivers no more, if `snd_pcm_hw_params_malloc` does not fail, and whatever else the calls
-- answer. It exits with EXIT_FAILURE and has given back everything once.
pub capture_main-Gone :
    (e : Env Call) (n fuel : ℕ)
    → Allocates e
    → RecordingEnds e n
    → n < fuel
    → Ends (main fuel 2 e begin) Gone
unfolding main
capture_main-Gone e n fuel memory stop enough =
    recorder-Ends e Gone (λ t own. (refl, own)) finish (record_loop fuel) memory
      (λ k vs. Ends-pure _ _ (inl (refl, refl)))
      (λ m us. record_loop-Gone fuel e n m us stop (omega (arith, enough)) (omega (arith, enough)))
