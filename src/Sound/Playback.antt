-- ===== src/Sound/Playback.antt =====
-- study_test/ALIS_pcm/pcm_playback.c: a WAV file is played period by period.
use study_c_know.Common.{ℕ, zero, suc, ◌+◌, ◌<◌, refl, none, List, arith, inl}
use study_c_know.Common.Int.{ℤ, pos}
use study_c_know.Device.{pure}
use study_c_know.Device.Ends.{Ends, Ends-pure}
use study_c_know.Sound.{Io, Env, Call, open_device}
use study_c_know.Sound.Opened.{Allocates}
use study_c_know.Sound.Wav.Search.{ReadsEnd}
use study_c_know.Sound.Periods.{play_period, play_period-Period}
use study_c_know.Sound.Player.{Exit, err3, config, player, Released, owned, begin, player-Ends}

-- Nothing is left to do once the configuration took effect.
abbrev pub finish : Io Call ℤ
finish = pure (pos 0)

unfoldable pub snd_pcm_init : List ℕ → Io Call ℤ
snd_pcm_init fmt = open_device (config fmt) finish

-- for (;;) one period
unfoldable pub play_loop : ℕ → List ℕ → Io Call Exit
play_loop zero fmt = λ _ _. none
play_loop (suc fuel) fmt = play_period fmt err3 (play_loop fuel fmt)

unfoldable pub main : ℕ → (argc : ℕ) → Io Call Exit
main fuel argc = player fuel argc finish (play_loop fuel)

play_loop-Released :
    (fuel : ℕ) (fmt : List ℕ) (e : Env Call) (n m : ℕ) (us : List Call)
    → ReadsEnd e n
    → 0 < fuel
    → n < m + fuel
    → Ends (play_loop fuel fmt e (record { time = m; held = owned; trace = us })) (Released e)
unfolding play_loop
play_loop-Released zero fmt e n m us ends some_fuel enough = absurd (omega arith)
play_loop-Released (suc fuel) fmt e n m us ends some_fuel enough =
    play_period-Period e owned (Released e) fmt n refl refl refl ends err3 (play_loop fuel fmt) m us
      (λ t vs k. Ends-pure _ _ (refl, inl refl))
      (λ early t vs k. play_loop-Released fuel fmt e n t vs ends (omega arith) (omega arith))

-- The program uses only what it holds and ends, with fuel for the reads before the file ends, if
-- `snd_pcm_hw_params_malloc` does not fail, and whatever else the calls answer. It exits with
-- EXIT_FAILURE and has given back everything once, but for a file in which it met no data chunk,
-- which it leaves open.
pub playback_main-Released :
    (e : Env Call) (n fuel : ℕ)
    → Allocates e
    → ReadsEnd e n
    → n < fuel
    → Ends (main fuel 2 e begin) (Released e)
unfolding main
playback_main-Released e n fuel memory stop enough =
    player-Ends e (Released e) (λ t own. (refl, own)) finish (play_loop fuel) n fuel memory stop
      enough (λ k vs. Ends-pure _ _ (inl (refl, refl)))
      (λ fmt m us.
        play_loop-Released fuel fmt e n m us stop (omega (arith, enough)) (omega (arith, enough)))
