-- ===== src/Sound/PlaybackPoll.antt =====
-- study_test/ALIS_pcm/pcm_playback_poll.c: the device is filled when `poll` says that it has room.
use study_c_know.Common.{ℕ, ◌<◌, ◌≡◌, refl, List, [], ◌∷◌, arith, ◌⊎◌, inl, inr}
use study_c_know.Common.Int.{ℤ, pos, ◌==ℤ◌}
use study_c_know.Device.{poll_set, pure, ◌>>=◌, branch}
use study_c_know.Device.Ends.{Ends, Ends-pure, Ends-bind}
use study_c_know.Sound.{Io, Env, State, Call, open_device}
use study_c_know.Sound.Opened.{Allocates}
use study_c_know.Sound.Wav.Search.{ReadsEnd, Unclosed}
use study_c_know.Sound.Periods.{play_period, play_period-Period, fill_loop, fill_loop-Ends}
use study_c_know.Sound.Player.{Exit, exited, err3, config, player, owned, begin, player-Ends}
use study_c_know.Sound.Polling.{
  snd_pcm_poll_init, snd_pcm_poll_init-Ends, poll_loop, poll_loop-Ends, PollEnds,
}

abbrev pub finish : Io Call ℤ
finish = pure (pos 0)

unfoldable pub snd_pcm_init : List ℕ → Io Call ℤ
snd_pcm_init fmt = open_device (config fmt) finish

-- `main` after the polling was prepared with this status.
unfoldable pub play : ℕ → List ℕ → ℤ → Io Call Exit
play fuel fmt ret =
    branch (ret ==ℤ pos 0) (poll_loop fuel 4 (fill_loop fuel (play_period fmt)) err3) err3

unfoldable pub main : ℕ → (argc : ℕ) → Io Call Exit
main fuel argc = player fuel argc finish λ fmt. snd_pcm_poll_init >>= play fuel fmt

-- The program exited with EXIT_FAILURE. It holds nothing but the descriptors that it polled, which
-- it never gives back, or a file in which it met no data chunk.
abbrev pub Left : Env Call → Exit → State Call → Type 0
Left e r t = (r ≡ exited (pos 1)) × (((t.held ≡ []) ⊎ Unclosed e [] t) ⊎ (t.held ≡ poll_set ∷ []))

-- The program uses only what it holds and ends, with fuel for the calls before reads and `poll`
-- fail, if `snd_pcm_hw_params_malloc` does not fail, and whatever else the calls answer. It exits
-- with EXIT_FAILURE and has given back the device, the buffer and the file once, but for a file
-- in which it met no data chunk; the descriptors that it polled are still held if they were allocated.
pub poll_main-Left :
    (e : Env Call) (n fuel : ℕ)
    → Allocates e
    → ReadsEnd e n
    → PollEnds e n
    → n < fuel
    → Ends (main fuel 2 e begin) (Left e)
unfolding main play
poll_main-Left e n fuel memory stop quiet enough =
    player-Ends e (Left e) (λ t own. (refl, inl own)) finish
      (λ fmt. snd_pcm_poll_init >>= play fuel fmt) n fuel memory stop enough
      (λ k vs. Ends-pure _ _ (inl (refl, refl)))
      (λ fmt m us.
        Ends-bind (play fuel fmt) e (snd_pcm_poll_init-Ends e owned m us refl refl) λ ret t w.
          elim w [
            | inl (good, own) ↦
                rw (good, own)
                  (poll_loop-Ends e (poll_set ∷ owned) (Left e) 4 (fill_loop fuel (play_period fmt))
                    err3 n fuel t.time t.trace refl refl
                    (λ stop' done k vs at_stop at_done.
                      fill_loop-Ends e (poll_set ∷ owned) (Left e) (play_period fmt) stop' done n
                        fuel k vs refl
                        (play_period-Period e (poll_set ∷ owned) (Left e) fmt n refl refl refl stop)
                        at_stop at_done (omega (arith, enough)) (omega (arith, enough)))
                    quiet (λ k vs l. Ends-pure _ _ (refl, inr refl)) (omega (arith, enough))
                    (omega (arith, enough)))
            | inr (bad, inl own) ↦ rw (bad, own) (Ends-pure _ _ (refl, inl (inl refl)))
            | inr (bad, inr own) ↦ rw (bad, own) (Ends-pure _ _ (refl, inr refl))
          ])
