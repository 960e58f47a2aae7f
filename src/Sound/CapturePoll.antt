-- ===== src/Sound/CapturePoll.antt =====
-- study_test/ALIS_pcm/pcm_capture_poll.c: sound is recorded when `poll` says that there is some.
use study_c_know.Common.{ℕ, suc, ◌<◌, ◌≡◌, refl, [], ◌∷◌, arith, ◌⊎◌, inl, inr}
use study_c_know.Common.Int.{ℤ, pos, ◌==ℤ◌, ltb_ℤ}
use study_c_know.Device.{pcm, poll_set, pure, ◌>>=◌, with_held, branch, attempt}
use study_c_know.Device.Ends.{Ends, Ends-pure, Ends-bind, Ends-if}
use study_c_know.Sound.{Io, Env, State, Call, open_device, pcm_start}
use study_c_know.Sound.Opened.{Allocates}
use study_c_know.Sound.Periods.{
  record_period, record_period-Period, RecordingEnds, fill_loop, fill_loop-Ends,
}
use study_c_know.Sound.Player.{Exit, exited, begin}
use study_c_know.Sound.Recorder.{err3, config, recorder, owned, recorder-Ends}
use study_c_know.Sound.Polling.{
  snd_pcm_poll_init, snd_pcm_poll_init-Ends, poll_loop, poll_loop-Ends, PollEnds,
}

abbrev pub finish : Io Call ℤ
finish = pure (pos 0)

unfoldable pub snd_pcm_init : Io Call ℤ
snd_pcm_init = open_device config finish

-- `main` after the polling was prepared with this status.
unfoldable pub capture : ℕ → ℤ → Io Call Exit
capture fuel ret =
    branch (ret ==ℤ pos 0)
      (attempt (with_held pcm pcm_start) err3
        (poll_loop fuel 1 (fill_loop fuel record_period) err3))
      err3

unfoldable pub main : ℕ → (argc : ℕ) → Io Call Exit
main fuel argc = recorder argc finish (snd_pcm_poll_init >>= capture fuel)

-- The program exited with EXIT_FAILURE and holds at most the descriptors that it polled, which it
-- never gives back.
abbrev pub Left : Exit → State Call → Type 0
Left r t = (r ≡ exited (pos 1)) × ((t.held ≡ []) ⊎ (t.held ≡ poll_set ∷ []))

-- The program uses only what it holds and ends, with fuel for the calls before the device delivers
-- no more and `poll` fails, if `snd_pcm_hw_params_malloc` does not fail, and whatever else the
-- calls answer. It exits with EXIT_FAILURE and has given back the device, the buffer and the file
-- once; the descriptors that it polled are still held if they were allocated.
pub capture_poll-Left :
    (e : Env Call) (n fuel : ℕ)
    → Allocates e
    → RecordingEnds e n
    → PollEnds e n
    → n < fuel
    → Ends (main fuel 2 e begin) Left
unfolding main capture
capture_poll-Left e n fuel memory stop quiet enough =
    recorder-Ends e Left (λ t own. (refl, inl own)) finish (snd_pcm_poll_init >>= capture fuel)
      memory (λ k vs. Ends-pure _ _ (inl (refl, refl)))
      (λ m us. Ends-bind (capture fuel) e (snd_pcm_poll_init-Ends e owned m us refl refl) λ ret t w.
        elim w [
          | inl (good, own) ↦
              rw (good, own)
                (Ends-if (ltb_ℤ (e.answer pcm_start t.time) (pos 0))
                  (λ bad. Ends-pure _ _ (refl, inr refl))
                  (λ fine.
                    poll_loop-Ends e (poll_set ∷ owned) Left 1 (fill_loop fuel record_period) err3 n
                      fuel (suc t.time) _ refl refl
                      (λ stop' done k vs at_stop at_done.
                        fill_loop-Ends e (poll_set ∷ owned) Left record_period stop' done n fuel k
                          vs refl
                          (record_period-Period e (poll_set ∷ owned) Left n refl refl refl stop)
                          at_stop at_done (omega (arith, enough)) (omega (arith, enough)))
                      quiet (λ k vs l. Ends-pure _ _ (refl, inr refl)) (omega (arith, enough))
                      (omega (arith, enough))))
          | inr (bad, inl own) ↦ rw (bad, own) (Ends-pure _ _ (refl, inl refl))
          | inr (bad, inr own) ↦ rw (bad, own) (Ends-pure _ _ (refl, inr refl))
        ])
