-- ===== src/Sound/CaptureAsync.antt =====
-- study_test/ALIS_pcm/pcm_capture_async.c: sound is recorded by a handler of the signal that the
-- device sends.
use study_c_know.Common.{ℕ, zero, suc, ◌<◌, ◌≡◌, refl, List, [], arith, ◌⊎◌, inl, inr}
use study_c_know.Common.Int.{ℤ, pos, ltb_ℤ}
use study_c_know.Device.{pcm, output, buffer, pure, ◌>>=◌, ◌>>◌, with_held, release, attempt}
use study_c_know.Device.Ends.{Ends, Ends-pure, Ends-bind, Ends-if}
use study_c_know.Sound.{
  Io, Env, State, Call, open_device, add_handler, add_pcm_handler, pcm_start, close_file, pcm_close,
  free_buffer,
}
use study_c_know.Sound.Opened.{Allocates}
use study_c_know.Sound.Periods.{
  record_period, record_period-Period, RecordingEnds, fill_loop, fill_loop-Ends,
}
use study_c_know.Sound.Player.{Exit, exited, asleep, begin}
use study_c_know.Sound.Recorder.{err3, config, recorder, owned, recorder-Ends}
use study_c_know.Sound.Capture.{Gone}

unfoldable pub snd_pcm_init : Io Call ℤ
snd_pcm_init = open_device config add_handler

-- The label `out` of the handler.
abbrev pub out : Io Call Exit
out = do
  release pcm pcm_close
  release buffer free_buffer
  release output close_file
  pure (exited (pos 1))

-- The handler either returns to the sleeping program or exits.
unfoldable pub callback : ℕ → Io Call Exit
callback fuel = fill_loop fuel record_period out (pure (asleep []))

-- `main` once everything is open.
abbrev pub start : Io Call Exit
start = attempt (with_held pcm pcm_start) err3 (pure (asleep []))

unfoldable pub main : (argc : ℕ) → Io Call Exit
main argc = recorder argc add_handler start

-- The signals that reach the sleeping program.
unfoldable pub signals : ℕ → (fuel : ℕ) → Exit → Io Call Exit
signals zero fuel r = pure r
signals (suc k) fuel (exited status) = pure (exited status)
signals (suc k) fuel (asleep fmt) = callback fuel >>= signals k fuel

-- The program is asleep and holds all it needs, or it exited and holds nothing.
abbrev pub Settled : Exit → State Call → Type 0
Settled r t = Gone r t ⊎ ((r ≡ asleep []) × (t.held ≡ owned))

module _ (e : Env Call) (n fuel : ℕ) (stop : RecordingEnds e n) (enough : n < fuel) where
  callback-Settled :
      (m : ℕ) (us : List Call)
      → Ends (callback fuel e (record { time = m; held = owned; trace = us })) Settled
  unfolding callback
  callback-Settled m us =
      fill_loop-Ends e owned Settled record_period out (pure (asleep [])) n fuel m us refl
        (record_period-Period e owned Settled n refl refl refl stop)
        (λ t vs k. Ends-pure _ _ (inl (refl, refl))) (λ t vs k. Ends-pure _ _ (inr (refl, refl)))
        (omega (arith, enough)) (omega (arith, enough))

  signals-Settled :
      (k : ℕ) (r : Exit) (t : State Call) → Settled r t → Ends (signals k fuel r e t) Settled
  unfolding signals
  signals-Settled zero r t w = Ends-pure _ _ w
  signals-Settled (suc k) (exited status) t w = Ends-pure _ _ w
  signals-Settled (suc k) (asleep fmt) t (inl (gone, own)) = cc
  signals-Settled (suc k) (asleep fmt) t (inr (same, own)) = rw own (
      Ends-bind (signals k fuel) e (callback-Settled t.time t.trace)
        (λ r u w. signals-Settled k r u w))

  -- The program and then any number of signals use only what is held and end, with fuel for the
  -- periods before the device delivers no more, if `snd_pcm_hw_params_malloc` does not fail, and
  -- whatever else the calls answer. After them the program either sleeps and holds the device, the
  -- buffer and the file, or it exited with EXIT_FAILURE and has given back everything once.
  pub signals_capture-Settled :
      (k : ℕ) → Allocates e → Ends ((main 2 >>= signals k fuel) e begin) Settled
  unfolding main
  signals_capture-Settled k memory =
      Ends-bind (signals k fuel) e
        (recorder-Ends e Settled (λ t own. inl (refl, own)) add_handler start memory
          (λ m us.
            Ends-if (ltb_ℤ (e.answer add_pcm_handler m) (pos 0))
              (λ bad. Ends-pure _ _ (inr (refl, refl))) (λ good. Ends-pure _ _ (inl (refl, refl))))
          (λ m us.
            Ends-if (ltb_ℤ (e.answer pcm_start m) (pos 0)) (λ bad. Ends-pure _ _ (inl (refl, refl)))
              (λ good. Ends-pure _ _ (inr (refl, refl)))))
        (λ r t w. signals-Settled k r t w)
