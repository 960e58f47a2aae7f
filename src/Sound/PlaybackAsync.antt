-- ===== src/Sound/PlaybackAsync.antt =====
-- study_test/ALIS_pcm/pcm_playback_async.c: the device is filled once, and from then on by a handler
-- of the signal that the device sends.
use study_c_know.Common.{ℕ, zero, suc, ◌<◌, ◌≡◌, refl, List, arith, ◌⊎◌, inl, inr}
use study_c_know.Common.Int.{ℤ, pos, ltb_ℤ}
use study_c_know.Device.{pcm, input, buffer, pure, ◌>>=◌, ◌>>◌, release}
use study_c_know.Device.Ends.{Ends, Ends-pure, Ends-bind, Ends-if}
use study_c_know.Sound.{
  Io, Env, State, Call, open_device, add_handler, add_pcm_handler, close_file, pcm_close,
  free_buffer,
}
use study_c_know.Sound.Opened.{Allocates}
use study_c_know.Sound.Wav.Search.{ReadsEnd}
use study_c_know.Sound.Periods.{play_period, play_period-Period, fill_loop, fill_loop-Ends}
use study_c_know.Sound.Player.{
  Exit, exited, asleep, err3, config, player, Released, owned, begin, player-Ends,
}

unfoldable pub snd_pcm_init : List ℕ → Io Call ℤ
snd_pcm_init fmt = open_device (config fmt) add_handler

-- The label `out` of the handler.
abbrev pub out : Io Call Exit
out = do
  release pcm pcm_close
  release buffer free_buffer
  release input close_file
  pure (exited (pos 1))

-- The handler either returns to the sleeping program or exits.
unfoldable pub callback : ℕ → List ℕ → Io Call Exit
callback fuel fmt = fill_loop fuel (play_period fmt) out (pure (asleep fmt))

unfoldable pub main : ℕ → (argc : ℕ) → Io Call Exit
main fuel argc =
    player fuel argc add_handler (λ fmt. fill_loop fuel (play_period fmt) err3 (pure (asleep fmt)))

-- The signals that reach the sleeping program.
unfoldable pub signals : ℕ → (fuel : ℕ) → Exit → Io Call Exit
signals zero fuel r = pure r
signals (suc k) fuel (exited status) = pure (exited status)
signals (suc k) fuel (asleep fmt) = callback fuel fmt >>= signals k fuel

-- The program is asleep and holds all it needs, or it exited and holds nothing.
abbrev pub Settled : Env Call → Exit → State Call → Type 0
Settled e r t = Released e r t ⊎ ((fmt : List ℕ) × (r ≡ asleep fmt) × (t.held ≡ owned))

module _ (e : Env Call) (n fuel : ℕ) (stop : ReadsEnd e n) (enough : n < fuel) where
  callback-Settled :
      (fmt : List ℕ) (m : ℕ) (us : List Call)
      → Ends (callback fuel fmt e (record { time = m; held = owned; trace = us })) (Settled e)
  unfolding callback
  callback-Settled fmt m us =
      fill_loop-Ends e owned (Settled e) (play_period fmt) out (pure (asleep fmt)) n fuel m us refl
        (play_period-Period e owned (Settled e) fmt n refl refl refl stop)
        (λ t vs k. Ends-pure _ _ (inl (refl, inl refl)))
        (λ t vs k. Ends-pure _ _ (inr (fmt, refl, refl))) (omega (arith, enough))
        (omega (arith, enough))

  signals-Settled :
      (k : ℕ) (r : Exit) (t : State Call) → Settled e r t → Ends (signals k fuel r e t) (Settled e)
  unfolding signals
  signals-Settled zero r t w = Ends-pure _ _ w
  signals-Settled (suc k) (exited status) t w = Ends-pure _ _ w
  signals-Settled (suc k) (asleep fmt) t (inl (gone, own)) = cc
  signals-Settled (suc k) (asleep fmt) t (inr (f, same, own)) = rw own (
      Ends-bind (signals k fuel) e (callback-Settled fmt t.time t.trace)
        (λ r u w. signals-Settled k r u w))

  -- The program and then any number of signals use only what is held and end, with fuel for the
  -- reads before the file ends, if `snd_pcm_hw_params_malloc` does not fail, and whatever else the
  -- calls answer. After them the program either sleeps and holds the file, the device and the
  -- buffer, or it exited with EXIT_FAILURE and has given back everything once, but for a file
  -- in which it met no data chunk, which it leaves open.
  pub signals-main-Settled :
      (k : ℕ) → Allocates e → Ends ((main fuel 2 >>= signals k fuel) e begin) (Settled e)
  unfolding main
  signals-main-Settled k memory =
      Ends-bind (signals k fuel) e
        (player-Ends e (Settled e) (λ t own. inl (refl, own)) add_handler
          (λ fmt. fill_loop fuel (play_period fmt) err3 (pure (asleep fmt))) n fuel memory stop
          enough
          (λ m us.
            Ends-if (ltb_ℤ (e.answer add_pcm_handler m) (pos 0))
              (λ bad. Ends-pure _ _ (inr (refl, refl))) (λ good. Ends-pure _ _ (inl (refl, refl))))
          (λ fmt m us.
            fill_loop-Ends e owned (Settled e) (play_period fmt) err3 (pure (asleep fmt)) n fuel m
              us refl (play_period-Period e owned (Settled e) fmt n refl refl refl stop)
              (λ t vs j. Ends-pure _ _ (inl (refl, inl refl)))
              (λ t vs j. Ends-pure _ _ (inr (fmt, refl, refl))) (omega (arith, enough))
              (omega (arith, enough))))
        (λ r t w. signals-Settled k r t w)
