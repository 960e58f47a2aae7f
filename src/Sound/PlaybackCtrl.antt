-- ===== src/Sound/PlaybackCtrl.antt =====
-- study_test/ALIS_pcm/pcm_playback_ctrl.c: the device is filled by a handler, and keys pause the
-- program or end it. The terminal is set to a raw mode for the keys. The signal is blocked until the
-- program reads keys, so the handler runs only between keys.
use study_c_know.Common.{ℕ, suc, ◌<◌, ◌≡◌, refl, List, [], ◌∷◌, ◌==◌, arith, ◌⊎◌, inl, inr}
use study_c_know.Common.Int.{ℤ, pos, ltb_ℤ}
use study_c_know.Device.{
  pcm, input, buffer, terminal, pure, ◌>>=◌, ◌>>◌, ask, with_held, take, release, branch,
}
use study_c_know.Device.Ends.{Ends, Ends-pure, Ends-if}
use study_c_know.Sound.{
  Resource, Io, Env, State, Call, open_device, add_handler, add_pcm_handler, close_file, pcm_close,
  free_buffer, pcm_drop, pcm_drain, get_terminal, set_raw, restore_terminal,
}
use study_c_know.Sound.Opened.{Allocates}
use study_c_know.Sound.Wav.Search.{ReadsEnd}
use study_c_know.Sound.Periods.{play_period, play_period-Period, fill_loop, fill_loop-Ends}
use study_c_know.Sound.Player.{
  Exit, exited, asleep, err2, config, player, Released, begin, player-Ends,
}
use study_c_know.Sound.Keys.{Event, toggle_pause, toggle_pause-Ends, key_loop, key_loop-Ends}

unfoldable pub snd_pcm_init : List ℕ → Io Call ℤ
snd_pcm_init fmt = open_device (config fmt) add_handler

-- The label `out` of the handler.
abbrev pub out : Io Call Exit
out = do
  _ ← with_held pcm pcm_drain
  release pcm pcm_close
  release terminal restore_terminal
  release buffer free_buffer
  release input close_file
  pure (exited (pos 1))

unfoldable pub callback : ℕ → List ℕ → Io Call Exit
callback fuel fmt = fill_loop fuel (play_period fmt) out (pure (asleep fmt))

abbrev pub err3 : Io Call Exit
err3 = do
  _ ← with_held pcm pcm_drop
  release terminal restore_terminal
  release buffer free_buffer
  err2

-- 'q' ends the program, the space key pauses it or goes on.
abbrev pub press : ℕ → (more : Io Call Exit) → Io Call Exit
press c more = branch (c == 113) err3 (branch (c == 32) (toggle_pause more) more)

-- `main` from the terminal on, with the events that come.
unfoldable pub control : ℕ → List Event → List ℕ → Io Call Exit
control fuel events fmt = do
  _ ← ask get_terminal
  take terminal set_raw
  fill_loop fuel (play_period fmt) err3 (key_loop (callback fuel fmt) press fmt events)

unfoldable pub main : ℕ → List Event → (argc : ℕ) → Io Call Exit
main fuel events argc = player fuel argc add_handler (control fuel events)

abbrev owned : List Resource
owned = terminal ∷ buffer ∷ pcm ∷ input ∷ []

-- The program waits for a key and holds all it needs, or it exited and holds nothing.
abbrev pub Waiting : Env Call → Exit → State Call → Type 0
Waiting e r t = Released e r t ⊎ ((fmt : List ℕ) × (r ≡ asleep fmt) × (t.held ≡ owned))

module _ (e : Env Call) (n fuel : ℕ) (stop : ReadsEnd e n) (enough : n < fuel) where
  callback-Ends :
      (fmt : List ℕ) (m : ℕ) (us : List Call)
      → Ends (callback fuel fmt e (record { time = m; held = owned; trace = us })) λ r t.
        (Waiting e r t × ((s : ℤ) × (r ≡ exited s))) ⊎ ((r ≡ asleep fmt) × (t.held ≡ owned))
  unfolding callback
  callback-Ends fmt m us =
      let Q : Exit → State Call → Type 0 = λ r t.
        (Waiting e r t × ((s : ℤ) × (r ≡ exited s))) ⊎ ((r ≡ asleep fmt) × (t.held ≡ owned)) in
      fill_loop-Ends e owned Q (play_period fmt) out (pure (asleep fmt)) n fuel m us refl
        (play_period-Period e owned Q fmt n refl refl refl stop)
        (λ t vs k. Ends-pure _ _ (inl (inl (refl, inl refl), (pos 1, refl))))
        (λ t vs k. Ends-pure _ _ (inr (refl, refl))) (omega (arith, enough)) (omega (arith, enough))

  control-Waiting :
      (events : List Event) (fmt : List ℕ) (m : ℕ) (us : List Call)
      → Ends
          (control fuel events fmt e
            (record { time = m; held = buffer ∷ pcm ∷ input ∷ []; trace = us }))
          (Waiting e)
  unfolding control
  control-Waiting events fmt m us =
      fill_loop-Ends e owned (Waiting e) (play_period fmt) err3
        (key_loop (callback fuel fmt) press fmt events) n fuel (suc (suc m)) _ refl
        (play_period-Period e owned (Waiting e) fmt n refl refl refl stop)
        (λ t vs k. Ends-pure _ _ (inl (refl, inl refl)))
        (λ t vs k.
          key_loop-Ends e owned (Waiting e) (callback fuel fmt) press fmt events
            (λ i ws. inr (fmt, refl, refl)) (λ i ws. callback-Ends fmt i ws)
            (λ c more rest i ws.
              Ends-if (c == 113) (λ quit. Ends-pure _ _ (inl (refl, inl refl)))
                (λ other.
                  Ends-if (c == 32)
                    (λ space. toggle_pause-Ends e owned (Waiting e) more refl rest i ws)
                    (λ ignored. rest i ws)))
            t vs)
        (omega (arith, enough)) (omega (arith, enough))

  -- The program, with any keys and signals in any order, uses only what it holds and ends, with fuel
  -- for the reads before the file ends, if `snd_pcm_hw_params_malloc` does not fail, and whatever
  -- else the calls answer. It waits for a key with the terminal in raw mode and everything held, or
  -- it exited with EXIT_FAILURE, restored the terminal and has given back everything once, but for
  -- a file in which it met no data chunk, which it leaves open.
  pub ctrl_main-Waiting :
      (events : List Event) → Allocates e → Ends (main fuel events 2 e begin) (Waiting e)
  unfolding main
  ctrl_main-Waiting events memory =
      player-Ends e (Waiting e) (λ t own. inl (refl, own)) add_handler (control fuel events) n fuel
        memory stop enough
        (λ m us.
          Ends-if (ltb_ℤ (e.answer add_pcm_handler m) (pos 0))
            (λ bad. Ends-pure _ _ (inr (refl, refl))) (λ good. Ends-pure _ _ (inl (refl, refl))))
        (λ fmt m us. control-Waiting events fmt m us)
