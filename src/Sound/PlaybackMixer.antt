-- ===== src/Sound/PlaybackMixer.antt =====
-- study_test/ALIS_pcm/pcm_playback_mixer.c: pcm_playback_ctrl.c with a mixer, and with two keys that
-- change the volume of the playback element.
use study_c_know.Common.{ℕ, suc, ◌<◌, ◌≡◌, refl, List, [], ◌∷◌, ◌==◌, arith, ◌⊎◌, inl, inr}
use study_c_know.Common.Int.{ℤ, pos, negsuc, ◌+ℤ◌, ◌==ℤ◌, ltb_ℤ}
use study_c_know.Device.{
  pcm, input, buffer, mixer, terminal, pure, ◌>>=◌, ◌>>◌, ask, with_held, acquire, take, release,
  branch, attempt,
}
use study_c_know.Device.Ends.{Ends, Ends-pure, Ends-bind, Ends-if}
use study_c_know.Sound.{
  Resource, Io, Env, State, Call, open_device, add_handler, add_pcm_handler, close_file, pcm_close,
  malloc_buffer, free_buffer, pcm_drop, pcm_drain, get_terminal, set_raw, restore_terminal,
  mixer_close, get_volume, set_volume,
}
use study_c_know.Sound.Opened.{Allocates}
use study_c_know.Sound.Wav.Search.{ReadsEnd}
use study_c_know.Sound.Periods.{
  buf_bytes, play_period, play_period-Period, fill_loop, fill_loop-Ends,
}
use study_c_know.Sound.Player.{
  Exit, exited, asleep, err2, config, player_with, Released, begin, player_with-Ends,
}
use study_c_know.Sound.Keys.{
  Event, toggle_pause, toggle_pause-Ends, key_loop, key_loop-Ends, Always,
}
use study_c_know.Sound.Mixer.{Result, snd_mixer_init, snd_mixer_init-Ends, ElementsEnd}

unfoldable pub snd_pcm_init : List ℕ → Io Call ℤ
snd_pcm_init fmt = open_device (config fmt) add_handler

-- The label `out` of the handler.
abbrev pub out : Io Call Exit
out = do
  _ ← with_held pcm pcm_drain
  release mixer mixer_close
  release pcm pcm_close
  release terminal restore_terminal
  release buffer free_buffer
  release input close_file
  pure (exited (pos 1))

unfoldable pub callback : ℕ → List ℕ → Io Call Exit
callback fuel fmt = fill_loop fuel (play_period fmt) out (pure (asleep fmt))

-- The labels err3 and err4 of `main`; below them it is as in the other programs.
abbrev pub err3 : Io Call Exit
err3 = do release mixer mixer_close; err2

abbrev pub err4 : Io Call Exit
err4 = do
  _ ← with_held pcm pcm_drop
  release terminal restore_terminal
  release buffer free_buffer
  err3

-- The keys 'w' and 's', for an element that is not NULL.
unfoldable pub change_volume : (vol_elem by : ℤ) → (more : Io Call Exit) → Io Call Exit
change_volume vol_elem by more =
    branch (ltb_ℤ (pos 0) vol_elem)
      (do vol ← with_held mixer get_volume; _ ← with_held mixer (set_volume (vol +ℤ by)); more) more

-- 'q' ends the program, the space key pauses it or goes on.
unfoldable pub press : (vol_elem : ℤ) → ℕ → (more : Io Call Exit) → Io Call Exit
press vol_elem c more = branch (c == 113) err4 (
    branch (c == 32) (toggle_pause more) (
      branch (c == 119) (change_volume vol_elem (pos 1) more)
        (branch (c == 115) (change_volume vol_elem (negsuc 0) more) more)))

-- `main` from the terminal on, with the events that come.
unfoldable pub control : ℕ → List Event → List ℕ → (vol_elem : ℤ) → Io Call Exit
control fuel events fmt vol_elem = do
  _ ← ask get_terminal
  take terminal set_raw
  fill_loop fuel (play_period fmt) err4 (key_loop (callback fuel fmt) (press vol_elem) fmt events)

-- `main` after `snd_mixer_init`, and from it on.
unfoldable pub with_mixer : ℕ → List Event → List ℕ → Result → Io Call Exit
with_mixer fuel events fmt (ret, vol_elem) =
    branch (ret ==ℤ pos 0)
      (attempt (acquire buffer (malloc_buffer (buf_bytes fmt))) err3
        (control fuel events fmt vol_elem))
      err2

unfoldable pub mix : ℕ → List Event → List ℕ → Io Call Exit
mix fuel events fmt = snd_mixer_init fuel >>= with_mixer fuel events fmt

unfoldable pub main : ℕ → List Event → (argc : ℕ) → Io Call Exit
main fuel events argc = player_with fuel argc add_handler (mix fuel events)

abbrev owned : List Resource
owned = terminal ∷ buffer ∷ mixer ∷ pcm ∷ input ∷ []

-- The program waits for a key and holds all it needs, or it exited and holds nothing.
abbrev pub Waiting : Env Call → Exit → State Call → Type 0
Waiting e r t = Released e r t ⊎ ((fmt : List ℕ) × (r ≡ asleep fmt) × (t.held ≡ owned))

module _ (e : Env Call) (n fuel : ℕ) (stop : ReadsEnd e n) (enough : suc n < fuel) where
  callback-Ends :
      (fmt : List ℕ) (m : ℕ) (us : List Call)
      → Ends (callback fuel fmt e (record { time = m; held = owned; trace = us })) λ r t.
        (Waiting e r t × ((s : ℤ) × (r ≡ exited s))) ⊎ ((r ≡ asleep fmt) × (t.held ≡ owned))
  unfolding callback
  callback-Ends fmt m us =
      let Q : Exit → State Call → Type 0 = λ r t.
        (Waiting e r t × ((s : ℤ) × (r ≡ exited s))) ⊎ ((r ≡ asleep fmt) × (t.held ≡ owned)) in
      fill_loop-Ends e owned Q (play_period fmt) out (pure (asleep fmt)) n fuel m us refl
        (play_period-Period e owned Q fmt n refl refl refl stop)
        (λ t vs k. Ends-pure _ _ (inl (inl (refl, inl refl), (pos 1, refl))))
        (λ t vs k. Ends-pure _ _ (inr (refl, refl))) (omega (arith, enough)) (omega (arith, enough))

  change_volume-Ends :
      (vol_elem by : ℤ) (more : Io Call Exit)
      → Always e owned (Waiting e) more (Waiting e)
      → Always e owned (Waiting e) (change_volume vol_elem by more) (Waiting e)
  unfolding change_volume
  change_volume-Ends vol_elem by more rest t us =
      Ends-if (ltb_ℤ (pos 0) vol_elem) (λ some_elem. rest (suc (suc t)) _) (λ null. rest t us)

  press-Ends :
      (vol_elem : ℤ) (c : ℕ) (more : Io Call Exit)
      → Always e owned (Waiting e) more (Waiting e)
      → Always e owned (Waiting e) (press vol_elem c more) (Waiting e)
  unfolding press
  press-Ends vol_elem c more rest t us =
      Ends-if (c == 113) (λ quit. Ends-pure _ _ (inl (refl, inl refl)))
        (λ other.
          Ends-if (c == 32) (λ space. toggle_pause-Ends e owned (Waiting e) more refl rest t us)
            (λ w_or_s.
              Ends-if (c == 119) (λ up. change_volume-Ends vol_elem (pos 1) more rest t us)
                (λ not_up.
                  Ends-if (c == 115) (λ down. change_volume-Ends vol_elem (negsuc 0) more rest t us)
                    (λ ignored. rest t us))))

  control-Waiting :
      (events : List Event) (fmt : List ℕ) (vol_elem : ℤ) (m : ℕ) (us : List Call)
      → Ends
          (control fuel events fmt vol_elem e
            (record { time = m; held = buffer ∷ mixer ∷ pcm ∷ input ∷ []; trace = us }))
          (Waiting e)
  unfolding control
  control-Waiting events fmt vol_elem m us =
      fill_loop-Ends e owned (Waiting e) (play_period fmt) err4
        (key_loop (callback fuel fmt) (press vol_elem) fmt events) n fuel (suc (suc m)) _ refl
        (play_period-Period e owned (Waiting e) fmt n refl refl refl stop)
        (λ t vs k. Ends-pure _ _ (inl (refl, inl refl)))
        (λ t vs k.
          key_loop-Ends e owned (Waiting e) (callback fuel fmt) (press vol_elem) fmt events
            (λ i ws. inr (fmt, refl, refl)) (λ i ws. callback-Ends fmt i ws)
            (λ c more rest. press-Ends vol_elem c more rest) t vs)
        (omega (arith, enough)) (omega (arith, enough))

  mix-Waiting :
      (events : List Event) (fmt : List ℕ) (m : ℕ) (us : List Call)
      → ElementsEnd e n
      → Ends
          (mix fuel events fmt e (record { time = m; held = pcm ∷ input ∷ []; trace = us }))
          (Waiting e)
  unfolding mix with_mixer
  mix-Waiting events fmt m us elems =
      Ends-bind (with_mixer fuel events fmt) e
        (snd_mixer_init-Ends e (pcm ∷ input ∷ []) n fuel m us refl elems enough)
        λ r t w. elim w [
          | inl (good, own) ↦
              rw (good, own)
                (Ends-if (ltb_ℤ (e.answer (malloc_buffer (buf_bytes fmt)) t.time) (pos 0))
                  (λ bad. rw bad (Ends-pure _ _ (inl (refl, inl refl))))
                  (λ fine. rw fine (control-Waiting events fmt (r.1) (suc t.time) _)))
          | inr (bad, own) ↦ rw (bad, own) (Ends-pure _ _ (inl (refl, inl refl)))
        ]

  -- The program, with any keys and signals in any order, uses only what it holds and ends, with fuel
  -- for the reads before the file ends and the elements of the mixer, if
  -- `snd_pcm_hw_params_malloc` does not fail, and whatever else the calls answer. It waits for a key
  -- with the terminal in raw mode and everything held, or it exited with EXIT_FAILURE, restored the
  -- terminal and has given back everything once, but for a file
  -- in which it met no data chunk, which it leaves open.
  pub mixer_main-Waiting :
      (events : List Event)
      → Allocates e
      → ElementsEnd e n
      → Ends (main fuel events 2 e begin) (Waiting e)
  unfolding main
  mixer_main-Waiting events memory elems =
      player_with-Ends e (Waiting e) (λ t own. inl (refl, own)) add_handler (mix fuel events) n fuel
        memory stop (omega (arith, enough))
        (λ m us.
          Ends-if (ltb_ℤ (e.answer add_pcm_handler m) (pos 0))
            (λ bad. Ends-pure _ _ (inr (refl, refl))) (λ good. Ends-pure _ _ (inl (refl, refl))))
        (λ fmt m us. mix-Waiting events fmt m us elems)
