-- ===== src/Sound/Keys.antt =====
-- What a user and the device do to a program of study_test/ALIS_pcm that reads keys while a handler
-- plays: the events in their order, and the loop that takes them.
use study_c_know.Common.{ℕ, suc, ◌≡◌, true, List, [], ◌∷◌, ◌⊎◌, inl, inr}
use study_c_know.Common.Int.{ℤ, pos, ◌==ℤ◌}
use study_c_know.Device.{pcm, holds, pure, ◌>>=◌, with_held, branch}
use study_c_know.Device.Ends.{Ends, Ends-pure, Ends-bind, Ends-if}
use study_c_know.Sound.{Resource, Io, Env, State, Call, pcm_state, pcm_pause}
use study_c_know.Sound.Player.{Exit, exited, asleep}

-- The signal of the device, or a key that `getchar` returns.
pub data Event : Type 0 where
  signal : Event
  key : ℕ → Event

-- The space key: SND_PCM_STATE_PAUSED is 6 and SND_PCM_STATE_RUNNING is 3 in ALSA.
unfoldable pub toggle_pause : {A : Type 0} → (more : Io Call A) → Io Call A
toggle_pause more = do
  state ← with_held pcm pcm_state
  branch (state ==ℤ pos 6) (with_held pcm (pcm_pause 0) >>= λ _. more)
      (branch (state ==ℤ pos 3) (with_held pcm (pcm_pause 1) >>= λ _. more) more)

-- What follows a signal: nothing after an exit of the handler.
abbrev pub resume : (more : Io Call Exit) → Exit → Io Call Exit
resume more (exited status) = pure (exited status)
resume more (asleep fmt) = more

-- The loop over the keys, with what the handler does to each signal between them; `press` is the
-- code for a key, `fmt` the global `wav_fmt`.
unfoldable pub key_loop :
    (callback : Io Call Exit)
    → (press : ℕ → (more : Io Call Exit) → Io Call Exit) → List ℕ
    → List Event
    → Io Call Exit
key_loop callback press fmt [] = pure (asleep fmt)
key_loop callback press fmt (signal ∷ es) = callback >>= resume (key_loop callback press fmt es)
key_loop callback press fmt (key c ∷ es) = press c (key_loop callback press fmt es)

module _ (e : Env Call) (hs : List Resource) (Q : Exit → State Call → Type 0) where
  -- Every run of `m` with `hs` held ends in `Q`.
  abbrev pub Always : {A : Type 0} → Io Call A → (A → State Call → Type 0) → Type 0
  Always m R = (t : ℕ) (us : List Call) → Ends (m e (record { time = t; held = hs; trace = us })) R

  pub toggle_pause-Ends :
      (more : Io Call Exit) → holds pcm hs ≡ true → Always more Q → Always (toggle_pause more) Q
  unfolding toggle_pause
  toggle_pause-Ends more p rest t us = rw p (
      Ends-if (e.answer pcm_state t ==ℤ pos 6) (λ paused. rw p (rest (suc (suc t)) _))
        (λ other.
          Ends-if (e.answer pcm_state t ==ℤ pos 3) (λ running. rw p (rest (suc (suc t)) _))
            (λ idle. rest (suc t) _)))

  -- The loop ends in `Q` when the handler does, or returns with everything held, and when each key
  -- does so.
  pub key_loop-Ends :
      (callback : Io Call Exit) (press : ℕ → (more : Io Call Exit) → Io Call Exit) (fmt : List ℕ)
      (es : List Event)
      → ((t : ℕ) (us : List Call) → Q (asleep fmt) (record { time = t; held = hs; trace = us }))
      → Always callback
          (λ r u. (Q r u × ((s : ℤ) × (r ≡ exited s))) ⊎ ((r ≡ asleep fmt) × (u.held ≡ hs)))
      → ((c : ℕ) (more : Io Call Exit) → Always more Q → Always (press c more) Q)
      → Always (key_loop callback press fmt es) Q
  unfolding key_loop
  key_loop-Ends callback press fmt [] wait back keys t us = Ends-pure _ _ (wait t us)
  key_loop-Ends callback press fmt (signal ∷ es) wait back keys t us =
      let more = key_loop-Ends callback press fmt es wait back keys in
      Ends-bind (resume (key_loop callback press fmt es)) e (back t us) λ r u w. elim w [
        | inl (q, (s, gone)) ↦ rw gone (Ends-pure _ _ (rw gone at q))
        | inr (same, own) ↦ rw (same, own) (more u.time u.trace)
      ]
  key_loop-Ends callback press fmt (key c ∷ es) wait back keys t us =
      keys c (key_loop callback press fmt es) (key_loop-Ends callback press fmt es wait back keys) t
        us
