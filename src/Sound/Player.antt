-- ===== src/Sound/Player.antt =====
-- How `main` of the programs of study_test/ALIS_pcm that play begins and ends: the arguments, the
-- WAV file, the device, and the labels err1, err2 and err3.
use study_c_know.Common.{ℕ, suc, ◌<◌, ◌≡◌, refl, List, [], ◌∷◌, ◌==◌, ◌⊎◌, inl, inr}
use study_c_know.Common.Int.{ℤ, pos, negsuc, ◌==ℤ◌, ltb_ℤ}
use study_c_know.Device.{pcm, input, buffer, pure, ◌>>=◌, ◌>>◌, acquire, release, branch, attempt}
use study_c_know.Device.Ends.{Ends, Ends-pure, Ends-bind, Ends-if}
use study_c_know.Sound.{
  Resource, Io, Env, State, Call, Config, playback, open_device, close_file, pcm_close,
  malloc_buffer, free_buffer,
}
use study_c_know.Sound.Opened.{Allocates, open_device-Ends}
use study_c_know.Sound.Wav.{num_channels, sample_rate, open_wav_file}
use study_c_know.Sound.Wav.Search.{open_wav_file-Checked, Unclosed, ReadsEnd}
use study_c_know.Sound.Periods.{buf_bytes}

-- How a program is left: by `exit` with a status, or asleep in a loop that has no end, with the
-- global `wav_fmt`.
pub data Exit : Type 0 where
  exited : ℤ → Exit
  asleep : List ℕ → Exit

-- The labels at the end of `main`; the status is EXIT_FAILURE.
abbrev pub err1 : Io Call Exit
err1 = do release input close_file; pure (exited (pos 1))

abbrev pub err2 : Io Call Exit
err2 = do release pcm pcm_close; err1

abbrev pub err3 : Io Call Exit
err3 = do release buffer free_buffer; err2

-- What the programs ask of the device.
abbrev pub config : List ℕ → Config
config fmt = record { stream = playback; rate = sample_rate fmt; channels = num_channels fmt }

-- `main` from the buffer on.
unfoldable pub with_buffer : (body : List ℕ → Io Call Exit) → List ℕ → Io Call Exit
with_buffer body fmt = attempt (acquire buffer (malloc_buffer (buf_bytes fmt))) err2 (body fmt)

-- `main` from the device on; `finish` ends `snd_pcm_init`.
unfoldable pub with_device :
    (finish : Io Call ℤ) → (rest : List ℕ → Io Call Exit) → List ℕ → Io Call Exit
with_device finish rest fmt = do
  ret ← open_device (config fmt) finish
  branch (ret ==ℤ pos 0) (rest fmt) err1

-- `main` from the file on.
unfoldable pub with_file : (rest : List ℕ → Io Call Exit) → ℤ × List ℕ → Io Call Exit
with_file rest (ret, fmt) = branch (ret ==ℤ pos 0) (rest fmt) (pure (exited (pos 1)))

-- `main`; `rest` is what follows `snd_pcm_init`.
unfoldable pub player_with :
    ℕ → (argc : ℕ) → (finish : Io Call ℤ) → (rest : List ℕ → Io Call Exit) → Io Call Exit
player_with fuel argc finish rest =
    branch (argc == 2) (open_wav_file fuel >>= with_file (with_device finish rest))
      (pure (exited (pos 1)))

-- `main` of the programs that go on with the buffer.
unfoldable pub player :
    ℕ → (argc : ℕ) → (finish : Io Call ℤ) → (body : List ℕ → Io Call Exit) → Io Call Exit
player fuel argc finish body = player_with fuel argc finish (with_buffer body)

-- The program exited with EXIT_FAILURE and holds nothing, but for a file in which no data chunk was met,
-- which is still open.
abbrev pub Released : Env Call → Exit → State Call → Type 0
Released e r t = (r ≡ exited (pos 1)) × ((t.held ≡ []) ⊎ Unclosed e [] t)

-- What is held while sound is played.
abbrev pub owned : List Resource
owned = buffer ∷ pcm ∷ input ∷ []

abbrev pub begin : State Call
begin = record { time = 0; held = []; trace = [] }

-- The body of the program ends so from every state with everything held.
abbrev pub Body : Env Call → (List ℕ → Io Call Exit) → (Exit → State Call → Type 0) → Type 0
Body e body Q =
    (fmt : List ℕ) (m : ℕ) (us : List Call)
    → Ends (body fmt e (record { time = m; held = owned; trace = us })) Q

module _ (e : Env Call) (Q : Exit → State Call → Type 0)
    (released : (t : State Call) → (t.held ≡ []) ⊎ Unclosed e [] t → Q (exited (pos 1)) t) where
  with_buffer-Ends :
      (body : List ℕ → Io Call Exit) (fmt : List ℕ) (m : ℕ) (us : List Call)
      → Body e body Q
      → Ends (with_buffer body fmt e (record { time = m; held = pcm ∷ input ∷ []; trace = us })) Q
  unfolding with_buffer
  with_buffer-Ends body fmt m us ends =
      Ends-if (ltb_ℤ (e.answer (malloc_buffer (buf_bytes fmt)) m) (pos 0))
        (λ bad. rw bad (Ends-pure _ _ (released _ (inl refl))))
        (λ good. rw good (ends fmt (suc m) _))

  -- `finish` either closes the device and fails, or succeeds and keeps it.
  abbrev pub Finish : Io Call ℤ → Type 0
  Finish finish =
      (m : ℕ) (us : List Call)
      → Ends (finish e (record { time = m; held = pcm ∷ input ∷ []; trace = us })) λ ret t.
        ((ret ≡ pos 0) × (t.held ≡ pcm ∷ input ∷ [])) ⊎ ((ret ≡ negsuc 0) × (t.held ≡ input ∷ []))

  -- `rest` ends so from every state with the device and the file held.
  abbrev pub Rest : (List ℕ → Io Call Exit) → Type 0
  Rest rest =
      (fmt : List ℕ) (m : ℕ) (us : List Call)
      → Ends (rest fmt e (record { time = m; held = pcm ∷ input ∷ []; trace = us })) Q

  with_device-Ends :
      (finish : Io Call ℤ) (rest : List ℕ → Io Call Exit) (fmt : List ℕ) (m : ℕ) (us : List Call)
      → Allocates e
      → Finish finish
      → Rest rest
      → Ends (with_device finish rest fmt e (record { time = m; held = input ∷ []; trace = us })) Q
  unfolding with_device
  with_device-Ends finish rest fmt m us memory fine ends =
      Ends-bind (λ ret. branch (ret ==ℤ pos 0) (rest fmt) err1) e
        (open_device-Ends (config fmt) finish e m (input ∷ []) us
          (λ ret t.
            ((ret ≡ pos 0) × (t.held ≡ pcm ∷ input ∷ []))
            ⊎ ((ret ≡ negsuc 0) × (t.held ≡ input ∷ [])))
          memory refl refl (λ k vs. inr (refl, refl)) (λ k. fine k _))
        λ ret t w. elim w [
          | inl (good, own) ↦ rw (good, own) (ends fmt t.time t.trace)
          | inr (bad, own) ↦ rw (bad, own) (Ends-pure _ _ (released _ (inl refl)))
        ]

  -- The program ends in `Q` when what follows `snd_pcm_init` does.
  pub player_with-Ends :
      (finish : Io Call ℤ) (rest : List ℕ → Io Call Exit) (n fuel : ℕ)
      → Allocates e
      → ReadsEnd e n
      → n < fuel
      → Finish finish
      → Rest rest
      → Ends (player_with fuel 2 finish rest e begin) Q
  unfolding player_with with_file
  player_with-Ends finish rest n fuel memory stop enough fine ends =
      Ends-bind (with_file (with_device finish rest)) e
        (open_wav_file-Checked fuel e n 0 [] [] refl stop enough)
        λ r t w. elim w [
          | inl (good, ok, (own, search)) ↦
              rw (good, own) (with_device-Ends finish rest (r.1) t.time t.trace memory fine ends)
          | inr (bad, inl (own, why)) ↦ rw bad (Ends-pure _ _ (released t (inl own)))
          | inr (bad, inr left) ↦ rw bad (Ends-pure _ _ (released t (inr left)))
        ]

  -- The program ends in `Q` when its body does.
  pub player-Ends :
      (finish : Io Call ℤ) (body : List ℕ → Io Call Exit) (n fuel : ℕ)
      → Allocates e
      → ReadsEnd e n
      → n < fuel
      → Finish finish
      → Body e body Q
      → Ends (player fuel 2 finish body e begin) Q
  unfolding player
  player-Ends finish body n fuel memory stop enough fine ends =
      player_with-Ends finish (with_buffer body) n fuel memory stop enough fine
        (λ fmt m us. with_buffer-Ends body fmt m us ends)
