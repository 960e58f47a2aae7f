-- ===== src/Sound/Recorder.antt =====
-- How `main` of the programs of study_test/ALIS_pcm that record begins and ends: the arguments, the
-- device, the buffer, the new file, and the labels err1, err2 and err3.
use study_c_know.Common.{ℕ, suc, ◌*◌, ◌≡◌, refl, List, [], ◌∷◌, ◌==◌, ◌⊎◌, inl, inr}
use study_c_know.Common.Int.{ℤ, pos, negsuc, ◌==ℤ◌, ltb_ℤ}
use study_c_know.Device.{pcm, output, buffer, pure, ◌>>=◌, ◌>>◌, acquire, release, branch, attempt}
use study_c_know.Device.Ends.{Ends, Ends-pure, Ends-bind, Ends-if}
use study_c_know.Sound.{
  Resource, Io, Env, State, Call, Config, capture, period_size, open_device, open_file, close_file,
  pcm_close, malloc_buffer, free_buffer,
}
use study_c_know.Sound.Opened.{Allocates, open_device-Ends}
use study_c_know.Sound.Player.{Exit, exited, begin}

abbrev pub err1 : Io Call Exit
err1 = do release pcm pcm_close; pure (exited (pos 1))

abbrev pub err2 : Io Call Exit
err2 = do release buffer free_buffer; err1

abbrev pub err3 : Io Call Exit
err3 = do release output close_file; err2

-- 44100 frames in a second, two channels
abbrev pub config : Config
config = record { stream = capture; rate = 44100; channels = 2 }

-- `main` from the buffer on: a buffer for a period of frames of 4 bytes, and a new file.
unfoldable pub with_output : (body : Io Call Exit) → Io Call Exit
with_output body =
    attempt (acquire buffer (malloc_buffer (period_size * 4))) err1
      (attempt (acquire output open_file) err2 body)

unfoldable pub recorder : (argc : ℕ) → (finish : Io Call ℤ) → (body : Io Call Exit) → Io Call Exit
recorder argc finish body =
    branch (argc == 2)
      (open_device config finish >>= λ ret.
        branch (ret ==ℤ pos 0) (with_output body) (pure (exited (pos 1))))
      (pure (exited (pos 1)))

-- What is held while sound is recorded.
abbrev pub owned : List Resource
owned = output ∷ buffer ∷ pcm ∷ []

module _ (e : Env Call) (Q : Exit → State Call → Type 0)
    (released : (t : State Call) → t.held ≡ [] → Q (exited (pos 1)) t) where
  -- `body` ends so from every state with everything held.
  abbrev pub Body : Io Call Exit → Type 0
  Body body =
      (m : ℕ) (us : List Call) → Ends (body e (record { time = m; held = owned; trace = us })) Q

  -- `finish` either closes the device and fails, or succeeds and keeps it.
  abbrev pub Finish : Io Call ℤ → Type 0
  Finish finish =
      (m : ℕ) (us : List Call)
      → Ends (finish e (record { time = m; held = pcm ∷ []; trace = us }))
          λ ret t. ((ret ≡ pos 0) × (t.held ≡ pcm ∷ [])) ⊎ ((ret ≡ negsuc 0) × (t.held ≡ []))

  with_output-Ends :
      (body : Io Call Exit) (m : ℕ) (us : List Call)
      → Body body
      → Ends (with_output body e (record { time = m; held = pcm ∷ []; trace = us })) Q
  unfolding with_output
  with_output-Ends body m us ends =
      Ends-if (ltb_ℤ (e.answer (malloc_buffer (period_size * 4)) m) (pos 0))
        (λ bad. rw bad (Ends-pure _ _ (released _ refl)))
        (λ good. rw good (
          Ends-if (ltb_ℤ (e.answer open_file (suc m)) (pos 0))
            (λ bad. rw bad (Ends-pure _ _ (released _ refl)))
            (λ fine. rw fine (ends (suc (suc m)) _))))

  -- The program ends in `Q` when its body does.
  pub recorder-Ends :
      (finish : Io Call ℤ) (body : Io Call Exit)
      → Allocates e
      → Finish finish
      → Body body
      → Ends (recorder 2 finish body e begin) Q
  unfolding recorder
  recorder-Ends finish body memory fine ends =
      Ends-bind (λ ret. branch (ret ==ℤ pos 0) (with_output body) (pure (exited (pos 1)))) e
        (open_device-Ends config finish e 0 [] []
          (λ ret t. ((ret ≡ pos 0) × (t.held ≡ pcm ∷ [])) ⊎ ((ret ≡ negsuc 0) × (t.held ≡ [])))
          memory refl refl (λ k vs. inr (refl, refl)) (λ k. fine k _))
        λ ret t w. elim w [
          | inl (good, own) ↦ rw (good, own) (with_output-Ends body t.time t.trace ends)
          | inr (bad, own) ↦ rw bad (Ends-pure _ _ (released t own))
        ]
