-- ===== src/Sound/Opened.antt =====
-- What `snd_pcm_init` leaves behind, whatever the library answers.
use study_c_know.Common.{ℕ, suc, ◌≡◌, refl, false, List, [], ◌∷◌, reverse_aux, ◌⊎◌, inl, inr}
use study_c_know.Common.Int.{ℤ, pos, negsuc, ltb_ℤ}
use study_c_know.Device.{pcm, params, holds, pure}
use study_c_know.Device.Ends.{Ends, Ends-pure, Ends-bind, Ends-if}
use study_c_know.Sound.{
  Resource, Io, Env, State, Call, Config, set_all, settings, open_device, after_settings, pcm_open,
  hw_params_malloc, hw_params, hw_params_free,
}

-- `snd_pcm_hw_params_malloc` does not fail.
abbrev pub Allocates : Env Call → Type 0
Allocates e = (t : ℕ) → ltb_ℤ (e.answer hw_params_malloc t) (pos 0) ≡ false

-- A call in a row of `set_all` either stops the row, or every call was made.
set_all-Ends :
    (cs : List Call) (e : Env Call) (n : ℕ) (hs : List Resource) (tr : List Call)
    → Ends (set_all cs e (record { time = n; held = params ∷ hs; trace = tr })) λ ret t.
      (t.held ≡ params ∷ hs) × (((ret ≡ pos 0) × (t.trace ≡ reverse_aux cs tr)) ⊎ (ret ≡ negsuc 0))
unfolding set_all
set_all-Ends [] e n hs tr = Ends-pure _ _ (refl, inl (refl, refl))
set_all-Ends (c ∷ cs) e n hs tr =
    Ends-if (ltb_ℤ (e.answer c n) (pos 0)) (λ bad. Ends-pure _ _ (refl, inr refl))
      (λ good. set_all-Ends cs e (suc n) hs (c ∷ tr))

-- The calls of a configuration that takes effect, the last one first.
unfoldable pub configured : Config → List Call → List Call
configured c tr =
    hw_params_free
    ∷ hw_params
    ∷ reverse_aux (settings c) (hw_params_malloc ∷ pcm_open c.stream ∷ tr)

-- The end of the configuration, with the parameters held.
apply-Ends :
    (c : Config) (finish : Io Call ℤ) (e : Env Call) (hs : List Resource) (tr : List Call)
    (Q : ℤ → State Call → Type 0)
    → ((m : ℕ) (us : List Call) → Q (negsuc 0) (record { time = m; held = hs; trace = us }))
    → ((m : ℕ) → Ends (finish e (record { time = m; held = pcm ∷ hs; trace = configured c tr })) Q)
    → (ret : ℤ) (t : State Call) → t.held ≡ params ∷ pcm ∷ hs
    → ((ret ≡ pos 0)
        × (t.trace ≡ reverse_aux (settings c) (hw_params_malloc ∷ pcm_open c.stream ∷ tr)))
      ⊎ (ret ≡ negsuc 0)
    → Ends (after_settings finish ret e t) Q
unfolding after_settings configured
apply-Ends c finish e hs tr Q fails done ret t own (inr bad) =
    rw (bad, own) (Ends-pure _ _ (fails _ _))
apply-Ends c finish e hs tr Q fails done ret t own (inl (good, calls)) =
    rw (good, own)
      (Ends-if (ltb_ℤ (e.answer hw_params t.time) (pos 0)) (λ bad. Ends-pure _ _ (fails _ _))
        (λ ok. rw calls (done (suc (suc t.time)))))

-- `snd_pcm_init` either fails and holds what it held before, or goes on to `finish` with the device
-- open, all its calls made, and the parameters released.
pub open_device-Ends :
    (c : Config) (finish : Io Call ℤ) (e : Env Call) (n : ℕ) (hs : List Resource) (tr : List Call)
    (Q : ℤ → State Call → Type 0)
    → Allocates e
    → holds pcm hs ≡ false
    → holds params hs ≡ false
    → ((m : ℕ) (us : List Call) → Q (negsuc 0) (record { time = m; held = hs; trace = us }))
    → ((m : ℕ) → Ends (finish e (record { time = m; held = pcm ∷ hs; trace = configured c tr })) Q)
    → Ends (open_device c finish e (record { time = n; held = hs; trace = tr })) Q
unfolding open_device
open_device-Ends c finish e n hs tr Q memory no_pcm no_params fails done = rw no_pcm (
    Ends-if (ltb_ℤ (e.answer (pcm_open c.stream) n) (pos 0))
      (λ bad. rw bad (Ends-pure _ _ (fails _ _)))
      (λ good.
        rw (good, no_params, memory (suc n))
          (Ends-bind (after_settings finish) e (set_all-Ends (settings c) e _ (pcm ∷ hs) _)
            (λ ret t (own, calls). apply-Ends c finish e hs tr Q fails done ret t own calls))))

-- `snd_pcm_init` of the programs without a handler returns, if `snd_pcm_hw_params_malloc` does not
-- fail. On success it has made all the calls of the configuration in their order and holds the
-- device, on failure it holds what it held before; the parameters are given back either way.
pub open_device-configured :
    (c : Config) (e : Env Call) (n : ℕ) (hs : List Resource) (tr : List Call)
    → Allocates e
    → holds pcm hs ≡ false
    → holds params hs ≡ false
    → Ends (open_device c (pure (pos 0)) e (record { time = n; held = hs; trace = tr })) λ ret t.
      ((ret ≡ pos 0) × (t.held ≡ pcm ∷ hs) × (t.trace ≡ configured c tr))
      ⊎ ((ret ≡ negsuc 0) × (t.held ≡ hs))
open_device-configured c e n hs tr memory no_pcm no_params =
    open_device-Ends c (pure (pos 0)) e n hs tr _ memory no_pcm no_params (λ m us. inr (refl, refl))
      (λ m. Ends-pure _ _ (inl (refl, refl, refl)))
