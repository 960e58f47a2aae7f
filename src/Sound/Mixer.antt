-- ===== src/Sound/Mixer.antt =====
-- `snd_mixer_init` of study_test/ALIS_pcm/pcm_playback_mixer.c: the mixer is opened, and the volume
-- of three of its elements is set. A pointer to an element is a number, NULL when not positive.
use study_c_know.Common.{
  ℕ, zero, suc, ◌+◌, ◌<◌, ◌≤◌, ◌≡◌, refl, Bool, true, false, ◌&&◌, ◌||◌, none, List, [], ◌∷◌, ◌==◌,
  if◌then◌else◌, arith, ◌⊎◌, inl, inr,
}
use study_c_know.Common.Int.{ℤ, pos, negsuc, ◌==ℤ◌, ltb_ℤ}
use study_c_know.Device.{
  mixer, holds, pure, ◌>>=◌, ◌>>◌, with_held, acquire, release, fetch, branch, attempt,
}
use study_c_know.Device.Ends.{Ends, Ends-pure, Ends-if}
use study_c_know.Sound.{
  Resource, Io, Env, State, Call, mixer_open, mixer_attach, selem_register, mixer_load, first_elem,
  elem_next, mixer_close, get_name, has_volume, range_min, range_max, set_volume_90,
}

-- strcmp(s, t) is 0
unfoldable pub same_text : List ℕ → List ℕ → Bool
same_text [] [] = true
same_text (a ∷ s) (b ∷ t) = (a == b) && same_text s t
same_text _ _ = false

-- "Speaker", "Headphone" and "Playback"
abbrev pub speaker : List ℕ
speaker = 83 ∷ 112 ∷ 101 ∷ 97 ∷ 107 ∷ 101 ∷ 114 ∷ []

abbrev pub headphone : List ℕ
headphone = 72 ∷ 101 ∷ 97 ∷ 100 ∷ 112 ∷ 104 ∷ 111 ∷ 110 ∷ 101 ∷ []

abbrev pub playback_name : List ℕ
playback_name = 80 ∷ 108 ∷ 97 ∷ 121 ∷ 98 ∷ 97 ∷ 99 ∷ 107 ∷ []

-- The status and `playback_vol_elem`.
abbrev pub Result : Type 0
Result = ℤ × ℤ

-- The body of the loop, where one call gives the two ends of a range: the volume of an element goes to nine tenths of its range.
unfoldable pub visit : (elem vol_elem : ℤ) → (more : ℤ → Io Call Result) → Io Call Result
visit elem vol_elem more = do
  (_, name) ← fetch mixer get_name
  branch (same_text name speaker || same_text name headphone || same_text name playback_name)
      (do
        has ← with_held mixer has_volume
        branch (has ==ℤ pos 0) (more vol_elem) (do
          low ← with_held mixer range_min
          high ← with_held mixer range_max
          _ ← with_held mixer (set_volume_90 low high)
          more (if same_text name playback_name then elem else vol_elem)))
      (more vol_elem)

-- while (elem) { ...; elem = snd_mixer_elem_next(elem); }
unfoldable pub visit_all : ℕ → (elem vol_elem : ℤ) → Io Call Result
visit_all zero elem vol_elem = λ _ _. none
visit_all (suc fuel) elem vol_elem =
    branch (ltb_ℤ (pos 0) elem)
      (visit elem vol_elem λ v. with_held mixer elem_next >>= λ next. visit_all fuel next v)
      (pure (pos 0, vol_elem))

abbrev pub err : Io Call Result
err = do release mixer mixer_close; pure (negsuc 0, pos 0)

unfoldable pub snd_mixer_init : ℕ → Io Call Result
snd_mixer_init fuel = attempt (acquire mixer mixer_open) (pure (negsuc 0, pos 0)) (
    attempt (with_held mixer mixer_attach) err (
      attempt (with_held mixer selem_register) err (
        attempt (with_held mixer mixer_load) err
          (with_held mixer first_elem >>= λ elem. visit_all fuel elem (pos 0)))))

-- From time `n` on there is no first and no next element.
abbrev pub ElementsEnd : Env Call → ℕ → Type 0
ElementsEnd e n =
    (t : ℕ)
    → n ≤ t
    → (ltb_ℤ (pos 0) (e.answer first_elem t) ≡ false)
      × (ltb_ℤ (pos 0) (e.answer elem_next t) ≡ false)

-- The mixer was opened, or it failed and is not held.
abbrev pub Mixed : List Resource → Result → State Call → Type 0
Mixed hs r t = ((r.0 ≡ pos 0) × (t.held ≡ mixer ∷ hs)) ⊎ ((r.0 ≡ negsuc 0) × (t.held ≡ hs))

module _ (e : Env Call) (hs : List Resource) where
  -- One element takes time, and the loop goes on.
  visit-Ends :
      (elem vol_elem : ℤ) (more : ℤ → Io Call Result) (m : ℕ) (us : List Call)
      → ((v : ℤ) (t : ℕ) (vs : List Call)
          → m < t
          → Ends (more v e (record { time = t; held = mixer ∷ hs; trace = vs })) (Mixed hs))
      → Ends
          (visit elem vol_elem more e (record { time = m; held = mixer ∷ hs; trace = us }))
          (Mixed hs)
  unfolding visit
  visit-Ends elem vol_elem more m us go =
      let name = e.payload get_name m in
      Ends-if (same_text name speaker || same_text name headphone || same_text name playback_name)
        (λ known.
          Ends-if (e.answer has_volume (suc m) ==ℤ pos 0)
            (λ has_none. go _ (suc (suc m)) _ (omega arith))
            (λ has. go _ (suc (suc (suc (suc (suc m))))) _ (omega arith)))
        (λ other. go _ (suc m) _ (omega arith))

  visit_all-Ends :
      (n fuel : ℕ) (elem vol_elem : ℤ) (m : ℕ) (us : List Call)
      → ElementsEnd e n
      → (n < m → ltb_ℤ (pos 0) elem ≡ false)
      → 0 < fuel
      → suc n < m + fuel
      → Ends
          (visit_all fuel elem vol_elem e (record { time = m; held = mixer ∷ hs; trace = us }))
          (Mixed hs)
  unfolding visit_all
  visit_all-Ends n zero elem vol_elem m us ends last some_fuel enough = absurd (omega arith)
  visit_all-Ends n (suc fuel) elem vol_elem m us ends last some_fuel enough =
      Ends-if (ltb_ℤ (pos 0) elem)
        (λ some_elem.
          let early : m ≤ n = ground (arith, last) in
          visit-Ends elem vol_elem
            (λ v. with_held mixer elem_next >>= λ next. visit_all fuel next v) m us
            (λ v t vs k.
              visit_all-Ends n fuel (e.answer elem_next t) v (suc t) _ ends
                (λ late. (ends t (omega arith)).1) (omega arith) (omega arith)))
        (λ at_end. Ends-pure _ _ (inl (refl, refl)))

  -- `snd_mixer_init` returns, with the mixer open on success and not held on failure.
  pub snd_mixer_init-Ends :
      (n fuel m : ℕ) (us : List Call)
      → holds mixer hs ≡ false
      → ElementsEnd e n
      → suc n < fuel
      → Ends (snd_mixer_init fuel e (record { time = m; held = hs; trace = us })) (Mixed hs)
  unfolding snd_mixer_init
  snd_mixer_init-Ends n fuel m us closed ends enough = rw closed (
      Ends-if (ltb_ℤ (e.answer mixer_open m) (pos 0))
        (λ bad. rw bad (Ends-pure _ _ (inr (refl, refl))))
        (λ good. rw good (
          Ends-if (ltb_ℤ (e.answer mixer_attach (suc m)) (pos 0))
            (λ bad. Ends-pure _ _ (inr (refl, refl)))
            (λ attached.
              Ends-if (ltb_ℤ (e.answer selem_register (suc (suc m))) (pos 0))
                (λ bad. Ends-pure _ _ (inr (refl, refl)))
                (λ registered.
                  Ends-if (ltb_ℤ (e.answer mixer_load (suc (suc (suc m)))) (pos 0))
                    (λ bad. Ends-pure _ _ (inr (refl, refl)))
                    (λ loaded.
                      visit_all-Ends n fuel (e.answer first_elem (suc (suc (suc (suc m))))) (pos 0)
                        (suc (suc (suc (suc (suc m))))) _ ends
                        (λ late. (ends (suc (suc (suc (suc m)))) (omega arith)).0)
                        (omega (arith, enough)) (omega (arith, enough))))))))
