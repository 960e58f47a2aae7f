-- ===== src/Sysfs/Written.antt =====
-- What the programs of study_test/GPIO and study_test/PWM have written when they succeed.
use study_c_know.Common.{
  ℕ, suc, length, ◌≡◌, refl, true, false, List, [], ◌∷◌, ◌++◌, ◌⊎◌, inl, inr, arith,
}
use study_c_know.Common.Int.{ℤ, pos, negsuc, ltb_ℤ, ◌==ℤ◌}
use study_c_know.Device.{Env, State, Io, pure}
use study_c_know.Device.Ends.{Ends, Ends-pure, Ends-if, Ends-bind, Ends-mono}
use study_c_know.Sysfs.{
  Attr, direction, active_low, edge, value, period, duty_cycle, enable, Call, access, open_export,
  write_export, close_file, open_value, read_value, open_attr, write_attr, attr_config, checked,
  set_attr, exported, text_in, text_out, text_none, text_0, text_1, read_level, gpio_in, gpio_out,
  pwm,
}

-- The calls of an attribute that is written, the last one first.
abbrev pub written : Attr → List ℕ → List Call → List Call
written attr val us = close_file ∷ write_attr attr val ∷ open_attr attr ∷ us

pub not_zero : (r : ℤ) → ltb_ℤ r (pos 0) ≡ true → (r ==ℤ pos 0) ≡ false
not_zero (pos n) h = ground arith
not_zero (negsuc n) h = refl

-- The time after the calls of an attribute that is written.
abbrev pub after : ℕ → ℕ
after m = suc (suc (suc m))

-- The calls from this time on have opened the file of the attribute and written the whole text.
abbrev pub Took : Env Call → Attr → List ℕ → ℕ → Type 0
Took e attr val m =
    (ltb_ℤ (e.answer (open_attr attr) m) (pos 0) ≡ false)
    × ((e.answer (write_attr attr val) (suc m) ==ℤ pos (length val)) ≡ true)

-- The directory was there at the start, or it was made: the whole text was written.
abbrev pub Exported : Env Call → List ℕ → ℕ → List Call → Type 0
Exported e text k vs =
    (((e.answer access 0 ==ℤ pos 0) ≡ true) × (k ≡ 1) × (vs ≡ access ∷ []))
    ⊎ (((e.answer (write_export text) 2 ==ℤ pos (length text)) ≡ true)
        × (k ≡ 4)
        × (vs ≡ close_file ∷ write_export text ∷ open_export ∷ access ∷ []))

-- The last call, but for a close, has answered an error or has not written the whole text.
pub data Failed (e : Env Call) : ℕ → List Call → Type 0 where
  refused :
      {c : Call} {m : ℕ} {us : List Call}
      → ltb_ℤ (e.answer c m) (pos 0) ≡ true
      → Failed e (suc m) (c ∷ us)
  cut_short :
      {attr : Attr} {val : List ℕ} {m : ℕ} {us : List Call}
      → (e.answer (write_attr attr val) m ==ℤ pos (length val)) ≡ false
      → Failed e (suc m) (write_attr attr val ∷ us)
  not_made :
      {text : List ℕ} {m : ℕ} {us : List Call}
      → (e.answer (write_export text) m ==ℤ pos (length text)) ≡ false
      → Failed e (suc m) (write_export text ∷ us)
  then_closed : {m : ℕ} {us : List Call} → Failed e m us → Failed e (suc m) (close_file ∷ us)

module _ (e : Env Call) where
  -- The attribute is written and the result 0, or the result is not 0; no file is left open.
  attr_config-written :
      (attr : Attr) (val : List ℕ) (m : ℕ) (us : List Call)
      → Ends (attr_config attr val e (record { time = m; held = []; trace = us })) λ ret t.
        (t.held ≡ [])
        × (((ret ≡ pos 0)
              × (t.trace ≡ written attr val us)
              × (t.time ≡ after m)
              × Took e attr val m)
            ⊎ (((ret ==ℤ pos 0) ≡ false)
                × ((ws : List Call) × (t.trace ≡ ws ++ us))
                × Failed e t.time t.trace))
  unfolding attr_config
  attr_config-written attr val m us =
      let fd = e.answer (open_attr attr) m in
      Ends-if (ltb_ℤ fd (pos 0))
        (λ bad.
          rw bad
            (Ends-pure _ _ (refl, inr (not_zero fd bad, (open_attr attr ∷ [], refl), refused bad))))
        (λ good. rw good (
          Ends-if (e.answer (write_attr attr val) (suc m) ==ℤ pos (length val))
            (λ all. Ends-pure _ _ (refl, inl (refl, refl, refl, (refl, all))))
            (λ some_missing. Ends-pure _ _ (
              refl,
              inr (
                refl,
                (close_file ∷ write_attr attr val ∷ open_attr attr ∷ [], refl),
                then_closed (cut_short some_missing),
              ),
            ))))

  -- A success has `Q`, and after a failure a call has failed; no file is left open.
  abbrev pub Clean : (State Call → Type 0) → ℤ → State Call → Type 0
  Clean Q ret t =
      (t.held ≡ []) × (((ret ≡ pos 0) × Q t) ⊎ ((ret ≡ negsuc 0) × Failed e t.time t.trace))

  -- The run that starts with no file open, at this time and after these calls, ends so.
  abbrev pub From : Io Call ℤ → ℕ → List Call → (State Call → Type 0) → Type 0
  From more m us Q = Ends (more e (record { time = m; held = []; trace = us })) (Clean Q)

  set_attr-Clean :
      (attr : Attr) (val : List ℕ) (more : Io Call ℤ) (m : ℕ) (us : List Call)
      (Q : State Call → Type 0)
      → (Took e attr val m → From more (after m) (written attr val us) Q)
      → From (set_attr attr val more) m us Q
  unfolding set_attr
  set_attr-Clean attr val more m us Q rest =
      Ends-bind (checked more) e (attr_config-written attr val m us) λ ret t (own, w). elim w [
        | inl (good, calls, now, took) ↦ rw (own, good, calls, now) (rest took)
        | inr (bad, calls, why) ↦ rw (own, bad) (Ends-pure _ _ (refl, inr (refl, why)))
      ]

  exported-Clean :
      (text : List ℕ) (more : Io Call ℤ) (Q : State Call → Type 0)
      → ((k : ℕ) (vs : List Call) → Exported e text k vs → From more k vs Q)
      → From (exported text more) 0 [] Q
  unfolding exported
  exported-Clean text more Q rest =
      Ends-if (e.answer access 0 ==ℤ pos 0) (λ there. rest 1 _ (inl (there, refl, refl)))
        (λ missing.
          Ends-if (ltb_ℤ (e.answer open_export 1) (pos 0))
            (λ bad. rw bad (Ends-pure _ _ (refl, inr (refl, refused bad))))
            (λ good. rw good (
              Ends-if (e.answer (write_export text) 2 ==ℤ pos (length text))
                (λ all. rest 4 _ (inr (all, refl, refl)))
                (λ some_missing.
                  Ends-pure _ _ (refl, inr (refl, then_closed (not_made some_missing)))))))

  abbrev pub start : State Call
  start = record { time = 0; held = []; trace = [] }

  -- The directory was there or made, and then these three attributes were written, the whole text of
  -- each, in this order.
  abbrev pub Wrote : (text : List ℕ) → (a b c : Attr) → (u v w : List ℕ) → ℕ → List Call → Type 0
  Wrote text a b c u v w m us =
      (k : ℕ) × (vs : List Call) × Exported e text k vs
      × Took e a u k
      × Took e b v (after k)
      × Took e c w (after (after k))
      × (m ≡ after (after (after k)))
      × (us ≡ written c w (written b v (written a u vs)))

  -- The program ends with no file open, whatever its calls answer. If it succeeds, the directory of
  -- the pin was there or it was made, and then all the bytes were written that make the pin an
  -- output, set its polarity and set its level, in this order, and no other call was made. It fails
  -- only after a call that answered an error or did not write all its bytes.
  pub gpio_out-Clean :
      (gpio level : List ℕ)
      → Ends
          (gpio_out gpio level e start)
          (Clean λ t. Wrote gpio direction active_low value text_out text_0 level t.time t.trace)
  unfolding gpio_out
  gpio_out-Clean gpio level = exported-Clean gpio _ _ λ k vs made.
      set_attr-Clean direction text_out _ k vs _ λ first.
        set_attr-Clean active_low text_0 _ _ _ _ λ second.
          set_attr-Clean value level _ _ _ _ λ third.
            Ends-pure _ _ (refl, inl (refl, (k, vs, made, first, second, third, refl, refl)))

  read_level-Clean :
      (m : ℕ) (us : List Call)
      → From read_level m us λ t.
        (t.trace ≡ close_file ∷ read_value ∷ open_value ∷ us)
        × (ltb_ℤ (e.answer read_value (suc m)) (pos 0) ≡ false)
  unfolding read_level
  read_level-Clean m us =
      Ends-if (ltb_ℤ (e.answer open_value m) (pos 0))
        (λ bad. rw bad (Ends-pure _ _ (refl, inr (refl, refused bad))))
        (λ good. rw good (
          Ends-if (ltb_ℤ (e.answer read_value (suc m)) (pos 0))
            (λ bad. Ends-pure _ _ (refl, inr (refl, then_closed (refused bad))))
            (λ fine. Ends-pure _ _ (refl, inl (refl, (refl, fine))))))

  -- The program ends with no file open, whatever its calls answer. If it succeeds, the directory of
  -- the pin was there or it was made, and then all the bytes were written that make the pin an
  -- input, set its polarity and turn its interrupts off, in this order, and its level was read.
  pub gpio_in-Clean :
      (gpio : List ℕ)
      → Ends (gpio_in gpio e start) (
          Clean λ t.
            (m : ℕ) × (us : List Call) × Wrote gpio direction active_low edge text_in text_0
              text_none m us
            × (t.trace ≡ close_file ∷ read_value ∷ open_value ∷ us)
            × (ltb_ℤ (e.answer read_value (suc m)) (pos 0) ≡ false))
  unfolding gpio_in
  gpio_in-Clean gpio = exported-Clean gpio _ _ λ k vs made.
      set_attr-Clean direction text_in _ k vs _ λ first.
        set_attr-Clean active_low text_0 _ _ _ _ λ second.
          set_attr-Clean edge text_none _ _ _ _ λ third.
            Ends-mono (read_level-Clean _ _) λ a t (own, w). (
              own,
              elim w [
                | inl (good, (calls, fine)) ↦
                    inl (good, (_, _, (k, vs, made, first, second, third, refl, refl), calls, fine))
                | inr bad ↦ inr bad
              ],
            )

  -- The program ends with no file open, whatever its calls answer. If it succeeds, the directory of
  -- the channel was there or it was made, and all the bytes of its period and its duty cycle were
  -- written, in this order, before the calls that turn the output on.
  pub pwm-Clean :
      (cycle duty : List ℕ)
      → Ends (pwm cycle duty e start) (
          Clean λ t.
            (k : ℕ) × (us vs : List Call) × Exported e text_0 k vs
            × Took e period cycle k
            × Took e duty_cycle duty (after k)
            × (t.trace ≡ us ++ written duty_cycle duty (written period cycle vs)))
  unfolding pwm
  pwm-Clean cycle duty = exported-Clean text_0 _ _ λ k vs made.
      set_attr-Clean period cycle _ k vs _ λ first. set_attr-Clean duty_cycle duty _ _ _ _ λ second.
        Ends-bind (λ _. pure (pos 0)) e (attr_config-written enable text_1 _ _)
          λ ret t (own, w). elim w [
            | inl (good, calls, now, took) ↦ Ends-pure _ _ (
              own,
              inl (
                refl,
                (
                  k,
                  close_file ∷ write_attr enable text_1 ∷ open_attr enable ∷ [],
                  vs,
                  made,
                  first,
                  second,
                  calls,
                ),
              ),
            )
            | inr (bad, (ws, calls), why) ↦
                Ends-pure _ _ (own, inl (refl, (k, ws, vs, made, first, second, calls)))
          ]
