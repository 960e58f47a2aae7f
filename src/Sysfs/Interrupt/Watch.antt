-- ===== src/Sysfs/Interrupt/Watch.antt =====
-- What gpio_intr.c has done when it waits for an interrupt.
use study_c_know.Common.{
  ℕ, zero, suc, ◌+◌, subst, arith, ◌/◌, ◌%◌, ◌≡◌, refl, Bool, true, false, ◌||◌, List, [], ◌∷◌, ◌⊎◌,
  inl, inr, ◌==◌, get_or, length,
}
use study_c_know.Common.Int.{pos, negsuc, ltb_ℤ, ◌==ℤ◌}
use study_c_know.Device.{Env, State, Io, Resource, output}
use study_c_know.Device.Ends.{Ends, Ends-pure, Ends-if, Ends-bind}
use study_c_know.Sysfs.{
  Attr, direction, active_low, edge, Call, access, open_export, write_export, open_value,
  read_value, poll_value, seek_value, open_attr, write_attr, text_in, text_0,
}
use study_c_know.Sysfs.Written.{
  written, not_zero, after, Took, Exported, Wrote, Failed, refused, cut_short, not_made,
}
use study_c_know.Sysfs.Interrupt.{
  Exit, exited, waiting, text_both, gpio_config, checked, set_attr, exported, poll_loop, watch,
  main,
}

-- `poll` has answered 0, or the bit POLLPRI of what it delivered is not set.
abbrev pub is_quiet : Env Call → ℕ → Bool
is_quiet e m =
    (e.answer poll_value m ==ℤ pos 0) || (get_or (e.payload poll_value m) 0 0 / 2 % 2 == 0)

-- Rounds of the loop from the time `k` and the calls `us` on, up to a time and its calls: each waits,
-- and at an interrupt goes to the start of the file and reads the level, without an error.
pub data Rounds (e : Env Call) (k : ℕ) (us : List Call) : ℕ → ℕ → List Call → Type 0 where
  start : Rounds e k us zero k us
  no_interrupt :
      {n m : ℕ} {vs : List Call}
      → Rounds e k us n m vs
      → ltb_ℤ (e.answer poll_value m) (pos 0) ≡ false
      → is_quiet e m ≡ true
      → Rounds e k us (suc n) (suc m) (poll_value ∷ vs)
  interrupt :
      {n m : ℕ} {vs : List Call}
      → Rounds e k us n m vs
      → ltb_ℤ (e.answer poll_value m) (pos 0) ≡ false
      → is_quiet e m ≡ false
      → ltb_ℤ (e.answer seek_value (suc m)) (pos 0) ≡ false
      → ltb_ℤ (e.answer read_value (suc (suc m))) (pos 0) ≡ false
      → Rounds e k us (suc n) (after m) (read_value ∷ seek_value ∷ poll_value ∷ vs)

-- The directory was there or made, all the bytes were written that set the pin up, and its file was
-- opened and read, up to a time and its calls.
abbrev pub SetUp : Env Call → List ℕ → ℕ → List Call → Type 0
SetUp e gpio m us =
    (k : ℕ) × (vs : List Call) × Wrote e gpio direction active_low edge text_in text_0 text_both k
      vs
    × (ltb_ℤ (e.answer open_value k) (pos 0) ≡ false)
    × (m ≡ suc (suc k))
    × (us ≡ read_value ∷ open_value ∷ vs)

-- The program has failed after a call that has, or it waits with the file open.
abbrev pub Watching : Env Call → List ℕ → ℕ → Exit → State Call → Type 0
Watching e gpio n r t =
    ((r ≡ exited (negsuc 0)) × Failed e t.time t.trace)
    ⊎ ((r ≡ waiting)
        × (t.held ≡ output ∷ [])
        × ((k : ℕ) × (us : List Call) × SetUp e gpio k us × Rounds e k us n t.time t.trace))

abbrev state : ℕ → List Resource → List Call → State Call
state m held tr = record { time = m; held = held; trace = tr }

quiet_or : (a b : Bool) → b ≡ true → (a || b) ≡ true
quiet_or true b h = refl
quiet_or false b h = h

-- A bit that is not 1 is 0, and one that is 1 is not.
bit_clear : (x : ℕ) → (x % 2 == 1) ≡ false → (x % 2 == 0) ≡ true
bit_clear x h = ground arith

bit_set : (x : ℕ) → (x % 2 == 1) ≡ true → (x % 2 == 0) ≡ false
bit_set x h = ground arith

module _ (e : Env Call) (gpio : List ℕ) where
  module _ (k : ℕ) (us : List Call) (ready : SetUp e gpio k us) where
    poll_loop-Watching :
        (n done total m : ℕ) (vs : List Call)
        → Rounds e k us done m vs
        → done + n ≡ total
        → Ends (poll_loop n e (state m (output ∷ []) vs)) (Watching e gpio total)
    unfolding poll_loop
    poll_loop-Watching zero done total m vs so_far sum =
        let all : done ≡ total = omega arith in
        Ends-pure _ _
          (inr (refl, refl, (k, us, ready, subst (λ t. Rounds e k us t m vs) all so_far)))
    poll_loop-Watching (suc n) done total m vs so_far sum =
        let bits = get_or (e.payload poll_value m) 0 0 / 2 in
        Ends-if (ltb_ℤ (e.answer poll_value m) (pos 0))
          (λ bad. Ends-pure _ _ (inl (refl, refused bad)))
          (λ polled.
            Ends-if (e.answer poll_value m ==ℤ pos 0)
              (λ timeout.
                poll_loop-Watching n (suc done) total (suc m) _
                  (no_interrupt so_far polled (rw timeout refl)) (omega arith))
              (λ some_event.
                Ends-if (bits % 2 == 1)
                  (λ urgent.
                    Ends-if (ltb_ℤ (e.answer seek_value (suc m)) (pos 0))
                      (λ bad. Ends-pure _ _ (inl (refl, refused bad)))
                      (λ moved.
                        Ends-if (ltb_ℤ (e.answer read_value (suc (suc m))) (pos 0))
                          (λ bad. Ends-pure _ _ (inl (refl, refused bad)))
                          (λ got.
                            poll_loop-Watching n (suc done) total (after m) _
                              (interrupt so_far polled (rw some_event (bit_set bits urgent)) moved
                                got)
                              (omega arith))))
                  (λ other.
                    poll_loop-Watching n (suc done) total (suc m) _
                      (no_interrupt so_far polled (quiet_or _ _ (bit_clear bits other)))
                      (omega arith))))

  -- The attribute is written and no file is open, or the result is not 0.
  gpio_config-written :
      (attr : Attr) (val : List ℕ) (m : ℕ) (us : List Call)
      → Ends (gpio_config attr val e (state m [] us)) λ ret t.
        ((ret ≡ pos 0)
          × (t.held ≡ [])
          × (t.trace ≡ written attr val us)
          × (t.time ≡ after m)
          × Took e attr val m)
        ⊎ (((ret ==ℤ pos 0) ≡ false) × Failed e t.time t.trace)
  unfolding gpio_config
  gpio_config-written attr val m us =
      Ends-if (ltb_ℤ (e.answer (open_attr attr) m) (pos 0))
        (λ bad.
          rw bad (Ends-pure _ _ (inr (not_zero (e.answer (open_attr attr) m) bad, refused bad))))
        (λ good. rw good (
          Ends-if (e.answer (write_attr attr val) (suc m) ==ℤ pos (length val))
            (λ all. Ends-pure _ _ (inl (refl, refl, refl, refl, (refl, all))))
            (λ some_missing. Ends-pure _ _ (inr (refl, cut_short some_missing)))))

  -- The run that starts with no file open, at this time and after these calls, ends so.
  abbrev Waits : ℕ → Io Call Exit → ℕ → List Call → Type 0
  Waits n more m us = Ends (more e (state m [] us)) (Watching e gpio n)

  set_attr-Watching :
      (n : ℕ) (attr : Attr) (val : List ℕ) (more : Io Call Exit) (m : ℕ) (us : List Call)
      → (Took e attr val m → Waits n more (after m) (written attr val us))
      → Waits n (set_attr attr val more) m us
  unfolding set_attr
  set_attr-Watching n attr val more m us rest =
      Ends-bind (checked more) e (gpio_config-written attr val m us) λ ret t w. elim w [
        | inl (good, own, calls, now, took) ↦ rw (own, good, calls, now) (rest took)
        | inr (bad, why) ↦ rw bad (Ends-pure _ _ (inl (refl, why)))
      ]

  watch-Watching :
      (n m : ℕ) (us : List Call)
      → Wrote e gpio direction active_low edge text_in text_0 text_both m us
      → Waits n (watch n) m us
  unfolding watch
  watch-Watching n m us wrote =
      Ends-if (ltb_ℤ (e.answer open_value m) (pos 0))
        (λ bad. rw bad (Ends-pure _ _ (inl (refl, refused bad))))
        (λ good.
          let ready : SetUp e gpio (suc (suc m)) (read_value ∷ open_value ∷ us) =
            (m, us, wrote, good, refl, refl) in
          rw good (poll_loop-Watching _ _ ready n 0 n (suc (suc m)) _ start (omega arith)))

  exported-Watching :
      (n : ℕ) (more : Io Call Exit)
      → ((k : ℕ) (vs : List Call) → Exported e gpio k vs → Waits n more k vs)
      → Waits n (exported gpio more) 0 []
  unfolding exported
  exported-Watching n more rest =
      Ends-if (e.answer access 0 ==ℤ pos 0) (λ there. rest 1 _ (inl (there, refl, refl)))
        (λ missing.
          Ends-if (ltb_ℤ (e.answer open_export 1) (pos 0))
            (λ bad. rw bad (Ends-pure _ _ (inl (refl, refused bad))))
            (λ good. rw good (
              Ends-if (e.answer (write_export gpio) 2 ==ℤ pos (length gpio))
                (λ all. rest 4 _ (inr (all, refl, refl)))
                (λ some_missing. Ends-pure _ _ (inl (refl, not_made some_missing))))))

  -- The program, whatever its calls answer, exits with -1 after a call that answered an error or did
  -- not write all its bytes, or waits for interrupts with its file open. It then has, after the directory of the pin was there or made, written all the bytes that make
  -- the pin an input, set its polarity and set both edges, in this order, and opened its file and
  -- read it once. In each of any number of rounds it has waited, and gone to the start of the file
  -- and read the level without an error exactly if `poll` answered a descriptor with POLLPRI.
  pub gpio_intr-Watching : (n : ℕ) → Ends (main n gpio e (state 0 [] [])) (Watching e gpio n)
  unfolding main
  gpio_intr-Watching n = exported-Watching n _ λ k vs made.
      set_attr-Watching n direction text_in _ k vs λ first.
        set_attr-Watching n active_low text_0 _ _ _ λ second.
          set_attr-Watching n edge text_both _ _ _
            λ third. watch-Watching n _ _ (k, vs, made, first, second, third, refl, refl)
