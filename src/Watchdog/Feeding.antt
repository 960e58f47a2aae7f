-- ===== src/Watchdog/Feeding.antt =====
-- When study_test/WDOG/watchdog.c feeds its watchdog.
use study_c_know.Common.{
  Bool, true, false, ◌||◌, ℕ, zero, suc, ◌-◌, ◌*◌, ◌<◌, ◌≤◌, ◌≡◌, refl, some, List, [], ◌∷◌, get_or,
  arith, ◌⊎◌, inl, inr,
}
use study_c_know.Common.Int.{ℤ, pos, negsuc, ◌*ℤ◌, ◌-ℤ◌, ltb_ℤ, to_int}
use study_c_know.Device.{Env, State, input}
use study_c_know.Device.Ends.{Ends, Ends-pure, Ends-if, Ends-mono}
use study_c_know.Watchdog.{
  Call, open_dog, disable, enable, keep_alive, set_timeout, usleep, Exit, exited, feeding,
  at_least_one, feed_loop, feed, feed_time, of_bits, to_bits, main,
}

-- A number of feedings, each a tenth of a second before the timeout, the last call first.
abbrev pub feedings : ℕ → (seconds : ℕ) → List Call → List Call
feedings zero seconds us = us
feedings (suc n) seconds us =
    feedings n seconds (keep_alive ∷ usleep (seconds * 1000000 - 100000) ∷ us)

-- The calls up to the one that starts the watchdog.
abbrev pub started : ℕ → List Call
started seconds = enable ∷ set_timeout seconds ∷ disable ∷ open_dog ∷ []

feed_loop-feedings :
    (e : Env Call) (n seconds m : ℕ) (us : List Call)
    → Ends
        (feed_loop n
          (seconds * 1000000 - 100000)
          e
          (record { time = m; held = input ∷ []; trace = us }))
        λ r t. (r ≡ feeding) × (t.held ≡ input ∷ []) × (t.trace ≡ feedings n seconds us)
unfolding feed_loop
feed_loop-feedings e zero seconds m us = Ends-pure _ _ (refl, refl, refl)
feed_loop-feedings e (suc n) seconds m us = feed_loop-feedings e n seconds (suc (suc m)) _

-- One of the calls that start the watchdog has failed.
abbrev pub is_broken : Env Call → (seconds : ℕ) → Bool
is_broken e seconds =
    ltb_ℤ (e.answer open_dog 0) (pos 0)
    || ltb_ℤ (e.answer disable 1) (pos 0)
    || ltb_ℤ (e.answer (set_timeout seconds) 2) (pos 0)
    || ltb_ℤ (e.answer enable 3) (pos 0)

-- A call failed, and the program exited and closed the watchdog; or none failed, and it has started
-- the watchdog, with a timeout of `seconds` asked for, and feeds it for one of `real` seconds.
abbrev pub Fed : Env Call → ℕ → (seconds real : ℕ) → Exit → State Call → Type 0
Fed e n seconds real r t =
    ((is_broken e seconds ≡ true) × (r ≡ exited (pos 1)) × (t.held ≡ []))
    ⊎ ((is_broken e seconds ≡ false)
        × (r ≡ feeding)
        × (t.held ≡ input ∷ [])
        × (t.trace ≡ feedings n real (started seconds)))

-- The timeout that is asked for: a whole number of seconds, one at least.
abbrev pub asked : ℤ → ℕ
asked (pos (suc n)) = suc n
asked _ = 1

at_least_one-asked : (arg : ℤ) → at_least_one arg ≡ asked arg
unfolding at_least_one
at_least_one-asked (pos zero) = refl
at_least_one-asked (pos (suc n)) = ground arith
at_least_one-asked (negsuc n) = ground arith

-- The timeout that the driver writes back when it is asked for this number of seconds.
abbrev pub written_back : Env Call → (seconds : ℕ) → ℕ
written_back e seconds = get_or (e.payload (set_timeout seconds) 2) 0 0

feed_time-some : (n : ℕ) → 0 < n → n ≤ 2147 → feed_time (pos n) ≡ some (pos (n * 1000000 - 100000))
unfolding feed_time to_int ◌*ℤ◌ ◌-ℤ◌
feed_time-some n low high = ground arith

of_bits_small : (n : ℕ) → n ≤ 2147 → of_bits n ≡ pos n
of_bits_small n h = ground arith

-- The program, with any number of rounds of feeding, whatever the calls answer, if the driver writes
-- back a timeout from 1 to 2147 seconds: no number overflows an int. If a call before the
-- feeding fails, it exits with EXIT_FAILURE and has closed the watchdog if it could open it; if none
-- fails, it has started it after asking for the timeout of
-- its argument, one second at least, and feeds it a tenth of a second before each timeout that the
-- driver has written back.
pub watchdog_main-Fed :
    (e : Env Call) (n : ℕ) (arg : ℤ)
    → 0 < written_back e (asked arg)
    → written_back e (asked arg) ≤ 2147
    → Ends
        (main n arg e (record { time = 0; held = []; trace = [] }))
        (Fed e n (asked arg) (written_back e (asked arg)))
unfolding main feed
watchdog_main-Fed e n arg low high =
    let seconds = asked arg in
    let real = written_back e seconds in
    let small : to_bits (pos (real * 1000000 - 100000)) ≡ real * 1000000 - 100000 =
      omega (arith, high) in
    rw (at_least_one-asked arg) (
      Ends-if (ltb_ℤ (e.answer open_dog 0) (pos 0))
        (λ bad. rw bad (Ends-pure _ _ (inl (rw bad refl, refl, refl))))
        (λ good. rw good (
          Ends-if (ltb_ℤ (e.answer disable 1) (pos 0))
            (λ bad. Ends-pure _ _ (inl (rw (good, bad) refl, refl, refl)))
            (λ off.
              Ends-if (ltb_ℤ (e.answer (set_timeout seconds) 2) (pos 0))
                (λ bad. Ends-pure _ _ (inl (rw (good, off, bad) refl, refl, refl)))
                (λ set.
                  Ends-if (ltb_ℤ (e.answer enable 3) (pos 0))
                    (λ bad. Ends-pure _ _ (inl (rw (good, off, set, bad) refl, refl, refl)))
                    (λ on.
                      rw (of_bits_small real high, feed_time-some real low high, small)
                        (Ends-mono (feed_loop-feedings e n real 4 (started seconds))
                          (λ r t (w, own, calls).
                            inr (rw (good, off, set, on) refl, w, own, calls)))))))))
