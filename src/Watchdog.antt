-- ===== src/Watchdog.antt =====
-- study_test/WDOG/watchdog.c: a watchdog is set up and fed shortly before each timeout.
pub mod Feeding
mod Tests
use study_c_know.Common.{
  ℕ, zero, suc, ◌+◌, ◌-◌, ◌*◌, ◌^◌, ◌%◌, Bool, Option, none, some, if◌then◌else◌, get_or, ltb,
}
use study_c_know.Common.Int.{ℤ, pos, negsuc, ◌*ℤ◌, ◌-ℤ◌, ltb_ℤ, to_ℕ, to_int}
use study_c_know.Device.{
  Io, input, pure, ◌>>=◌, ◌>>◌, ask, with_held, acquire, release, fetch, branch, attempt,
}

pub data Call : Type 0 where
  open_dog disable enable keep_alive close_dog : Call
  set_timeout : (seconds : ℕ) → Call
  usleep : (microseconds : ℕ) → Call

-- How main is left: by `exit`, or in its endless loop.
pub data Exit : Type 0 where
  exited : ℤ → Exit
  feeding : Exit

-- if (1 > timeout) timeout = 1;
unfoldable pub at_least_one : ℤ → ℕ
at_least_one timeout = if ltb_ℤ timeout (pos 1) then 1 else to_ℕ timeout

abbrev fail_closed : Io Call Exit
fail_closed = do release input close_dog; pure (exited (pos 1))

-- The loop that feeds, for a number of rounds.
unfoldable pub feed_loop : ℕ → (time : ℕ) → Io Call Exit
feed_loop zero time = pure feeding
feed_loop (suc n) time = do _ ← ask (usleep time); _ ← with_held input keep_alive; feed_loop n time

-- An int of these 32 bits, and the bits of an int.
abbrev pub of_bits : ℕ → ℤ
of_bits n = if ltb (n % 2 ^ 32) (2 ^ 31) then pos (n % 2 ^ 32) else negsuc (2 ^ 32 - 1 - n % 2 ^ 32)

abbrev pub to_bits : ℤ → ℕ
to_bits (pos n) = n % 2 ^ 32
to_bits (negsuc n) = 2 ^ 32 - 1 - n % 2 ^ 32

abbrev and_int : Option ℤ → (ℤ → Option ℤ) → Option ℤ
and_int none k = none
and_int (some a) k = k a

-- (timeout * 1000 - 100) * 1000, where what does not fit an int is `none`.
unfoldable pub feed_time : (timeout : ℤ) → Option ℤ
feed_time timeout =
    and_int (to_int (timeout *ℤ pos 1000))
      λ a. and_int (to_int (a -ℤ pos 100)) λ b. to_int (b *ℤ pos 1000)

-- The loop for this time; `usleep` takes an unsigned number.
abbrev feed_for : ℕ → Option ℤ → Io Call Exit
feed_for n none e s = none
feed_for n (some time) e s = feed_loop n (to_bits time) e s

unfoldable pub feed : ℕ → (timeout : ℤ) → Io Call Exit
feed n timeout = feed_for n (feed_time timeout)

-- `main`, whose argument `atoi` has read. The driver gets the address of `timeout`, and writes there
-- the timeout that it has set.
unfoldable pub main : ℕ → (arg : ℤ) → Io Call Exit
main n arg = attempt (acquire input open_dog) (pure (exited (pos 1))) (
    attempt (with_held input disable) fail_closed do
      (ret, timeout) ← fetch input (set_timeout (at_least_one arg))
      branch (ltb_ℤ ret (pos 0)) fail_closed
          (attempt (with_held input enable) fail_closed (feed n (of_bits (get_or timeout 0 0)))))
