-- ===== src/Sysfs/Interrupt.antt =====
-- study_test/GPIO/gpio_intr.c: the level of a pin at each interrupt. Unlike the other programs it
-- leaves a file open where a write fails.
pub mod Watch
use study_c_know.Common.{ℕ, zero, suc, ◌/◌, ◌%◌, List, [], ◌∷◌, ◌==◌, length, get_or, if◌then◌else◌}
use study_c_know.Common.Int.{ℤ, pos, negsuc, ltb_ℤ, ◌==ℤ◌}
use study_c_know.Device.{
  Io, output, pure, ◌>>=◌, ◌>>◌, ask, with_held, acquire, release, fetch, branch,
}
use study_c_know.Sysfs.{
  Attr, direction, active_low, edge, Call, access, open_export, close_file, open_value, read_value,
  poll_value, seek_value, write_export, open_attr, write_attr, text_in, text_0,
}

-- How main is left: by `exit`, or in its endless loop.
pub data Exit : Type 0 where
  exited : ℤ → Exit
  waiting : Exit

-- exit(-1)
abbrev pub failed : Io Call Exit
failed = pure (exited (negsuc 0))

-- "both"
abbrev pub text_both : List ℕ
text_both = 98 ∷ 111 ∷ 116 ∷ 104 ∷ []

unfoldable pub gpio_config : Attr → List ℕ → Io Call ℤ
gpio_config attr val = do
  fd ← acquire output (open_attr attr)
  branch (ltb_ℤ fd (pos 0)) (pure fd) do
    n ← with_held output (write_attr attr val)
    branch (n ==ℤ pos (length val)) (do release output close_file; pure (pos 0)) (pure (negsuc 0))

-- if (gpio_config(attr, val)) exit(-1);
abbrev pub checked : (more : Io Call Exit) → ℤ → Io Call Exit
checked more ret = branch (ret ==ℤ pos 0) more failed

unfoldable pub set_attr : Attr → List ℕ → (more : Io Call Exit) → Io Call Exit
set_attr attr val more = gpio_config attr val >>= checked more

unfoldable pub exported : List ℕ → (more : Io Call Exit) → Io Call Exit
exported text more = do
  missing ← ask access
  branch (missing ==ℤ pos 0) more do
    fd ← acquire output open_export
    branch (ltb_ℤ fd (pos 0)) failed do
      n ← with_held output (write_export text)
      branch (n ==ℤ pos (length text)) (do release output close_file; more) failed

-- The endless loop, for a number of rounds. POLLPRI is the bit 1 of revents.
unfoldable pub poll_loop : (rounds : ℕ) → Io Call Exit
poll_loop zero = pure waiting
poll_loop (suc n) = do
  (ret, revents) ← fetch output poll_value
  branch (ltb_ℤ ret (pos 0)) failed (
      branch (ret ==ℤ pos 0) (poll_loop n) (
        branch (get_or revents 0 0 / 2 % 2 == 1)
          (do
            moved ← with_held output seek_value
            branch (ltb_ℤ moved (pos 0)) failed do
              got ← with_held output read_value
              branch (ltb_ℤ got (pos 0)) failed (poll_loop n))
          (poll_loop n)))

-- The value file is read once, to clear its state.
unfoldable pub watch : (rounds : ℕ) → Io Call Exit
watch rounds = do
  fd ← acquire output open_value
  branch (ltb_ℤ fd (pos 0)) failed do _ ← with_held output read_value; poll_loop rounds

-- `main` after the check of argc, with a number of rounds of its loop.
unfoldable pub main : (rounds : ℕ) → (gpio : List ℕ) → Io Call Exit
main rounds gpio = exported gpio (
    set_attr direction text_in
      (set_attr active_low text_0 (set_attr edge text_both (watch rounds))))
