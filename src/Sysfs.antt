-- ===== src/Sysfs.antt =====
-- study_test/GPIO/gpio_in.c, gpio_out.c and gpio_intr.c, study_test/PWM/pwm.c: programs that set up a device by
-- writing texts to its attribute files. A program has one file open at a time. The check of argc and
-- the paths, which are printed into arrays of 100 characters, are left out.
pub mod Written
pub mod Interrupt
mod Tests
use study_c_know.Common.{ℕ, length, List, [], ◌∷◌, if◌then◌else◌}
use study_c_know.Common.Int.{ℤ, pos, negsuc, ltb_ℤ, ◌==ℤ◌}
use study_c_know.Device.{Io, output, pure, ◌>>=◌, ◌>>◌, ask, with_held, acquire, release, branch}

pub data Attr : Type 0 where
  direction active_low edge value period duty_cycle enable : Attr

pub data Call : Type 0 where
  access open_export close_file open_value read_value poll_value seek_value : Call
  write_export : (text : List ℕ) → Call
  open_attr : Attr → Call
  write_attr : Attr → (text : List ℕ) → Call

abbrev close_and : ℤ → Io Call ℤ
close_and ret = do release output close_file; pure ret

-- `gpio_config` and `pwm_config`
unfoldable pub attr_config : Attr → List ℕ → Io Call ℤ
attr_config attr val = do
  fd ← acquire output (open_attr attr)
  branch (ltb_ℤ fd (pos 0)) (pure fd) do
    n ← with_held output (write_attr attr val)
    branch (n ==ℤ pos (length val)) (close_and (pos 0)) (close_and (negsuc 0))

-- exit(-1)
abbrev pub failed : Io Call ℤ
failed = pure (negsuc 0)

-- if (config(attr, val)) exit(-1);
abbrev pub checked : (more : Io Call ℤ) → ℤ → Io Call ℤ
checked more ret = branch (ret ==ℤ pos 0) more failed

unfoldable pub set_attr : Attr → List ℕ → (more : Io Call ℤ) → Io Call ℤ
set_attr attr val more = attr_config attr val >>= checked more

-- The directory of the device is made first, where it does not exist.
unfoldable pub exported : List ℕ → (more : Io Call ℤ) → Io Call ℤ
exported text more = do
  missing ← ask access
  branch (missing ==ℤ pos 0) more do
    fd ← acquire output open_export
    branch (ltb_ℤ fd (pos 0)) failed do
      n ← with_held output (write_export text)
      branch (n ==ℤ pos (length text)) (close_and (pos 0) >>= λ _. more) (close_and (negsuc 0))

-- "in", "out", "none", "0" and "1"
abbrev pub text_in : List ℕ
text_in = 105 ∷ 110 ∷ []

abbrev pub text_out : List ℕ
text_out = 111 ∷ 117 ∷ 116 ∷ []

abbrev pub text_none : List ℕ
text_none = 110 ∷ 111 ∷ 110 ∷ 101 ∷ []

abbrev pub text_0 : List ℕ
text_0 = 48 ∷ []

abbrev pub text_1 : List ℕ
text_1 = 49 ∷ []

-- The end of gpio_in.c, where the level of the pin is read.
unfoldable pub read_level : Io Call ℤ
read_level = do
  fd ← acquire output open_value
  branch (ltb_ℤ fd (pos 0)) failed do
    n ← with_held output read_value
    branch (ltb_ℤ n (pos 0)) (close_and (negsuc 0)) (close_and (pos 0))

-- The three main functions; the arguments are those of the program.
unfoldable pub gpio_in : (gpio : List ℕ) → Io Call ℤ
gpio_in gpio =
    exported gpio
      (set_attr direction text_in (set_attr active_low text_0 (set_attr edge text_none read_level)))

unfoldable pub gpio_out : (gpio level : List ℕ) → Io Call ℤ
gpio_out gpio level =
    exported gpio (
      set_attr direction text_out
        (set_attr active_low text_0 (set_attr value level (pure (pos 0)))))

-- The result of the last call of `pwm_config` is not tested.
unfoldable pub pwm : (cycle duty : List ℕ) → Io Call ℤ
pwm cycle duty = exported text_0 (
    set_attr period cycle
      (set_attr duty_cycle duty (attr_config enable text_1 >>= λ _. pure (pos 0))))
