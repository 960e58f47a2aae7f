-- ===== src/Uart.antt =====
-- study_test/UART/uart.c: the configuration of a serial port, and main after its arguments are read.
pub mod Modes
pub mod Run
mod Tests
use study_c_know.Common.{
  ℕ, zero, suc, Bool, true, false, Option, none, some, List, [], ◌∷◌, ◌==◌, ◌||◌, if◌then◌else◌,
}
use study_c_know.Common.Int.{ℤ, pos, negsuc, ltb_ℤ, ◌==ℤ◌}
use study_c_know.Device.{
  Io, input, pure, ◌>>=◌, ◌>>◌, ask, with_held, acquire, release, branch, attempt,
}

-- uart_cfg_t; `parity` is a character.
pub record UartCfg : Type 0 where
  pub baudrate : ℕ
  pub dbit : ℕ
  pub parity : ℕ
  pub sbit : ℕ

-- speed_t, and the sizes of CSIZE
pub data Speed : Type 0 where
  b1200 b1800 b2400 b4800 b9600 b19200 b38400 b57600 b115200 b230400 b460800 b500000 : Speed

pub data CharSize : Type 0 where
  cs5 cs6 cs7 cs8 : CharSize

-- The parts of struct termios that `uart_cfg` writes; its flags are bits of their own, and `|=` and
-- `&= ~` set and clear them.
pub record Termios : Type 0 where
  pub speed : Option Speed
  pub csize : CharSize
  pub cread : Bool
  pub parenb : Bool
  pub parodd : Bool
  pub inpck : Bool
  pub cstopb : Bool
  pub vtime : ℕ
  pub vmin : ℕ

-- A struct of zeros after `cfmakeraw`, with CREAD set.
abbrev pub raw : Termios
raw = record {
  speed = none;
  csize = cs8;
  cread = true;
  parenb = false;
  parodd = false;
  inpck = false;
  cstopb = false;
  vtime = 0;
  vmin = 1;
}

unfoldable pub speed_of : ℕ → Speed
speed_of b =
    if b == 1200
    then b1200
    else if b == 1800
    then b1800
    else if b == 2400
    then b2400
    else if b == 4800
    then b4800
    else if b == 9600
    then b9600
    else if b == 19200
    then b19200
    else if b == 38400
    then b38400
    else if b == 57600
    then b57600
    else if b == 115200
    then b115200
    else if b == 230400
    then b230400
    else if b == 460800
    then b460800
    else if b == 500000
    then b500000
    else b115200

unfoldable pub set_size : ℕ → Termios → Termios
set_size n t =
    if n == 5
    then record t { csize = cs5 }
    else if n == 6
    then record t { csize = cs6 }
    else if n == 7
    then record t { csize = cs7 }
    else record t { csize = cs8 }

-- 'O' is 79 and 'E' is 69; 'N' is as any other character.
unfoldable pub set_parity : ℕ → Termios → Termios
set_parity c t =
    if c == 79
    then record t { parenb = true; parodd = true; inpck = true }
    else if c == 69
    then record t { parenb = true; parodd = false; inpck = true }
    else record t { parenb = false; inpck = false }

unfoldable pub set_stop : ℕ → Termios → Termios
set_stop n t = record t { cstopb = n == 2 }

-- `new_cfg` when it is written to the port.
unfoldable pub new_cfg : UartCfg → Termios
new_cfg cfg =
    record (set_stop cfg.sbit (
      set_parity cfg.parity
        (set_size cfg.dbit (record raw { speed = some (speed_of cfg.baudrate) })))) {
          vtime = 0;
          vmin = 0;
        }

pub data Call : Type 0 where
  open_port tcgetattr tcflush restore close_port : Call
  cfsetspeed : Speed → Call
  tcsetattr : Termios → Call
  get_flags set_async set_owner set_signal sigaction write_8 sleep : Call

abbrev close_failed : Io Call ℤ
close_failed = do release input close_port; pure (negsuc 0)

unfoldable pub uart_init : Io Call ℤ
uart_init =
    attempt (acquire input open_port) (pure (negsuc 0))
      (attempt (with_held input tcgetattr) close_failed (pure (pos 0)))

unfoldable pub uart_cfg : UartCfg → Io Call ℤ
uart_cfg cfg = attempt (ask (cfsetspeed (speed_of cfg.baudrate))) (pure (negsuc 0)) (
    attempt (with_held input tcflush) (pure (negsuc 0))
      (attempt (with_held input (tcsetattr (new_cfg cfg))) (pure (negsuc 0)) (pure (pos 0))))

-- How main is left: by `exit`, or in one of its endless loops.
pub data Exit : Type 0 where
  exited : ℤ → Exit
  reading : Exit
  writing : Exit

unfoldable pub async_io_init : Io Call Exit
async_io_init = do
  _ ← with_held input get_flags
  _ ← with_held input set_async
  _ ← with_held input set_owner
  _ ← with_held input set_signal
  _ ← ask sigaction
  pure reading

-- for (;;) { write; sleep }, for a number of rounds
unfoldable pub write_loop : ℕ → Io Call Exit
write_loop zero = pure writing
write_loop (suc n) = do _ ← with_held input write_8; _ ← ask sleep; write_loop n

-- `main` from `uart_init` on: `rw` is true for writing, of which `n` rounds are run.
unfoldable pub serve : (n : ℕ) → (rw : Bool) → Io Call Exit
serve n rw = branch rw (write_loop n) async_io_init

unfoldable pub configured_or_restored : ℕ → Bool → ℤ → Io Call Exit
configured_or_restored n rw ret =
    branch (ret ==ℤ pos 0) (serve n rw)
      (do _ ← with_held input restore; release input close_port; pure (exited (pos 1)))

unfoldable pub after_init : ℕ → Bool → UartCfg → ℤ → Io Call Exit
after_init n rw cfg ret =
    branch (ret ==ℤ pos 0) (uart_cfg cfg >>= configured_or_restored n rw) (pure (exited (pos 1)))

unfoldable pub main : ℕ → Bool → UartCfg → Io Call Exit
main n rw cfg = uart_init >>= after_init n rw cfg
