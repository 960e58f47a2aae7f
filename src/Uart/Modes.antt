-- ===== src/Uart/Modes.antt =====
-- Which settings of a serial port study_test/UART/uart.c can make.
use study_c_know.Common.{ℕ, ◌≡◌, refl, Bool, true, false, some}
use study_c_know.Uart.{
  UartCfg, Speed, b1200, b1800, b2400, b4800, b9600, b19200, b38400, b57600, b115200, b230400,
  b460800, b500000, CharSize, cs5, cs6, cs7, cs8, Termios, speed_of, set_size, set_parity, set_stop,
  new_cfg,
}

-- What a port can be set to.
pub data Parity : Type 0 where
  no_parity odd even : Parity

pub record Mode : Type 0 where
  pub mode_speed : Speed
  pub mode_size : CharSize
  pub mode_parity : Parity
  pub mode_two_stops : Bool

abbrev pub baud : Speed → ℕ
baud b1200 = 1200
baud b1800 = 1800
baud b2400 = 2400
baud b4800 = 4800
baud b9600 = 9600
baud b19200 = 19200
baud b38400 = 38400
baud b57600 = 57600
baud b115200 = 115200
baud b230400 = 230400
baud b460800 = 460800
baud b500000 = 500000

abbrev pub bits : CharSize → ℕ
bits cs5 = 5
bits cs6 = 6
bits cs7 = 7
bits cs8 = 8

-- 'N', 'O' and 'E'
abbrev pub letter : Parity → ℕ
letter no_parity = 78
letter odd = 79
letter even = 69

abbrev pub stops : Bool → ℕ
stops false = 1
stops true = 2

-- The configuration that asks for a mode, as the help of the program tells it.
abbrev pub cfg_of : Mode → UartCfg
cfg_of m = record {
  baudrate = baud m.mode_speed;
  dbit = bits m.mode_size;
  parity = letter m.mode_parity;
  sbit = stops m.mode_two_stops;
}

-- The mode that the flags of a port mean.
abbrev pub parity_of : (enabled is_odd : Bool) → Parity
parity_of false o = no_parity
parity_of true true = odd
parity_of true false = even

-- The port is in a mode: parity is checked on input where it is enabled, and reads do not wait.
pub record IsIn (m : Mode) (t : Termios) : Type 0 where
  pub speed_set : t.speed ≡ some m.mode_speed
  pub size_set : t.csize ≡ m.mode_size
  pub parity_set : parity_of t.parenb t.parodd ≡ m.mode_parity
  pub parity_checked : t.inpck ≡ t.parenb
  pub stops_set : t.cstopb ≡ m.mode_two_stops
  pub receives : t.cread ≡ true
  pub no_wait : (t.vtime ≡ 0) × (t.vmin ≡ 0)

speed_of-baud : (v : Speed) → speed_of (baud v) ≡ v
unfolding speed_of
speed_of-baud b1200 = refl
speed_of-baud b1800 = refl
speed_of-baud b2400 = refl
speed_of-baud b4800 = refl
speed_of-baud b9600 = refl
speed_of-baud b19200 = refl
speed_of-baud b38400 = refl
speed_of-baud b57600 = refl
speed_of-baud b115200 = refl
speed_of-baud b230400 = refl
speed_of-baud b460800 = refl
speed_of-baud b500000 = refl

set_size-bits : (d : CharSize) (t : Termios) → set_size (bits d) t ≡ record t { csize = d }
unfolding set_size
set_size-bits cs5 t = refl
set_size-bits cs6 t = refl
set_size-bits cs7 t = refl
set_size-bits cs8 t = refl

set_stop-stops : (s : Bool) (t : Termios) → set_stop (stops s) t ≡ record t { cstopb = s }
unfolding set_stop
set_stop-stops false t = refl
set_stop-stops true t = refl

mode_is_set :
    (v : Speed) (d : CharSize) (p : Parity) (s : Bool)
    → IsIn
        (record { mode_speed = v; mode_size = d; mode_parity = p; mode_two_stops = s })
        (new_cfg (record { baudrate = baud v; dbit = bits d; parity = letter p; sbit = stops s }))
unfolding new_cfg set_parity
mode_is_set v d no_parity s =
    rw (speed_of-baud v, set_size-bits d _, set_stop-stops s _)
      (record {
        speed_set = refl;
        size_set = refl;
        parity_set = refl;
        parity_checked = refl;
        stops_set = refl;
        receives = refl;
        no_wait = (refl, refl);
      })
mode_is_set v d odd s =
    rw (speed_of-baud v, set_size-bits d _, set_stop-stops s _)
      (record {
        speed_set = refl;
        size_set = refl;
        parity_set = refl;
        parity_checked = refl;
        stops_set = refl;
        receives = refl;
        no_wait = (refl, refl);
      })
mode_is_set v d even s =
    rw (speed_of-baud v, set_size-bits d _, set_stop-stops s _)
      (record {
        speed_set = refl;
        size_set = refl;
        parity_set = refl;
        parity_checked = refl;
        stops_set = refl;
        receives = refl;
        no_wait = (refl, refl);
      })

-- Round trip: the flags that `uart_cfg` writes for the configuration that asks for a mode mean that
-- mode, for each of the speeds, sizes, parities and stop bits that the program knows.
pub new_cfg-IsIn : (m : Mode) → IsIn m (new_cfg (cfg_of m))
new_cfg-IsIn m = mode_is_set m.mode_speed m.mode_size m.mode_parity m.mode_two_stops
