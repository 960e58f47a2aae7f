-- ===== src/Uart/Run.antt =====
-- What the program of study_test/UART/uart.c leaves behind, whatever the port answers.
use study_c_know.Common.{ℕ, zero, suc, ◌≡◌, refl, Bool, true, false, List, [], ◌∷◌, ◌⊎◌, inl, inr}
use study_c_know.Common.Int.{pos, negsuc, ltb_ℤ}
use study_c_know.Device.{Env, State, input}
use study_c_know.Device.Ends.{Ends, Ends-pure, Ends-if, Ends-bind, Ends-mono}
use study_c_know.Uart.{
  UartCfg, Call, open_port, tcgetattr, tcflush, restore, close_port, cfsetspeed, tcsetattr,
  speed_of, new_cfg, uart_init, uart_cfg, Exit, exited, reading, writing, async_io_init, get_flags,
  set_async, set_owner, set_signal, sigaction, write_loop, serve, configured_or_restored,
  after_init, main, write_8, sleep,
}

-- The writes of a number of rounds, the last one first.
abbrev pub writes : ℕ → List Call → List Call
writes zero us = us
writes (suc n) us = writes n (sleep ∷ write_8 ∷ us)

-- The calls of `uart_init`, when it succeeds, and those up to the one that configures the port.
abbrev pub opened : List Call
opened = tcgetattr ∷ open_port ∷ []

abbrev pub configured : UartCfg → List Call
configured cfg = tcsetattr (new_cfg cfg) ∷ tcflush ∷ cfsetspeed (speed_of cfg.baudrate) ∷ opened

-- A call at a time has failed.
abbrev pub failed_at : Env Call → Call → ℕ → Bool
failed_at e c t = ltb_ℤ (e.answer c t) (pos 0)

-- Each of the calls that open and configure the port has succeeded.
abbrev pub Accepted : Env Call → UartCfg → Type 0
Accepted e cfg =
    (failed_at e open_port 0 ≡ false)
    × (failed_at e tcgetattr 1 ≡ false)
    × (failed_at e (cfsetspeed (speed_of cfg.baudrate)) 2 ≡ false)
    × (failed_at e tcflush 3 ≡ false)
    × (failed_at e (tcsetattr (new_cfg cfg)) 4 ≡ false)

-- One of the calls that configure the port has failed, and was the last one.
abbrev pub Refused : Env Call → UartCfg → List Call → Type 0
Refused e cfg us =
    ((failed_at e (cfsetspeed (speed_of cfg.baudrate)) 2 ≡ true)
      × (us ≡ cfsetspeed (speed_of cfg.baudrate) ∷ opened))
    ⊎ ((failed_at e tcflush 3 ≡ true)
        × (us ≡ tcflush ∷ cfsetspeed (speed_of cfg.baudrate) ∷ opened))
    ⊎ ((failed_at e (tcsetattr (new_cfg cfg)) 4 ≡ true) × (us ≡ configured cfg))

-- The port could not be opened; or its settings could not be read, and it was closed.
abbrev pub Unopened : Env Call → List Call → Type 0
Unopened e tr =
    ((failed_at e open_port 0 ≡ true) × (tr ≡ open_port ∷ []))
    ⊎ ((failed_at e tcgetattr 1 ≡ true) × (tr ≡ close_port ∷ opened))

-- The port was not opened; or it could not be configured, and it was restored and closed.
abbrev pub GaveUp : Env Call → UartCfg → State Call → Type 0
GaveUp e cfg t =
    (t.held ≡ [])
    × (Unopened e t.trace
        ⊎ ((us : List Call) × Refused e cfg us × (t.trace ≡ close_port ∷ restore ∷ us)))

-- The calls of the work on the port after it was configured: rounds of writing, or those that make
-- it send a signal when data come.
abbrev pub working : (rw_flag : Bool) → ℕ → List Call → List Call
working true n us = writes n us
working false n us = sigaction ∷ set_signal ∷ set_owner ∷ set_async ∷ get_flags ∷ us

abbrev pub work : (rw_flag : Bool) → Exit
work true = writing
work false = reading

-- The program gave up, or it does the work that was asked for, after the settings that were asked
-- for were accepted.
abbrev pub Served : Env Call → ℕ → (rw_flag : Bool) → UartCfg → Exit → State Call → Type 0
Served e n rw_flag cfg r t =
    ((r ≡ exited (pos 1)) × GaveUp e cfg t)
    ⊎ ((r ≡ work rw_flag)
        × (t.held ≡ input ∷ [])
        × (t.trace ≡ working rw_flag n (configured cfg))
        × Accepted e cfg)

write_loop-writes :
    (e : Env Call) (n m : ℕ) (us : List Call)
    → Ends
        (write_loop n e (record { time = m; held = input ∷ []; trace = us }))
        λ r t. (r ≡ writing) × (t.held ≡ input ∷ []) × (t.trace ≡ writes n us)
unfolding write_loop
write_loop-writes e zero m us = Ends-pure _ _ (refl, refl, refl)
write_loop-writes e (suc n) m us = write_loop-writes e n (suc (suc m)) _

module _ (e : Env Call) (n : ℕ) (cfg : UartCfg) where
  restored :
      (rw_flag : Bool) (m : ℕ) (us : List Call)
      → Refused e cfg us
      → Ends
          (configured_or_restored n rw_flag
            (negsuc 0)
            e
            (record { time = m; held = input ∷ []; trace = us }))
          (Served e n rw_flag cfg)
  unfolding configured_or_restored
  restored rw_flag m us refused = Ends-pure _ _ (inl (refl, (refl, inr (us, refused, refl))))

  served :
      (rw_flag : Bool) (m : ℕ)
      → Accepted e cfg
      → Ends
          (configured_or_restored n rw_flag
            (pos 0)
            e
            (record { time = m; held = input ∷ []; trace = configured cfg }))
          (Served e n rw_flag cfg)
  unfolding configured_or_restored serve async_io_init
  served false m accepted = Ends-pure _ _ (inr (refl, refl, refl, accepted))
  served true m accepted =
      Ends-mono (write_loop-writes e n m (configured cfg))
        (λ r t (w, own, calls). inr (w, own, calls, accepted))

  -- The port is opened and its settings are read, or the first status is not 0.
  abbrev Opened : Type 0
  Opened = (failed_at e open_port 0 ≡ false) × (failed_at e tcgetattr 1 ≡ false)

  uart_init-Ends : Ends (uart_init e (record { time = 0; held = []; trace = [] })) λ ret t.
      ((ret ≡ pos 0) × (t.held ≡ input ∷ []) × (t.trace ≡ opened) × (t.time ≡ 2) × Opened)
      ⊎ ((ret ≡ negsuc 0) × (t.held ≡ []) × Unopened e t.trace)
  unfolding uart_init
  uart_init-Ends =
      Ends-if (ltb_ℤ (e.answer open_port 0) (pos 0))
        (λ bad. rw bad (Ends-pure _ _ (inr (refl, refl, inl (refl, refl)))))
        (λ good. rw good (
          Ends-if (ltb_ℤ (e.answer tcgetattr 1) (pos 0))
            (λ bad. Ends-pure _ _ (inr (refl, refl, inr (bad, refl))))
            (λ fine. Ends-pure _ _ (inl (refl, refl, refl, refl, (refl, fine))))))

  uart_cfg-Ends :
      Opened
      → Ends (uart_cfg cfg e (record { time = 2; held = input ∷ []; trace = opened })) λ ret t.
        ((ret ≡ pos 0) × (t.held ≡ input ∷ []) × (t.trace ≡ configured cfg) × Accepted e cfg)
        ⊎ ((ret ≡ negsuc 0) × (t.held ≡ input ∷ []) × Refused e cfg t.trace)
  unfolding uart_cfg
  uart_cfg-Ends (there, readable) =
      Ends-if (ltb_ℤ (e.answer (cfsetspeed (speed_of cfg.baudrate)) 2) (pos 0))
        (λ bad. Ends-pure _ _ (inr (refl, refl, inl (bad, refl))))
        (λ set.
          Ends-if (ltb_ℤ (e.answer tcflush 3) (pos 0))
            (λ bad. Ends-pure _ _ (inr (refl, refl, inr (inl (bad, refl)))))
            (λ flushed.
              Ends-if (ltb_ℤ (e.answer (tcsetattr (new_cfg cfg)) 4) (pos 0))
                (λ bad. Ends-pure _ _ (inr (refl, refl, inr (inr (bad, refl)))))
                (λ new.
                  Ends-pure _ _ (inl (refl, refl, refl, (there, readable, set, flushed, new))))))

  -- The program from `uart_init` on, with any number of rounds of writing, uses the port only while it
  -- is open, whatever the calls answer. It exits with EXIT_FAILURE and has closed the port if it
  -- could open it, with the old settings restored if one of the calls for the new ones failed; or
  -- it writes, if `rw_flag` says so, and waits for data if not, after all the calls for the
  -- settings that were asked for have succeeded.
  pub uart_main-Served :
      (rw_flag : Bool)
      → Ends
          (main n rw_flag cfg e (record { time = 0; held = []; trace = [] }))
          (Served e n rw_flag cfg)
  unfolding main after_init
  uart_main-Served rw_flag = Ends-bind (after_init n rw_flag cfg) e uart_init-Ends λ ret t w.
      elim w [
        | inl (good, own, calls, now, ready) ↦
            rw (good, own, calls, now)
              (Ends-bind (configured_or_restored n rw_flag) e (uart_cfg-Ends ready) λ status u v.
                elim v [
                  | inl (set, held, made, accepted) ↦
                      rw (set, held, made) (served rw_flag u.time accepted)
                  | inr (failed, held, refused) ↦
                      rw (failed, held) (restored rw_flag u.time u.trace refused)
                ])
        | inr (bad, own, unopened) ↦ rw bad (Ends-pure _ _ (inl (refl, (own, inl unopened))))
      ]
