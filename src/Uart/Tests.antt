-- ===== src/Uart/Tests.antt =====
-- The serial port at 9600 baud with even parity.
use study_c_know.Common.{true, false, []}
use study_c_know.Common.Int.{pos}
use study_c_know.Device.{Env}
use study_c_know.Device.Ends.{Ends}
use study_c_know.Uart
use study_c_know.Uart.{Call, UartCfg, b9600, cs7, new_cfg}
use study_c_know.Uart.Modes.{Mode, even, cfg_of, IsIn, new_cfg-IsIn}
use study_c_know.Uart.Run.{Served, uart_main-Served}

abbrev even_9600 : Mode
even_9600 = record {
  mode_speed = b9600;
  mode_size = cs7;
  mode_parity = even;
  mode_two_stops = false;
}

abbrev ready : Env Call
ready = record { answer = λ c t. pos 3; payload = λ c t. [] }

new_cfg-IsIn_example : IsIn even_9600 (new_cfg (cfg_of even_9600))
new_cfg-IsIn_example = new_cfg-IsIn even_9600

uart_main-Served_example :
    Ends
      (Uart.main 4 true (cfg_of even_9600) ready (record { time = 0; held = []; trace = [] }))
      (Served ready 4 true (cfg_of even_9600))
uart_main-Served_example = uart_main-Served ready 4 (cfg_of even_9600) true
