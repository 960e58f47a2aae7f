-- ===== src/Watchdog/Tests.antt =====
-- A watchdog that is asked for ten seconds, sets sixteen, and is fed twice.
use study_c_know.Common.{[], ◌∷◌, arith}
use study_c_know.Common.Int.{pos}
use study_c_know.Device.{Env}
use study_c_know.Device.Ends.{Ends}
use study_c_know.Watchdog
use study_c_know.Watchdog.{Call}
use study_c_know.Watchdog.Feeding.{Fed, watchdog_main-Fed}

abbrev ready : Env Call
ready = record { answer = λ c t. pos 3; payload = λ c t. 16 ∷ [] }

watchdog_main-Fed_example :
    Ends
      (Watchdog.main 2 (pos 10) ready (record { time = 0; held = []; trace = [] }))
      (Fed ready 2 10 16)
watchdog_main-Fed_example = watchdog_main-Fed ready 2 (pos 10) (omega arith) (omega arith)
