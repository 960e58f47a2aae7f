-- ===== src/Sysfs/Tests.antt =====
-- A pin set to a level, and one that is watched, where every write of a text succeeds and `poll` says POLLPRI.
use study_c_know.Common.{ℕ, length, [], ◌∷◌}
use study_c_know.Common.Int.{ℤ, pos, negsuc}
use study_c_know.Device.{Env}
use study_c_know.Device.Ends.{Ends}
use study_c_know.Sysfs.{
  Call, write_attr, write_export, access, direction, active_low, value, text_0, text_1, text_out,
  gpio_out,
}
use study_c_know.Sysfs.Interrupt
use study_c_know.Sysfs.Interrupt.Watch.{Watching, gpio_intr-Watching}
use study_c_know.Sysfs.Written.{Wrote, Clean, start, gpio_out-Clean}

abbrev answers : Call → ℕ → ℤ
answers access t = negsuc 0
answers (write_attr attr text) t = pos (length text)
answers (write_export text) t = pos (length text)
answers _ t = pos 3

abbrev env : Env Call
env = record { answer = answers; payload = λ c t. 2 ∷ [] }

gpio_out-Clean_example : Ends (gpio_out text_1 text_0 env (start env)) (
    Clean env
      λ t. Wrote env text_1 direction active_low value text_out text_0 text_0 t.time t.trace)
gpio_out-Clean_example = gpio_out-Clean env text_1 text_0

gpio_intr-Watching_example : Ends (Interrupt.main 2 text_1 env (start env)) (Watching env text_1 2)
gpio_intr-Watching_example = gpio_intr-Watching env text_1 2
