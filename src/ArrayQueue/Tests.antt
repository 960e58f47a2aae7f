-- ===== src/ArrayQueue/Tests.antt =====
-- Runs of queue.c and its theorems on a queue that goes round the end of the array.
use study_c_know.Common.{◌≡◌, refl, Option, some, [], ◌∷◌, arith}
use study_c_know.Common.Int.{ℤ, pos}
use study_c_know.ArrayQueue.{Queue, enqueue, dequeue}
use study_c_know.ArrayQueue.Laws.{
  IsValid, contents, enqueue_list, dequeue_list, enqueue-enqueue_list, dequeue-dequeue_list,
}

-- 7 at index 4 and 8 at index 0.
abbrev round : Queue
round = record { cells = pos 8 ∷ pos 0 ∷ pos 0 ∷ pos 0 ∷ pos 7 ∷ []; head = 3; tail = 0 }

round-IsValid : IsValid round
round-IsValid = record { block = refl; head_in = omega arith; tail_in = omega arith }

enqueue-enqueue_list_example :
    (r : ℤ × Queue) × (enqueue round (pos 9) ≡ some r)
    × IsValid (r.1)
    × ((r.0, contents (r.1)) ≡ enqueue_list (contents round) (pos 9))
enqueue-enqueue_list_example = enqueue-enqueue_list round (pos 9) round-IsValid

dequeue-dequeue_list_example :
    (r : ℤ × Option ℤ × Queue) × (dequeue round ≡ some r)
    × IsValid (r.2)
    × ((r.0, r.1, contents (r.2)) ≡ dequeue_list (contents round))
dequeue-dequeue_list_example = dequeue-dequeue_list round round-IsValid
