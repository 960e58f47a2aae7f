-- ===== src/ListQueue/Tests.antt =====
-- The program of the queue on two elements.
use study_c_know.Common.{◌≡◌, refl, false, some, List, [], ◌∷◌, arith}
use study_c_know.LinkedList.{Ptr, Bytes, Heap}
use study_c_know.Container.Session.{copies}
use study_c_know.ListQueue.{main}
use study_c_know.ListQueue.Run.{main_fifo}

abbrev heap : Heap
heap = record { alive = λ a. false; prve = λ a. 0; next = λ a. 0; bytes = λ a. [] }

-- Elements of two bytes, and the addresses of their nodes.
abbrev items : List (Ptr × Bytes)
items = (2, 7 ∷ 7 ∷ []) ∷ (3, 8 ∷ 8 ∷ []) ∷ []

main_fifo_example :
    (g : Heap) × (main 1 2 3 items [] heap ≡ some (some (copies 2 items), g)) × (g.alive 1 ≡ false)
main_fifo_example =
    main_fifo 1 2 heap 3 items [] (omega arith)
      (omega arith, refl, omega arith, refl, (omega arith, refl, omega arith, refl, tt)) refl
      (omega arith)
