-- ===== src/Recursion/Tests.antt =====
-- The recursive functions at small arguments.
use study_c_know.Common.{◌≡◌, some, List, [], arith}
use study_c_know.Recursion.{Move, hanoi}
use study_c_know.Recursion.Hanoi.{Pegs, put, run, tower, hanoi-solves}

abbrev no_disks : Pegs
no_disks q = []

hanoi-solves_example :
    (ms : List Move) × (hanoi 3 1 2 3 ≡ some ms)
    × (run ms (put no_disks 1 (tower 3)) ≡ some (put no_disks 3 (tower 3)))
hanoi-solves_example =
    hanoi-solves 2 1 2 3 no_disks (omega arith) (omega arith) (omega arith) (λ q. tt)
