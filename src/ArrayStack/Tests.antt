-- ===== src/ArrayStack/Tests.antt =====
-- Runs of sqstack.c and its theorems on a stack with two elements.
use study_c_know.Common.{refl, [], ◌∷◌, arith}
use study_c_know.Common.Int.{pos}
use study_c_know.ArrayStack.{Stack}
use study_c_know.ArrayStack.Laws.{IsValid}

-- 7 and then 8 were pushed.
abbrev two : Stack
two = record { cells = pos 7 ∷ pos 8 ∷ pos 0 ∷ pos 0 ∷ pos 0 ∷ []; top = pos 1 }

two-IsValid : IsValid two
two-IsValid = record { block = refl; low = omega arith; high = omega arith }
