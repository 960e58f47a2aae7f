-- ===== src/ArrayFun/Tests.antt =====
-- The exchange of four cells and the copy of a string.
use study_c_know.Common.{ℕ, List, [], ◌∷◌}
use study_c_know.Common.Int.{ℤ, pos}

abbrev four : List ℤ
four = pos 1 ∷ pos 2 ∷ pos 3 ∷ pos 4 ∷ []

abbrev word : List ℕ
word = 104 ∷ 105 ∷ []

abbrev room : List ℕ
room = 1 ∷ 2 ∷ 3 ∷ 4 ∷ []
