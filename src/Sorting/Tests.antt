-- ===== src/Sorting/Tests.antt =====
-- The sorts on three numbers.
use study_c_know.Common.{◌≡◌, some, List, [], ◌∷◌}
use study_c_know.Common.Int.{ℤ, pos}
use study_c_know.Sorting.{bubble_sort, selection_sort}
use study_c_know.Sorting.Order.{IsSorted, SameElements}
use study_c_know.Sorting.Bubble.{bubble_sort-IsSorted}
use study_c_know.Sorting.Selection.{selection_sort-IsSorted}
use study_c_know.Sorting.Unique.{bubble_sort-selection_sort}

abbrev numbers : List ℤ
numbers = pos 3 ∷ pos 1 ∷ pos 2 ∷ []

bubble_sort-IsSorted_example :
    (b : List ℤ) × (bubble_sort numbers ≡ some b) × IsSorted b × SameElements b numbers
bubble_sort-IsSorted_example = bubble_sort-IsSorted numbers

selection_sort-IsSorted_example :
    (b : List ℤ) × (selection_sort numbers ≡ some b) × IsSorted b × SameElements b numbers
selection_sort-IsSorted_example = selection_sort-IsSorted numbers

bubble_sort-selection_sort_example :
    (b : List ℤ) × (bubble_sort numbers ≡ some b) × (selection_sort numbers ≡ some b)
bubble_sort-selection_sort_example = bubble_sort-selection_sort numbers
