-- ===== src/Sorting.antt =====
-- The sorting programs 数组/冒泡排序.c (bubble sort) and 数组/选择排序.c (selection sort), each a
-- function `sort1` on an array of ints. `none` is an access outside the array. Printing is left out.
pub mod Order
pub mod Bubble
pub mod Selection
pub mod Unique
mod Tests
use study_c_know.Common.{
  ℕ, zero, suc, ◌+◌, ◌-◌, Bool, true, false, Option, none, some, List, length, if◌then◌else◌, ◌==◌,
}
use study_c_know.Common.Int.{ℤ, ltb_ℤ}
use study_c_know.Common.Array.{load, store, ◌>>=◌}

-- tmp = a[i]; a[i] = a[k]; a[k] = tmp;
unfoldable pub swap : List ℤ → ℕ → ℕ → Option (List ℤ)
swap a i k = do tmp ← load a i; v ← load a k; a' ← store a i v; store a' k tmp

-- The body of the inner loop of the bubble sort: if (a[j] > a[j + 1]) swap them.
unfoldable pub bubble_step : ℕ → List ℤ → Option (List ℤ)
bubble_step j a = do
  x ← load a j
  y ← load a (j + 1)
  if ltb_ℤ y x then swap a j (j + 1) else some a

-- for (; rounds left; j++) bubble_step(j)
unfoldable pub bubble_inner : (rounds j : ℕ) → List ℤ → Option (List ℤ)
bubble_inner zero j a = some a
bubble_inner (suc k) j a = do a' ← bubble_step j a; bubble_inner k (j + 1) a'

-- for (; rounds left; i++): the inner loop has size - 1 - i rounds.
unfoldable pub bubble_outer : (rounds i size : ℕ) → List ℤ → Option (List ℤ)
bubble_outer zero i size a = some a
bubble_outer (suc k) i size a = do
  a' ← bubble_inner (size - 1 - i) 0 a
  bubble_outer k (i + 1) size a'

unfoldable pub bubble_sort : List ℤ → Option (List ℤ)
bubble_sort a = bubble_outer (length a) 0 (length a) a

-- for (; rounds left; j++) if (a[j] < a[k]) k = j;  The index k at the end.
unfoldable pub least : (rounds j k : ℕ) → List ℤ → Option ℕ
least zero j k a = some k
least (suc r) j k a = do x ← load a j; y ← load a k; least r (j + 1) (if ltb_ℤ x y then j else k) a

unfoldable pub selection_step : (i size : ℕ) → List ℤ → Option (List ℤ)
selection_step i size a = do
  k ← least (size - (i + 1)) (i + 1) i a
  if i == k then some a else swap a i k

-- for (; rounds left; i++)
unfoldable pub selection_outer : (rounds i size : ℕ) → List ℤ → Option (List ℤ)
selection_outer zero i size a = some a
selection_outer (suc r) i size a = do
  a' ← selection_step i size a
  selection_outer r (i + 1) size a'

unfoldable pub selection_sort : List ℤ → Option (List ℤ)
selection_sort a = selection_outer (length a - 1) 0 (length a) a
