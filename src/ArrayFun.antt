-- ===== src/ArrayFun.antt =====
-- 函数/函数与数组.c: `change_ad` exchanges cells from both ends of an array, `cpy` copies a string.
-- `none` is an access outside the array. Printing is left out.
pub mod Exchange
pub mod Copy
mod Tests
use study_c_know.Common.{
  ℕ, zero, suc, ◌+◌, ◌-◌, ◌/◌, Bool, true, false, Option, none, some, List, [], ◌∷◌, length,
  if◌then◌else◌, ◌==◌,
}
use study_c_know.Common.Int.{ℤ}
use study_c_know.Common.Array.{load, store, ◌>>=◌}
use study_c_know.Sorting.{swap}

-- for (; rounds left; i++) exchange cell i with cell size - 1 - i
unfoldable pub exchange_loop : (rounds i size : ℕ) → List ℤ → Option (List ℤ)
exchange_loop zero i size a = some a
exchange_loop (suc k) i size a = do a' ← swap a i (size - 1 - i); exchange_loop k (i + 1) size a'

-- n = (size - 1) / 2 rounds, 0 for the empty array as in C
unfoldable pub change_ad : List ℤ → Option (List ℤ)
change_ad a = exchange_loop ((length a - 1) / 2) 0 (length a) a

-- while ((*p++ = *q++) != '\0');  from index i on. The source ends the recursion: a source with no
-- 0 is read past its end.
unfoldable pub copy_loop : List ℕ → ℕ → List ℕ → Option (List ℕ)
copy_loop p i [] = none
copy_loop p i (c ∷ q) = do p' ← store p i c; if c == 0 then some p' else copy_loop p' (i + 1) q

-- `none` for NULL; the result is what `p` points at, and `cpy` returns `p`.
unfoldable pub cpy : Option (List ℕ) → Option (List ℕ) → Option (Option (List ℕ))
cpy none q = some none
cpy (some p) none = some (some p)
cpy (some p) (some q) = do p' ← copy_loop p 0 q; some (some p')
