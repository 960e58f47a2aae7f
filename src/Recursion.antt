-- ===== src/Recursion.antt =====
-- 函数/调用递归.c: a nested call, a factorial, a Fibonacci sequence and the towers of Hanoi.
-- `int` has 32 bits; an operation whose result does not fit is undefined in C, `none` here.
pub mod Factorial
pub mod Fibonacci
pub mod Hanoi
mod Tests
use study_c_know.Common.{
  ℕ, zero, suc, ◌+◌, ◌^◌, ◌≤◌, Bool, true, false, ◌||◌, Option, none, some, List, [], ◌∷◌, ◌++◌,
  if◌then◌else◌, leb,
}
use study_c_know.Common.Int.{ℤ, pos, negsuc, ◌+ℤ◌, ◌*ℤ◌, leb_ℤ, to_int}
use study_c_know.Common.Array.{◌>>=◌}

unfoldable pub join : ℤ → ℤ → Option ℤ
join i j = to_int (i *ℤ j)

unfoldable pub xbox : ℤ → ℤ → Option ℤ
unfolding join
xbox i j = join i j

-- x_result for x ≥ 0: 1 at 0 and 1, else x * x_result(x - 1)
unfoldable pub factorial_down : ℕ → Option ℤ
factorial_down zero = some (pos 1)
factorial_down (suc zero) = some (pos 1)
factorial_down (suc (suc n)) = do r ← factorial_down (suc n); to_int (pos (suc (suc n)) *ℤ r)

unfoldable pub x_result : ℤ → Option ℤ
x_result (negsuc n) = some (negsuc 0)
x_result (pos n) = factorial_down n

-- filb for count ≥ 1
unfoldable pub filb_up : ℕ → ℤ → ℤ → Option ℤ
filb_up zero p q = some p
filb_up (suc zero) p q = some q
filb_up (suc (suc n)) p q = do a ← filb_up (suc n) p q; b ← filb_up n p q; to_int (a +ℤ b)

-- `p` and `q` are the first two values; -1 for count < 1
unfoldable pub filb : ℤ → ℤ → ℤ → Option ℤ
filb (negsuc n) p q = some (negsuc 0)
filb (pos zero) p q = some (negsuc 0)
filb (pos (suc n)) p q = filb_up n p q

-- What `move` prints.
abbrev pub Move : Type 0
Move = ℕ × ℕ

-- The moves of hanoi(n, A, B, C) for n ≥ 1; below that the recursion never ends (`none`).
unfoldable pub hanoi : ℕ → (a b c : ℕ) → Option (List Move)
hanoi zero a b c = none
hanoi (suc zero) a b c = some ((a, c) ∷ [])
hanoi (suc (suc n)) a b c = do
  first ← hanoi (suc n) a c b
  second ← hanoi (suc n) b a c
  some (first ++ (a, c) ∷ second)
