-- ===== src/Recursion/Factorial.antt =====
-- The factorial, and where it leaves the range of `int`.
use study_c_know.Common.{ℕ, zero, suc, ◌*◌, ◌≤◌, ◌≡◌, refl, true, false, arith, leb}
use study_c_know.Common.Int.{to_int, pos, ◌*ℤ◌}
use study_c_know.Common.Array.{◌>>=◌}
use native.Mathlib.Decide.{dec_le}
use study_c_know.Recursion.{factorial_down, x_result}

unfoldable pub factorial : ℕ → ℕ
factorial zero = 1
factorial (suc n) = suc n * factorial n

pos-mul : (a b : ℕ) → pos a *ℤ pos b ≡ pos (a * b)
unfolding ◌*ℤ◌
pos-mul a b = ground arith

-- A product with a factor that does not fit does not fit.
to_int-mul : (a k : ℕ) → 1 ≤ a → (do r ← to_int (pos k); to_int (pos a *ℤ r)) ≡ to_int (pos (a * k))
unfolding to_int
to_int-mul a k h =
    let larger : k ≤ a * k = grind arith in
    elim (dec_le k 2147483647) [
      | yes small ↦ let fits : leb k 2147483647 ≡ true = ground arith in rw (fits, pos-mul a k)
      | no large ↦
          let over : leb k 2147483647 ≡ false = ground arith in
          let over' : leb (a * k) 2147483647 ≡ false = ground arith in rw (over, over')
    ]

-- `x_result` of a number that is not negative is its factorial when that fits in an `int`, and
-- undefined (`none`) when it does not.
pub x_result-factorial : (n : ℕ) → x_result (pos n) ≡ to_int (pos (factorial n))
unfolding x_result factorial_down factorial
x_result-factorial zero = unfold to_int in refl
x_result-factorial (suc zero) = unfold to_int in refl
x_result-factorial (suc (suc n)) =
    rw (x_result-factorial (suc n)) (to_int-mul (suc (suc n)) (factorial (suc n)) (omega arith))
