-- ===== src/Recursion/Fibonacci.antt =====
-- The sequence of `filb` against the loop that keeps its last two values.
use study_c_know.Common.{ℕ, zero, suc, ◌+◌, ◌≤◌, ◌≡◌, true, false, arith, leb}
use study_c_know.Common.Int.{to_int, pos, ◌+ℤ◌}
use study_c_know.Common.Array.{◌>>=◌}
use native.Mathlib.Decide.{dec_le}
use study_c_know.Recursion.{filb_up, filb}

-- for (; n > 0; n--) { t = p + q; p = q; q = t; }  The value of p at the end.
unfoldable pub last_two : ℕ → ℕ → ℕ → ℕ
last_two zero p q = p
last_two (suc n) p q = last_two n q (p + q)

last_two-add : (n p q : ℕ) → last_two (suc (suc n)) p q ≡ last_two (suc n) p q + last_two n p q
unfolding last_two
last_two-add zero p q = omega arith
last_two-add (suc n) p q = last_two-add n q (p + q)

last_two_mono : (n p q : ℕ) → p ≤ q → last_two n p q ≤ last_two (suc n) p q
unfolding last_two
last_two_mono zero p q h = h
last_two_mono (suc n) p q h = last_two_mono n q (p + q) (omega arith)

pos-add : (a b : ℕ) → pos a +ℤ pos b ≡ pos (a + b)
unfolding ◌+ℤ◌
pos-add a b = ground arith

to_int-add :
    (a b : ℕ)
    → b ≤ a
    → (do x ← to_int (pos a); y ← to_int (pos b); to_int (x +ℤ y)) ≡ to_int (pos (a + b))
unfolding to_int
to_int-add a b h = elim (dec_le a 2147483647) [
  | yes small ↦
      let fits : leb a 2147483647 ≡ true = ground arith in
      let fits' : leb b 2147483647 ≡ true = ground arith in rw (fits, fits', pos-add a b)
  | no large ↦
      let over : leb a 2147483647 ≡ false = ground arith in
      let over' : leb (a + b) 2147483647 ≡ false = ground arith in rw (over, over')
]

-- For a count of at least 1 and first values p ≤ q that fit in an `int` and are not negative,
-- `filb` returns the value that a loop with two variables computes when that fits, and is undefined
-- (`none`) when it does not.
pub filb-last_two :
    (n p q : ℕ)
    → p ≤ q
    → q ≤ 2147483647
    → filb (pos (suc n)) (pos p) (pos q) ≡ to_int (pos (last_two n p q))
unfolding filb filb_up
filb-last_two zero p q h k = unfold to_int last_two in ground arith
filb-last_two (suc zero) p q h k = unfold to_int last_two in ground arith
filb-last_two (suc (suc n)) p q h k =
    rw (filb-last_two (suc n) p q h k, filb-last_two n p q h k, last_two-add n p q)
      (to_int-add (last_two (suc n) p q) (last_two n p q) (last_two_mono n p q h))
