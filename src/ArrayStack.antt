-- ===== src/ArrayStack.antt =====
-- 数据结构/stack_栈/arr/sqstack.c and sqstack.h: a stack of ints in an array of MAXSIZE cells.
-- A call that changes `*st` returns the new stack; `none` is an access outside the array.
pub mod Laws
pub mod Run
mod Tests
use study_c_know.Common.{
  ℕ, ◌+◌, ◌-◌, Bool, true, false, Option, none, some, List, [], ◌∷◌, if◌then◌else◌,
}
use study_c_know.Common.Int.{ℤ, pos, negsuc, ◌+ℤ◌, ◌-ℤ◌, ◌==ℤ◌, to_ℕ}
use study_c_know.Common.Array.{load, store, read_range, ◌>>=◌}

-- MAXSIZE
abbrev pub max_size : ℕ
max_size = 5

-- `top` is the index of the newest element, -1 if there is none.
pub record Stack : Type 0 where
  pub cells : List ℤ
  pub top : ℤ

-- `malloc` gives NULL (`none`) or a block with arbitrary cells.
unfoldable pub create : Option (List ℤ) → Option Stack
create none = none
create (some block) = some (record { cells = block; top = negsuc 0 })

unfoldable pub is_empty : Stack → Bool
is_empty st = st.top ==ℤ negsuc 0

unfoldable pub push : Stack → ℤ → Option (ℤ × Stack)
push st x = if st.top ==ℤ pos (max_size - 1) then some (negsuc 0, st) else do
  cells ← store st.cells (to_ℕ (st.top +ℤ pos 1)) x
  some (pos 0, record { cells = cells; top = st.top +ℤ pos 1 })

-- The status, what goes through `data`, and the stack.
unfoldable pub pop : Stack → Option (ℤ × Option ℤ × Stack)
unfolding is_empty
pop st = if is_empty st then some (negsuc 0, none, st) else do
  x ← load st.cells (to_ℕ st.top)
  some (pos 0, some x, record st { top = st.top -ℤ pos 1 })

unfoldable pub top : Stack → Option (ℤ × Option ℤ)
unfolding is_empty
top st =
    if is_empty st
    then some (negsuc 0, none)
    else do x ← load st.cells (to_ℕ st.top); some (pos 0, some x)

-- What is printed, from index 0 up.
unfoldable pub travel : Stack → Option (List ℤ)
unfolding is_empty
travel st = if is_empty st then some [] else read_range st.cells 0 (to_ℕ (st.top +ℤ pos 1))

-- The loop of main.c: every element is pushed, and the status is not looked at.
unfoldable pub push_all : Stack → List ℤ → Option Stack
push_all st [] = some st
push_all st (x ∷ xs) = do (ret, st') ← push st x; push_all st' xs
