-- ===== src/ArrayQueue.antt =====
-- 数据结构/queue_队列/arr/queue.c and queue.h: a queue of ints in a ring of MAXSIZE cells, one of
-- which stays free. A call that changes `*sq` returns the new queue; `none` is an access outside
-- the array. `head` and `tail` are never negative, so they are numbers.
pub mod Laws
pub mod Run
mod Tests
use study_c_know.Common.{
  ℕ, zero, suc, ◌+◌, ◌%◌, Bool, true, false, Option, none, some, List, [], ◌∷◌, if◌then◌else◌, ◌==◌,
}
use study_c_know.Common.Int.{ℤ, pos, negsuc}
use study_c_know.Common.Array.{load, store, ◌>>=◌}

-- MAXSIZE
abbrev pub max_size : ℕ
max_size = 5

-- The elements stand behind `head`, up to `tail`.
pub record Queue : Type 0 where
  pub cells : List ℤ
  pub head : ℕ
  pub tail : ℕ

-- `malloc` gives NULL (`none`) or a block with arbitrary cells.
unfoldable pub create : Option (List ℤ) → Option Queue
create none = none
create (some block) = some (record { cells = block; head = 0; tail = 0 })

unfoldable pub enqueue : Queue → ℤ → Option (ℤ × Queue)
enqueue sq x = if (sq.tail + 1) % max_size == sq.head then some (negsuc 0, sq) else do
  let t = (sq.tail + 1) % max_size
  cells ← store sq.cells t x
  some (pos 0, record sq { cells = cells; tail = t })

unfoldable pub is_empty : Queue → Bool
is_empty sq = sq.head == sq.tail

-- The status, what goes through `x`, and the queue.
unfoldable pub dequeue : Queue → Option (ℤ × Option ℤ × Queue)
unfolding is_empty
dequeue sq = if is_empty sq then some (negsuc 0, none, sq) else do
  let h = (sq.head + 1) % max_size
  x ← load sq.cells h
  some (pos 0, some x, record sq { head = h })

-- while (i != tail) { print(data[i]); i = (i + 1) % MAXSIZE; }  print(data[i]);
-- `none` also when the fuel is used up.
unfoldable pub travel_loop : ℕ → List ℤ → (tail i : ℕ) → Option (List ℤ)
travel_loop zero a tail i = none
travel_loop (suc fuel) a tail i = do
  x ← load a i
  let more = do rest ← travel_loop fuel a tail ((i + 1) % max_size); some (x ∷ rest)
  if i == tail then some (x ∷ []) else more

unfoldable pub travel : Queue → Option (List ℤ)
unfolding is_empty travel_loop
travel sq =
    if is_empty sq
    then some []
    else travel_loop max_size sq.cells sq.tail ((sq.head + 1) % max_size)

unfoldable pub clear : Queue → Queue
clear sq = record sq { head = sq.tail }

-- The loop of main.c: every element is put in, and the status is not looked at.
unfoldable pub enqueue_all : Queue → List ℤ → Option Queue
enqueue_all sq [] = some sq
enqueue_all sq (x ∷ xs) = do (ret, sq') ← enqueue sq x; enqueue_all sq' xs
