-- ===== src/SeqList.antt =====
-- 数据结构/顺序存储/sqlist.c and sqlist.h: a list of ints in an array of DATASIZE cells.
-- A function that changes `*me` returns the new list beside its status; `none` is an access
-- outside the array. A loop recurs on the rounds that its test leaves.
pub mod Loops
pub mod Bounds
pub mod Spec
pub mod Insert
pub mod Delete
pub mod Find
pub mod Union
mod Tests
use study_c_know.Common.{
  ℕ, zero, suc, ◌+◌, ◌-◌, Bool, true, false, ◌||◌, Option, none, some, List, [], ◌∷◌, length,
  if◌then◌else◌, ltb,
}
use study_c_know.Common.Int.{ℤ, pos, negsuc, ◌+ℤ◌, ◌-ℤ◌, ◌==ℤ◌, ltb_ℤ, leb_ℤ, to_ℕ}
use study_c_know.Common.Array.{load, store, read_range, ◌>>=◌}

-- DATASIZE
abbrev pub data_size : ℕ
data_size = 1024

-- `last` is the index of the last element, -1 if there is none.
pub record SeqList : Type 0 where
  pub cells : List ℤ
  pub last : ℤ

-- `malloc` gives NULL (`none`) or a block with arbitrary cells.
pub create : Option (List ℤ) → Option SeqList
create none = none
create (some block) = some (record { cells = block; last = negsuc 0 })

-- The same through `*ptr`, which holds NULL after a failed `malloc`.
pub create2 : Option (List ℤ) → Option SeqList
create2 none = none
create2 (some block) = some (record { cells = block; last = negsuc 0 })

-- for (j = i + rounds - 1; i <= j; j--) data[j + 1] = data[j];
pub shift_up : (i rounds : ℕ) → List ℤ → Option (List ℤ)
shift_up i zero a = some a
shift_up i (suc k) a = do v ← load a (i + k); a' ← store a (i + k + 1) v; shift_up i k a'

pub insert : SeqList → ℤ → ℤ → Option (ℤ × SeqList)
insert me i x =
    if me.last ==ℤ pos (data_size - 1)
    then some (negsuc 0, me)
    else if ltb_ℤ i (pos 0) || ltb_ℤ (me.last +ℤ pos 1) i
    then some (negsuc 1, me)
    else do
      a ← shift_up (to_ℕ i) (to_ℕ (me.last +ℤ pos 1) - to_ℕ i) me.cells
      a' ← store a (to_ℕ i) x
      some (pos 0, record { cells = a'; last = me.last +ℤ pos 1 })

-- for (; rounds left; j++) data[j - 1] = data[j];
pub shift_down : (j rounds : ℕ) → List ℤ → Option (List ℤ)
shift_down j zero a = some a
shift_down j (suc k) a = do v ← load a j; a' ← store a (j - 1) v; shift_down (j + 1) k a'

pub delete : SeqList → ℤ → Option (ℤ × SeqList)
delete me i = if ltb_ℤ i (pos 0) || ltb_ℤ me.last i then some (negsuc 0, me) else do
  a ← shift_down (to_ℕ i + 1) (to_ℕ me.last - to_ℕ i) me.cells
  some (pos 0, record { cells = a; last = me.last -ℤ pos 1 })

-- 0 for an empty list, -1 for another
pub is_empty : SeqList → ℤ
is_empty me = if me.last ==ℤ negsuc 0 then pos 0 else negsuc 0

-- for (; rounds left; i++) if (data[i] == x) return i;  return -2;
pub find_loop : List ℤ → ℤ → (i rounds : ℕ) → Option ℤ
find_loop a x i zero = some (negsuc 1)
find_loop a x i (suc k) = do
  v ← load a i
  let rest = find_loop a x (i + 1) k
  if v ==ℤ x then some (pos i) else rest

pub find : SeqList → ℤ → Option ℤ
find me x = if is_empty me ==ℤ pos 0 then some (negsuc 0) else find_loop me.cells x 0 (to_ℕ me.last)

pub set_empty : SeqList → ℤ × SeqList
set_empty me = (pos 0, record me { last = negsuc 0 })

pub get_num : SeqList → ℤ
get_num me = me.last +ℤ pos 1

-- What `display` prints: the elements, then `last`; nothing for an empty list.
pub display : SeqList → Option (List ℤ × Option ℤ)
display me =
    if me.last ==ℤ negsuc 0
    then some ([], none)
    else do out ← read_range me.cells 0 (to_ℕ (me.last +ℤ pos 1)); some (out, some me.last)

-- `free` for a list, -1 for NULL; the option is what stays allocated.
pub destroy : Option SeqList → ℤ × Option SeqList
destroy none = (negsuc 0, none)
destroy (some me) = (pos 0, none)

-- The body of the loop of `union`, for the element `x` of the second list.
pub union_step : ℤ → SeqList → ℤ → Option (ℤ × SeqList)
union_step ret me x = do
  f ← find me x
  if ltb_ℤ f (pos 0) then insert me (pos 0) x else some (ret, me)

-- The loop of `union`: `b` is only read, and is another object than `me`.
pub union_loop : List ℤ → (i rounds : ℕ) → ℤ → SeqList → Option (ℤ × SeqList)
union_loop b i zero ret me = some (ret, me)
union_loop b i (suc k) ret me = do
  x ← load b i
  (ret', me') ← union_step ret me x
  union_loop b (i + 1) k ret' me'

pub union : SeqList → SeqList → Option (ℤ × SeqList)
union me other = union_loop other.cells 0 (to_ℕ (other.last +ℤ pos 1)) (negsuc 0) me

-- The loop of `sqlist_init` of main.c: every element goes to the front, until an error.
pub fill : SeqList → List ℤ → Option (ℤ × SeqList)
fill me [] = some (pos 0, me)
fill me (x ∷ xs) = do
  (err, me') ← insert me (pos 0) x
  let rest = fill me' xs
  if err ==ℤ pos 0 then rest else some (negsuc 0, me')

-- `createtype` selects the constructor; with another one `*ls` keeps its old value.
pub init : Option SeqList → Option (List ℤ) → List ℤ → ℤ → Option (ℤ × Option SeqList)
init old block arr kind =
    let made =
      if kind ==ℤ pos 2 then create2 block else if kind ==ℤ pos 1 then create block else old in
    elim made [
      | none ↦ some (negsuc 0, none)
      | some me ↦ do (ret, me') ← fill me arr; some (ret, some me')
    ]
