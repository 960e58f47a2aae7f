-- ===== src/Josephus.antt =====
-- 数据结构/链表/单链表/yuesefu.c: the Josephus problem on a circular list of ints. `malloc` is an
-- argument, the address that it returns. The list is known by a pointer to its first node.
pub mod Circle
pub mod Build
pub mod Order
pub mod Kill
mod Tests
use study_c_know.Common.{
  ℕ, zero, suc, ◌+◌, ◌-◌, Bool, true, false, Option, none, some, List, [], ◌∷◌, if◌then◌else◌, ◌==◌,
}
use study_c_know.Common.Int.{ℤ, pos}
use study_c_know.NodeHeap.{
  Ptr, null, Cmd, pure, ◌>>=◌, ◌>>◌, get_next, get_value, set_next, set_value, free, allocate,
}

-- for (; rounds left; i++): the node of `i` is at `malloc i`. The result is the header, NULL
-- (`none`) if memory runs out.
pub init_loop : (malloc : ℕ → Ptr) → (rounds i : ℕ) → (header cur : Ptr) → Cmd ℤ (Option Ptr)
init_loop malloc zero i header cur = pure (some header)
init_loop malloc (suc k) i header cur = if malloc i == null then pure none else do
  allocate (malloc i)
  set_value (malloc i) (pos i)
  set_next (malloc i) header
  set_next cur (malloc i)
  init_loop malloc k (i + 1) header (malloc i)

pub init : (malloc : ℕ → Ptr) → (n : ℕ) → Cmd ℤ (Option Ptr)
init malloc n = if malloc 1 == null then pure none else do
  allocate (malloc 1)
  set_value (malloc 1) (pos 1)
  set_next (malloc 1) (malloc 1)
  init_loop malloc (n - 1) 2 (malloc 1) (malloc 1)

-- What is printed from `cur` on.
pub show_loop : ℕ → (list cur : Ptr) → Cmd ℤ (List ℤ)
show_loop zero list cur = λ _. none
show_loop (suc fuel) list cur = do
  d ← get_value cur
  n ← get_next cur
  if n == list then pure (d ∷ []) else do rest ← show_loop fuel list n; pure (d ∷ rest)

pub show : ℕ → Ptr → Cmd ℤ (List ℤ)
show fuel list = show_loop fuel list list

-- while (i < n) { tmp = cur; cur = cur->next; i++; }
pub advance : (rounds : ℕ) → (tmp cur : Ptr) → Cmd ℤ (Ptr × Ptr)
advance zero tmp cur = pure (tmp, cur)
advance (suc k) tmp cur = do n ← get_next cur; advance k cur n

-- The node `cur` behind `tmp` is taken out; its value is printed, and its successor is returned.
pub kill_one : (tmp cur : Ptr) → Cmd ℤ (ℤ × Ptr)
kill_one tmp cur = do
  d ← get_value cur
  n ← get_next cur
  set_next tmp n
  free cur
  n ← get_next tmp
  pure (d, n)

-- What is printed, and the node that is left.
pub kill_loop : ℕ → (n : ℕ) → (tmp cur : Ptr) → Cmd ℤ (List ℤ × Ptr)
kill_loop zero n tmp cur = λ _. none
kill_loop (suc fuel) n tmp cur = do
  succ ← get_next cur
  if cur == succ then pure ([], cur) else do
    (tmp', cur') ← advance (n - 1) tmp cur
    (d, cur'') ← kill_one tmp' cur'
    (out, left) ← kill_loop fuel n tmp' cur''
    pure (d ∷ out, left)

-- What is printed, and `*me`. The first node that `tmp` points at is never freed.
pub kill : ℕ → (fresh : Ptr) → (me : Ptr) → (n : ℕ) → Cmd ℤ (List ℤ × Ptr)
kill fuel fresh me n = do allocate fresh; kill_loop fuel n fresh me
