-- ===== src/SingleList.antt =====
-- 数据结构/链表/单链表/单链表.c: a list of ints behind a header node. Each `malloc` is an argument,
-- the address that it returns; the code does not test it for NULL.
pub mod Locate
pub mod Change
pub mod Walk
pub mod Build
mod Tests
use study_c_know.Common.{
  ℕ, zero, suc, ◌+◌, ◌≡◌, ◌≢◌, Bool, true, false, Option, none, some, List, [], ◌∷◌, if◌then◌else◌,
  ◌==◌,
}
use study_c_know.Common.Int.{ℤ, pos, negsuc, ◌==ℤ◌}
use study_c_know.NodeHeap.{
  Ptr, null, Heap, Cmd, pure, ◌>>=◌, ◌>>◌, get_next, get_value, set_next, set_value, free, allocate,
}
use study_c_know.NodeHeap.Chain.{has, Distinct, Chain}

-- The header with the nodes `xs`, all distinct and allocated, the last one before NULL.
pub record IsList (h : Heap ℤ) (header : Ptr) (xs : List (Ptr × ℤ)) : Type 0 where
  pub chain : Chain h header xs null
  pub root : h.alive header ≡ true
  pub ne : header ≢ null
  pub apart : has header xs ≡ false
  pub distinct : Distinct xs

-- A node for `val` behind `rear`.
unfoldable pub append_node : (fresh : Ptr) → (rear : Ptr) → ℤ → Cmd ℤ Ptr
unfolding allocate set_value set_next
append_node fresh rear val = do
  allocate fresh
  set_value fresh val
  set_next fresh null
  set_next rear fresh
  pure fresh

-- The loop of `Init_Linklist`: one entry for each number that is read, with what `malloc` would
-- return for it. Without a -1 in the input the loop does not end (`none`).
pub init_loop : List (ℤ × Ptr) → (rear : Ptr) → Cmd ℤ (Unit {0})
init_loop [] rear = λ _. none
init_loop ((val, fresh) ∷ input) rear =
    if val ==ℤ negsuc 0
    then pure tt
    else do rear' ← append_node fresh rear val; init_loop input rear'

pub init : (fresh : Ptr) → List (ℤ × Ptr) → Cmd ℤ Ptr
init fresh input = do
  allocate fresh
  set_value fresh (negsuc 0)
  set_next fresh null
  init_loop input fresh
  pure fresh

-- The first node with the value `val` from `current` on, NULL if there is none, and the node
-- before it.
pub locate : ℕ → ℤ → (recv current : Ptr) → Cmd ℤ (Ptr × Ptr)
locate zero val recv current = λ _. none
locate (suc fuel) val recv current = if current == null then pure (recv, current) else do
  d ← get_value current
  n ← get_next current
  if d ==ℤ val then pure (recv, current) else locate fuel val current n

-- The new node is linked in between.
unfoldable pub link_between : (fresh : Ptr) → ℤ → Ptr × Ptr → Cmd ℤ (Unit {0})
unfolding allocate set_value set_next
link_between fresh new_val (recv, current) = do
  allocate fresh
  set_value fresh new_val
  set_next fresh null
  set_next fresh current
  set_next recv fresh

pub insert : ℕ → (fresh : Ptr) → (header : Ptr) → (old_val new_val : ℤ) → Cmd ℤ (Unit {0})
insert fuel fresh header old_val new_val = if header == null then pure tt else do
  first ← get_next header
  place ← locate fuel old_val header first
  link_between fresh new_val place

unfoldable pub unlink : Ptr × Ptr → Cmd ℤ (Unit {0})
unfolding get_next set_next free
unlink (recv, current) = do n ← get_next current; set_next recv n; free current

pub remove : ℕ → (header : Ptr) → ℤ → Cmd ℤ (Unit {0})
remove fuel header val = if header == null then pure tt else do
  first ← get_next header
  (recv, current) ← locate fuel val header first
  if current == null then pure tt else unlink (recv, current)

-- What is printed from `current` on.
pub foreach_loop : ℕ → Ptr → Cmd ℤ (List ℤ)
foreach_loop zero current = λ _. none
foreach_loop (suc fuel) current =
    if current == null
    then pure []
    else do d ← get_value current; n ← get_next current; rest ← foreach_loop fuel n; pure (d ∷ rest)

pub foreach : ℕ → Ptr → Cmd ℤ (List ℤ)
foreach fuel header =
    if header == null then pure [] else do first ← get_next header; foreach_loop fuel first

-- Every node from `current` on is freed.
pub free_loop : ℕ → Ptr → Cmd ℤ (Unit {0})
free_loop zero current = λ _. none
free_loop (suc fuel) current =
    if current == null then pure tt else do n ← get_next current; free current; free_loop fuel n

pub destroy : ℕ → Ptr → Cmd ℤ (Unit {0})
destroy fuel header = if header == null then pure tt else free_loop fuel header

pub count_loop : ℕ → Ptr → ℕ → Cmd ℤ ℕ
count_loop zero current i = λ _. none
count_loop (suc fuel) current i =
    if current == null then pure i else do n ← get_next current; count_loop fuel n (i + 1)

pub find_num : ℕ → Ptr → Cmd ℤ ℕ
find_num fuel header = count_loop fuel header 0

pub clear : ℕ → Ptr → Cmd ℤ (Unit {0})
clear fuel header =
    if header == null
    then pure tt
    else do first ← get_next header; free_loop fuel first; set_next header null
