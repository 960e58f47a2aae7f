-- ===== src/LinkedList.antt =====
-- 数据结构/双链表/类封装/llist.c and llist.h: a generic circular list, linked both ways, over an
-- explicit heap. `&ptr->head` is the address by which a handle is known; `ptr->size` never changes
-- after `create`, so it stands in the handle. A command faults (`none`) when it touches memory
-- that is not allocated; a loop also stops so when its fuel is used up.
pub mod Chain
pub mod Splice
pub mod Insert
pub mod Search
pub mod Remove
pub mod Destroy
pub mod Front
mod Tests
use study_c_know.Common.{
  ℕ, zero, suc, ◌<◌, Bool, true, false, Option, none, some, List, length, take, if◌then◌else◌, ltb,
  ◌==◌,
}
use study_c_know.Common.Int.{ℤ, pos, negsuc, ◌==ℤ◌}

abbrev pub Ptr : Type 0
Ptr = ℕ

abbrev pub null : Ptr
null = 0

-- The bytes of an object.
abbrev pub Bytes : Type 0
Bytes = List ℕ

-- The fields of every `struct llist_node_st`, by address, and which addresses are allocated.
pub record Heap : Type 0 where
  pub alive : Ptr → Bool
  pub prve : Ptr → Ptr
  pub next : Ptr → Ptr
  pub bytes : Ptr → Bytes

abbrev pub update : {A : Type 0} → (Ptr → A) → Ptr → A → Ptr → A
update f p v q = if q == p then v else f q

abbrev pub Cmd : Type 0 → Type 0
Cmd A = Heap → Option (A × Heap)

abbrev pub pure : {A : Type 0} → A → Cmd A
pure a h = some (a, h)

abbrev pub and_then : {A B : Type 0} → Option (A × Heap) → (A → Cmd B) → Option (B × Heap)
and_then none k = none
and_then (some (a, h)) k = k a h

infixl 5 ◌>>=◌ ◌>>◌
abbrev pub ◌>>=◌ : {A B : Type 0} → Cmd A → (A → Cmd B) → Cmd B
◌>>=◌ m k h = and_then (m h) k

abbrev pub ◌>>◌ : {B : Type 0} → Cmd (Unit {0}) → Cmd B → Cmd B
m >> k = m >>= λ _. k

unfoldable pub get_next : Ptr → Cmd Ptr
get_next p h = if h.alive p then some (h.next p, h) else none

unfoldable pub get_prve : Ptr → Cmd Ptr
get_prve p h = if h.alive p then some (h.prve p, h) else none

unfoldable pub get_bytes : Ptr → Cmd Bytes
get_bytes p h = if h.alive p then some (h.bytes p, h) else none

unfoldable pub set_next : Ptr → Ptr → Cmd (Unit {0})
set_next p q h = if h.alive p then some (tt, record h { next = update h.next p q }) else none

unfoldable pub set_prve : Ptr → Ptr → Cmd (Unit {0})
set_prve p q h = if h.alive p then some (tt, record h { prve = update h.prve p q }) else none

unfoldable pub free : Ptr → Cmd (Unit {0})
free p h = if h.alive p then some (tt, record h { alive = update h.alive p false }) else none

-- `malloc` returned `p`: its fields hold what they held.
unfoldable pub allocate : Ptr → Cmd (Unit {0})
allocate p h = some (tt, record h { alive = update h.alive p true })

-- memcpy(p->data, source, size): a fault if the source is shorter.
unfoldable pub copy_in : Ptr → Bytes → ℕ → Cmd (Unit {0})
copy_in p source size h =
    if ltb (length source) size
    then none
    else if h.alive p
    then some (tt, record h { bytes = update h.bytes p (take size source) })
    else none

pub record LList : Type 0 where
  pub size : ℕ
  pub head : Ptr

-- LLIST_FORWARD and LLIST_BACKWARD
abbrev pub forward : ℤ
forward = pos 1

abbrev pub backward : ℤ
backward = pos 2

-- `fresh` is what `malloc` returns, here and in `insert`.
unfoldable pub create : (fresh : Ptr) → ℕ → Cmd (Option LList)
unfolding allocate set_prve set_next
create fresh init_size = if fresh == null then pure none else do
  allocate fresh
  set_prve fresh fresh
  set_next fresh fresh
  pure (some (record { size = init_size; head = fresh }))

-- newnode->prve->next = newnode; newnode->next->prve = newnode; return 0;
unfoldable pub link : Ptr → Cmd ℤ
unfolding get_prve get_next set_prve set_next
link node = do p ← get_prve node; set_next p node; n ← get_next node; set_prve n node; pure (pos 0)

unfoldable pub insert : (fresh : Ptr) → LList → Bytes → ℤ → Cmd ℤ
unfolding allocate copy_in get_prve get_next set_prve set_next link
insert fresh l source mode = if fresh == null then pure (negsuc 0) else do
  allocate fresh
  copy_in fresh source l.size
  if mode ==ℤ forward
      then (do set_prve fresh l.head; n ← get_next l.head; set_next fresh n; link fresh)
      else if mode ==ℤ backward
      then (do p ← get_prve l.head; set_prve fresh p; set_next fresh l.head; link fresh)
      else pure (negsuc 2)

-- The callbacks `cmp(key, data)` and `op(data)`, which neither write the list nor keep pointers.
module _ {K : Type 0} (key : K) (cmp : K → Bytes → ℤ) where
  pub find_loop : ℕ → (head cur : Ptr) → Cmd Ptr
  find_loop zero head cur = λ _. none
  find_loop (suc fuel) head cur = if cur == head then pure cur else do
    d ← get_bytes cur
    if cmp key d ==ℤ pos 0 then pure cur else do n ← get_next cur; find_loop fuel head n

  -- The node whose data match, or the head.
  pub find_ : ℕ → LList → Cmd Ptr
  find_ fuel l = do cur ← get_next l.head; find_loop fuel l.head cur

  -- The node whose data the result points at.
  pub find : ℕ → LList → Cmd (Option Ptr)
  find fuel l = do node ← find_ fuel l; if node == l.head then pure none else pure (some node)

-- node->prve->next = node->next; node->next->prve = node->prve;
unfoldable pub unlink : Ptr → Cmd (Unit {0})
unfolding get_prve get_next set_prve set_next
unlink node = do
  p ← get_prve node
  n ← get_next node
  set_next p n
  n ← get_next node
  p ← get_prve node
  set_prve n p

module _ {K : Type 0} (key : K) (cmp : K → Bytes → ℤ) where
  -- The status, and what is copied to `data` when it is not NULL.
  pub fetch : ℕ → LList → (wanted : Bool) → Cmd (ℤ × Option Bytes)
  fetch fuel l wanted = do
    node ← find_ key cmp fuel l
    if node == l.head then pure (negsuc 0, none) else do
      unlink node
      d ← get_bytes node
      free node
      pure (pos 0, if wanted then some (take l.size d) else none)

  pub delete : ℕ → LList → Cmd ℤ
  delete fuel l = do
    node ← find_ key cmp fuel l
    if node == l.head then pure (negsuc 0) else do unlink node; free node; pure (pos 0)

-- `op` acts on a state of its own.
module _ {S : Type 0} (op : Bytes → S → S) where
  pub travel_loop : ℕ → (head cur : Ptr) → S → Cmd S
  travel_loop zero head cur s = λ _. none
  travel_loop (suc fuel) head cur s =
      if cur == head
      then pure s
      else do d ← get_bytes cur; n ← get_next cur; travel_loop fuel head n (op d s)

  pub travel : ℕ → LList → S → Cmd S
  travel fuel l s = do cur ← get_next l.head; travel_loop fuel l.head cur s

pub destroy_loop : ℕ → (head cur : Ptr) → Cmd (Unit {0})
destroy_loop zero head cur = λ _. none
destroy_loop (suc fuel) head cur =
    if cur == head then pure tt else do n ← get_next cur; free cur; destroy_loop fuel head n

pub destroy : ℕ → LList → Cmd (Unit {0})
destroy fuel l = do cur ← get_next l.head; destroy_loop fuel l.head cur; free l.head
