-- ===== src/NodeHeap.antt =====
-- The memory of the programs with singly linked nodes: 单链表.c, yuesefu.c and 多项式合并.c of
-- 数据结构/链表/单链表. A node has a value of any type and a successor. A command faults (`none`)
-- when it touches memory that is not allocated; a loop also stops so when its fuel is used up.
pub mod Chain
pub mod Splice
use study_c_know.Common.{ℕ, Bool, true, false, Option, none, some, if◌then◌else◌, ◌==◌}
pub use study_c_know.LinkedList.{Ptr, null, update}

module _ (D : Type 0) where
  pub record Heap : Type 0 where
    pub alive : Ptr → Bool
    pub value : Ptr → D
    pub next : Ptr → Ptr

abbrev pub Cmd : Type 0 → Type 0 → Type 0
Cmd D A = Heap D → Option (A × Heap D)

module _ {D : Type 0} where
  abbrev pub pure : {A : Type 0} → A → Cmd D A
  pure a h = some (a, h)

  abbrev pub and_then : {A B : Type 0} → Option (A × Heap D) → (A → Cmd D B) → Option (B × Heap D)
  and_then none k = none
  and_then (some (a, h)) k = k a h

  infixl 5 ◌>>=◌ ◌>>◌
  abbrev pub ◌>>=◌ : {A B : Type 0} → Cmd D A → (A → Cmd D B) → Cmd D B
  ◌>>=◌ m k h = and_then (m h) k

  abbrev pub ◌>>◌ : {B : Type 0} → Cmd D (Unit {0}) → Cmd D B → Cmd D B
  m >> k = m >>= λ _. k

  unfoldable pub get_next : Ptr → Cmd D Ptr
  get_next p h = if h.alive p then some (h.next p, h) else none

  unfoldable pub get_value : Ptr → Cmd D D
  get_value p h = if h.alive p then some (h.value p, h) else none

  unfoldable pub set_next : Ptr → Ptr → Cmd D (Unit {0})
  set_next p q h = if h.alive p then some (tt, record h { next = update h.next p q }) else none

  unfoldable pub set_value : Ptr → D → Cmd D (Unit {0})
  set_value p d h = if h.alive p then some (tt, record h { value = update h.value p d }) else none

  unfoldable pub free : Ptr → Cmd D (Unit {0})
  free p h = if h.alive p then some (tt, record h { alive = update h.alive p false }) else none

  -- `malloc` returned `p`; NULL is never an address of a node.
  unfoldable pub allocate : Ptr → Cmd D (Unit {0})
  allocate p h =
      if p == null then some (tt, h) else some (tt, record h { alive = update h.alive p true })
