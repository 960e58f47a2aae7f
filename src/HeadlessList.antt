-- ===== src/HeadlessList.antt =====
-- 数据结构/链表/单链表/nohead单链表.c: a list of score records without a header node, known by a
-- pointer to its first node. A call that changes `*list` returns it; `malloc` is an argument.
pub mod Laws
pub mod Walk
mod Tests
use study_c_know.Common.{
  ℕ, zero, suc, Bool, true, false, Option, none, some, List, [], ◌∷◌, if◌then◌else◌, ◌==◌,
}
use study_c_know.Common.Int.{ℤ, pos, negsuc, ◌==ℤ◌}
use study_c_know.NodeHeap.{
  Ptr, null, Cmd, pure, ◌>>=◌, ◌>>◌, get_next, get_value, set_next, set_value, free, allocate,
}

pub record Score : Type 0 where
  pub id : ℤ
  pub name : List ℕ
  pub math : ℤ
  pub chinese : ℤ

-- The status and `*list`.
unfoldable pub insert : (fresh : Ptr) → (list : Ptr) → Score → Cmd Score (ℤ × Ptr)
unfolding allocate set_value set_next
insert fresh list score =
    if fresh == null
    then pure (negsuc 0, list)
    else do allocate fresh; set_value fresh score; set_next fresh list; pure (pos 0, fresh)

-- What is printed from `cur` on.
unfoldable pub show : ℕ → Ptr → Cmd Score (List Score)
show zero cur = λ _. none
show (suc fuel) cur =
    if cur == null
    then pure []
    else do d ← get_value cur; n ← get_next cur; rest ← show fuel n; pure (d ∷ rest)

-- The status and `*list`.
unfoldable pub delete : Ptr → Cmd Score (ℤ × Ptr)
unfolding get_next free
delete list =
    if list == null then pure (negsuc 0, list) else do n ← get_next list; free list; pure (pos 0, n)

-- The node whose record the result points at, NULL if there is none.
unfoldable pub find : ℕ → (cur : Ptr) → (id : ℤ) → Cmd Score Ptr
find zero cur id = λ _. none
find (suc fuel) cur id =
    if cur == null
    then pure null
    else do d ← get_value cur; n ← get_next cur; if d.id ==ℤ id then pure cur else find fuel n id

unfoldable pub destroy : ℕ → Ptr → Cmd Score (Unit {0})
destroy zero list = λ _. none
destroy (suc fuel) list =
    if list == null then pure tt else do n ← get_next list; free list; destroy fuel n
