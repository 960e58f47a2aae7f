-- ===== src/ListStack.antt =====
-- 数据结构/stack_栈/list/stack.c: a stack over the generic list, and the program that
-- demonstrates it, 数据结构/stack_栈/list/main.c.
mod Laws
pub mod Run
mod Tests
use study_c_know.Common.{ℕ, Bool, true, false, Option, none, some, List}
use study_c_know.Common.Int.{ℤ, pos}
use study_c_know.LinkedList
use study_c_know.LinkedList.{Ptr, Bytes, LList, Cmd, pure, ◌>>=◌, ◌>>◌, forward, backward}
use study_c_know.Container.{fill_loop, drain_loop}

unfoldable pub create : (fresh : Ptr) → ℕ → Cmd (Option LList)
unfolding LinkedList.create
create fresh size = LinkedList.create fresh size

unfoldable pub push : (fresh : Ptr) → LList → Bytes → Cmd ℤ
unfolding LinkedList.insert
push fresh l source = LinkedList.insert fresh l source forward

-- The key is NULL, and every node matches it.
unfoldable pub always_match : Unit {0} → Bytes → ℤ
always_match key d = pos 0

unfoldable pub pop : ℕ → LList → Cmd (ℤ × Option Bytes)
pop fuel l = LinkedList.fetch tt always_match fuel l true

pub destroy : ℕ → LList → Cmd (Unit {0})
destroy fuel l = LinkedList.destroy fuel l

-- The program after the filling: a push that fails ends it by exit(1), `none`.
pub drain_after : ℕ → LList → Bytes → Bool → Cmd (Option (List Bytes))
drain_after fuel l tmp false = pure none
drain_after fuel l tmp true = do
  out ← drain_loop fuel (pop fuel l) tmp
  destroy fuel l
  pure (some out)

-- The program after `create`, with what it prints; `none` is exit(1).
pub main_with : ℕ → List (Ptr × Bytes) → Bytes → Option LList → Cmd (Option (List Bytes))
main_with fuel items tmp none = pure none
main_with fuel items tmp (some l) = do
  filled ← fill_loop (λ p d. push p l d) items
  drain_after fuel l tmp filled

-- The program for any elements: `items` pairs each element with what `malloc` returns for it.
pub main : (fresh : Ptr) → ℕ → ℕ → List (Ptr × Bytes) → Bytes → Cmd (Option (List Bytes))
main fresh size fuel items tmp = create fresh size >>= main_with fuel items tmp
