-- ===== src/Container.antt =====
-- What the demonstration programs queue_队列/list/main.c and stack_栈/list/main.c of 数据结构 ask of
-- the container that they fill and drain, and the two loops that they share.
pub mod Session
use study_c_know.Common.{
  ℕ, zero, suc, ◌<◌, ◌≤◌, ◌≡◌, ◌≢◌, Bool, true, false, Option, none, some, List, [], ◌∷◌, length,
  take, if◌then◌else◌,
}
use study_c_know.Common.Int.{ℤ, pos, negsuc, ◌==ℤ◌}
use study_c_know.LinkedList.{Ptr, null, Bytes, Heap, Cmd, pure, ◌>>=◌, ◌>>◌}

-- The calls of a container whose elements have `size` bytes, with what they do to the list of the
-- elements, first out first. `add` says where a new element goes.
pub record Container : Type 1 where
  pub size : ℕ
  pub put : Ptr → Bytes → Cmd ℤ
  pub get : ℕ → Cmd (ℤ × Option Bytes)
  pub add : Bytes → List Bytes → List Bytes
  pub Holds : Heap → List Bytes → Type 0
  pub put_law :
      (h : Heap) (xs : List Bytes) (p : Ptr) (source : Bytes)
      → Holds h xs
      → p ≢ null
      → h.alive p ≡ false
      → size ≤ length source
      → (g : Heap) × (put p source h ≡ some (pos 0, g))
        × Holds g (add (take size source) xs)
        × ((a : Ptr) → a ≢ p → g.alive a ≡ h.alive a)
  pub put_null : (h : Heap) (source : Bytes) → put null source h ≡ some (negsuc 0, h)
  pub get_nil : (h : Heap) (fuel : ℕ) → Holds h [] → get (suc fuel) h ≡ some ((negsuc 0, none), h)
  pub get_cons :
      (h : Heap) (d : Bytes) (xs : List Bytes) (fuel : ℕ)
      → Holds h (d ∷ xs)
      → length (d ∷ xs) < fuel
      → (g : Heap) × (get fuel h ≡ some ((pos 0, some (take size d)), g)) × Holds g xs

-- for (...) if (put(...)) break;  The result says whether every call returned 0. Each element
-- comes with the address that `malloc` returns for it.
pub fill_loop : (Ptr → Bytes → Cmd ℤ) → List (Ptr × Bytes) → Cmd Bool
fill_loop put [] = pure true
fill_loop put ((p, d) ∷ items) = do
  ret ← put p d
  if ret ==ℤ pos 0 then fill_loop put items else pure false

-- while (1) { ret = get(&tmp); if (ret == -1) break; print(tmp); }  `tmp` keeps its old value
-- where `get` copies nothing.
pub drain_loop : ℕ → Cmd (ℤ × Option Bytes) → Bytes → Cmd (List Bytes)
drain_loop zero get tmp = λ _. none
drain_loop (suc fuel) get tmp = do
  (ret, out) ← get
  let tmp' : Bytes = elim out [ none ↦ tmp | some d ↦ d ]
  if ret ==ℤ negsuc 0 then pure [] else do rest ← drain_loop fuel get tmp'; pure (tmp' ∷ rest)
