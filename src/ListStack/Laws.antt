-- ===== src/ListStack/Laws.antt =====
-- The calls of the stack on the list of its elements, the newest first.
use study_c_know.Common.{
  ℕ, suc, ◌<◌, ◌≤◌, ◌≡◌, ◌≢◌, refl, ap, none, some, false, List, [], ◌∷◌, length, take,
}
use study_c_know.Common.Int.{pos, negsuc}
use study_c_know.LinkedList.{Ptr, null, Bytes, Heap, LList}
use study_c_know.LinkedList.Insert.{insert-forward, insert-null}
use study_c_know.LinkedList.Front.{Holds, fetch-first, fetch-nil}
use study_c_know.Container.{Container}
use study_c_know.ListStack.{push, pop, always_match}

module _ (l : LList) where
  -- `stack_push` with memory returns 0 and puts a copy of its element before the others.
  pub push_lem :
      (h : Heap) (ds : List Bytes) (p : Ptr) (source : Bytes)
      → Holds l h ds
      → p ≢ null
      → h.alive p ≡ false
      → l.size ≤ length source
      → (g : Heap) × (push p l source h ≡ some (pos 0, g))
        × Holds l g (take l.size source ∷ ds)
        × ((a : Ptr) → a ≢ p → g.alive a ≡ h.alive a)
  unfolding push
  push_lem h ds p source (xs, is, e) ne unused fits =
      let (g, run, is', same, alive) = insert-forward h l p source xs is ne unused fits in
      let new = take l.size source in
      (g, run, ((p, new) ∷ xs, is', ap (λ (t : List Bytes). new ∷ t) e), alive)

  -- `stack_pop` returns 0, copies the newest element and takes it out.
  pub pop-first :
      (h : Heap) (d : Bytes) (ds : List Bytes) (fuel : ℕ)
      → Holds l h (d ∷ ds)
      → length (d ∷ ds) < fuel
      → (g : Heap) × (pop fuel l h ≡ some ((pos 0, some (take l.size d)), g)) × Holds l g ds
  unfolding pop
  pop-first h d ds fuel holds enough =
      fetch-first tt always_match (λ b. unfold always_match in refl) l h d ds fuel holds enough

  -- On an empty stack `stack_pop` returns -1 and changes nothing.
  pub pop-nil :
      (h : Heap) (fuel : ℕ) → Holds l h [] → pop (suc fuel) l h ≡ some ((negsuc 0, none), h)
  unfolding pop
  pop-nil h fuel holds = fetch-nil tt always_match (λ b. unfold always_match in refl) l h fuel holds

  pub push-null : (h : Heap) (source : Bytes) → push null l source h ≡ some (negsuc 0, h)
  unfolding push
  push-null h source = insert-null l source (pos 1) h

  -- The stack as a container: a new element goes before the others.
  abbrev pub container : Container
  container = record {
    size = l.size;
    put = λ p d. push p l d;
    get = λ fuel. pop fuel l;
    add = λ d ds. d ∷ ds;
    Holds = Holds l;
    put_law = push_lem;
    put_null = push-null;
    get_nil = pop-nil;
    get_cons = pop-first;
  }
