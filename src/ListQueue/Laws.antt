-- ===== src/ListQueue/Laws.antt =====
-- The calls of the queue on the list of its elements, the oldest first.
use study_c_know.Common.{
  ℕ, suc, ◌<◌, ◌≤◌, ◌≡◌, ◌≢◌, refl, ap, ◌∙◌, none, some, false, List, [], ◌∷◌, ◌++◌, length, take,
}
use study_c_know.Common.Int.{pos, negsuc}
use study_c_know.LinkedList.{Ptr, null, Bytes, Heap, LList}
use study_c_know.LinkedList.Chain.{payload-append}
use study_c_know.LinkedList.Insert.{insert-backward, insert-null}
use study_c_know.LinkedList.Front.{Holds, fetch-first, fetch-nil}
use study_c_know.Container.{Container}
use study_c_know.ListQueue.{enqueue, dequeue, always_match}

module _ (l : LList) where
  -- `qu_enqueue` with memory returns 0 and puts a copy of its element behind the others.
  pub enqueue_lem :
      (h : Heap) (ds : List Bytes) (p : Ptr) (source : Bytes)
      → Holds l h ds
      → p ≢ null
      → h.alive p ≡ false
      → l.size ≤ length source
      → (g : Heap) × (enqueue p l source h ≡ some (pos 0, g))
        × Holds l g (ds ++ take l.size source ∷ [])
        × ((a : Ptr) → a ≢ p → g.alive a ≡ h.alive a)
  unfolding enqueue
  enqueue_lem h ds p source (xs, is, e) ne unused fits =
      let (g, run, is', same, alive) = insert-backward h l p source xs is ne unused fits in
      let new = take l.size source in
      (
        g,
        run,
        (
          xs ++ (p, new) ∷ [],
          is',
          payload-append xs ((p, new) ∷ []) ∙ ap (λ (t : List Bytes). t ++ new ∷ []) e,
        ),
        alive,
      )

  -- `qu_dequeue` returns 0, copies the oldest element and takes it out.
  pub dequeue-first :
      (h : Heap) (d : Bytes) (ds : List Bytes) (fuel : ℕ)
      → Holds l h (d ∷ ds)
      → length (d ∷ ds) < fuel
      → (g : Heap) × (dequeue fuel l h ≡ some ((pos 0, some (take l.size d)), g)) × Holds l g ds
  unfolding dequeue
  dequeue-first h d ds fuel holds enough =
      fetch-first tt always_match (λ b. unfold always_match in refl) l h d ds fuel holds enough

  -- On an empty queue `qu_dequeue` returns -1 and changes nothing.
  pub dequeue-nil :
      (h : Heap) (fuel : ℕ) → Holds l h [] → dequeue (suc fuel) l h ≡ some ((negsuc 0, none), h)
  unfolding dequeue
  dequeue-nil h fuel holds =
      fetch-nil tt always_match (λ b. unfold always_match in refl) l h fuel holds

  pub enqueue-null : (h : Heap) (source : Bytes) → enqueue null l source h ≡ some (negsuc 0, h)
  unfolding enqueue
  enqueue-null h source = insert-null l source (pos 2) h

  -- The queue as a container: a new element goes behind the others.
  abbrev pub container : Container
  container = record {
    size = l.size;
    put = λ p d. enqueue p l d;
    get = λ fuel. dequeue fuel l;
    add = λ d ds. ds ++ d ∷ [];
    Holds = Holds l;
    put_law = enqueue_lem;
    put_null = enqueue-null;
    get_nil = dequeue-nil;
    get_cons = dequeue-first;
  }
