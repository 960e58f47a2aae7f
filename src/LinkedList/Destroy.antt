-- ===== src/LinkedList/Destroy.antt =====
-- `llist_destroy`.
use study_c_know.Common.{
  ℕ, zero, suc, ◌<◌, ◌≡◌, refl, false, ◌||◌, some, [], ◌∷◌, length, arith, if◌then◌else◌, ◌==◌,
}
use study_c_know.LinkedList.{Ptr, Heap, LList, update, get_next, free, destroy_loop, destroy}
use study_c_know.LinkedList.Chain.{Cells, has, Distinct, Chain, IsList, Chain-frame}

-- `h` with the nodes of `xs` given back.
unfoldable pub freed : Heap → Cells → Heap
freed h [] = h
freed h ((p, d) ∷ xs) = freed (record h { alive = update h.alive p false }) xs

pub alive-freed :
    (h : Heap) (xs : Cells) (a : Ptr)
    → (freed h xs).alive a ≡ (if has a xs then false else h.alive a)
unfolding freed
alive-freed h [] a = refl
alive-freed h ((p, d) ∷ xs) a =
    ground (arith, alive-freed (record h { alive = update h.alive p false }) xs a)

destroy_loop-freed :
    (h : Heap) (fuel : ℕ) (head u cur : Ptr) (xs : Cells)
    → Chain h u xs head
    → cur ≡ h.next u
    → has head xs ≡ false
    → Distinct xs
    → length xs < fuel
    → destroy_loop fuel head cur h ≡ some (tt, freed h xs)
unfolding destroy_loop freed get_next free
destroy_loop-freed h zero head u cur xs c e out apart enough = absurd (omega arith)
destroy_loop-freed h (suc fuel) head u cur [] c e out apart enough = ground arith
destroy_loop-freed h (suc fuel) head u cur ((a, d) ∷ xs) c e out apart enough =
    let g : Heap = record h { alive = update h.alive a false } in
    let rest =
      Chain-frame h g a xs head (c.4) (λ b i. refl) (λ b i. refl) (λ b i. (refl, ground arith)) in
    ground (
      arith,
      destroy_loop-freed g fuel head a (h.next a) xs rest refl (ground arith) (apart.1)
          (omega arith),
    )

-- `llist_destroy` with fuel for the whole list frees the head and every node, each once, and
-- nothing else.
pub destroy_ring :
    (h : Heap) (l : LList) (xs : Cells) (fuel : ℕ)
    → IsList h l xs
    → length xs < fuel
    → (g : Heap) × (destroy fuel l h ≡ some (tt, g))
      × ((a : Ptr) → g.alive a ≡ (if (a == l.head) || has a xs then false else h.alive a))
unfolding destroy get_next free
destroy_ring h l xs fuel is enough =
    let root = is.root in
    let g = freed h xs in
    (
      record g { alive = update g.alive l.head false },
      ground (
        arith,
        destroy_loop-freed h fuel l.head l.head (h.next l.head) xs is.ring refl is.apart is.distinct
            enough,
        alive-freed h xs l.head,
        is.apart,
      ),
      λ a. ground (arith, alive-freed h xs a),
    )
