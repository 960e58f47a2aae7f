-- ===== src/HeadlessList/Walk.antt =====
-- The walks of nohead单链表.c: `list_show`, `list_find` and `list_destroy`.
use study_c_know.Common.{
  ℕ, zero, suc, ◌<◌, ◌≡◌, refl, false, some, [], ◌∷◌, length, arith, if◌then◌else◌,
}
use study_c_know.Common.Int.{ℤ, ◌==ℤ◌}
use study_c_know.NodeHeap.{Ptr, null, Heap, update, get_next, get_value, free}
use study_c_know.NodeHeap.Chain.{has, values, Distinct, Chain, Chain-frame}
use study_c_know.HeadlessList.{Score, show, find, destroy}
use study_c_know.HeadlessList.Laws.{Nodes, Linked, IsList}

-- Behind a node stands a list.
Chain-Linked : (h : Heap Score) (u : Ptr) (xs : Nodes) → Chain h u xs null → Linked h (h.next u) xs
Chain-Linked h u [] c = c
Chain-Linked h u ((a, d) ∷ xs) c = c

show-Linked :
    (h : Heap Score) (list : Ptr) (xs : Nodes) (fuel : ℕ)
    → Linked h list xs
    → length xs < fuel
    → show fuel list h ≡ some (values xs, h)
unfolding show get_next get_value
show-Linked h list xs zero is enough = absurd (omega arith)
show-Linked h list [] (suc fuel) is enough = ground arith
show-Linked h list ((a, d) ∷ xs) (suc fuel) is enough =
    let (e, node, c) = is in
    ground (arith, show-Linked h (h.next a) xs fuel (Chain-Linked h a xs c))

-- `list_show` with fuel for the whole list prints the records in order and changes nothing.
pub show-values :
    (h : Heap Score) (list : Ptr) (xs : Nodes) (fuel : ℕ)
    → IsList h list xs
    → length xs < fuel
    → show fuel list h ≡ some (values xs, h)
show-values h list xs fuel is enough = show-Linked h list xs fuel is.linked enough

-- The first node with an id, NULL if there is none.
unfoldable pub first_with : ℤ → Nodes → Ptr
first_with id [] = null
first_with id ((a, d) ∷ xs) = if d.id ==ℤ id then a else first_with id xs

find-Linked :
    (h : Heap Score) (list : Ptr) (xs : Nodes) (fuel : ℕ) (id : ℤ)
    → Linked h list xs
    → length xs < fuel
    → find fuel list id h ≡ some (first_with id xs, h)
unfolding find first_with get_next get_value
find-Linked h list xs zero id is enough = absurd (omega arith)
find-Linked h list [] (suc fuel) id is enough = ground arith
find-Linked h list ((a, d) ∷ xs) (suc fuel) id is enough =
    let (e, node, c) = is in
    ground (arith, find-Linked h (h.next a) xs fuel id (Chain-Linked h a xs c))

-- `list_find` with fuel for the whole list points at the record of the first node with the id, is
-- NULL when there is none, and changes nothing.
pub find-first_with :
    (h : Heap Score) (list : Ptr) (xs : Nodes) (fuel : ℕ) (id : ℤ)
    → IsList h list xs
    → length xs < fuel
    → find fuel list id h ≡ some (first_with id xs, h)
find-first_with h list xs fuel id is enough = find-Linked h list xs fuel id is.linked enough

destroy-Linked :
    (h : Heap Score) (list : Ptr) (xs : Nodes) (fuel : ℕ)
    → Linked h list xs
    → Distinct xs
    → length xs < fuel
    → (g : Heap Score) × (destroy fuel list h ≡ some (tt, g))
      × ((a : Ptr) → g.alive a ≡ (if has a xs then false else h.alive a))
unfolding destroy get_next free
destroy-Linked h list xs zero is apart enough = absurd (omega arith)
destroy-Linked h list [] (suc fuel) is apart enough = (h, ground arith, λ a. refl)
destroy-Linked h list ((p, d) ∷ xs) (suc fuel) is apart enough =
    let (e, node, c) = is in
    let k : Heap Score = record h { alive = update h.alive p false } in
    let out = apart.0 in
    let c' = Chain-frame h k p p xs null c refl (λ b i. refl) (λ b i. (refl, ground arith)) in
    let (g, run, freed) =
      destroy-Linked k (h.next p) xs fuel (Chain-Linked k p xs c') (apart.1) (omega arith) in
    (g, ground (arith, run), λ a. ground (arith, freed a))

-- `list_destroy` with fuel for the whole list frees every node, each once, and nothing else.
pub destroy_nodes :
    (h : Heap Score) (list : Ptr) (xs : Nodes) (fuel : ℕ)
    → IsList h list xs
    → length xs < fuel
    → (g : Heap Score) × (destroy fuel list h ≡ some (tt, g))
      × ((a : Ptr) → g.alive a ≡ (if has a xs then false else h.alive a))
destroy_nodes h list xs fuel is enough = destroy-Linked h list xs fuel is.linked is.distinct enough
