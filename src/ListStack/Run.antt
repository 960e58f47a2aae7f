-- ===== src/ListStack/Run.antt =====
-- The demonstration program of the stack, from `create` to `destroy`.
use study_c_know.Common.{
  ℕ, ◌<◌, ◌≡◌, ◌≢◌, refl, some, false, List, [], ◌∷◌, length, take, arith, reverse, reverse_aux,
}
use study_c_know.LinkedList.{Ptr, null, Bytes, Heap, LList}
use study_c_know.LinkedList.Chain.{has}
use study_c_know.LinkedList.Insert.{create_lem}
use study_c_know.LinkedList.Destroy.{destroy_ring}
use study_c_know.LinkedList.Front.{Holds, no_cells}
use study_c_know.Container.Session.{
  Ready, Ready-frame, add_all, fill-add_all, drain-all, copies, length-copies, cut-reverse,
  length-reverse_aux,
}
use study_c_know.ListStack.{create, destroy, main_with, drain_after, main}
use study_c_know.ListStack.Laws.{container}

add_all-stack :
    (l : LList) (items : List (Ptr × Bytes)) (xs : List Bytes)
    → add_all (container l) items xs ≡ reverse_aux (copies l.size items) xs
unfolding add_all copies
add_all-stack l [] xs = refl
add_all-stack l ((p, d) ∷ items) xs = add_all-stack l items (take l.size d ∷ xs)

main_with-copies :
    (l : LList) (h : Heap) (fuel : ℕ) (items : List (Ptr × Bytes)) (tmp : Bytes)
    → Holds l h []
    → Ready l.size h items
    → length items < fuel
    → (g : Heap) × (main_with fuel items tmp (some l) h
        ≡ some (some (reverse (copies l.size items)), g))
      × (g.alive l.head ≡ false)
unfolding main_with drain_after destroy
main_with-copies l h fuel items tmp holds ready enough =
    let c = container l in
    let (g1, filled, holds1) = fill-add_all c h items [] holds ready in
    let holds1' = rw (add_all-stack l items []) at holds1 in
    let size = length-reverse_aux (copies l.size items) [] in
    let count = length-copies l.size items in
    let (g2, drained, holds2) =
      drain-all c g1 (reverse (copies l.size items)) fuel tmp fuel holds1' (omega arith)
        (omega arith) in
    let (g3, destroyed, gone) = destroy_ring g2 l [] fuel (no_cells l g2 holds2) (omega arith) in
    (g3, rw (filled, drained, cut-reverse l.size items, destroyed), ground (arith, gone l.head))

-- With memory for the handle and every element, elements of the size of the list, and fuel for all
-- of them, the program prints the elements in the reverse of the order in which they were given,
-- and frees the handle.
pub main_lifo :
    (fresh : Ptr) (size : ℕ) (h : Heap) (fuel : ℕ) (items : List (Ptr × Bytes)) (tmp : Bytes)
    → fresh ≢ null
    → Ready size h items
    → has fresh items ≡ false
    → length items < fuel
    → (g : Heap) × (main fresh size fuel items tmp h ≡ some (some (reverse (copies size items)), g))
      × (g.alive fresh ≡ false)
unfolding main create
main_lifo fresh size h fuel items tmp ne ready out enough =
    let (g, made, is, same) = create_lem fresh size h ne in
    let l : LList = record { size = size; head = fresh } in
    let (k, run, gone) =
      main_with-copies l g fuel items tmp ([], is, refl)
        (Ready-frame size h g fresh items ready out (λ a i. (same a i refl).alive)) enough in
    (k, rw made run, gone)
