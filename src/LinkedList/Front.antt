-- ===== src/LinkedList/Front.antt =====
-- The list of the data alone, and `llist_fetch` with a callback that matches every node.
use study_c_know.Common.{
  ℕ, suc, ◌<◌, ◌≡◌, refl, true, none, some, List, [], ◌∷◌, length, take, arith, subst,
}
use study_c_know.Common.Int.{ℤ, pos, negsuc}
use study_c_know.LinkedList.{Bytes, Heap, LList, fetch}
use study_c_know.LinkedList.Chain.{Cells, IsList, payload, length-payload}
use study_c_know.LinkedList.Search.{first_match, remove_first}
use study_c_know.LinkedList.Remove.{remove-hit, remove-miss}

-- The handle's list holds these data, from the head on.
abbrev pub Holds : LList → Heap → List Bytes → Type 0
Holds l h ds = (xs : Cells) × IsList h l xs × (payload xs ≡ ds)

-- With no data there are no nodes.
pub no_cells : (l : LList) (h : Heap) → Holds l h [] → IsList h l []
no_cells l h ([], is, e) = is
no_cells l h ((p, d) ∷ xs, is, e) = cc

module _ {K : Type 0} (key : K) (cmp : K → Bytes → ℤ) (all : (d : Bytes) → cmp key d ≡ pos 0)
    (l : LList) (h : Heap) where
  fetch-cells :
      (xs : Cells) (d : Bytes) (ds : List Bytes) (fuel : ℕ)
      → IsList h l xs
      → payload xs ≡ d ∷ ds
      → length xs < fuel
      → (g : Heap) × (fetch key cmp fuel l true h ≡ some ((pos 0, some (take l.size d)), g))
        × Holds l g ds
  fetch-cells [] d ds fuel is e enough = cc
  fetch-cells ((p, b) ∷ xs) d ds fuel is e enough =
      let first : first_match key cmp ((p, b) ∷ xs) ≡ some (p, b) =
        unfold first_match in rw (all b) in
      let rest : remove_first key cmp ((p, b) ∷ xs) ≡ xs = unfold remove_first in rw (all b) in
      let (g, fetched, deleted, is', freed, same) =
        remove-hit key cmp h l ((p, b) ∷ xs) fuel is enough true p b first in
      let head : b ≡ d = ground (arith, e) in
      let tail : payload xs ≡ ds = ground (arith, e) in
      (
        g,
        subst (λ (t : Bytes). fetch key cmp fuel l true h ≡ some ((pos 0, some (take l.size t)), g))
            head fetched,
        (xs, rw rest at is', tail),
      )

  -- It takes the first element out and copies it.
  pub fetch-first :
      (d : Bytes) (ds : List Bytes) (fuel : ℕ)
      → Holds l h (d ∷ ds)
      → length (d ∷ ds) < fuel
      → (g : Heap) × (fetch key cmp fuel l true h ≡ some ((pos 0, some (take l.size d)), g))
        × Holds l g ds
  fetch-first d ds fuel (xs, is, e) enough =
      fetch-cells xs d ds fuel is e (ground (arith, length-payload xs, e))

  fetch-cells_nil :
      (xs : Cells) (fuel : ℕ)
      → IsList h l xs
      → payload xs ≡ []
      → fetch key cmp (suc fuel) l true h ≡ some ((negsuc 0, none), h)
  fetch-cells_nil [] fuel is e =
      (remove-miss key cmp h l [] (suc fuel) is (omega arith) true (unfold first_match in refl)).0
  fetch-cells_nil ((p, d) ∷ xs) fuel is e = cc

  -- On an empty list it returns -1 and changes nothing.
  pub fetch-nil :
      (fuel : ℕ) → Holds l h [] → fetch key cmp (suc fuel) l true h ≡ some ((negsuc 0, none), h)
  fetch-nil fuel (xs, is, e) = fetch-cells_nil xs fuel is e
