-- ===== src/SingleList/Locate.antt =====
-- The search that `Inset_Linklist` and `Remove_Linklist` share.
use study_c_know.Common.{
  ℕ, zero, suc, ◌<◌, ◌≡◌, refl, Bool, true, false, some, List, [], ◌∷◌, ◌++◌, length, arith,
  if◌then◌else◌, Bool-cases, inl, inr,
}
use study_c_know.Common.Int.{ℤ, ◌==ℤ◌}
use study_c_know.NodeHeap.{Ptr, null, Heap, get_next, get_value}
use study_c_know.NodeHeap.Chain.{Chain, Prefix}
use study_c_know.SingleList.{locate}

-- Whether a list of values has `val`, and the nodes before and from the first such on.
abbrev pub contains : ℤ → List (Ptr × ℤ) → Bool
contains val [] = false
contains val ((p, d) ∷ xs) = if d ==ℤ val then true else contains val xs

unfoldable pub before : ℤ → List (Ptr × ℤ) → List (Ptr × ℤ)
before val [] = []
before val ((p, d) ∷ xs) = if d ==ℤ val then [] else (p, d) ∷ before val xs

unfoldable pub from : ℤ → List (Ptr × ℤ) → List (Ptr × ℤ)
from val [] = []
from val ((p, d) ∷ xs) = if d ==ℤ val then (p, d) ∷ xs else from val xs

pub before-append-from : (val : ℤ) (xs : List (Ptr × ℤ)) → before val xs ++ from val xs ≡ xs
unfolding before from
before-append-from val [] = refl
before-append-from val ((p, d) ∷ xs) = ground (arith, before-append-from val xs)

-- The search with fuel for the whole list ends at the node before the first match and at that
-- match, or at the last node and NULL, and changes nothing.
pub locate_lem :
    (h : Heap ℤ) (fuel : ℕ) (val : ℤ) (u cur : Ptr) (xs : List (Ptr × ℤ))
    → Chain h u xs null
    → cur ≡ h.next u
    → length xs < fuel
    → (w : Ptr) × (locate fuel val u cur h ≡ some ((w, h.next w), h))
      × Prefix h u (before val xs) w
      × Chain h w (from val xs) null
unfolding locate before from get_next get_value
locate_lem h zero val u cur xs c e enough = absurd (omega arith)
locate_lem h (suc fuel) val u cur [] c e enough = (u, ground arith, refl, c)
locate_lem h (suc fuel) val u cur ((a, d) ∷ xs) c e enough = elim (Bool-cases (d ==ℤ val)) [
  | inl same ↦ (u, ground arith, ground arith, rw same c)
  | inr other ↦
      let (w, run, front, back) = locate_lem h fuel val a (h.next a) xs (c.2) refl (omega arith) in
      (w, ground (arith, run), rw other (c.0, c.1, front), rw other back)
]
