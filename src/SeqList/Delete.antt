-- ===== src/SeqList/Delete.antt =====
-- `sqlist_delete` against removal from a list.
use study_c_know.Common.{
  ℕ, suc, ◌+◌, ◌-◌, ◌<◌, ◌≤◌, ◌≡◌, refl, true, false, some, List, arith, length, take, Bool-cases,
  inl, inr, ap, ◌∙◌,
}
use study_c_know.Common.Int.{ℤ, pos, negsuc, ◌-ℤ◌, to_ℕ, int_laws, count_of, pred_last}
use study_c_know.Common.Array.{get_elem?-take, eq_of_get_elem?}
use study_c_know.SeqList.{SeqList, delete, shift_down}
use study_c_know.SeqList.Loops.{shift_down-MovedDown}
use study_c_know.SeqList.Bounds.{IsValid, contents, length-contents}
use study_c_know.SeqList.Spec.{remove_at, get_elem?-remove_at, not_at, delete_list, Implements}

-- The cells after the shift of `delete`.
delete_cells :
    (a : List ℤ) (m i : ℕ)
    → i ≤ m
    → m < length a
    → (b : List ℤ) × (shift_down (i + 1) (m - i) a ≡ some b)
      × (length b ≡ length a)
      × (take m b ≡ remove_at i (take (suc m) a))
delete_cells a m i h k =
    let (b, run, moved) = shift_down-MovedDown (i + 1) (m - i) a (omega arith) (omega arith) in
    (
      b,
      run,
      moved.size,
      eq_of_get_elem? (take m b) (remove_at i (take (suc m) a)) (λ j. ground (
        arith,
        get_elem?-take m b j,
        moved.cell j,
        get_elem?-remove_at i (take (suc m) a) j,
        get_elem?-take (suc m) a j,
        get_elem?-take (suc m) a (j + 1),
      )),
    )

-- The guards of `delete`.
delete-outside :
    (me : SeqList) (i : ℤ)
    → IsValid me
    → not_at i (count_of me.last) ≡ true
    → delete me i ≡ some (negsuc 0, me)
unfolding delete
delete-outside me (negsuc k) v h = ground arith
delete-outside me (pos n) v h = ground (arith, v.low)

delete-pass :
    (a : List ℤ) (l : ℤ) (n : ℕ)
    → IsValid (record { cells = a; last = l })
    → n < count_of l
    → Implements
        (delete (record { cells = a; last = l }) (pos n))
        (pos 0, remove_at n (take (count_of l) a))
unfolding delete
delete-pass a (negsuc k) n v h = absurd (omega arith)
delete-pass a (pos m) n v h =
    let (b, run, size, is) = delete_cells a m n (omega arith) (omega (arith, v.block, v.high)) in
    (
      (pos 0, record { cells = b; last = pos m -ℤ pos 1 }),
      ground (arith, run),
      record { block = size ∙ v.block; low = omega int_laws; high = omega (int_laws, v.high) },
      rw pred_last (ap (λ (t : List ℤ). (pos 0, t)) is),
    )

delete-inside :
    (me : SeqList) (i : ℤ)
    → IsValid me
    → not_at i (count_of me.last) ≡ false
    → Implements (delete me i) (pos 0, remove_at (to_ℕ i) (contents me))
delete-inside me (negsuc k) v h = ground arith
delete-inside me (pos n) v h = delete-pass me.cells me.last n v (ground arith)

-- `sqlist_delete` on a valid list, at any index, returns, keeps the invariant, and does what
-- `delete_list` says: -1 at an index with no element leaves the elements alone, else that element
-- is taken out and the others stay in order.
pub delete-delete_list :
    (me : SeqList) (i : ℤ) → IsValid me → Implements (delete me i) (delete_list (contents me) i)
unfolding delete_list
delete-delete_list me i v =
    let size = length-contents v in
    elim (Bool-cases (not_at i (length (contents me)))) [
      | inl out ↦ rw out ((negsuc 0, me), delete-outside me i v (rw size at out), v, refl)
      | inr inside ↦ rw inside (delete-inside me i v (rw size at inside))
    ]
