-- ===== src/SeqList/Insert.antt =====
-- `sqlist_insert` against insertion in a list.
use study_c_know.Common.{
  ℕ, suc, ◌-◌, ◌<◌, ◌≤◌, ◌≡◌, refl, true, false, some, List, arith, length, set, length-set, take,
  length-take, ◌==◌, Bool-cases, inl, inr, ap, ◌∙◌,
}
use study_c_know.Common.Int.{ℤ, pos, negsuc, to_ℕ, count_of, succ_last}
use study_c_know.Common.Array.{
  store, store-some, ◌>>=◌, get_elem?-set, get_elem?-take, eq_of_get_elem?,
}
use study_c_know.SeqList.{SeqList, data_size, insert, shift_up}
use study_c_know.SeqList.Loops.{shift_up-MovedUp}
use study_c_know.SeqList.Bounds.{IsValid, contents, length-contents}
use study_c_know.SeqList.Spec.{insert_at, get_elem?-insert_at, outside, insert_list, Implements}

-- The guards of `insert`.
pub insert-full :
    (me : SeqList) (i x : ℤ) → count_of me.last ≡ data_size → insert me i x ≡ some (negsuc 0, me)
unfolding insert
insert-full me i x h = ground arith

insert-outside :
    (me : SeqList) (i x : ℤ)
    → IsValid me
    → count_of me.last < data_size
    → outside i (count_of me.last) ≡ true
    → insert me i x ≡ some (negsuc 1, me)
unfolding insert
insert-outside me i x v room h = ground (arith, succ_last me.last v.low)

-- The cells after the shift and the store, for `m` elements and an index in range.
insert_cells :
    (a : List ℤ) (m i : ℕ) (x : ℤ)
    → i ≤ m
    → m < length a
    → (b : List ℤ) × ((do c ← shift_up i (m - i) a; store c i x) ≡ some b)
      × (length b ≡ length a)
      × (take (suc m) b ≡ insert_at i x (take m a))
insert_cells a m i x h k =
    let (c, run, moved) = shift_up-MovedUp i (m - i) a (omega arith) in
    (
      set c i x,
      rw run (store-some c i x (omega (arith, moved.size))),
      omega (arith, moved.size, length-set c i x),
      eq_of_get_elem? (take (suc m) (set c i x)) (insert_at i x (take m a)) (λ j. ground (
        arith,
        get_elem?-take (suc m) (set c i x) j,
        get_elem?-set c i j x,
        moved.cell j,
        moved.size,
        get_elem?-insert_at i x (take m a) j,
        length-take m a,
        get_elem?-take m a j,
        get_elem?-take m a (j - 1),
      )),
    )

-- The guards passed, `insert` puts `x` at the index.
insert-pass :
    (me : SeqList) (n : ℕ) (x : ℤ)
    → IsValid me
    → count_of me.last < data_size
    → n ≤ count_of me.last
    → Implements (insert me (pos n) x) (pos 0, insert_at n x (contents me))
unfolding insert
insert-pass me n x v room h =
    let m = count_of me.last in
    let (b, run, size, is) = insert_cells me.cells m n x h (omega (arith, v.block)) in
    (
      (pos 0, record { cells = b; last = pos m }),
      ground (arith, succ_last me.last v.low, run),
      record { block = size ∙ v.block; low = omega arith; high = omega arith },
      ap (λ (t : List ℤ). (pos 0, t)) is,
    )

insert-inside :
    (me : SeqList) (i x : ℤ)
    → IsValid me
    → count_of me.last < data_size
    → outside i (count_of me.last) ≡ false
    → Implements (insert me i x) (pos 0, insert_at (to_ℕ i) x (contents me))
insert-inside me (negsuc k) x v room h = ground arith
insert-inside me (pos n) x v room h = insert-pass me n x v room (ground arith)

-- `sqlist_insert` on a valid list, at any index, returns, keeps the invariant, and does what
-- `insert_list` says: -1 on a full list and -2 at an index outside leave the elements alone, else
-- the element is put at the index, before the elements from there on.
pub insert-insert_list :
    (me : SeqList) (i x : ℤ)
    → IsValid me
    → Implements (insert me i x) (insert_list (contents me) i x)
unfolding insert_list
insert-insert_list me i x v =
    let size = length-contents v in
    elim (Bool-cases (length (contents me) == data_size)) [
      | inl full ↦ rw full ((negsuc 0, me), insert-full me i x (ground arith), v, refl)
      | inr room ↦ rw room (elim (Bool-cases (outside i (length (contents me)))) [
        | inl out ↦
            rw out
              ((negsuc 1, me), insert-outside me i x v (ground arith) (rw size at out), v, refl)
        | inr inside ↦ rw inside (insert-inside me i x v (ground arith) (rw size at inside))
      ])
    ]
