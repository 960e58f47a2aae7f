-- ===== src/SeqList/Union.antt =====
-- `sqlist_union`, and the filling of a new list by `sqlist_init` of main.c.
use study_c_know.Common.{
  ℕ, zero, suc, ◌+◌, ◌<◌, ◌≤◌, ◌≡◌, refl, true, false, ◌||◌, Option, some, List, [], ◌∷◌, arith,
  length, take, drop, if◌then◌else◌, Bool-cases, inl, inr, ap, ◌∙◌, ◌==◌, ◌⊎◌, subst, reverse,
  reverse_aux,
}
use study_c_know.Common.Int.{ℤ, pos, negsuc, ◌==ℤ◌, ltb_ℤ, ==ℤ_iff, count_of, succ_last}
use study_c_know.Common.Array.{load-some, take-drop-cons}
use study_c_know.SeqList.{
  SeqList, data_size, insert, fill, init, create, create2, union_step, union_loop, union,
}
use study_c_know.SeqList.Bounds.{IsValid, contents, length-contents, count-le}
use study_c_know.SeqList.Spec.{Implements, Implements-bind, insert_list, insert_at}
use study_c_know.SeqList.Insert.{insert-full, insert-insert_list}
use study_c_know.SeqList.Find.{has, index_from, find_list, find-find_list}

-- What one round of `sqlist_union` does to the list `xs`, with the status so far.
unfoldable pub union_one : ℤ → List ℤ → ℤ → ℤ × List ℤ
union_one ret xs y = if ltb_ℤ (find_list xs y) (pos 0) then insert_list xs (pos 0) y else (ret, xs)

unfoldable pub union_list : ℤ → List ℤ → List ℤ → ℤ × List ℤ
union_list ret xs [] = (ret, xs)
union_list ret xs (y ∷ ys) = let (ret', xs') = union_one ret xs y in union_list ret' xs' ys

union_step-Implements :
    (ret : ℤ) (me : SeqList) (x : ℤ)
    → IsValid me
    → Implements (union_step ret me x) (union_one ret (contents me) x)
unfolding union_step union_one
union_step-Implements ret me x v = elim (Bool-cases (ltb_ℤ (find_list (contents me) x) (pos 0))) [
  | inl new ↦ rw (find-find_list me x v, new) (insert-insert_list me (pos 0) x v)
  | inr old ↦ rw (find-find_list me x v, old) ((ret, me), refl, v, refl)
]

union_loop-Implements :
    (b : List ℤ) (i k : ℕ) (ret : ℤ) (me : SeqList)
    → i + k ≤ length b
    → IsValid me
    → Implements (union_loop b i k ret me) (union_list ret (contents me) (take k (drop i b)))
unfolding union_loop union_list
union_loop-Implements b i zero ret me h v = ((ret, me), refl, v, refl)
union_loop-Implements b i (suc k) ret me h v =
    let (x, e) = load-some b i (omega arith) in
    rw (e, take-drop-cons k i x b e)
      (Implements-bind (union_step ret me x) (λ r. union_loop b (i + 1) k (r.0) (r.1))
        (union_one ret (contents me) x) (λ r. union_list (r.0) (r.1) (take k (drop (i + 1) b)))
        (union_step-Implements ret me x v)
        (λ r w. union_loop-Implements b (i + 1) k (r.0) (r.1) (omega arith) w))

-- `sqlist_union` of two valid lists stays inside both arrays, keeps the invariant of the first, and
-- does what `union_list` says.
pub union-union_list :
    (me other : SeqList)
    → IsValid me
    → IsValid other
    → Implements (union me other) (union_list (negsuc 0) (contents me) (contents other))
unfolding union
union-union_list me other v w = rw (succ_last other.last w.low) (
    union_loop-Implements other.cells 0 (count_of other.last) (negsuc 0) me
      (omega (arith, count-le w, w.block)) v)

index_from-has :
    (i : ℕ) (x : ℤ) (xs : List ℤ) → ltb_ℤ (index_from i x xs) (pos 0) ≡ false → has x xs ≡ true
unfolding index_from
index_from-has i x [] h = cc
index_from-has i x (y ∷ ys) h = ground (arith, index_from-has (i + 1) x ys)

has-take : (n : ℕ) (x : ℤ) (xs : List ℤ) → has x (take n xs) ≡ true → has x xs ≡ true
has-take zero x xs h = cc
has-take (suc n) x [] h = h
has-take (suc n) x (y ∷ ys) h = ground (arith, has-take n x ys)

find_list-has : (x : ℤ) (xs : List ℤ) → ltb_ℤ (find_list xs x) (pos 0) ≡ false → has x xs ≡ true
unfolding find_list
find_list-has x [] h = cc
find_list-has x (y ∷ ys) h =
    has-take (length ys) x (y ∷ ys) (index_from-has 0 x (take (length ys) (y ∷ ys)) h)

module _ (z : ℤ) where
  union_one-has :
      (ret : ℤ) (xs : List ℤ) (y : ℤ)
      → length xs < data_size
      → (has z ((union_one ret xs y).1) ≡ (has z xs || (y ==ℤ z)))
        × (length ((union_one ret xs y).1) ≤ length xs + 1)
  unfolding union_one insert_list insert_at
  union_one-has ret xs y h = ground (arith, find_list-has y xs, ==ℤ_iff y z)

  -- With room for all the elements of the second list, `union_list` has the members of both.
  pub union_list-has :
      (ret : ℤ) (xs ys : List ℤ)
      → length xs + length ys ≤ data_size
      → has z ((union_list ret xs ys).1) ≡ (has z xs || has z ys)
  unfolding union_list
  union_list-has ret xs [] h = ground arith
  union_list-has ret xs (y ∷ ys) h =
      let (ret', xs') = union_one ret xs y in
      let (members, size) = union_one-has ret xs y (omega arith) in
      ground (arith, members, union_list-has ret' xs' ys (omega arith))

  -- `sqlist_union` of two valid lists, with room in the first for the elements of both, stays inside
  -- both arrays and leaves a valid first list. It then has a value exactly if one of the two had it.
  pub union-has :
      (me other : SeqList)
      → IsValid me
      → IsValid other
      → length (contents me) + length (contents other) ≤ data_size
      → (r : ℤ × SeqList) × (union me other ≡ some r)
        × IsValid (r.1)
        × (has z (contents (r.1)) ≡ (has z (contents me) || has z (contents other)))
  union-has me other v w h =
      let (r, run, valid, is) = union-union_list me other v w in
      (
        r,
        run,
        valid,
        ap (λ (t : ℤ × List ℤ). has z (t.1)) is
            ∙ union_list-has (negsuc 0) (contents me) (contents other) h,
      )

-- What `sqlist_init` makes of its argument: the elements in reverse, or an error when they do not
-- fit.
unfoldable pub fill_list : List ℤ → List ℤ → ℤ × List ℤ
fill_list xs [] = (pos 0, xs)
fill_list xs (y ∷ ys) =
    let rest = fill_list (y ∷ xs) ys in if length xs == data_size then (negsuc 0, xs) else rest

insert-room :
    (me : SeqList) (y : ℤ)
    → IsValid me
    → (length (contents me) == data_size) ≡ false
    → Implements (insert me (pos 0) y) (pos 0, y ∷ contents me)
insert-room me y v h =
    let e : insert_list (contents me) (pos 0) y ≡ (pos 0, y ∷ contents me) =
      unfold insert_list insert_at in ground arith in
    subst (Implements (insert me (pos 0) y)) e (insert-insert_list me (pos 0) y v)

insert_full :
    (me : SeqList) (i y : ℤ)
    → IsValid me
    → (length (contents me) == data_size) ≡ true
    → insert me i y ≡ some (negsuc 0, me)
insert_full me i y v h = insert-full me i y (ground (arith, length-contents v))

fill-Implements :
    (ys : List ℤ) (me : SeqList) → IsValid me → Implements (fill me ys) (fill_list (contents me) ys)
unfolding fill fill_list insert_list insert_at
fill-Implements [] me v = ((pos 0, me), refl, v, refl)
fill-Implements (y ∷ ys) me v = elim (Bool-cases (length (contents me) == data_size)) [
  | inl full ↦ rw full ((negsuc 0, me), rw (insert_full me (pos 0) y v full), v, refl)
  | inr room ↦
      let (r, run, v', is) = insert-room me y v room in
      rw (room, run, ap (λ (t : ℤ × List ℤ). t.0) is, ← ap (λ (t : ℤ × List ℤ). t.1) is)
        (fill-Implements ys (r.1) v')
]

fill_list-append :
    (xs ys : List ℤ)
    → length xs + length ys ≤ data_size
    → fill_list xs ys ≡ (pos 0, reverse_aux ys xs)
unfolding fill_list
fill_list-append xs [] h = refl
fill_list-append xs (y ∷ ys) h = ground (arith, fill_list-append (y ∷ xs) ys)

-- `sqlist_init` with a block from `malloc` and at most DATASIZE elements returns 0 and a valid list
-- that holds the elements in reverse order, whichever of the two constructors is selected.
pub init-reverse :
    (old : Option SeqList) (block ys : List ℤ) (kind : ℤ)
    → length block ≡ data_size
    → length ys ≤ data_size
    → (kind ≡ pos 1) ⊎ (kind ≡ pos 2)
    → (me : SeqList) × (init old (some block) ys kind ≡ some (pos 0, some me))
      × IsValid me
      × (contents me ≡ reverse ys)
unfolding init create create2
init-reverse old block ys kind size fits which =
    let fresh : SeqList = record { cells = block; last = negsuc 0 } in
    let (r, run, v, is) =
      fill-Implements ys fresh (record { block = size; low = omega arith; high = omega arith }) in
    let is' = is ∙ fill_list-append [] ys (omega arith) in
    (
      r.1,
      elim which [
        | inl e ↦ rw (e, run, ap (λ (t : ℤ × List ℤ). t.0) is')
        | inr e ↦ rw (e, run, ap (λ (t : ℤ × List ℤ). t.0) is')
      ],
      v,
      ap (λ (t : ℤ × List ℤ). t.1) is',
    )
