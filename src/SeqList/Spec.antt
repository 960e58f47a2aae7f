-- ===== src/SeqList/Spec.antt =====
-- What a caller of `sqlist_insert` and `sqlist_delete` is promised, on the list of the elements.
use study_c_know.Common.{
  ℕ, zero, suc, ◌+◌, ◌-◌, ◌≤◌, ◌≡◌, Bool, ◌||◌, Option, some, List, [], ◌∷◌, arith, length,
  get_elem?, if◌then◌else◌, ltb, leb, ◌==◌, subst,
}
use study_c_know.Common.Int.{ℤ, pos, negsuc, ltb_ℤ, to_ℕ}
use study_c_know.Common.Array.{◌>>=◌}
use study_c_know.SeqList.{SeqList, data_size}
use study_c_know.SeqList.Bounds.{IsValid, contents}

-- A list with `x` put at index `i`.
unfoldable pub insert_at : ℕ → ℤ → List ℤ → List ℤ
insert_at zero x xs = x ∷ xs
insert_at (suc i) x [] = []
insert_at (suc i) x (y ∷ ys) = y ∷ insert_at i x ys

-- A list without its element at index `i`.
unfoldable pub remove_at : ℕ → List ℤ → List ℤ
remove_at i [] = []
remove_at zero (y ∷ ys) = ys
remove_at (suc i) (y ∷ ys) = y ∷ remove_at i ys

pub get_elem?-insert_at :
    (i : ℕ) (x : ℤ) (xs : List ℤ) (j : ℕ)
    → i ≤ length xs
    → get_elem? (insert_at i x xs) j
      ≡ (if ltb j i then get_elem? xs j else if j == i then some x else get_elem? xs (j - 1))
unfolding insert_at
get_elem?-insert_at zero x xs zero h = ground arith
get_elem?-insert_at zero x xs (suc j) h = ground arith
get_elem?-insert_at (suc i) x [] j h = absurd (omega arith)
get_elem?-insert_at (suc i) x (y ∷ ys) zero h = ground arith
get_elem?-insert_at (suc i) x (y ∷ ys) (suc zero) h = ground (arith, get_elem?-insert_at i x ys 0)
get_elem?-insert_at (suc i) x (y ∷ ys) (suc (suc j)) h =
    ground (arith, get_elem?-insert_at i x ys (suc j))

pub get_elem?-remove_at :
    (i : ℕ) (xs : List ℤ) (j : ℕ)
    → get_elem? (remove_at i xs) j ≡ (if ltb j i then get_elem? xs j else get_elem? xs (j + 1))
unfolding remove_at
get_elem?-remove_at zero [] j = ground arith
get_elem?-remove_at (suc i) [] j = ground arith
get_elem?-remove_at zero (y ∷ ys) j = ground arith
get_elem?-remove_at (suc i) (y ∷ ys) zero = ground arith
get_elem?-remove_at (suc i) (y ∷ ys) (suc j) = ground (arith, get_elem?-remove_at i ys j)

-- Whether `i` is no position of a list of `n` elements, and whether it is no element of it.
abbrev pub outside : ℤ → ℕ → Bool
outside i n = ltb_ℤ i (pos 0) || ltb_ℤ (pos n) i

abbrev pub not_at : ℤ → ℕ → Bool
not_at i n = ltb_ℤ i (pos 0) || leb n (to_ℕ i)

-- What a caller is promised of `sqlist_insert`, on the list alone.
unfoldable pub insert_list : List ℤ → ℤ → ℤ → ℤ × List ℤ
insert_list xs i x =
    if length xs == data_size
    then (negsuc 0, xs)
    else if outside i (length xs)
    then (negsuc 1, xs)
    else (pos 0, insert_at (to_ℕ i) x xs)

-- What a caller is promised of `sqlist_delete`.
unfoldable pub delete_list : List ℤ → ℤ → ℤ × List ℤ
delete_list xs i = if not_at i (length xs) then (negsuc 0, xs) else (pos 0, remove_at (to_ℕ i) xs)

-- A run that returns, keeps the invariant, and has this status and these contents.
abbrev pub Implements : Option (ℤ × SeqList) → ℤ × List ℤ → Type 0
Implements run spec =
    (r : ℤ × SeqList) × (run ≡ some r) × IsValid (r.1) × ((r.0, contents (r.1)) ≡ spec)

-- Runs in sequence do what the lists do in sequence.
pub Implements-bind :
    (m : Option (ℤ × SeqList)) (k : ℤ × SeqList → Option (ℤ × SeqList)) (now : ℤ × List ℤ)
    (next : ℤ × List ℤ → ℤ × List ℤ)
    → Implements m now
    → ((r : ℤ × SeqList) → IsValid (r.1) → Implements (k r) (next (r.0, contents (r.1))))
    → Implements (m >>= k) (next now)
Implements-bind m k now next (r, run, v, is) rest =
    subst (λ (t : ℤ × List ℤ). Implements (m >>= k) (next t)) is (rw run (rest r v))
