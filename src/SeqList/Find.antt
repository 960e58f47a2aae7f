-- ===== src/SeqList/Find.antt =====
-- The functions of sqlist.c that only read: `sqlist_find`, which stops before the last element,
-- and `sqlist_display`.
use study_c_know.Common.{
  ℕ, zero, suc, ◌+◌, ◌<◌, ◌≤◌, ◌≡◌, refl, Bool, true, false, none, some, List, [], ◌∷◌, ◌++◌, sym,
  length-take, ◌==◌, arith, length, length-append, take, drop, if◌then◌else◌, ap, ◌∙◌,
}
use study_c_know.Common.Int.{ℤ, pos, negsuc, ◌==ℤ◌, count_of, succ_last}
use study_c_know.Common.Array.{load-some, take-drop-cons, take-take, take_left, read_range-drop}
use study_c_know.SeqList.{SeqList, find, find_loop, is_empty, display}
use study_c_know.SeqList.Bounds.{IsValid, contents, length-contents, count-le}

-- Whether `x` occurs in a list.
abbrev pub has : ℤ → List ℤ → Bool
has x [] = false
has x (y ∷ ys) = if y ==ℤ x then true else has x ys

-- The search from index `i` on: the first index of `x`, -2 if there is none.
unfoldable pub index_from : ℕ → ℤ → List ℤ → ℤ
index_from i x [] = negsuc 1
index_from i x (y ∷ ys) = if y ==ℤ x then pos i else index_from (i + 1) x ys

-- What `sqlist_find` looks for: -1 on an empty list, else the index of the first `x` among all
-- elements but the last.
unfoldable pub find_list : List ℤ → ℤ → ℤ
find_list [] x = negsuc 0
find_list (y ∷ ys) x = index_from 0 x (take (length ys) (y ∷ ys))

find_loop-index_from :
    (a : List ℤ) (x : ℤ) (i k : ℕ)
    → i + k ≤ length a
    → find_loop a x i k ≡ some (index_from i x (take k (drop i a)))
unfolding find_loop index_from
find_loop-index_from a x i zero h = refl
find_loop-index_from a x i (suc k) h =
    let (v, e) = load-some a i (omega arith) in
    rw (e, take-drop-cons k i v a e)
      (ground (arith, find_loop-index_from a x (i + 1) k (omega arith)))

find_list-take :
    (a : List ℤ) (x : ℤ) (m : ℕ)
    → m < length a
    → find_list (take (suc m) a) x ≡ index_from 0 x (take m a)
unfolding find_list
find_list-take [] x m h = absurd (omega arith)
find_list-take (y ∷ ys) x m h =
    let size : length (take m ys) ≡ m = omega (arith, length-take m ys) in
    rw size (ap (index_from 0 x) (take-take m (suc m) (y ∷ ys) (omega arith)))

find-cells :
    (a : List ℤ) (l x : ℤ)
    → IsValid (record { cells = a; last = l })
    → find (record { cells = a; last = l }) x ≡ some (find_list (take (count_of l) a) x)
unfolding find is_empty
find-cells a (pos m) x v =
    find_loop-index_from a x 0 m (omega (arith, v.block, v.high))
    ∙ ap some (sym (find_list-take a x m (omega (arith, v.block, v.high))))
find-cells a (negsuc zero) x v = unfold find_list in refl
find-cells a (negsuc (suc k)) x v = absurd (omega (arith, v.low))

-- `sqlist_find` on a valid list reads inside the array and returns what `find_list` says: -1 for an
-- empty list, else the index of the first occurrence before the last element, else -2.
pub find-find_list :
    (me : SeqList) (x : ℤ) → IsValid me → find me x ≡ some (find_list (contents me) x)
find-find_list me x v = find-cells me.cells me.last x v

index_from-miss : (i : ℕ) (x : ℤ) (xs : List ℤ) → has x xs ≡ false → index_from i x xs ≡ negsuc 1
unfolding index_from
index_from-miss i x [] h = refl
index_from-miss i x (y ∷ ys) h = ground (arith, index_from-miss (i + 1) x ys)

find_list-snoc : (x : ℤ) (xs : List ℤ) → find_list (xs ++ x ∷ []) x ≡ index_from 0 x xs
unfolding find_list
find_list-snoc x [] = refl
find_list-snoc x (y ∷ ys) =
    let size : length (ys ++ x ∷ []) ≡ length (y ∷ ys) =
      omega (arith, length-append {0} ys (x ∷ [])) in
    rw size (ap (index_from 0 x) (take_left (y ∷ ys) (x ∷ [])))

-- `sqlist_find` on a valid list reports an element that stands only in the last place as missing
-- (-2).
pub find-last_missed :
    (me : SeqList) (x : ℤ) (xs : List ℤ)
    → IsValid me
    → contents me ≡ xs ++ x ∷ []
    → has x xs ≡ false
    → find me x ≡ some (negsuc 1)
find-last_missed me x xs v e h =
    find-find_list me x v ∙ rw (e, find_list-snoc x xs) (ap some (index_from-miss 0 x xs h))

-- `sqlist_display` reads inside the array and prints the elements in order, then `last`, and
-- prints nothing for an empty list.
pub display-contents :
    (me : SeqList)
    → IsValid me
    → display me
      ≡ (if length (contents me) == 0 then some ([], none) else some (contents me, some me.last))
unfolding display
display-contents me v = ground (
  arith,
  succ_last me.last v.low,
  length-contents v,
  read_range-drop me.cells 0 (count_of me.last),
  count-le v,
  v.block,
)
