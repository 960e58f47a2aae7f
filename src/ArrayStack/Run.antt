-- ===== src/ArrayStack/Run.antt =====
-- What `st_travel` prints, and the pushes of main.c.
use study_c_know.Common.{
  ℕ, zero, suc, ◌-◌, ◌<◌, ◌≤◌, ◌≡◌, refl, false, some, List, [], ◌∷◌, arith, length, get_or, take,
  reverse, reverse_aux, ◌++◌, ◌==◌, ◌∙◌, sym, ap,
}
use study_c_know.Common.Int.{ℤ, pos, negsuc, ◌≤ℤ◌, count_of, succ_last}
use study_c_know.Common.Array.{read_range-drop}
use mathlib.Core.List.{reverse-append, reverse-reverse}
use native.Mathlib.Decide.{dec_lt}
use study_c_know.ArrayStack.{Stack, max_size, travel, push_all}
use study_c_know.ArrayStack.Laws.{
  IsValid, downward, contents, length-downward, push_list, push-push_list,
}

take-suc :
    (a : List ℤ) (n : ℕ) → n < length a → take (suc n) a ≡ take n a ++ get_or a n (pos 0) ∷ []
take-suc [] n h = absurd (omega arith)
take-suc (y ∷ a) zero h = refl
take-suc (y ∷ a) (suc n) h = ap (λ (t : List ℤ). y ∷ t) (take-suc a n (omega arith))

downward-take : (a : List ℤ) (n : ℕ) → n ≤ length a → downward a n ≡ reverse (take n a)
unfolding downward
downward-take a zero h = refl
downward-take a (suc n) h = rw (take-suc a n h, reverse-append, downward-take a n (omega arith))

travel-cells :
    (a : List ℤ) (t : ℤ)
    → IsValid (record { cells = a; top = t })
    → travel (record { cells = a; top = t }) ≡ some (reverse (downward a (count_of t)))
unfolding travel
travel-cells a (negsuc zero) v = unfold downward in refl
travel-cells a (negsuc (suc k)) v = absurd (omega (arith, v.low))
travel-cells a (pos n) v =
    let fits : suc n ≤ length a = omega (arith, v.high, v.block) in
    rw (succ_last (pos n) v.low, downward-take a (suc n) fits, reverse-reverse)
      (read_range-drop a 0 (suc n) (omega arith))

-- `st_travel` of a valid stack reads inside the array and prints the elements, the oldest first.
pub travel-reverse : (st : Stack) → IsValid st → travel st ≡ some (reverse (contents st))
travel-reverse st v = travel-cells st.cells st.top v

count_le : (t : ℤ) → t ≤ℤ pos 4 → count_of t ≤ max_size
count_le t h = ground arith

take-nil : (n : ℕ) → take {A = ℤ} n [] ≡ []
take-nil zero = refl
take-nil (suc n) = refl

length-contents : (st : Stack) → IsValid st → length (contents st) ≤ max_size
length-contents st v =
    omega (arith, length-downward st.cells (count_of st.top), count_le st.top v.high)

-- One more push before the others.
push_all-step :
    (cs ds : List ℤ) (x : ℤ) (xs : List ℤ)
    → ds ≡ (push_list cs x).1
    → length cs ≤ max_size
    → reverse_aux (take (max_size - length ds) xs) ds
      ≡ reverse_aux (take (max_size - length cs) (x ∷ xs)) cs
unfolding push_list
push_all-step cs ds x xs e h = elim (dec_lt (length cs) max_size) [
  | yes room ↦
      let full : length cs == max_size ≡ false = ground arith in
      let e' : ds ≡ x ∷ cs = rw full at e in
      let left : max_size - length cs ≡ suc (max_size - suc (length cs)) = omega arith in
      rw (e', left)
  | no full ↦
      let size : length cs ≡ max_size = omega arith in
      let none_left : max_size - length cs ≡ 0 = omega arith in
      let e' : ds ≡ cs = ground (arith, e) in rw (e', none_left)
]

-- The pushes of main.c on a valid stack return and keep the invariant. The elements for which there
-- is room become the newest, in order, and the others are lost.
pub push_all_lem :
    (st : Stack) (xs : List ℤ)
    → IsValid st
    → (st' : Stack) × (push_all st xs ≡ some st')
      × IsValid st'
      × (contents st' ≡ reverse_aux (take (max_size - length (contents st)) xs) (contents st))
unfolding push_all
push_all_lem st [] v = (
  st,
  refl,
  v,
  sym (
      ap (λ (t : List ℤ). reverse_aux t (contents st))
        (take-nil (max_size - length (contents st)))),
)
push_all_lem st (x ∷ xs) v =
    let (r, run, v', is) = push-push_list st x v in
    let (st', run', valid, is') = push_all_lem (r.1) xs v' in
    (
      st',
      rw run run',
      valid,
      is'
          ∙ push_all-step (contents st) (contents (r.1)) x xs (ap (λ (t : ℤ × List ℤ). t.1) is)
              (length-contents st v),
    )
