-- ===== src/ArrayQueue/Run.antt =====
-- What `qu_travel` prints, and the filling of the queue by main.c.
use study_c_know.Common.{
  ℕ, zero, suc, ◌+◌, ◌-◌, ◌%◌, ◌<◌, ◌≤◌, ◌≡◌, refl, false, some, List, [], ◌∷◌, ◌++◌, arith, length,
  length-append, take, ◌==◌, ◌∙◌, ap,
}
use study_c_know.Common.Int.{ℤ, pos}
use study_c_know.Common.Array.{get_elem?-get_or}
use native.Mathlib.Decide.{dec_lt}
use mathlib.Core.List.{append-nil, append_assoc}
use study_c_know.ArrayQueue.{Queue, max_size, enqueue_all, travel, travel_loop}
use study_c_know.ArrayQueue.Laws.{
  IsValid, count, window, contents, length-window, enqueue_list, enqueue-enqueue_list,
}

travel_loop-window :
    (fuel : ℕ) (a : List ℤ) (tail h n : ℕ)
    → length a ≡ max_size
    → h < max_size
    → n < fuel
    → fuel ≤ max_size
    → tail ≡ (h + suc n) % max_size
    → suc n < max_size
    → travel_loop fuel a tail ((h + 1) % max_size) ≡ some (window a h (suc n))
unfolding travel_loop window
travel_loop-window zero a tail h n b hh enough fits e small = absurd (omega arith)
travel_loop-window (suc fuel) a tail h zero b hh enough fits e small =
    ground (arith, get_elem?-get_or (pos 0) a ((h + 1) % max_size))
travel_loop-window (suc fuel) a tail h (suc n) b hh enough fits e small = ground (
  arith,
  get_elem?-get_or (pos 0) a ((h + 1) % max_size),
  travel_loop-window fuel a tail ((h + 1) % max_size) n b,
)

-- `qu_travel` of a valid queue ends, reads inside the array, and prints the elements, the oldest
-- first.
pub travel-contents : (sq : Queue) → IsValid sq → travel sq ≡ some (contents sq)
unfolding travel
travel-contents sq v = elim (dec_lt 0 (count sq)) [
  | yes more ↦
      let left : count sq ≡ suc (count sq - 1) = omega arith in
      rw left (
        ground (
          arith,
          travel_loop-window max_size sq.cells sq.tail sq.head (count sq - 1) v.block v.head_in,
          v.tail_in,
        ))
  | no empty ↦
      let none_left : count sq ≡ 0 = omega arith in
      rw none_left (unfold window in ground (arith, v.head_in, v.tail_in))
]

length-contents : (sq : Queue) → IsValid sq → length (contents sq) ≤ max_size - 1
length-contents sq v = omega (arith, length-window sq.cells sq.head (count sq))

-- One more element before the others.
enqueue_all-step :
    (cs ds : List ℤ) (x : ℤ) (xs : List ℤ)
    → ds ≡ (enqueue_list cs x).1
    → length cs ≤ max_size - 1
    → ds ++ take (max_size - 1 - length ds) xs ≡ cs ++ take (max_size - 1 - length cs) (x ∷ xs)
unfolding enqueue_list
enqueue_all-step cs ds x xs e h = elim (dec_lt (length cs) (max_size - 1)) [
  | yes room ↦
      let open_end : length cs == max_size - 1 ≡ false = ground arith in
      let e' : ds ≡ cs ++ x ∷ [] = rw open_end at e in
      let size = length-append {0} cs (x ∷ []) in
      let left : max_size - 1 - length cs ≡ suc (max_size - 1 - length (cs ++ x ∷ [])) =
        omega arith in
      rw (e', left) (append_assoc cs (x ∷ []) _)
  | no full ↦
      let size : length cs ≡ max_size - 1 = omega arith in
      let none_left : max_size - 1 - length cs ≡ 0 = omega arith in
      let e' : ds ≡ cs = ground (arith, e) in rw (e', none_left)
]

take-nil : (n : ℕ) → take {A = ℤ} n [] ≡ []
take-nil zero = refl
take-nil (suc n) = refl

-- The loop of main.c on a valid queue returns and keeps the invariant. The elements for which there
-- is room stand behind the old ones, in order, and the others are lost.
pub enqueue_all_lem :
    (sq : Queue) (xs : List ℤ)
    → IsValid sq
    → (sq' : Queue) × (enqueue_all sq xs ≡ some sq')
      × IsValid sq'
      × (contents sq' ≡ contents sq ++ take (max_size - 1 - length (contents sq)) xs)
unfolding enqueue_all
enqueue_all_lem sq [] v =
    (sq, refl, v, rw (take-nil (max_size - 1 - length (contents sq)), append-nil))
enqueue_all_lem sq (x ∷ xs) v =
    let (r, run, v', is) = enqueue-enqueue_list sq x v in
    let (sq', run', valid, is') = enqueue_all_lem (r.1) xs v' in
    (
      sq',
      rw run run',
      valid,
      is'
          ∙ enqueue_all-step (contents sq) (contents (r.1)) x xs (ap (λ (t : ℤ × List ℤ). t.1) is)
              (length-contents sq v),
    )
