-- ===== src/ArrayQueue/Laws.antt =====
-- The array queue is a queue of at most MAXSIZE - 1 elements.
use study_c_know.Common.{
  ℕ, zero, suc, ◌+◌, ◌-◌, ◌%◌, ◌<◌, ◌≡◌, refl, Option, none, some, List, [], ◌∷◌, ◌++◌, arith,
  length, set, get_or, length-set, if◌then◌else◌, ◌==◌, ◌∙◌, ap,
}
use study_c_know.Common.Int.{ℤ, pos, negsuc}
use study_c_know.Common.Array.{store-some, get_or-set, get_elem?-get_or}
use native.Mathlib.Decide.{dec_lt, ℕ_discrete}
use study_c_know.ArrayQueue.{Queue, max_size, enqueue, dequeue, is_empty, clear}

pub record IsValid (sq : Queue) : Type 0 where
  pub block : length sq.cells ≡ max_size
  pub head_in : sq.head < max_size
  pub tail_in : sq.tail < max_size

-- The `n` cells behind index `h`, going round.
unfoldable pub window : List ℤ → ℕ → ℕ → List ℤ
window a h zero = []
window a h (suc n) = get_or a ((h + 1) % max_size) (pos 0) ∷ window a ((h + 1) % max_size) n

-- The number of elements.
abbrev pub count : Queue → ℕ
count sq = (sq.tail + max_size - sq.head) % max_size

-- The elements, the oldest first.
abbrev pub contents : Queue → List ℤ
contents sq = window sq.cells sq.head (count sq)

pub length-window : (a : List ℤ) (h n : ℕ) → length (window a h n) ≡ n
unfolding window
length-window a h zero = refl
length-window a h (suc n) = ap suc (length-window a ((h + 1) % max_size) n)

-- A write at the end of a window extends it.
window-set :
    (a : List ℤ) (x : ℤ) (h t n : ℕ)
    → length a ≡ max_size
    → h < max_size
    → suc n < max_size
    → t ≡ (h + suc n) % max_size
    → window (set a t x) h (suc n) ≡ window a h n ++ x ∷ []
unfolding window
window-set a x h t zero b hh hn e = ground (arith, get_or-set (pos 0) a t ((h + 1) % max_size) x)
window-set a x h t (suc n) b hh hn e = ground (
  arith,
  get_or-set (pos 0) a t ((h + 1) % max_size) x,
  window-set a x ((h + 1) % max_size) t n b (omega arith) (omega arith) (omega arith),
)

-- What a caller is promised, on the list of the elements.
unfoldable pub enqueue_list : List ℤ → ℤ → ℤ × List ℤ
enqueue_list xs x = if length xs == max_size - 1 then (negsuc 0, xs) else (pos 0, xs ++ x ∷ [])

unfoldable pub dequeue_list : List ℤ → ℤ × Option ℤ × List ℤ
dequeue_list [] = (negsuc 0, none, [])
dequeue_list (x ∷ xs) = (pos 0, some x, xs)

-- `qu_isempty` tests whether there are no elements.
pub is_empty-count : (sq : Queue) → IsValid sq → is_empty sq ≡ (length (contents sq) == 0)
unfolding is_empty
is_empty-count sq v = ground (arith, length-window sq.cells sq.head (count sq))

-- `qu_enqueue` on a valid queue returns, keeps the invariant, and does what `enqueue_list` says:
-- with MAXSIZE - 1 elements it returns -1 and changes nothing, else it returns 0 and the element
-- becomes the newest.
pub enqueue-enqueue_list :
    (sq : Queue) (x : ℤ)
    → IsValid sq
    → (r : ℤ × Queue) × (enqueue sq x ≡ some r)
      × IsValid (r.1)
      × ((r.0, contents (r.1)) ≡ enqueue_list (contents sq) x)
unfolding enqueue enqueue_list
enqueue-enqueue_list sq x v =
    let n = count sq in
    let t = (sq.tail + 1) % max_size in
    let size = length-window sq.cells sq.head n in
    elim (dec_lt n (max_size - 1)) [
      | yes room ↦
          let grown : (t + max_size - sq.head) % max_size ≡ suc n =
            omega (arith, v.head_in, v.tail_in) in
          (
            (pos 0, record sq { cells = set sq.cells t x; tail = t }),
            ground (arith, store-some sq.cells t x),
            record {
              block = length-set sq.cells t x ∙ v.block;
              head_in = v.head_in;
              tail_in = omega arith;
            },
            ground (arith, size, grown, window-set sq.cells x sq.head t n v.block v.head_in),
          )
      | no full ↦ ((negsuc 0, sq), ground (arith, v.head_in, v.tail_in), v, ground (arith, size))
    ]

-- `qu_dequeue` on a valid queue returns, keeps the invariant, and does what `dequeue_list` says: on
-- an empty queue it returns -1, else it returns 0, hands out the oldest element and removes it.
pub dequeue-dequeue_list :
    (sq : Queue)
    → IsValid sq
    → (r : ℤ × Option ℤ × Queue) × (dequeue sq ≡ some r)
      × IsValid (r.2)
      × ((r.0, r.1, contents (r.2)) ≡ dequeue_list (contents sq))
unfolding dequeue dequeue_list
dequeue-dequeue_list sq v =
    let h = (sq.head + 1) % max_size in
    elim (ℕ_discrete sq.head sq.tail) [
      | yes empty ↦
          let none_left : count sq ≡ 0 = omega (arith, v.head_in) in
          ((negsuc 0, none, sq), ground arith, v, rw none_left (unfold window in refl))
      | no some_left ↦
          let left : count sq ≡ suc ((sq.tail + max_size - h) % max_size) =
            omega (arith, v.head_in, v.tail_in) in
          (
            (pos 0, some (get_or sq.cells h (pos 0)), record sq { head = h }),
            ground (arith, get_elem?-get_or (pos 0) sq.cells h, v.block),
            record { block = v.block; head_in = omega arith; tail_in = v.tail_in },
            rw left (unfold window in refl),
          )
    ]

-- `qu_clear` leaves an empty queue, and keeps the invariant.
pub clear-nil : (sq : Queue) → IsValid sq → IsValid (clear sq) × (contents (clear sq) ≡ [])
unfolding clear
clear-nil sq v =
    let none_left : (sq.tail + max_size - sq.tail) % max_size ≡ 0 = omega arith in
    (
      record { block = v.block; head_in = v.tail_in; tail_in = v.tail_in },
      rw none_left (unfold window in refl),
    )
