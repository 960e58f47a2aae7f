-- ===== src/ArrayStack/Laws.antt =====
-- The array stack is a stack of at most MAXSIZE elements.
use study_c_know.Common.{
  ℕ, zero, suc, ◌<◌, ◌≤◌, ◌≡◌, refl, Option, none, some, List, [], ◌∷◌, arith, length, set, get_or,
  length-set, if◌then◌else◌, ◌==◌, ◌∙◌,
}
use study_c_know.Common.Int.{ℤ, pos, negsuc, ◌-ℤ◌, ◌≤ℤ◌, count_of, succ_last, pred_last, int_laws}
use study_c_know.Common.Array.{store-some, get_or-set, get_elem?-get_or}
use native.Mathlib.Decide.{dec_lt}
use study_c_know.ArrayStack.{Stack, max_size, push, pop, top}

pub record IsValid (st : Stack) : Type 0 where
  pub block : length st.cells ≡ max_size
  pub low : negsuc 0 ≤ℤ st.top
  pub high : st.top ≤ℤ pos 4

-- The first `n` cells, the last one first.
unfoldable pub downward : List ℤ → ℕ → List ℤ
downward a zero = []
downward a (suc n) = get_or a n (pos 0) ∷ downward a n

-- The elements, the newest first.
abbrev pub contents : Stack → List ℤ
contents st = downward st.cells (count_of st.top)

pub length-downward : (a : List ℤ) (n : ℕ) → length (downward a n) ≡ n
unfolding downward
length-downward a zero = refl
length-downward a (suc n) = omega (arith, length-downward a n)

-- A write at or above the count is not seen.
downward-set :
    (a : List ℤ) (i n : ℕ) (x : ℤ) → i < length a → n ≤ i → downward (set a i x) n ≡ downward a n
unfolding downward
downward-set a i zero x h k = refl
downward-set a i (suc n) x h k =
    ground (arith, get_or-set (pos 0) a i n x h, downward-set a i n x h)

-- What a caller is promised, on the list of the elements.
unfoldable pub push_list : List ℤ → ℤ → ℤ × List ℤ
push_list xs x = if length xs == max_size then (negsuc 0, xs) else (pos 0, x ∷ xs)

unfoldable pub pop_list : List ℤ → ℤ × Option ℤ × List ℤ
pop_list [] = (negsuc 0, none, [])
pop_list (x ∷ xs) = (pos 0, some x, xs)

-- `st_push` on a valid stack returns, keeps the invariant, and does what `push_list` says: on a
-- full stack it returns -1 and the elements stay, else it returns 0 and the element becomes the
-- newest.
pub push-push_list :
    (st : Stack) (x : ℤ)
    → IsValid st
    → (r : ℤ × Stack) × (push st x ≡ some r)
      × IsValid (r.1)
      × ((r.0, contents (r.1)) ≡ push_list (contents st) x)
unfolding push push_list
push-push_list st x v =
    let n = count_of st.top in
    let size = length-downward st.cells n in
    elim (dec_lt n max_size) [
      | yes room ↦
          let a = set st.cells n x in
          (
            (pos 0, record { cells = a; top = pos n }),
            ground (arith, succ_last st.top v.low, store-some st.cells n x),
            record {
              block = length-set st.cells n x ∙ v.block;
              low = omega arith;
              high = omega arith;
            },
            unfold downward in
                ground (
                  arith,
                  size,
                  get_or-set (pos 0) st.cells n n x (omega (arith, v.block)),
                  downward-set st.cells n n x (omega (arith, v.block)),
                ),
          )
      | no full ↦ ((negsuc 0, st), ground (arith, v.high), v, ground (arith, size, v.high))
    ]

abbrev Popped : Option (ℤ × Option ℤ × Stack) → ℤ × Option ℤ × List ℤ → Type 0
Popped run spec =
    (r : ℤ × Option ℤ × Stack) × (run ≡ some r)
    × IsValid (r.2)
    × ((r.0, r.1, contents (r.2)) ≡ spec)

pop-cells :
    (a : List ℤ) (t : ℤ)
    → IsValid (record { cells = a; top = t })
    → Popped (pop (record { cells = a; top = t })) (pop_list (downward a (count_of t)))
unfolding pop pop_list downward
pop-cells a (negsuc zero) v = ((negsuc 0, none, _), refl, v, refl)
pop-cells a (negsuc (suc k)) v = absurd (omega (arith, v.low))
pop-cells a (pos n) v = (
  (pos 0, some (get_or a n (pos 0)), record { cells = a; top = pos n -ℤ pos 1 }),
  rw (get_elem?-get_or (pos 0) a n (omega (arith, v.high, v.block))),
  record { block = v.block; low = omega int_laws; high = omega (int_laws, v.high) },
  rw pred_last,
)

-- `st_pop` on a valid stack returns, keeps the invariant, and does what `pop_list` says: on an
-- empty stack it returns -1, else it returns 0, hands out the newest element and removes it.
pub pop-pop_list :
    (st : Stack)
    → IsValid st
    → (r : ℤ × Option ℤ × Stack) × (pop st ≡ some r)
      × IsValid (r.2)
      × ((r.0, r.1, contents (r.2)) ≡ pop_list (contents st))
pop-pop_list st v = pop-cells st.cells st.top v

top-cells :
    (a : List ℤ) (t : ℤ)
    → IsValid (record { cells = a; top = t })
    → let xs = downward a (count_of t) in
      top (record { cells = a; top = t }) ≡ some ((pop_list xs).0, (pop_list xs).1)
unfolding top pop_list downward
top-cells a (negsuc zero) v = refl
top-cells a (negsuc (suc k)) v = absurd (omega (arith, v.low))
top-cells a (pos n) v = rw (get_elem?-get_or (pos 0) a n (omega (arith, v.high, v.block)))

-- `st_top` hands out what `st_pop` would, with the same status.
pub top-pop :
    (st : Stack)
    → IsValid st
    → top st ≡ some ((pop_list (contents st)).0, (pop_list (contents st)).1)
top-pop st v = top-cells st.cells st.top v
