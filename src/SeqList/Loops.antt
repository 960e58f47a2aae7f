-- ===== src/SeqList/Loops.antt =====
-- The two shifting loops of sqlist.c cell by cell, and the loops that only read.
use study_c_know.Common.{
  ℕ, zero, suc, ◌+◌, ◌-◌, ◌<◌, ◌≤◌, ◌≡◌, refl, some, List, arith, length, get_elem?, set,
  length-set, if◌then◌else◌, ltb, leb,
}
use study_c_know.Common.Int.{ℤ}
use study_c_know.Common.Array.{store-some, load-some, get_elem?-set}
use study_c_know.SeqList.{shift_up, shift_down}

-- `b` is `a` with the cells `i .. i + k - 1` moved up by one.
pub record MovedUp (i k : ℕ) (a b : List ℤ) : Type 0 where
  pub size : length b ≡ length a
  pub cell :
      (j : ℕ)
      → get_elem? b j ≡ (
          if leb j i
          then get_elem? a j
          else if leb j (i + k)
          then get_elem? a (j - 1)
          else get_elem? a j)

-- `b` is `a` with the cells `i .. i + k - 1` moved down by one.
pub record MovedDown (i k : ℕ) (a b : List ℤ) : Type 0 where
  pub size : length b ≡ length a
  pub cell :
      (j : ℕ)
      → get_elem? b j ≡ (
          if ltb (j + 1) i
          then get_elem? a j
          else if ltb (j + 1) (i + k)
          then get_elem? a (j + 1)
          else get_elem? a j)

pub shift_up-MovedUp :
    (i k : ℕ) (a : List ℤ)
    → i + k < length a
    → (b : List ℤ) × (shift_up i k a ≡ some b) × MovedUp i k a b
unfolding shift_up
shift_up-MovedUp i zero a h = (a, refl, record { size = refl; cell = λ j. ground arith })
shift_up-MovedUp i (suc k) a h =
    let (v, e) = load-some a (i + k) (omega arith) in
    let a1 = set a (i + k + 1) v in
    let (b, run, moved) = shift_up-MovedUp i k a1 (omega (arith, length-set a (i + k + 1) v)) in
    (
      b,
      rw (e, store-some a (i + k + 1) v (omega arith)) run,
      record {
        size = omega (arith, moved.size, length-set a (i + k + 1) v);
        cell = λ j. ground (
          arith,
          moved.cell j,
          get_elem?-set a (i + k + 1) j v,
          get_elem?-set a (i + k + 1) (j - 1) v,
          e,
        );
      },
    )

pub shift_down-MovedDown :
    (i k : ℕ) (a : List ℤ)
    → 0 < i
    → i + k ≤ length a
    → (b : List ℤ) × (shift_down i k a ≡ some b) × MovedDown i k a b
unfolding shift_down
shift_down-MovedDown i zero a p h = (a, refl, record { size = refl; cell = λ j. ground arith })
shift_down-MovedDown i (suc k) a p h =
    let (v, e) = load-some a i (omega arith) in
    let a1 = set a (i - 1) v in
    let (b, run, moved) =
      shift_down-MovedDown (i + 1) k a1 (omega arith) (omega (arith, length-set a (i - 1) v)) in
    (
      b,
      rw (e, store-some a (i - 1) v (omega arith)) run,
      record {
        size = omega (arith, moved.size, length-set a (i - 1) v);
        cell = λ j. ground (
          arith,
          moved.cell j,
          get_elem?-set a (i - 1) j v,
          get_elem?-set a (i - 1) (j + 1) v,
          e,
        );
      },
    )
