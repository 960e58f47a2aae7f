-- ===== src/ArrayFun/Copy.antt =====
-- `cpy` copies a string with its terminating 0.
use study_c_know.Common.{
  ℕ, suc, ◌+◌, ◌<◌, ◌≡◌, ◌≢◌, refl, false, some, List, [], ◌∷◌, ◌++◌, length, set, drop,
  length-append, ◌==◌, arith, ap, ◌∙◌,
}
use mathlib.Core.List.{append_assoc}
use study_c_know.Common.Array.{store-some}
use study_c_know.ArrayFun.{copy_loop, cpy}

-- No character is the terminating 0.
abbrev pub NonZero : List ℕ → Type 0
NonZero [] = Unit
NonZero (c ∷ s) = (c ≢ 0) × NonZero s

-- A write behind what is there.
set-front :
    (pre : List ℕ) (x c : ℕ) (post : List ℕ)
    → set (pre ++ x ∷ post) (length pre) c ≡ pre ++ c ∷ post
set-front [] x c post = refl
set-front (p ∷ pre) x c post = ap (λ (t : List ℕ). p ∷ t) (set-front pre x c post)

drop-suc : (n x : ℕ) (xs : List ℕ) → drop (n + 1) xs ≡ drop (suc n + 1) (x ∷ xs)
drop-suc n x xs = let e : suc n + 1 ≡ suc (n + 1) = omega arith in rw e

copy_loop-append :
    (s rest pre post : List ℕ) (i : ℕ)
    → NonZero s
    → length s < length post
    → i ≡ length pre
    → copy_loop (pre ++ post) i (s ++ 0 ∷ rest) ≡ some (pre ++ (s ++ 0 ∷ drop (length s + 1) post))
unfolding copy_loop
copy_loop-append s rest pre [] i ok fits e = absurd (omega arith)
copy_loop-append [] rest pre (x ∷ post) i ok fits e =
    let size = length-append {0} pre (x ∷ post) in
    let one : 0 + 1 ≡ suc 0 = omega arith in
    rw (e, store-some (pre ++ x ∷ post) (length pre) 0 (omega arith), set-front pre x 0 post)
copy_loop-append (c ∷ s) rest pre (x ∷ post) i ok fits e =
    let size = length-append {0} pre (x ∷ post) in
    let other : c == 0 ≡ false = ground arith in
    rw (e, store-some (pre ++ x ∷ post) (length pre) c (omega arith), set-front pre x c post, other)
      (rw (← append_assoc pre (c ∷ []) post) (
        copy_loop-append s rest (pre ++ c ∷ []) post (length pre + 1) (ok.1) (omega arith)
          (omega (arith, length-append {0} pre (c ∷ [])))
        ∙ ap some (
            append_assoc pre (c ∷ []) (s ++ 0 ∷ drop (length s + 1) post)
            ∙ ap (λ (t : List ℕ). pre ++ (c ∷ s ++ 0 ∷ t)) (drop-suc (length s) x post))))

-- `cpy` of a string into an array with room for it and its terminating 0 writes these, leaves the
-- other characters alone, and stays inside both arrays.
pub cpy-string :
    (p s rest : List ℕ)
    → NonZero s
    → length s < length p
    → cpy (some p) (some (s ++ 0 ∷ rest)) ≡ some (some (s ++ 0 ∷ drop (length s + 1) p))
unfolding cpy
cpy-string p s rest ok fits = rw (copy_loop-append s rest [] p 0 ok fits refl)
