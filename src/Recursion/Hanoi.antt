-- ===== src/Recursion/Hanoi.antt =====
-- The moves of `hanoi` solve the puzzle.
use study_c_know.Common.{
  ℕ, zero, suc, ◌<◌, ◌≡◌, ◌≢◌, refl, Bool, true, false, Option, none, some, List, [], ◌∷◌, ◌++◌,
  if◌then◌else◌, ltb, ◌==◌, arith, ◌∙◌, ap, sym, Bool-cases, inl, inr,
}
use mathlib.Core.Path.{fun_ext}
use mathlib.Core.List.{append_assoc}
use study_c_know.Common.Array.{◌>>=◌}
use study_c_know.Recursion.{Move, hanoi}

-- The disks on each peg, the top one first.
abbrev pub Pegs : Type 0
Pegs = ℕ → List ℕ

abbrev pub set_peg : Pegs → ℕ → List ℕ → Pegs
set_peg s p ds q = if q == p then ds else s q

-- Whether a disk may lie on this peg.
abbrev pub fits : ℕ → List ℕ → Bool
fits d [] = true
fits d (e ∷ ds) = ltb d e

place : Pegs → (from to : ℕ) → List ℕ → Option Pegs
place s from to [] = none
place s from to (d ∷ ds) =
    if fits d (s to) then some (set_peg (set_peg s from ds) to (d ∷ s to)) else none

-- One move of the puzzle: the top disk of one peg goes on another, never on a smaller disk.
unfoldable pub step : Move → Pegs → Option Pegs
unfolding place
step (from, to) s = place s from to (s from)

unfoldable pub run : List Move → Pegs → Option Pegs
run [] s = some s
run (m ∷ ms) s = do s' ← step m s; run ms s'

-- The disks 1 to n.
unfoldable pub tower : ℕ → List ℕ
tower zero = []
tower (suc n) = tower n ++ suc n ∷ []

-- These disks on top of a peg.
abbrev pub put : Pegs → ℕ → List ℕ → Pegs
put s p ds q = if q == p then ds ++ s q else s q

-- Every disk is larger than n.
abbrev pub Above : ℕ → List ℕ → Type 0
Above n [] = Unit
Above n (d ∷ ds) = (n < d) × Above n ds

run_step-append :
    (o : Option Pegs) (ms ns : List Move) {t : Pegs}
    → ((u : Pegs) → run ms u ≡ some t → run (ms ++ ns) u ≡ run ns t)
    → (do u ← o; run ms u) ≡ some t
    → (do u ← o; run (ms ++ ns) u) ≡ run ns t
run_step-append none ms ns k e = cc
run_step-append (some u) ms ns k e = k u e

run-append : (ms ns : List Move) (s t : Pegs) → run ms s ≡ some t → run (ms ++ ns) s ≡ run ns t
unfolding run
run-append [] ns s t e = ground (arith, e)
run-append (m ∷ ms) ns s t e = run_step-append (step m s) ms ns (λ u k. run-append ms ns u t k) e

Above-weaken : (n : ℕ) (ds : List ℕ) → Above (suc n) ds → Above n ds
Above-weaken n [] h = tt
Above-weaken n (d ∷ ds) h = (omega (arith, h.0), Above-weaken n ds (h.1))

-- A disk that is smaller than all disks of a peg may move there.
fits-Above : (n : ℕ) (ds : List ℕ) → Above n ds → fits n ds ≡ true
fits-Above n [] h = refl
fits-Above n (d ∷ ds) h = ground (arith, h.0)

-- The disk `d`, alone on its peg but for larger ones, moves to a peg of larger disks.
step-put :
    (s : Pegs) (a c d : ℕ)
    → a ≢ c
    → fits d (s c) ≡ true
    → step (a, c) (put s a (d ∷ [])) ≡ some (put s c (d ∷ []))
unfolding step place
step-put s a c d ne ok =
    let here : a == a ≡ true = ground arith in
    let there : c == a ≡ false = ground arith in
    rw (here, there, ok) (ap some (fun_ext λ q. ground arith))

-- Piles on two pegs, in either order.
put-put :
    (s : Pegs) (a b : ℕ) (xs ys : List ℕ) → a ≢ b → put (put s a xs) b ys ≡ put (put s b ys) a xs
put-put s a b xs ys ne = fun_ext λ q. ground arith

put-append : (s : Pegs) (a : ℕ) (xs ys : List ℕ) → put s a (xs ++ ys) ≡ put (put s a ys) a xs
put-append s a xs ys = fun_ext λ q. ground (arith, append_assoc xs ys (s q))

-- A pile of larger disks is no obstacle.
Above-put :
    (n : ℕ) (s : Pegs) (a : ℕ)
    → ((q : ℕ) → Above (suc n) (s q))
    → (q : ℕ) → Above n (put s a (suc n ∷ []) q)
Above-put n s a h q = elim (Bool-cases (q == a)) [
  | inl here ↦ rw here (omega arith, Above-weaken n (s q) (h q))
  | inr elsewhere ↦ rw elsewhere (Above-weaken n (s q) (h q))
]

-- The largest disk moves while the others wait on the third peg.
run-middle :
    (s : Pegs) (ms : List Move) (a b c d : ℕ) (ys : List ℕ)
    → a ≢ b
    → a ≢ c
    → b ≢ c
    → fits d (s c) ≡ true
    → run ((a, c) ∷ ms) (put (put s a (d ∷ [])) b ys) ≡ run ms (put (put s c (d ∷ [])) b ys)
unfolding run
run-middle s ms a b c d ys ab ac bc ok =
    let free : c == b ≡ false = ground arith in
    let move = step-put (put s b ys) a c d ac (rw free ok) in
    rw (put-put s a b (d ∷ []) ys ab, move, put-put s b c ys (d ∷ []) bc)

-- hanoi(n, A, B, C) with n ≥ 1 and three different pegs ends. Its moves are legal from any position
-- with the disks 1 to n on A above larger disks only, and carry those n disks to C; the other disks
-- stay where they are.
pub hanoi-solves :
    (n a b c : ℕ) (s : Pegs)
    → a ≢ b
    → a ≢ c
    → b ≢ c
    → ((q : ℕ) → Above (suc n) (s q))
    → (ms : List Move) × (hanoi (suc n) a b c ≡ some ms)
      × (run ms (put s a (tower (suc n))) ≡ some (put s c (tower (suc n))))
unfolding hanoi tower run
hanoi-solves zero a b c s ab ac bc h =
    ((a, c) ∷ [], refl, rw (step-put s a c 1 ac (fits-Above 1 (s c) (h c))))
hanoi-solves (suc n) a b c s ab ac bc h =
    let d = suc (suc n) in
    let (first, is1, run1) =
      hanoi-solves n a c b (put s a (d ∷ [])) ac ab (λ e. bc (sym e)) (Above-put (suc n) s a h) in
    let (second, is2, run2) =
      hanoi-solves n b a c (put s c (d ∷ [])) (λ e. ab (sym e)) bc ac (Above-put (suc n) s c h) in
    (
      first ++ (a, c) ∷ second,
      rw (is1, is2),
      ap (run (first ++ (a, c) ∷ second)) (put-append s a (tower (suc n)) (d ∷ []))
          ∙ run-append first ((a, c) ∷ second) _ _ run1
          ∙ run-middle s second a b c d (tower (suc n)) ab ac bc (fits-Above d (s c) (h c))
          ∙ run2
          ∙ ap some (sym (put-append s c (tower (suc n)) (d ∷ []))),
    )
