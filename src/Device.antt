-- ===== src/Device.antt =====
-- The memory of the programs that work with devices or message queues: what they hold, and the calls
-- that they make of the system and of libraries. What a call answers is not known: an environment
-- gives the answer to each call at each time. A program faults (`none`) when it uses or releases
-- what it does not hold or takes hold of it twice; a loop also stops so when its fuel is used up.
pub mod Ends
use study_c_know.Common.{
  ℕ, zero, suc, Bool, true, false, ◌||◌, Option, none, some, List, [], ◌∷◌, if◌then◌else◌, ◌==◌,
}
use study_c_know.Common.Int.{ℤ, pos, negsuc, ltb_ℤ}

-- What a program may hold.
pub data Resource : Type 0 where
  pcm params input output buffer mixer poll_set terminal screen queue : Resource

abbrev pub code : Resource → ℕ
code pcm = 0
code params = 1
code input = 2
code output = 3
code buffer = 4
code mixer = 5
code poll_set = 6
code terminal = 7
code screen = 8
code queue = 9

abbrev pub holds : Resource → List Resource → Bool
holds r [] = false
holds r (s ∷ rs) = (code r == code s) || holds r rs

abbrev pub without : Resource → List Resource → List Resource
without r [] = []
without r (s ∷ rs) = if code r == code s then rs else s ∷ without r rs

module _ (C : Type 0) where
  -- The answer to a call at a time, and the bytes that it delivers.
  pub record Env : Type 0 where
    pub answer : C → ℕ → ℤ
    pub payload : C → ℕ → List ℕ

  -- The number of calls so far, what is held, and the calls, the last one first.
  pub record State : Type 0 where
    pub time : ℕ
    pub held : List Resource
    pub trace : List C

abbrev pub Io : Type 0 → Type 0 → Type 0
Io C A = Env C → State C → Option (A × State C)

module _ {C : Type 0} where
  abbrev pub pure : {A : Type 0} → A → Io C A
  pure a e s = some (a, s)

  abbrev pub and_then :
      {A B : Type 0} → Option (A × State C) → (A → Io C B) → Env C → Option (B × State C)
  and_then none k e = none
  and_then (some (a, s)) k e = k a e s

  infixl 5 ◌>>=◌ ◌>>◌
  abbrev pub ◌>>=◌ : {A B : Type 0} → Io C A → (A → Io C B) → Io C B
  ◌>>=◌ m k e s = and_then (m e s) k e

  abbrev pub ◌>>◌ : {B : Type 0} → Io C (Unit {0}) → Io C B → Io C B
  m >> k = m >>= λ _. k

  -- A call that needs nothing.
  abbrev pub ask : C → Io C ℤ
  ask c e s = some (e.answer c s.time, record s { time = suc s.time; trace = c ∷ s.trace })

  -- A call that uses `r`.
  abbrev pub with_held : Resource → C → Io C ℤ
  with_held r c e s = if holds r s.held then ask c e s else none

  -- Memory that is touched.
  abbrev pub touch : Resource → Io C (Unit {0})
  touch r e s = if holds r s.held then some (tt, s) else none

  -- A call that gives `r` when its answer is not negative.
  abbrev pub acquire : Resource → C → Io C ℤ
  acquire r c e s =
      if holds r s.held
      then none
      else some (
        e.answer c s.time,
        record {
          time = suc s.time;
          held = if ltb_ℤ (e.answer c s.time) (pos 0) then s.held else r ∷ s.held;
          trace = c ∷ s.trace;
        },
      )

  -- A call that gives `r` whatever it answers.
  abbrev pub take : Resource → C → Io C (Unit {0})
  take r c e s =
      if holds r s.held
      then none
      else some (tt, record { time = suc s.time; held = r ∷ s.held; trace = c ∷ s.trace })

  -- A call that gives `r` back; its answer is not looked at.
  abbrev pub release : Resource → C → Io C (Unit {0})
  release r c e s =
      if holds r s.held
      then some (tt, record { time = suc s.time; held = without r s.held; trace = c ∷ s.trace })
      else none

  -- The last call has given `r` back.
  abbrev pub lose : Resource → Io C (Unit {0})
  lose r e s = some (tt, record s { held = without r s.held })

  -- A call that uses `r` and delivers bytes.
  abbrev pub fetch : Resource → C → Io C (ℤ × List ℕ)
  fetch r c e s =
      if holds r s.held
      then some (
        (e.answer c s.time, e.payload c s.time),
        record s { time = suc s.time; trace = c ∷ s.trace },
      )
      else none

  abbrev pub branch : {A : Type 0} → Bool → (yes no : Io C A) → Io C A
  branch b m n e s = if b then m e s else n e s

  -- ret = call; if (0 > ret) goto bad; good
  abbrev pub attempt : {A : Type 0} → Io C ℤ → (bad good : Io C A) → Io C A
  attempt m bad good = m >>= λ ret. branch (ltb_ℤ ret (pos 0)) bad good
