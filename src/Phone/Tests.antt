-- ===== src/Phone/Tests.antt =====
-- The telephone and its interface on small runs.
use study_c_know.Common.{
  ℕ, ◌+◌, ◌*◌, ◌%◌, ◌≤◌, ◌≡◌, refl, true, false, ◌&&◌, List, [], ◌∷◌, ◌==◌, ltb, if◌then◌else◌,
  arith, ◌⊎◌, inl, inr, Bool-cases,
}
use study_c_know.Common.Int.{ℤ, pos}
use study_c_know.Device.{Env}
use study_c_know.Device.Ends.{Ends}
use study_c_know.Phone
use study_c_know.Phone.{Call, select, getchar, msgrcv}
use study_c_know.Phone.Rounds.{Documented, Over, quit_at, phone-Over, phone-lost_quits}
use study_c_know.Phone.Ui
use study_c_know.Phone.Ui.{ClosePressed, ui-Over}

-- 'c' is pressed from time 10 on, 'q' before.
abbrev keys : Call → ℕ → ℤ
keys getchar t = if ltb t 10 then pos 113 else pos 99
keys _ t = pos 1

-- A quit message in the rounds 50 and 100 of the telephone.
abbrev messages : Call → ℕ → List ℕ
messages msgrcv t = if ltb t 240 && (t % 100 == 99) then 1 ∷ [] else []
messages _ t = []

-- No messages, and then these.
abbrev silent_env : Env Call
silent_env = record { answer = keys; payload = λ c t. [] }

abbrev lost_env : Env Call
lost_env = record { answer = keys; payload = messages }

silent_env-Documented : Documented silent_env
silent_env-Documented t = inl refl

silent_env-ClosePressed : ClosePressed silent_env 10
silent_env-ClosePressed t h = (refl, rw (at_c t h) refl)
  where
    at_c : (k : ℕ) → 10 ≤ k → ltb k 10 ≡ false
    at_c k h = ground arith

lost_env-quits : (k : ℕ) → quit_at lost_env (1 + 2 * k) ≡ (ltb k 120 && (k % 50 == 49))
lost_env-quits k = elim (Bool-cases (ltb k 120)) [
  | inr over ↦ rw (over, not_now k over) refl
  | inl more ↦ elim (Bool-cases (k % 50 == 49)) [
    | inl due ↦ rw (more, due, now k more, at_99 k due) refl
    | inr not_due ↦ rw (more, not_due, now k more, not_at_99 k not_due) refl
  ]
]
  where
    now : (k : ℕ) → ltb k 120 ≡ true → ltb (1 + 2 * k) 240 ≡ true
    now k h = ground arith

    not_now : (k : ℕ) → ltb k 120 ≡ false → ltb (1 + 2 * k) 240 ≡ false
    not_now k h = ground arith

    at_99 : (k : ℕ) → (k % 50 == 49) ≡ true → ((1 + 2 * k) % 100 == 99) ≡ true
    at_99 k h = ground arith

    not_at_99 : (k : ℕ) → (k % 50 == 49) ≡ false → ((1 + 2 * k) % 100 == 99) ≡ false
    not_at_99 k h = ground arith

phone-Over_example :
    Ends
      (Phone.main 150 silent_env (record { time = 0; held = []; trace = [] }))
      λ status t. Over status t ⊎ ((status ≡ pos 1) × (t.held ≡ []))
phone-Over_example = phone-Over silent_env 150 silent_env-Documented refl refl (omega arith)

phone-lost_quits_example :
    Ends
      (Phone.main 270 lost_env (record { time = 0; held = []; trace = [] }))
      λ status t. Over status t × (1 + 2 * 120 ≤ t.time)
phone-lost_quits_example = phone-lost_quits lost_env 120 270 refl lost_env-quits (omega arith)

ui-Over_example :
    Ends
      (Ui.main 11 silent_env (record { time = 0; held = []; trace = [] }))
      λ status t. Over status t ⊎ ((status ≡ pos 1) × (t.held ≡ []))
ui-Over_example =
    ui-Over silent_env 10 11 silent_env-Documented silent_env-ClosePressed (omega arith)
