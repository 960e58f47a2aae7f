-- ===== src/Phone/Rounds.antt =====
-- How long the loop of 进程/task_phone.c runs.
use study_c_know.Common.{
  ℕ, zero, suc, ◌+◌, ◌*◌, ◌<◌, ◌≤◌, ◌≡◌, refl, Bool, true, false, ◌&&◌, List, [], ◌∷◌, leb, ltb,
  arith, ◌⊎◌, inl, inr, Bool-cases, subst, sym, ◌∙◌, ◌%◌, ◌==◌,
}
use study_c_know.Common.Int.{ℤ, pos, negsuc, ◌==ℤ◌, ltb_ℤ}
use study_c_know.Device.{Env, State, queue}
use study_c_know.Device.Ends.{Ends, Ends-pure, Ends-if, Ends-mono}
use study_c_know.Phone.{
  Call, msgget_create, msgrcv, msgctl_remove, msgget_phone, PhoneState, no_call, ring, talk, hangup,
  Phone, next_state, is_quit, hear, advance, is_hangup, remove_queue, send_quit, round, main, idle,
}

-- A quit message is read at a time.
abbrev pub quit_at : Env Call → ℕ → Bool
quit_at e t = is_quit (e.answer msgrcv t, e.payload msgrcv t)

-- `msgget` gives a number that is not negative, or -1.
abbrev pub Documented : Env Call → Type 0
Documented e =
    (t : ℕ)
    → (ltb_ℤ (e.answer msgget_create t) (pos 0) ≡ false) ⊎ (e.answer msgget_create t ≡ negsuc 0)

-- The program is over and its queue removed, or the call that removes it failed.
abbrev pub Over : ℤ → State Call → Type 0
Over status t = ((status ≡ pos 0) × (t.held ≡ [])) ⊎ ((status ≡ pos 1) × (t.held ≡ queue ∷ []))

-- The round in which a state begins, and the number of rounds so far.
abbrev pub first_round : PhoneState → ℕ
first_round no_call = 0
first_round ring = 50
first_round talk = 100
first_round hangup = 150

abbrev pub rounds : Phone → ℕ
rounds p = first_round p.phone_state + p.ticks

-- A call that goes on, before its next state is due.
abbrev pub GoesOn : Phone → Type 0
GoesOn p = (is_hangup p.phone_state ≡ false) × (p.ticks < 50)

in_time :
    (s : PhoneState) (ticks : ℕ) → is_hangup s ≡ false → ticks < 50 → first_round s + ticks < 150
in_time no_call ticks going few = omega arith
in_time ring ticks going few = omega arith
in_time talk ticks going few = omega arith
in_time hangup ticks going few = absurd cc

-- One round either hangs up, or the call goes on and is one round older. A quit message is lost in
-- the round where the next state is due.
one_round :
    (quit : Bool) (s : PhoneState) (ticks : ℕ)
    → is_hangup s ≡ false
    → ticks < 50
    → (first_round s + ticks ≡ 99 → quit ≡ false)
    → (first_round s + ticks ≡ 149 → quit ≡ false)
    → (is_hangup (advance (hear quit (record { phone_state = s; ticks = ticks }))).phone_state
        ≡ true)
      ⊎ (GoesOn (advance (hear quit (record { phone_state = s; ticks = ticks })))
          × (rounds (advance (hear quit (record { phone_state = s; ticks = ticks })))
              ≡ suc (first_round s + ticks)))
unfolding advance hear next_state
one_round quit hangup ticks going few first second = absurd cc
one_round true no_call ticks going few first second = elim (Bool-cases (leb 50 (suc ticks))) [
  | inl due ↦ rw due (inr ((refl, omega arith), ground arith))
  | inr early ↦ rw early (inl refl)
]
one_round false no_call ticks going few first second = elim (Bool-cases (leb 50 (suc ticks))) [
  | inl due ↦ rw due (inr ((refl, omega arith), ground arith))
  | inr early ↦ rw early (inr ((refl, ground arith), omega arith))
]
one_round true ring ticks going few first second = elim (Bool-cases (leb 50 (suc ticks))) [
  | inl due ↦ (let h : true ≡ false = first (ground arith) in absurd cc)
  | inr early ↦ rw early (inl refl)
]
one_round false ring ticks going few first second = elim (Bool-cases (leb 50 (suc ticks))) [
  | inl due ↦ rw due (inr ((refl, omega arith), ground arith))
  | inr early ↦ rw early (inr ((refl, ground arith), omega arith))
]
one_round true talk ticks going few first second = elim (Bool-cases (leb 50 (suc ticks))) [
  | inl due ↦ (let h : true ≡ false = second (ground arith) in absurd cc)
  | inr early ↦ rw early (inl refl)
]
one_round false talk ticks going few first second = elim (Bool-cases (leb 50 (suc ticks))) [
  | inl due ↦ rw due (inl refl)
  | inr early ↦ rw early (inr ((refl, ground arith), omega arith))
]

pub not_minus_one : (r : ℤ) → ltb_ℤ r (pos 0) ≡ false → (r ==ℤ negsuc 0) ≡ false
not_minus_one (pos n) h = refl
not_minus_one (negsuc n) h = ground arith

module _ (e : Env Call) where
  pub remove_queue-Over :
      (m : ℕ) (us : List Call)
      → Ends (remove_queue e (record { time = m; held = queue ∷ []; trace = us })) Over
  unfolding remove_queue
  remove_queue-Over m us =
      Ends-if (ltb_ℤ (e.answer msgctl_remove m) (pos 0)) (λ bad. Ends-pure _ _ (inr (refl, refl)))
        (λ good. Ends-pure _ _ (inl (refl, refl)))

  send_quit-Over :
      (m : ℕ) (us : List Call)
      → Ends (send_quit e (record { time = m; held = queue ∷ []; trace = us })) Over
  unfolding send_quit
  send_quit-Over m us =
      Ends-if (ltb_ℤ (pos 0) (e.answer msgget_phone m)) (λ sent. remove_queue-Over (suc (suc m)) _)
        (λ not_sent. remove_queue-Over (suc m) _)

  -- From a call that goes on the loop ends, if no quit message is read in the rounds 100 and 150.
  round-Over :
      (fuel : ℕ) (p : Phone) (m : ℕ) (us : List Call)
      → quit_at e 199 ≡ false
      → quit_at e 299 ≡ false
      → GoesOn p
      → m ≡ 1 + 2 * rounds p
      → 150 ≤ rounds p + fuel
      → Ends (round fuel p e (record { time = m; held = queue ∷ []; trace = us })) Over
  unfolding round
  round-Over zero p m us q1 q2 (going, few) now enough =
      absurd (omega (arith, in_time p.phone_state p.ticks going few))
  round-Over (suc fuel) p m us q1 q2 (going, few) now enough =
      let q = advance (hear (quit_at e m) p) in
      elim (one_round (quit_at e m) p.phone_state p.ticks going few
        (λ r. subst (λ t. quit_at e t ≡ false) (omega arith) q1)
        (λ r. subst (λ t. quit_at e t ≡ false) (omega arith) q2)) [
          | inl over ↦ rw over (send_quit-Over (suc m) _)
          | inr ((on, soon), older) ↦
              rw on (round-Over fuel q (suc (suc m)) _ q1 q2 (on, soon) (omega arith) (omega arith))
        ]

  -- Liveness: whatever else its calls answer, the program ends after at most 150 rounds, with its
  -- queue removed unless it could not be created or removed, if `msgget` gives a queue or -1 and no
  -- quit message is read in the rounds 100 and 150, where the state changes.
  pub phone-Over :
      (fuel : ℕ)
      → Documented e
      → quit_at e 199 ≡ false
      → quit_at e 299 ≡ false
      → 150 ≤ fuel
      → Ends
          (main fuel e (record { time = 0; held = []; trace = [] }))
          λ status t. Over status t ⊎ ((status ≡ pos 1) × (t.held ≡ []))
  unfolding main
  phone-Over fuel known q1 q2 enough = elim (known 0) [
    | inl good ↦
        rw (good, not_minus_one _ good)
          (Ends-mono
            (round-Over fuel idle 1 _ q1 q2 (refl, omega arith) refl (omega (arith, enough)))
            (λ a t over. inl over))
    | inr bad ↦ rw bad (Ends-pure _ _ (inr (refl, refl)))
  ]

  send_quit-Late :
      (b m : ℕ) (us : List Call)
      → b ≤ m
      → Ends
          (send_quit e (record { time = m; held = queue ∷ []; trace = us }))
          λ status t. Over status t × (b ≤ t.time)
  unfolding send_quit remove_queue
  send_quit-Late b m us late =
      Ends-if (ltb_ℤ (pos 0) (e.answer msgget_phone m))
        (λ sent.
          Ends-if (ltb_ℤ (e.answer msgctl_remove (suc (suc m))) (pos 0))
            (λ bad. Ends-pure _ _ (inr (refl, refl), omega (arith, late)))
            (λ good. Ends-pure _ _ (inl (refl, refl), omega (arith, late))))
        (λ not_sent.
          Ends-if (ltb_ℤ (e.answer msgctl_remove (suc m)) (pos 0))
            (λ bad. Ends-pure _ _ (inr (refl, refl), omega (arith, late)))
            (λ good. Ends-pure _ _ (inl (refl, refl), omega (arith, late))))

  -- From a call that goes on the loop ends, if no quit message is read any more.
  round-Late :
      (fuel b : ℕ) (p : Phone) (m r : ℕ) (us : List Call)
      → ((k : ℕ) → r ≤ k → quit_at e (1 + 2 * k) ≡ false)
      → GoesOn p
      → m ≡ 1 + 2 * r
      → b ≤ m
      → 150 ≤ rounds p + fuel
      → Ends
          (round fuel p e (record { time = m; held = queue ∷ []; trace = us }))
          λ status t. Over status t × (b ≤ t.time)
  unfolding round
  round-Late zero b p m r us silent (going, few) now late enough =
      absurd (omega (arith, in_time p.phone_state p.ticks going few))
  round-Late (suc fuel) b p m r us silent (going, few) now late enough =
      let q = advance (hear false p) in
      let heard : quit_at e m ≡ false =
        subst (λ t. quit_at e t ≡ false) (sym now) (silent r (omega arith)) in
      rw heard (elim (one_round false p.phone_state p.ticks going few (λ _. refl) (λ _. refl)) [
        | inl over ↦ rw over (send_quit-Late b (suc m) _ (omega arith))
        | inr ((on, soon), older) ↦ rw on (
            round-Late fuel b q (suc (suc m)) (suc r) _ (λ k h. silent k (omega arith)) (on, soon)
              (omega arith) (omega arith) (omega arith))
      ])

  rings_on :
      (n fuel : ℕ) (s : PhoneState) (ticks m r : ℕ) (us : List Call)
      → ((k : ℕ) → quit_at e (1 + 2 * k) ≡ (ltb k n && (k % 50 == 49)))
      → (s ≡ no_call) ⊎ (s ≡ ring)
      → ticks ≡ r % 50
      → m ≡ 1 + 2 * r
      → r ≤ n
      → n + 150 ≤ r + fuel
      → Ends
          (round fuel
            (record { phone_state = s; ticks = ticks })
            e
            (record { time = m; held = queue ∷ []; trace = us }))
          λ status t. Over status t × (1 + 2 * n ≤ t.time)
  unfolding round advance hear next_state
  rings_on n zero s ticks m r us quits early at now before enough = absurd (omega arith)
  rings_on n (suc fuel) s ticks m r us quits early at now before enough =
      elim (Bool-cases (ltb r n)) [
        | inr over ↦
            round-Late (suc fuel) (1 + 2 * n) (record { phone_state = s; ticks = ticks }) m r us
              (λ k h. quits k ∙ after_them k h (ground arith)) (goes_on s early, omega arith) now
              (ground arith) (ground arith)
        | inl more ↦ elim (Bool-cases (r % 50 == 49)) [
          | inl due ↦
              let heard : quit_at e m ≡ true =
                subst (λ t. quit_at e t ≡ true) (sym now) (quits r ∙ rw (more, due) refl) in
              let late : leb 50 (suc ticks) ≡ true = ground arith in
              rw (heard, late)
                (rings_on n fuel ring 0 (suc (suc m)) (suc r) _ quits (inr refl) (ground arith)
                  (omega arith) (ground arith) (omega arith))
          | inr not_due ↦
              let heard : quit_at e m ≡ false =
                subst (λ t. quit_at e t ≡ false) (sym now) (quits r ∙ rw (more, not_due) refl) in
              let soon : leb 50 (suc ticks) ≡ false = ground arith in
              elim early [
                | inl idle_yet ↦
                    rw (heard, soon, idle_yet)
                      (rings_on n fuel no_call (suc ticks) (suc (suc m)) (suc r) _ quits (inl refl)
                        (ground arith) (omega arith) (ground arith) (omega arith))
                | inr rings ↦
                    rw (heard, soon, rings)
                      (rings_on n fuel ring (suc ticks) (suc (suc m)) (suc r) _ quits (inr refl)
                        (ground arith) (omega arith) (ground arith) (omega arith))
              ]
        ]
      ]
    where
      after_them : (k : ℕ) → r ≤ k → n ≤ r → (ltb k n && (k % 50 == 49)) ≡ false
      after_them k h past = ground arith

      goes_on : (s : PhoneState) → (s ≡ no_call) ⊎ (s ≡ ring) → is_hangup s ≡ false
      goes_on s (inl e) = rw e refl
      goes_on s (inr e) = rw e refl

  -- If its queue could be created, and a quit message is read in every 50th of the first `n` rounds
  -- and in no other round, then the program goes on for all these rounds, with two calls in each:
  -- every quit message is lost. It ends only after them, with its queue removed unless the call that
  -- removes it failed, with fuel for `n + 150` rounds.
  pub phone-lost_quits :
      (n fuel : ℕ)
      → ltb_ℤ (e.answer msgget_create 0) (pos 0) ≡ false
      → ((k : ℕ) → quit_at e (1 + 2 * k) ≡ (ltb k n && (k % 50 == 49)))
      → n + 150 ≤ fuel
      → Ends
          (main fuel e (record { time = 0; held = []; trace = [] }))
          λ status t. Over status t × (1 + 2 * n ≤ t.time)
  unfolding main
  phone-lost_quits n fuel good quits enough =
      rw (good, not_minus_one _ good)
        (rings_on n fuel no_call 0 1 0 _ quits (inl refl) refl refl (omega arith)
          (omega (arith, enough)))
