-- ===== src/Phone/Ui.antt =====
-- 进程/task_ui.c: the interface, which sends the telephone a quit message when 'q' is pressed, and ends
-- when 'c' is pressed or the telephone quits.
use study_c_know.Common.{
  ℕ, zero, suc, ◌+◌, ◌<◌, ◌≤◌, ◌≡◌, refl, true, none, List, [], ◌∷◌, leb, Bool-cases, arith, ◌⊎◌,
  inl, inr,
}
use study_c_know.Common.Int.{ℤ, pos, negsuc, ◌==ℤ◌, ltb_ℤ}
use study_c_know.Device.{Io, Env, queue, pure, ◌>>=◌, ask, acquire, fetch, branch}
use study_c_know.Device.Ends.{Ends, Ends-pure, Ends-if, Ends-mono}
use study_c_know.Phone.{
  Call, msgget_create, msgrcv, msgget_phone, msgsnd, select, getchar, is_quit, remove_queue,
}
use study_c_know.Phone.Rounds.{Documented, Over, not_minus_one, remove_queue-Over}

-- 0 where no key is waiting
unfoldable pub get_char : (more : ℤ → Io Call ℤ) → Io Call ℤ
get_char more = do
  ready ← ask select
  branch (ltb_ℤ (pos 0) ready) (ask getchar >>= more) (more (pos 0))

unfoldable pub change_state : (more : Io Call ℤ) → Io Call ℤ
change_state more = do
  qid ← ask msgget_phone
  branch (qid ==ℤ negsuc 0) more (ask (msgsnd qid) >>= λ _. more)

-- What a key does: 'q' is 113 and 'c' is 99.
unfoldable pub on_key : (more : Io Call ℤ) → ℤ → Io Call ℤ
on_key more ch =
    branch (ch ==ℤ pos 113) (change_state more) (branch (ch ==ℤ pos 99) remove_queue more)

-- while (1)
unfoldable pub watch : ℕ → Io Call ℤ
watch zero = λ _ _. none
watch (suc fuel) = do
  msg ← fetch queue msgrcv
  branch (is_quit msg) remove_queue (get_char (on_key (watch fuel)))

unfoldable pub main : ℕ → Io Call ℤ
main fuel = do
  ret ← acquire queue msgget_create
  branch (ret ==ℤ negsuc 0) (pure (pos 1)) (watch fuel)

-- From time `n` on 'c' is pressed whenever a key is looked for.
abbrev pub ClosePressed : Env Call → ℕ → Type 0
ClosePressed e n =
    (t : ℕ) → n ≤ t → (ltb_ℤ (pos 0) (e.answer select t) ≡ true) × (e.answer getchar t ≡ pos 99)

module _ (e : Env Call) where
  -- The loop goes on after any key but 'c'.
  on_key-Over :
      (more : Io Call ℤ) (ch : ℤ) (m : ℕ) (us : List Call)
      → ((t : ℕ) (vs : List Call)
          → m ≤ t
          → Ends (more e (record { time = t; held = queue ∷ []; trace = vs })) Over)
      → Ends (on_key more ch e (record { time = m; held = queue ∷ []; trace = us })) Over
  unfolding on_key change_state
  on_key-Over more ch m us rest =
      Ends-if (ch ==ℤ pos 113)
        (λ q.
          Ends-if (e.answer msgget_phone m ==ℤ negsuc 0) (λ no_phone. rest (suc m) _ (omega arith))
            (λ phone. rest (suc (suc m)) _ (omega arith)))
        (λ other.
          Ends-if (ch ==ℤ pos 99) (λ c. remove_queue-Over e m us)
            (λ ignored. rest m us (omega arith)))

  watch-Over :
      (n fuel m : ℕ) (us : List Call)
      → ClosePressed e n
      → 0 < fuel
      → n < m + fuel
      → Ends (watch fuel e (record { time = m; held = queue ∷ []; trace = us })) Over
  unfolding watch get_char on_key
  watch-Over n zero m us close some_fuel enough = absurd (omega arith)
  watch-Over n (suc fuel) m us close some_fuel enough =
      Ends-if (is_quit (e.answer msgrcv m, e.payload msgrcv m))
        (λ quit. remove_queue-Over e (suc m) _)
        (λ no_quit. elim (Bool-cases (leb n (suc m))) [
          | inl late ↦
              rw ((close (suc m) (ground arith)).0, (close (suc (suc m)) (ground arith)).1)
                (remove_queue-Over e (suc (suc (suc m))) _)
          | inr early ↦
              let next : (t : ℕ) (vs : List Call)
                  → suc (suc m) ≤ t
                  → Ends (watch fuel e (record { time = t; held = queue ∷ []; trace = vs })) Over =
                λ t vs k. watch-Over n fuel t vs close (ground arith) (omega arith) in
              Ends-if (ltb_ℤ (pos 0) (e.answer select (suc m)))
                (λ ready.
                  on_key-Over (watch fuel) (e.answer getchar (suc (suc m))) (suc (suc (suc m))) _
                    (λ t vs k. next t vs (omega arith)))
                (λ no_key. on_key-Over (watch fuel) (pos 0) (suc (suc m)) _ next)
        ])

  -- The interface ends, with its queue removed unless it could not be created or removed, if
  -- `msgget` gives a queue or -1 and 'c' is pressed from some time on, with fuel for the calls until
  -- then, whatever messages and other keys come.
  pub ui-Over :
      (n fuel : ℕ)
      → Documented e
      → ClosePressed e n
      → n < fuel
      → Ends
          (main fuel e (record { time = 0; held = []; trace = [] }))
          λ status t. Over status t ⊎ ((status ≡ pos 1) × (t.held ≡ []))
  unfolding main
  ui-Over n fuel known close enough = elim (known 0) [
    | inl good ↦
        rw (good, not_minus_one _ good)
          (Ends-mono (watch-Over n fuel 1 _ close (omega (arith, enough)) (omega (arith, enough)))
            (λ a t over. inl over))
    | inr bad ↦ rw bad (Ends-pure _ _ (inr (refl, refl)))
  ]
