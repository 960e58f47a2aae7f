-- ===== src/Sound/Polling.antt =====
-- `snd_pcm_poll_init` and the polling loop that the two polling programs share. The bits of revents
-- are those of poll.h: POLLIN is 1, POLLOUT is 4 and POLLERR is 8.
use study_c_know.Common.{
  ℕ, zero, suc, ◌+◌, ◌/◌, ◌%◌, ◌<◌, ◌≤◌, ◌≡◌, refl, Bool, true, false, none, List, ◌∷◌, ◌==◌, arith,
  ◌⊎◌, inl, inr,
}
use study_c_know.Common.Int.{ℤ, pos, negsuc, ltb_ℤ}
use study_c_know.Device.{
  pcm, poll_set, holds, pure, ◌>>=◌, ◌>>◌, touch, with_held, acquire, fetch, branch, attempt,
}
use study_c_know.Device.Ends.{Ends, Ends-pure, Ends-if}
use study_c_know.Sound.{
  Resource, Io, Env, State, Call, poll_descriptors_count, calloc_poll_set, poll_descriptors, poll,
  revents,
}
use study_c_know.Sound.Wav.{byte_at}
use study_c_know.Sound.Periods.{After}

-- The descriptors are not given back where `snd_pcm_poll_descriptors` fails.
unfoldable pub snd_pcm_poll_init : Io Call ℤ
snd_pcm_poll_init = do
  count ← with_held pcm poll_descriptors_count
  branch (ltb_ℤ count (pos 1)) (pure (negsuc 0)) (
      attempt (acquire poll_set (calloc_poll_set count)) (pure (negsuc 0)) (do
        touch pcm
        attempt (with_held poll_set poll_descriptors) (pure (negsuc 0)) (pure (pos 0))))

abbrev pub bit_set : ℕ → List ℕ → Bool
bit_set w bs = (byte_at bs 0 / w) % 2 == 1

-- for (;;) { poll; on an error jump to `stop`; if the bit `w` is set, `work` }
unfoldable pub poll_loop :
    {A : Type 0}
    → ℕ
    → (w : ℕ) → (work : (stop done : Io Call A) → Io Call A) → (stop : Io Call A) → Io Call A
poll_loop zero w work stop = λ _ _. none
poll_loop (suc fuel) w work stop = attempt (with_held poll_set poll) stop do
  touch poll_set
  (ret, bits) ← fetch pcm revents
  branch (ltb_ℤ ret (pos 0)) stop (
      branch (bit_set 8 bits) stop (
        branch (bit_set w bits) (work stop (poll_loop fuel w work stop))
          (poll_loop fuel w work stop)))

-- From time `n` on `poll` fails.
abbrev pub PollEnds : Env Call → ℕ → Type 0
PollEnds e n = (t : ℕ) → n ≤ t → ltb_ℤ (e.answer poll t) (pos 0) ≡ true

pub snd_pcm_poll_init-Ends :
    (e : Env Call) (hs : List Resource) (m : ℕ) (us : List Call)
    → holds pcm hs ≡ true
    → holds poll_set hs ≡ false
    → Ends (snd_pcm_poll_init e (record { time = m; held = hs; trace = us })) λ ret t.
      ((ret ≡ pos 0) × (t.held ≡ poll_set ∷ hs))
      ⊎ ((ret ≡ negsuc 0) × ((t.held ≡ hs) ⊎ (t.held ≡ poll_set ∷ hs)))
unfolding snd_pcm_poll_init
snd_pcm_poll_init-Ends e hs m us p none_yet =
    let count = e.answer poll_descriptors_count m in
    rw p (
      Ends-if (ltb_ℤ count (pos 1)) (λ bad. Ends-pure _ _ (inr (refl, inl refl)))
        (λ some_count. rw none_yet (
          Ends-if (ltb_ℤ (e.answer (calloc_poll_set count) (suc m)) (pos 0))
            (λ bad. rw bad (Ends-pure _ _ (inr (refl, inl refl))))
            (λ good.
              rw (good, p)
                (Ends-if (ltb_ℤ (e.answer poll_descriptors (suc (suc m))) (pos 0))
                  (λ bad. Ends-pure _ _ (inr (refl, inr refl)))
                  (λ fine. Ends-pure _ _ (inl (refl, refl))))))))

module _ {A : Type 0} (e : Env Call) (hs : List Resource) (Q : A → State Call → Type 0) where
  -- What the loop asks of `work`.
  abbrev pub Work : ((stop done : Io Call A) → Io Call A) → Type 0
  Work work =
      (stop done : Io Call A) (m : ℕ) (us : List Call)
      → After e hs Q stop m
      → After e hs Q done (suc m)
      → Ends (work stop done e (record { time = m; held = hs; trace = us })) Q

  pub poll_loop-Ends :
      (w : ℕ) (work : (stop done : Io Call A) → Io Call A) (stop : Io Call A) (n fuel m : ℕ)
      (us : List Call)
      → holds poll_set hs ≡ true
      → holds pcm hs ≡ true
      → Work work
      → PollEnds e n
      → After e hs Q stop m
      → 0 < fuel
      → n < m + fuel
      → Ends (poll_loop fuel w work stop e (record { time = m; held = hs; trace = us })) Q
  unfolding poll_loop
  poll_loop-Ends w work stop n zero m us q p does ends at_stop some_fuel enough =
      absurd (omega arith)
  poll_loop-Ends w work stop n (suc fuel) m us q p does ends at_stop some_fuel enough =
      let next : (m < n) → After e hs Q (poll_loop fuel w work stop) (suc (suc m)) = λ early t vs k.
        poll_loop-Ends w work stop n fuel t vs q p does ends (λ i ws l. at_stop i ws (omega arith))
          (omega arith) (omega arith) in
      let bits = e.payload revents (suc m) in
      rw q (
        Ends-if (ltb_ℤ (e.answer poll m) (pos 0)) (λ bad. at_stop (suc m) _ (omega arith))
          (λ good.
            let early : m < n = ground (arith, ends m) in
            rw (q, p)
              (Ends-if (ltb_ℤ (e.answer revents (suc m)) (pos 0))
                (λ bad. at_stop (suc (suc m)) _ (omega arith))
                (λ fine.
                  Ends-if (bit_set 8 bits) (λ bad. at_stop (suc (suc m)) _ (omega arith))
                    (λ none_bad.
                      Ends-if (bit_set w bits)
                        (λ ready.
                          does stop (poll_loop fuel w work stop) (suc (suc m)) _
                            (λ t vs k. at_stop t vs (omega arith))
                            (λ t vs k. next early t vs (omega arith)))
                        (λ idle. next early (suc (suc m)) _ (omega arith)))))))
