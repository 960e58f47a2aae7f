-- ===== src/Sound/Periods.antt =====
-- The loops that the programs share: one period of frames from a file to the device, and the filling
-- of the device while it has room.
use study_c_know.Common.{ℕ, zero, suc, ◌+◌, ◌*◌, ◌<◌, ◌≤◌, ◌≡◌, Bool, true, none, List, leb, arith}
use study_c_know.Common.Int.{ℤ, pos, negsuc, ◌-ℤ◌, ◌*ℤ◌, ltb_ℤ}
use study_c_know.Device.{
  pcm, input, output, buffer, holds, ◌>>=◌, ◌>>◌, touch, with_held, branch, attempt,
}
use study_c_know.Device.Ends.{Ends, Ends-if}
use study_c_know.Sound.{
  Resource, Io, Env, State, Call, period_size, read_file, seek_cur, writei, readi, write_file,
  avail_update,
}
use study_c_know.Sound.Wav.{block_align}
use study_c_know.Sound.Wav.Search.{ReadsEnd}

-- buf_bytes
abbrev pub buf_bytes : List ℕ → ℕ
buf_bytes fmt = period_size * block_align fmt

-- One period is read from the file and played; `stop` is the jump to the end of the program. Fewer
-- frames than a period move the file back.
unfoldable pub play_period : {A : Type 0} → List ℕ → (stop more : Io Call A) → Io Call A
play_period fmt stop more = do
  touch buffer
  ret ← with_held input (read_file (buf_bytes fmt))
  branch (ltb_ℤ ret (pos 1)) stop do
    ret ← with_held pcm (writei period_size)
    branch (ltb_ℤ ret (pos 0)) stop (
        branch (ltb_ℤ ret (pos period_size))
          (attempt (with_held input (seek_cur ((ret -ℤ pos period_size) *ℤ pos (block_align fmt))))
            stop more)
          more)

-- One period is recorded and written to the file.
unfoldable pub record_period : {A : Type 0} → (stop more : Io Call A) → Io Call A
record_period stop more = do
  touch buffer
  ret ← with_held pcm (readi period_size)
  branch (ltb_ℤ ret (pos 0)) stop
      do ret ← with_held output (write_file (ret *ℤ pos 4)); branch (ltb_ℤ ret (pos 1)) stop more

-- avail >= period_size, where a negative number of frames is converted to a large unsigned one.
abbrev pub has_period : ℤ → Bool
has_period (pos n) = leb period_size n
has_period (negsuc n) = true

-- while (avail >= period_size) { one period; avail = snd_pcm_avail_update(pcm); }
unfoldable pub fill_loop :
    {A : Type 0}
    → ℕ
    → (period : (stop more : Io Call A) → Io Call A) → (stop done : Io Call A) → Io Call A
fill_loop zero period stop done = λ _ _. none
fill_loop (suc fuel) period stop done = do
  avail ← with_held pcm avail_update
  branch (has_period avail) (period stop (fill_loop fuel period stop done)) done

-- From time `n` on the device delivers no frames.
abbrev pub RecordingEnds : Env Call → ℕ → Type 0
RecordingEnds e n = (k t : ℕ) → n ≤ t → ltb_ℤ (e.answer (readi k) t) (pos 0) ≡ true

module _ {A : Type 0} (e : Env Call) (hs : List Resource) (Q : A → State Call → Type 0) where
  -- Every run of `m` that starts after `n` with `hs` held ends in `Q`.
  abbrev pub After : Io Call A → ℕ → Type 0
  After m n =
      (t : ℕ) (us : List Call) → n ≤ t → Ends (m e (record { time = t; held = hs; trace = us })) Q

  -- What a loop asks of one period: it stops from time `n` on, and takes time.
  abbrev pub Period : ((stop more : Io Call A) → Io Call A) → ℕ → Type 0
  Period period n =
      (stop more : Io Call A) (m : ℕ) (us : List Call)
      → After stop m
      → (m < n → After more (suc m))
      → Ends (period stop more e (record { time = m; held = hs; trace = us })) Q

  pub play_period-Period :
      (fmt : List ℕ) (n : ℕ)
      → holds buffer hs ≡ true
      → holds input hs ≡ true
      → holds pcm hs ≡ true
      → ReadsEnd e n
      → Period (play_period fmt) n
  unfolding play_period
  play_period-Period fmt n b i p ends stop more m us at_stop at_more =
      rw (b, i, p)
        (Ends-if (ltb_ℤ (e.answer (read_file (buf_bytes fmt)) m) (pos 1))
          (λ done. at_stop (suc m) _ (omega arith))
          (λ some_read.
            let early : m < n = ground (arith, ends (buf_bytes fmt) m) in
            let ret = e.answer (writei period_size) (suc m) in
            let back = seek_cur ((ret -ℤ pos period_size) *ℤ pos (block_align fmt)) in
            Ends-if (ltb_ℤ ret (pos 0)) (λ bad. at_stop (suc (suc m)) _ (omega arith))
              (λ good.
                Ends-if (ltb_ℤ ret (pos period_size))
                  (λ short. rw i (
                    Ends-if (ltb_ℤ (e.answer back (suc (suc m))) (pos 0))
                      (λ bad. at_stop (suc (suc (suc m))) _ (omega arith))
                      (λ fine. at_more early (suc (suc (suc m))) _ (omega arith))))
                  (λ full. at_more early (suc (suc m)) _ (omega arith)))))

  pub record_period-Period :
      (n : ℕ)
      → holds buffer hs ≡ true
      → holds output hs ≡ true
      → holds pcm hs ≡ true
      → RecordingEnds e n
      → Period record_period n
  unfolding record_period
  record_period-Period n b o p ends stop more m us at_stop at_more =
      rw (b, p, o)
        (Ends-if (ltb_ℤ (e.answer (readi period_size) m) (pos 0))
          (λ bad. at_stop (suc m) _ (omega arith))
          (λ good.
            let early : m < n = ground (arith, ends period_size m) in
            let frames = e.answer (readi period_size) m in
            Ends-if (ltb_ℤ (e.answer (write_file (frames *ℤ pos 4)) (suc m)) (pos 1))
              (λ bad. at_stop (suc (suc m)) _ (omega arith))
              (λ fine. at_more early (suc (suc m)) _ (omega arith))))

  -- A loop of periods ends when its period does.
  pub fill_loop-Ends :
      (period : (stop more : Io Call A) → Io Call A) (stop done : Io Call A) (n fuel m : ℕ)
      (us : List Call)
      → holds pcm hs ≡ true
      → Period period n
      → After stop m
      → After done (suc m)
      → 0 < fuel
      → n < m + fuel
      → Ends (fill_loop fuel period stop done e (record { time = m; held = hs; trace = us })) Q
  unfolding fill_loop
  fill_loop-Ends period stop done n zero m us p body at_stop at_done some_fuel enough =
      absurd (omega arith)
  fill_loop-Ends period stop done n (suc fuel) m us p body at_stop at_done some_fuel enough = rw p (
      Ends-if (has_period (e.answer avail_update m))
        (λ room.
          body stop (fill_loop fuel period stop done) (suc m) _
            (λ t vs k. at_stop t vs (omega arith))
            (λ early t vs k.
              fill_loop-Ends period stop done n fuel t vs p body
                (λ i ws l. at_stop i ws (omega arith)) (λ i ws l. at_done i ws (omega arith))
                (omega arith) (omega arith)))
        (λ full. at_done (suc m) _ (omega arith)))
