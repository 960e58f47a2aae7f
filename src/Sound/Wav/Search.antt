-- ===== src/Sound/Wav/Search.antt =====
-- How `open_wav_file` ends: the search of the chunks of a WAV file for its data.
use study_c_know.Common.{
  ℕ, zero, suc, ◌+◌, ◌<◌, ◌≤◌, ◌≡◌, refl, Bool, true, false, ◌&&◌, List, ◌∷◌, arith, ◌⊎◌, inl, inr,
}
use study_c_know.Common.Int.{ℤ, pos, negsuc, ◌==ℤ◌, ltb_ℤ}
use study_c_know.Device.{input, holds}
use study_c_know.Device.Ends.{Ends, Ends-pure, Ends-if, Ends-mono}
use study_c_know.Sound.{
  Resource, Env, State, Call, open_file, close_file, read_file, seek_set, seek_cur,
}
use study_c_know.Sound.Wav.{
  is_id, le32, subchunk1_size, chunk, find_data, read_header, open_wav_file,
}

-- From time `N` on every read of a file fails or is at its end.
abbrev pub ReadsEnd : Env Call → ℕ → Type 0
ReadsEnd e n = (k t : ℕ) → n ≤ t → ltb_ℤ (e.answer (read_file k) t) (pos 1) ≡ true

-- The search of the chunks from a time on, after these calls: it has skipped chunks whose id is not
-- "data", and then met one with this id, or a read has not delivered the 8 bytes of an id and a size.
-- The last two numbers and calls are those at its end.
pub data Searched (e : Env Call) : (found : Bool) → ℕ → List Call → ℕ → List Call → Type 0 where
  met :
      {m : ℕ} {us : List Call}
      → (e.answer (read_file 8) m ==ℤ pos 8) ≡ true
      → is_id (e.payload (read_file 8) m) 0 100 97 116 97 ≡ true
      → Searched e true m us (suc m) (read_file 8 ∷ us)
  no_more :
      {m : ℕ} {us : List Call}
      → (e.answer (read_file 8) m ==ℤ pos 8) ≡ false
      → Searched e false m us (suc m) (read_file 8 ∷ us)
  skipped :
      {found : Bool} {m k : ℕ} {us vs : List Call}
      → (e.answer (read_file 8) m ==ℤ pos 8) ≡ true
      → is_id (e.payload (read_file 8) m) 0 100 97 116 97 ≡ false
      → ltb_ℤ (e.answer (seek_cur (pos (le32 (e.payload (read_file 8) m) 4))) (suc m)) (pos 0)
        ≡ false
      → Searched e found
          (suc (suc m))
          (seek_cur (pos (le32 (e.payload (read_file 8) m) 4)) ∷ read_file 8 ∷ us)
          k
          vs
      → Searched e found m us k vs

-- Why the file was closed or not opened: the call before the last one, or the last one, has failed
-- or delivered another header.
pub data Refused (e : Env Call) : ℕ → List Call → Type 0 where
  unopened :
      {m : ℕ} {us : List Call}
      → ltb_ℤ (e.answer open_file m) (pos 0) ≡ true
      → Refused e (suc m) (open_file ∷ us)
  no_riff :
      {m : ℕ} {us : List Call}
      → ((e.answer (read_file 12) m ==ℤ pos 12)
          && is_id (e.payload (read_file 12) m) 0 82 73 70 70
          && is_id (e.payload (read_file 12) m) 8 87 65 86 69)
        ≡ false
      → Refused e (suc (suc m)) (close_file ∷ read_file 12 ∷ us)
  no_format :
      {m : ℕ} {us : List Call}
      → ((e.answer (read_file 24) m ==ℤ pos 24)
          && is_id (e.payload (read_file 24) m) 0 102 109 116 32)
        ≡ false
      → Refused e (suc (suc m)) (close_file ∷ read_file 24 ∷ us)
  no_chunks :
      {m k : ℕ} {us : List Call}
      → ltb_ℤ (e.answer (seek_set k) m) (pos 0) ≡ true
      → Refused e (suc (suc m)) (close_file ∷ seek_set k ∷ us)
  no_next :
      {m : ℕ} {k : ℤ} {us : List Call}
      → ltb_ℤ (e.answer (seek_cur k) m) (pos 0) ≡ true
      → Refused e (suc (suc m)) (close_file ∷ seek_cur k ∷ us)

-- The file is open, and the search from the chunk after the format on has ended so.
abbrev pub Open : Env Call → (found : Bool) → List Resource → State Call → Type 0
Open e found hs t =
    (t.held ≡ input ∷ hs)
    × ((m k : ℕ) × (us : List Call) × Searched e found m (seek_set k ∷ us) t.time t.trace)

-- The file is still open, and the search met no data chunk.
abbrev pub Unclosed : Env Call → List Resource → State Call → Type 0
Unclosed e hs t = Open e false hs t

-- A success with the file open at its data and a checked header, or a failure and its reason.
abbrev pub Checked : Env Call → List Resource → ℤ × List ℕ → State Call → Type 0
Checked e hs r t =
    ((r.0 ≡ pos 0) × (is_id (r.1) 0 102 109 116 32 ≡ true) × Open e true hs t)
    ⊎ ((r.0 ≡ negsuc 0) × (((t.held ≡ hs) × Refused e t.time t.trace) ⊎ Unclosed e hs t))

-- The same of the search alone, from a time on and after these calls.
abbrev Found : Env Call → List Resource → ℕ → List Call → ℤ × List ℕ → State Call → Type 0
Found e hs m us r t =
    ((r.0 ≡ pos 0)
      × (is_id (r.1) 0 102 109 116 32 ≡ true)
      × (t.held ≡ input ∷ hs)
      × Searched e true m us t.time t.trace)
    ⊎ ((r.0 ≡ negsuc 0)
        × (((t.held ≡ hs) × Refused e t.time t.trace)
            ⊎ ((t.held ≡ input ∷ hs) × Searched e false m us t.time t.trace)))

find_data-Found :
    (fuel : ℕ) (fmt : List ℕ) (e : Env Call) (n m : ℕ) (hs : List Resource) (tr : List Call)
    → is_id fmt 0 102 109 116 32 ≡ true
    → ReadsEnd e n
    → 0 < fuel
    → n < m + fuel
    → Ends
        (find_data fuel fmt e (record { time = m; held = input ∷ hs; trace = tr }))
        (Found e hs m tr)
unfolding find_data chunk
find_data-Found zero fmt e n m hs tr ok stop some_fuel enough = absurd (omega arith)
find_data-Found (suc fuel) fmt e n m hs tr ok stop some_fuel enough =
    let d = e.payload (read_file 8) m in
    Ends-if (e.answer (read_file 8) m ==ℤ pos 8)
      (λ whole.
        Ends-if (is_id d 0 100 97 116 97)
          (λ found. Ends-pure _ _ (inl (refl, ok, refl, met whole found)))
          (λ other.
            Ends-if (ltb_ℤ (e.answer (seek_cur (pos (le32 d 4))) (suc m)) (pos 0))
              (λ bad. Ends-pure _ _ (inr (refl, inl (refl, no_next bad))))
              (λ good.
                let early : m < n = ground (arith, stop 8 m) in
                Ends-mono
                  (find_data-Found fuel fmt e n (suc (suc m)) hs
                    (seek_cur (pos (le32 d 4)) ∷ read_file 8 ∷ tr) ok stop (omega arith)
                    (omega arith))
                  (λ r t w. elim w [
                    | inl (fine, is, own, rest) ↦ inl (fine, is, own, skipped whole other good rest)
                    | inr (bad, inl closed) ↦ inr (bad, inl closed)
                    | inr (bad, inr (own, rest)) ↦
                        inr (bad, inr (own, skipped whole other good rest))
                  ]))))
      (λ short. Ends-pure _ _ (inr (refl, inr (refl, no_more short))))

read_header-Checked :
    (fuel : ℕ) (e : Env Call) (n m : ℕ) (hs : List Resource) (tr : List Call)
    → ReadsEnd e n
    → n < fuel
    → Ends (read_header fuel e (record { time = m; held = input ∷ hs; trace = tr })) (Checked e hs)
unfolding read_header
read_header-Checked fuel e n m hs tr stop enough =
    let riff = e.payload (read_file 12) m in
    let fmt = e.payload (read_file 24) (suc m) in
    Ends-if
      ((e.answer (read_file 12) m ==ℤ pos 12)
        && is_id riff 0 82 73 70 70
        && is_id riff 8 87 65 86 69)
      (λ is_riff.
        Ends-if ((e.answer (read_file 24) (suc m) ==ℤ pos 24) && is_id fmt 0 102 109 116 32)
          (λ is_fmt.
            Ends-if (ltb_ℤ (e.answer (seek_set (20 + subchunk1_size fmt)) (suc (suc m))) (pos 0))
              (λ bad. Ends-pure _ _ (inr (refl, inl (refl, no_chunks bad))))
              (λ fine.
                Ends-mono
                  (find_data-Found fuel fmt e n (suc (suc (suc m))) hs
                    (seek_set (20 + subchunk1_size fmt) ∷ read_file 24 ∷ read_file 12 ∷ tr)
                    (both _ _ is_fmt) stop (omega (arith, enough)) (omega (arith, enough)))
                  (λ r t w. elim w [
                    | inl (good, is, own, search) ↦ inl (good, is, (own, (_, _, _, search)))
                    | inr (bad, inl closed) ↦ inr (bad, inl closed)
                    | inr (bad, inr (own, search)) ↦ inr (bad, inr (own, (_, _, _, search)))
                  ])))
          (λ other. Ends-pure _ _ (inr (refl, inl (refl, no_format other)))))
      (λ other. Ends-pure _ _ (inr (refl, inl (refl, no_riff other))))
  where
    both : (a b : Bool) → (a && b) ≡ true → b ≡ true
    both true b h = h
    both false b h = cc

-- `open_wav_file` returns, with fuel for the reads before the file ends. On success the file is open,
-- its format chunk was checked, and the search of the chunks has met a data chunk. On failure it is
-- closed, and a call has failed or a header was another one; or it is still open, and the search met
-- no data chunk: each chunk before a read that delivers no 8 bytes had another id.
pub open_wav_file-Checked :
    (fuel : ℕ) (e : Env Call) (n m : ℕ) (hs : List Resource) (tr : List Call)
    → holds input hs ≡ false
    → ReadsEnd e n
    → n < fuel
    → Ends (open_wav_file fuel e (record { time = m; held = hs; trace = tr })) (Checked e hs)
unfolding open_wav_file
open_wav_file-Checked fuel e n m hs tr no_file stop enough = rw no_file (
    Ends-if (ltb_ℤ (e.answer open_file m) (pos 0))
      (λ bad. rw bad (Ends-pure _ _ (inr (refl, inl (refl, unopened bad)))))
      (λ good. rw good (read_header-Checked fuel e n (suc m) hs _ stop enough)))
