-- ===== src/Sound/Wav.antt =====
-- `open_wav_file` of the five programs that play: the header of a WAV file, field by field, and the
-- search for its data. The numbers of the file are little-endian.
pub mod Search
use study_c_know.Common.{
  ℕ, zero, suc, ◌+◌, ◌*◌, ◌<◌, ◌≤◌, ◌≡◌, refl, Bool, true, false, ◌&&◌, none, List, [], ◌∷◌, get_or,
  ◌==◌, arith, ◌⊎◌, inl, inr,
}
use study_c_know.Common.Int.{ℤ, pos, negsuc, ◌==ℤ◌, ltb_ℤ}
use study_c_know.Device.{
  input, holds, pure, ◌>>=◌, ◌>>◌, with_held, acquire, release, fetch, branch, attempt,
}
use study_c_know.Sound.{
  Resource, Io, Env, State, Call, open_file, close_file, read_file, seek_set, seek_cur,
}

-- The byte, and the numbers of two and of four bytes, at an offset.
abbrev pub byte_at : List ℕ → ℕ → ℕ
byte_at bs k = get_or bs k 0

unfoldable pub le16 : List ℕ → ℕ → ℕ
le16 bs k = byte_at bs k + 256 * byte_at bs (k + 1)

unfoldable pub le32 : List ℕ → ℕ → ℕ
unfolding le16
le32 bs k = le16 bs k + 65536 * le16 bs (k + 2)

-- strncmp(id, ..., 4) is 0
abbrev pub is_id : List ℕ → (offset a b c d : ℕ) → Bool
is_id bs k a b c d =
    (byte_at bs k == a)
    && (byte_at bs (k + 1) == b)
    && (byte_at bs (k + 2) == c)
    && (byte_at bs (k + 3) == d)

-- The fields of `wav_fmt`, from its 24 bytes.
abbrev pub subchunk1_size : List ℕ → ℕ
subchunk1_size fmt = le32 fmt 4

abbrev pub num_channels : List ℕ → ℕ
num_channels fmt = le16 fmt 10

abbrev pub sample_rate : List ℕ → ℕ
sample_rate fmt = le32 fmt 12

abbrev pub block_align : List ℕ → ℕ
block_align fmt = le16 fmt 20

abbrev refuse : Io Call (ℤ × List ℕ)
refuse = do release input close_file; pure (negsuc 0, [])

-- One round of the loop over the chunks of the file; `more` is the rest of the loop. A chunk that
-- cannot be read ends it with -1, and the file stays open.
unfoldable pub chunk : (more : Io Call (ℤ × List ℕ)) → List ℕ → Io Call (ℤ × List ℕ)
chunk more fmt = do
  (ret, d) ← fetch input (read_file 8)
  branch (ret ==ℤ pos 8)
      (branch (is_id d 0 100 97 116 97) (pure (pos 0, fmt))
        (attempt (with_held input (seek_cur (pos (le32 d 4)))) refuse more))
      (pure (negsuc 0, fmt))

unfoldable pub find_data : ℕ → List ℕ → Io Call (ℤ × List ℕ)
find_data zero fmt = λ _ _. none
find_data (suc fuel) fmt = chunk (find_data fuel fmt) fmt

-- `open_wav_file` once the file is open.
unfoldable pub read_header : ℕ → Io Call (ℤ × List ℕ)
read_header fuel = do
  (ret, riff) ← fetch input (read_file 12)
  branch ((ret ==ℤ pos 12) && is_id riff 0 82 73 70 70 && is_id riff 8 87 65 86 69)
      (do
        (ret, fmt) ← fetch input (read_file 24)
        branch ((ret ==ℤ pos 24) && is_id fmt 0 102 109 116 32)
            (attempt (with_held input (seek_set (20 + subchunk1_size fmt))) refuse
              (find_data fuel fmt))
            refuse)
      refuse

-- The status and `wav_fmt`.
unfoldable pub open_wav_file : ℕ → Io Call (ℤ × List ℕ)
open_wav_file fuel = attempt (acquire input open_file) (pure (negsuc 0, [])) (read_header fuel)
