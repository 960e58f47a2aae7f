-- ===== src/Download/Body.antt =====
-- What `download` of 线程/httpdownload.c writes to the file.
use study_c_know.Common.{ℕ, ◌+◌, ◌<◌, ◌≤◌, ◌≡◌, ◌⊎◌, List}

-- From a position in the stream, `m` bytes are taken: all that are left or as many as are wanted, and
-- at most 4095 too many.
abbrev pub Taken : (c n m left : ℕ) → Type 0
Taken c n m left = (m ≤ left) × ((c ≤ n + m) ⊎ (m ≡ left)) × ((n + m < c + 4096) ⊎ (m ≡ 0))
