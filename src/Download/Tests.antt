-- ===== src/Download/Tests.antt =====
-- A response with two lines in its header and four bytes of a file.
use study_c_know.Common.{
  ℕ, ◌+◌, ◌-◌, ◌*◌, ◌&&◌, Option, none, some, List, [], ◌∷◌, ◌==◌, leb, replicate, if◌then◌else◌,
}
use study_c_know.Common.Int.{ℤ, pos}
use study_c_know.Download.{RespHeader}

-- "HTTP/1.1 200" and "Content-Length: 4"
abbrev status_line : List ℕ
status_line = 72 ∷ 84 ∷ 84 ∷ 80 ∷ 47 ∷ 49 ∷ 46 ∷ 49 ∷ 32 ∷ 50 ∷ 48 ∷ 48 ∷ []

abbrev length_line : List ℕ
length_line =
    67 ∷ 111 ∷ 110 ∷ 116 ∷ 101 ∷ 110 ∷ 116 ∷ 45 ∷ 76 ∷ 101 ∷ 110 ∷ 103 ∷ 116 ∷ 104 ∷ 58 ∷ 32 ∷ 52
    ∷ []

abbrev body : List ℕ
body = 1 ∷ 2 ∷ 3 ∷ 4 ∷ []

abbrev no_memory : ℕ → Option (List ℕ)
no_memory n = none

abbrev junk : List ℕ
junk = replicate 60 9

-- The number behind the first space.
abbrev digits : ℕ → List ℕ → ℕ
digits n [] = n
digits n (c ∷ cs) = digits (if leb 48 c && leb c 57 then n * 10 + (c - 48) else n) cs

abbrev up_to_line_end : List ℕ → List ℕ
up_to_line_end [] = []
up_to_line_end (c ∷ cs) = if c == 13 then [] else c ∷ up_to_line_end cs

abbrev number : List ℕ → Option ℤ
number [] = none
number (c ∷ cs) = if c == 32 then some (pos (digits 0 (up_to_line_end cs))) else number cs

abbrev word : List ℕ → Option (List ℕ)
word text = none

abbrev old : RespHeader
old = record { status_code = pos 0; content_type = []; content_length = pos 0 }

-- Three bytes at most are ready at a time.
abbrev sizes : ℕ → ℕ
sizes t = 2
