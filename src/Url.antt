-- ===== src/Url.antt =====
-- `parse_url` of 线程/httpdownload.c: the domain, the port and the file name of an address. A text is
-- the list of its characters without the end; a write outside a buffer is `none`.
pub mod Parts
mod Tests
use study_c_know.Common.{
  ℕ, zero, suc, ◌+◌, Bool, true, false, ◌&&◌, ◌||◌, Option, none, some, List, [], ◌∷◌, ◌++◌, length,
  drop, ◌==◌, ltb, if◌then◌else◌,
}
use study_c_know.Common.Int.{ℤ, pos}
use study_c_know.Common.Array.{◌>>=◌}

-- strncmp(url, pattern, strlen(pattern)) is 0
unfoldable pub starts_with : (pattern url : List ℕ) → Bool
starts_with [] url = true
starts_with (p ∷ ps) [] = false
starts_with (p ∷ ps) (c ∷ cs) = (p == c) && starts_with ps cs

-- "http://" and "https://"
abbrev pub http : List ℕ
http = 104 ∷ 116 ∷ 116 ∷ 112 ∷ 58 ∷ 47 ∷ 47 ∷ []

abbrev pub https : List ℕ
https = 104 ∷ 116 ∷ 116 ∷ 112 ∷ 115 ∷ 58 ∷ 47 ∷ 47 ∷ []

-- The loop over the patterns, which sets `start`.
unfoldable pub start_loop : List (List ℕ) → (url : List ℕ) → (start : ℕ) → ℕ
start_loop [] url start = start
start_loop (p ∷ ps) url start = start_loop ps url (if starts_with p url then length p else start)

-- The characters before a mark: '/' is 47 and ':' is 58.
unfoldable pub before : (mark : ℕ) → List ℕ → List ℕ
before mark [] = []
before mark (c ∷ cs) = if c == mark then [] else c ∷ before mark cs

-- strstr(domain, ":"), where there is one
unfoldable pub from_colon : List ℕ → Option (List ℕ)
from_colon [] = none
from_colon (c ∷ cs) = if c == 58 then some (c ∷ cs) else from_colon cs

-- A text and its end in a buffer of this size.
unfoldable pub fits : (size : ℕ) → List ℕ → Option (List ℕ)
fits size text = if ltb (length text) size then some text else none

-- name[j++] = c, where j characters are in the buffer
unfoldable pub append : (size : ℕ) → (name : List ℕ) → (c : ℕ) → Option (List ℕ)
append size name c = if ltb (length name) size then some (name ++ (c ∷ [])) else none

-- The loop that finds the file name, from what is in the buffer so far: a '/' that is not the last
-- character starts again.
unfoldable pub name_loop : (size : ℕ) → (url name : List ℕ) → Option (List ℕ)
name_loop size [] name = fits size name
name_loop size (c ∷ []) name = if c == 47 then fits size name else append size name c >>= fits size
name_loop size (c ∷ d ∷ cs) name =
    (if c == 47 then some [] else append size name c) >>= name_loop size (d ∷ cs)

-- `scan` is sscanf(_, ":%d", _): the number, if there is one.
unfoldable pub port_of : (scan : List ℕ → Option ℤ) → List ℕ → ℤ
port_of scan host = get_port (from_colon host >>= scan)
  where
    get_port : Option ℤ → ℤ
    get_port none = pos 80
    get_port (some p) = p

-- The domain, the port and the file name, for buffers of these sizes.
unfoldable pub parse_url :
    (domain_size name_size : ℕ)
    → (scan : List ℕ → Option ℤ) → (url : List ℕ) → Option (List ℕ × (ℤ × List ℕ))
parse_url domain_size name_size scan url =
    let rest = drop (start_loop (http ∷ https ∷ []) url 0) url in
    fits domain_size (before 47 rest) >>= λ host.
    name_loop name_size rest [] >>= λ name. some (before 58 host, (port_of scan host, name))
