-- ===== src/Download.antt =====
-- 线程/httpdownload.c after the address is known: the header of the response is read byte by byte, and
-- then the file. A socket is the list of the bytes that are still to come; `sizes` says how many of
-- them each call of `read` delivers, one at least and no more than asked for, and 0 is its answer at
-- the end. Errors of `read`, the progress bar and what is printed are left out.
pub mod Body
pub mod Text
pub mod Response
pub mod Fetch
mod Tests
use study_c_know.Common.{
  ℕ, zero, suc, ◌+◌, ◌-◌, ◌^◌, Bool, true, false, ◌||◌, Option, none, some, List, [], ◌∷◌, ◌++◌,
  ◌==◌, ltb, if◌then◌else◌, length, take, drop, reverse,
}
use study_c_know.Common.Int.{ℤ, pos, negsuc, ltb_ℤ, ◌==ℤ◌}
use study_c_know.Common.Array.{◌>>=◌}
use study_c_know.Url.{starts_with}

-- How many bytes the read number `t` delivers, where there are so many.
abbrev pub amount : (sizes : ℕ → ℕ) → (t size : ℕ) → ℕ
amount sizes t size = if ltb (sizes t) size then suc (sizes t) else size

-- The loop of `download`: what the file contains in the end, and the number of bytes. A sum that does
-- not fit an int is `none`. A read that comes after content_length bytes is lost.
unfoldable pub download_loop :
    (fuel : ℕ)
    → (sizes : ℕ → ℕ) → (t : ℕ) → (content_length : ℤ) → (socket file : List ℕ)
    → (length_so_far : ℕ) → Option (List ℕ × ℕ)
download_loop zero sizes t content_length socket file n = none
download_loop (suc fuel) sizes t content_length [] file n = some (file, n)
download_loop (suc fuel) sizes t content_length (b ∷ socket) file n =
    let buf = take (amount sizes t 4096) (b ∷ socket) in
    if ltb_ℤ (pos n) content_length
    then (if ltb (n + length buf) (2 ^ 31)
        then download_loop fuel sizes (suc t) content_length
            (drop (amount sizes t 4096) (b ∷ socket)) (file ++ buf) (n + length buf)
        else none)
    else some (file, n)

-- `download`, where the file could be opened: its content, and whether the download was successful.
unfoldable pub download :
    (fuel : ℕ)
    → (sizes : ℕ → ℕ) → (t : ℕ) → (content_length : ℤ) → (socket : List ℕ) → Option (List ℕ × Bool)
download fuel sizes t content_length socket = do
  (file, n) ← download_loop fuel sizes t content_length socket [] 0
  some (file, pos n ==ℤ content_length)

-- The text in a memory up to its end; `none` is a memory without one.
unfoldable pub text_of : List ℕ → Option (List ℕ)
text_of [] = none
text_of (c ∷ memory) = if c == 0 then some [] else text_of memory >>= λ text. some (c ∷ text)

-- strcat(response, buf), where buf is one character and its end: `none` is a write behind the memory.
unfoldable pub put_char : (response : List ℕ) → (c : ℕ) → Option (List ℕ)
put_char [] c = none
put_char (x ∷ memory) c =
    if x == 0
    then (if c == 0 then some (x ∷ memory) else put_end c memory)
    else put_char memory c >>= λ rest. some (x ∷ rest)
  where
    put_end : ℕ → List ℕ → Option (List ℕ)
    put_end c [] = none
    put_end c (y ∷ rest) = some (c ∷ 0 ∷ rest)

-- The loop that counts the line ends at the end of the response; `none` is an access before it.
unfoldable pub newlines : (reversed : List ℕ) → Option ℕ
newlines [] = none
newlines (c ∷ text) =
    if (c == 10) || (c == 13) then (newlines text >>= λ n. some (suc n)) else some 0

-- How the loop that reads the header ends: by `exit`, or with the response and the rest of the socket.
pub data Outcome : Type 0 where
  exited : ℤ → Outcome
  got : (response socket : List ℕ) → Outcome

-- if (length + len > mem_size), the memory is doubled, where `realloc` does not fail: then it gives
-- the cells that are new.
unfoldable pub grow :
    (realloc : ℕ → Option (List ℕ)) → (response : List ℕ) → (n : ℕ) → Option (List ℕ)
grow realloc response n =
    if ltb (length response) (n + 1)
    then (realloc (length response) >>= λ fresh. some (response ++ fresh))
    else some response

-- The loop over the bytes of the header.
unfoldable pub response_loop :
    (realloc : ℕ → Option (List ℕ)) → (socket response : List ℕ) → (n : ℕ) → Option Outcome
response_loop realloc [] response n = some (got response [])
response_loop realloc (c ∷ socket) response n = after_grow (grow realloc response n) λ larger. do
  response' ← put_char larger c
  text ← text_of response'
  flag ← newlines (reverse text)
  if flag == 4 then some (got response' socket) else response_loop realloc socket response' (n + 1)
  where
    after_grow : Option (List ℕ) → (List ℕ → Option Outcome) → Option Outcome
    after_grow none more = some (exited (negsuc 0))
    after_grow (some larger) more = more larger

-- strstr(text, pattern)
unfoldable pub find_text : (pattern text : List ℕ) → Option (List ℕ)
find_text pattern [] = none
find_text pattern (c ∷ text) =
    if starts_with pattern (c ∷ text) then some (c ∷ text) else find_text pattern text

-- struct resp_header without the name of the file
pub record RespHeader : Type 0 where
  pub status_code : ℤ
  pub content_type : List ℕ
  pub content_length : ℤ

-- "HTTP/", "Content-Type:" and "Content-Length:"
abbrev pub http_mark : List ℕ
http_mark = 72 ∷ 84 ∷ 84 ∷ 80 ∷ 47 ∷ []

abbrev pub type_mark : List ℕ
type_mark = 67 ∷ 111 ∷ 110 ∷ 116 ∷ 101 ∷ 110 ∷ 116 ∷ 45 ∷ 84 ∷ 121 ∷ 112 ∷ 101 ∷ 58 ∷ []

abbrev pub length_mark : List ℕ
length_mark =
    67 ∷ 111 ∷ 110 ∷ 116 ∷ 101 ∷ 110 ∷ 116 ∷ 45 ∷ 76 ∷ 101 ∷ 110 ∷ 103 ∷ 116 ∷ 104 ∷ 58 ∷ []

-- A field keeps its value where it is not found.
abbrev pub or_old : {A : Type 0} → Option A → A → A
or_old none old = old
or_old (some a) old = a

-- `number` and `word` are sscanf with "%*s %d" or "%*s %ld", and with "%*s %s"; `old` is what is in
-- the variable that is not initialised.
unfoldable pub get_resp_header :
    (number : List ℕ → Option ℤ)
    → (word : List ℕ → Option (List ℕ)) → (old : RespHeader) → (response : List ℕ) → RespHeader
get_resp_header number word old response = record {
  status_code = or_old (find_text http_mark response >>= number) old.status_code;
  content_type = or_old (find_text type_mark response >>= word) old.content_type;
  content_length = or_old (find_text length_mark response >>= number) old.content_length;
}

-- How the program ends: by `exit`, or with what the file contains and whether that is all.
pub data Fetched : Type 0 where
  gone : ℤ → Fetched
  fetched : (file : List ℕ) → (complete : Bool) → Fetched

-- `main` from the loop that reads the header on, with the file open.
unfoldable pub fetch_file :
    (realloc : ℕ → Option (List ℕ))
    → (number : List ℕ → Option ℤ) → (word : List ℕ → Option (List ℕ)) → (old : RespHeader)
    → (sizes : ℕ → ℕ) → (fuel : ℕ) → (socket response : List ℕ) → Option Fetched
fetch_file realloc number word old sizes fuel socket response =
    response_loop realloc socket response 0 >>= after_header
  where
    after_header : Outcome → Option Fetched
    after_header (exited status) = some (gone status)
    after_header (got response' rest) = do
      text ← text_of response'
      (file, complete) ←
          download fuel sizes 0 ((get_resp_header number word old text).content_length) rest
      some (fetched file complete)
