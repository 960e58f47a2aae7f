-- ===== src/Url/Parts.antt =====
-- Round trip of `parse_url`: an address that is put together from its parts is taken apart again.
use study_c_know.Common.{
  ℕ, ◌+◌, ◌<◌, ◌≤◌, ◌≡◌, refl, ap, ◌∙◌, true, false, Option, none, some, List, [], ◌∷◌, ◌++◌,
  length, length-append, drop, ◌==◌, ltb, arith,
}
use study_c_know.Common.Int.{ℤ, pos}
use study_c_know.Url.{
  starts_with, http, https, start_loop, before, from_colon, fits, append, name_loop, port_of,
  parse_url,
}

-- A text without a mark.
abbrev pub Without : ℕ → List ℕ → Type 0
Without k [] = Unit {0}
Without k (c ∷ cs) = ((c == k) ≡ false) × Without k cs

before-mark : (k : ℕ) (a f : List ℕ) → Without k a → before k (a ++ k ∷ f) ≡ a
unfolding before
before-mark k [] f h = let e : (k == k) ≡ true = ground arith in rw e refl
before-mark k (c ∷ cs) f (h, hs) = rw (h, before-mark k cs f hs) refl

from_colon-mark : (a p : List ℕ) → Without 58 a → from_colon (a ++ 58 ∷ p) ≡ some (58 ∷ p)
unfolding from_colon
from_colon-mark [] p h = refl
from_colon-mark (c ∷ cs) p (h, hs) = rw (h, from_colon-mark cs p hs) refl

snoc-app : (xs : List ℕ) (c : ℕ) (ys : List ℕ) → (xs ++ (c ∷ [])) ++ ys ≡ xs ++ c ∷ ys
snoc-app [] c ys = refl
snoc-app (x ∷ xs) c ys = ap (λ t. x ∷ t) (snoc-app xs c ys)

append-room :
    (size : ℕ) (name : List ℕ) (c : ℕ)
    → length name < size
    → append size name c ≡ some (name ++ (c ∷ []))
unfolding append
append-room size name c room = let e : ltb (length name) size ≡ true = ground arith in rw e refl

-- What stands before a '/' that is not the last character is forgotten.
name_loop-slash :
    (size : ℕ) (a : List ℕ) (g : ℕ) (gs name : List ℕ)
    → Without 47 a
    → length name + length a ≤ size
    → name_loop size (a ++ 47 ∷ g ∷ gs) name ≡ name_loop size (g ∷ gs) []
unfolding name_loop
name_loop-slash size [] g gs name h room = refl
name_loop-slash size (c ∷ []) g gs name (h, hs) room =
    rw (h, append-room size name c (omega arith)) refl
name_loop-slash size (c ∷ d ∷ cs) g gs name (h, hs) room =
    rw (h, append-room size name c (omega arith))
      (name_loop-slash size (d ∷ cs) g gs (name ++ (c ∷ [])) hs
        (omega (arith, length-append name (c ∷ []))))

-- The last part is the name.
name_loop-last :
    (size : ℕ) (g : ℕ) (gs name : List ℕ)
    → Without 47 (g ∷ gs)
    → length name + length (g ∷ gs) < size
    → name_loop size (g ∷ gs) name ≡ some (name ++ g ∷ gs)
unfolding name_loop fits
name_loop-last size g [] name (h, hs) room =
    let e : ltb (length (name ++ (g ∷ []))) size ≡ true =
      ground (arith, length-append name (g ∷ [])) in
    rw (h, append-room size name g (omega arith), e) refl
name_loop-last size g (d ∷ cs) name (h, hs) room =
    rw (h, append-room size name g (omega arith))
      (name_loop-last size d cs (name ++ (g ∷ [])) hs (omega (arith, length-append name (g ∷ [])))
        ∙ ap some (snoc-app name g (d ∷ cs)))

-- The scheme of an address.
pub data Scheme : Type 0 where
  plain secure : Scheme

abbrev pub scheme_text : Scheme → List ℕ
scheme_text plain = http
scheme_text secure = https

-- The address of a file: the authority is a host, and a port behind a ':' where it has one.
abbrev pub address : Scheme → (authority : List ℕ) → (g : ℕ) → (gs : List ℕ) → List ℕ
address s authority g gs = scheme_text s ++ (authority ++ 47 ∷ g ∷ gs)

start-scheme :
    (s : Scheme) (rest : List ℕ)
    → drop (start_loop (http ∷ https ∷ []) (scheme_text s ++ rest) 0) (scheme_text s ++ rest) ≡ rest
unfolding start_loop starts_with
start-scheme plain rest = refl
start-scheme secure rest = refl

fits-room : (size : ℕ) (text : List ℕ) → length text < size → fits size text ≡ some text
unfolding fits
fits-room size text room = let e : ltb (length text) size ≡ true = ground arith in rw e refl

-- The address is taken apart at its slashes.
parse_url-authority :
    (domain_size name_size : ℕ) (scan : List ℕ → Option ℤ) (s : Scheme) (a : List ℕ) (g : ℕ)
    (gs : List ℕ)
    → Without 47 a
    → Without 47 (g ∷ gs)
    → length a < domain_size
    → length a ≤ name_size
    → length (g ∷ gs) < name_size
    → parse_url domain_size name_size scan (address s a g gs)
      ≡ some (before 58 a, (port_of scan a, g ∷ gs))
unfolding parse_url
parse_url-authority domain_size name_size scan s a g gs no_slash one_part room passes name_room =
    rw
      (
        start-scheme s (a ++ 47 ∷ g ∷ gs),
        before-mark 47 a (g ∷ gs) no_slash,
        fits-room domain_size a room,
        name_loop-slash name_size a g gs [] no_slash (omega arith),
        name_loop-last name_size g gs [] one_part (omega arith),
      )
      refl

Without-append : (k : ℕ) (a b : List ℕ) → Without k a → Without k b → Without k (a ++ b)
Without-append k [] b h g = g
Without-append k (c ∷ cs) b (h, hs) g = (h, Without-append k cs b hs g)

before-none : (k : ℕ) (a : List ℕ) → Without k a → before k a ≡ a
unfolding before
before-none k [] h = refl
before-none k (c ∷ cs) (h, hs) = rw (h, before-none k cs hs) refl

from_colon-none : (a : List ℕ) → Without 58 a → from_colon a ≡ none
unfolding from_colon
from_colon-none [] h = refl
from_colon-none (c ∷ cs) (h, hs) = rw (h, from_colon-none cs hs) refl

-- Round trip: of the address of a file on a host with a port, with either scheme, `parse_url` gives
-- the host, the number of the port and the name back, if host and port have no '/', the host no ':'
-- and the name no '/', `sscanf` reads the port, and host with port and name fit their buffers.
pub parse_url-with_port :
    (domain_size name_size : ℕ) (scan : List ℕ → Option ℤ) (s : Scheme) (host port : List ℕ) (n : ℤ)
    (g : ℕ) (gs : List ℕ)
    → Without 47 host
    → Without 58 host
    → Without 47 port
    → Without 47 (g ∷ gs)
    → scan (58 ∷ port) ≡ some n
    → length (host ++ 58 ∷ port) < domain_size
    → length (host ++ 58 ∷ port) ≤ name_size
    → length (g ∷ gs) < name_size
    → parse_url domain_size name_size scan (address s (host ++ 58 ∷ port) g gs)
      ≡ some (host, (n, g ∷ gs))
unfolding port_of
parse_url-with_port domain_size name_size scan s host port n g gs h1 h2 h3 h4 number r1 r2 r3 =
    parse_url-authority domain_size name_size scan s (host ++ 58 ∷ port) g gs
      (Without-append 47 host (58 ∷ port) h1 (refl, h3)) h4 r1 r2 r3
    ∙ rw (before-mark 58 host port h2, from_colon-mark host port h2, number) refl

-- Of an address without a port `parse_url` gives the host, the port 80 and the name, if the host has
-- no '/' and no ':', the name has no '/', and both fit their buffers.
pub parse_url-default_port :
    (domain_size name_size : ℕ) (scan : List ℕ → Option ℤ) (s : Scheme) (host : List ℕ) (g : ℕ)
    (gs : List ℕ)
    → Without 47 host
    → Without 58 host
    → Without 47 (g ∷ gs)
    → length host < domain_size
    → length host ≤ name_size
    → length (g ∷ gs) < name_size
    → parse_url domain_size name_size scan (address s host g gs) ≡ some (host, (pos 80, g ∷ gs))
unfolding port_of
parse_url-default_port domain_size name_size scan s host g gs h1 h2 h4 r1 r2 r3 =
    parse_url-authority domain_size name_size scan s host g gs h1 h4 r1 r2 r3
    ∙ rw (before-none 58 host h2, from_colon-none host h2) refl
