-- ===== src/Url/Tests.antt =====
-- The address http://a.b:81/f, with the buffers of main.
use study_c_know.Common.{
  ℕ, ◌+◌, ◌-◌, ◌*◌, ◌≡◌, refl, Option, none, some, List, [], ◌∷◌, ◌++◌, arith,
}
use study_c_know.Common.Int.{ℤ, pos}
use study_c_know.Url.{parse_url}
use study_c_know.Url.Parts.{plain, address, parse_url-with_port}

-- A scan that reads a number of two digits behind the ':'.
abbrev two_digits : List ℕ → Option ℤ
two_digits (c ∷ a ∷ b ∷ []) = some (pos ((a - 48) * 10 + (b - 48)))
two_digits _ = none

abbrev host : List ℕ
host = 97 ∷ 46 ∷ 98 ∷ []

abbrev port : List ℕ
port = 56 ∷ 49 ∷ []

parse_url-with_port_example :
    parse_url 64 256 two_digits (address plain (host ++ 58 ∷ port) 102 [])
    ≡ some (host, (pos 81, 102 ∷ []))
parse_url-with_port_example =
    parse_url-with_port 64 256 two_digits plain host port (pos 81) 102 [] (refl, (refl, (refl, tt)))
      (refl, (refl, (refl, tt))) (refl, (refl, tt)) (refl, tt) refl (omega arith) (omega arith)
      (omega arith)
