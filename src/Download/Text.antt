-- ===== src/Download/Text.antt =====
-- Texts in memory and the lines of a header, for the loop of 线程/httpdownload.c that reads it.
use study_c_know.Common.{
  ℕ, suc, ◌≤◌, ◌≡◌, ◌≢◌, refl, true, false, ◌||◌, some, List, [], ◌∷◌, ◌++◌, ◌==◌, ltb, length,
  arith, reverse, reverse_aux,
}
use study_c_know.Download.{text_of, put_char, newlines}

pub not_less : (a b : ℕ) → b ≤ a → ltb a b ≡ false
not_less a b h = ground arith

-- No end of a text, and no end of a line.
abbrev pub Plain : List ℕ → Type 0
Plain [] = Unit {0}
Plain (c ∷ cs) = ((c == 0) ≡ false) × (((c == 10) || (c == 13)) ≡ false) × Plain cs

abbrev pub Text : List ℕ → Type 0
Text [] = Unit {0}
Text (c ∷ cs) = ((c == 0) ≡ false) × Text cs

-- Lines with a character at least.
abbrev pub Lines : List (List ℕ) → Type 0
Lines [] = Unit {0}
Lines (l ∷ ls) = (l ≢ []) × Plain l × Lines ls

-- Each line with its end, and an empty line.
unfoldable pub header : List (List ℕ) → List ℕ
header [] = 13 ∷ 10 ∷ []
header (l ∷ ls) = l ++ 13 ∷ 10 ∷ header ls

-- A memory with a text, and this number of cells behind its end.
abbrev pub Holds : List ℕ → List ℕ → ℕ → Type 0
Holds memory text j = (junk : List ℕ) × (memory ≡ text ++ 0 ∷ junk) × (length junk ≡ j)

pub put_char-stored :
    (text junk : List ℕ) (y c : ℕ)
    → Text text
    → (c == 0) ≡ false
    → put_char (text ++ 0 ∷ y ∷ junk) c ≡ some ((text ++ c ∷ []) ++ 0 ∷ junk)
unfolding put_char
put_char-stored [] junk y c h k = rw k refl
put_char-stored (x ∷ text) junk y c h k = rw (h.0, put_char-stored text junk y c (h.1) k) refl

pub text_of-stored : (text junk : List ℕ) → Text text → text_of (text ++ 0 ∷ junk) ≡ some text
unfolding text_of
text_of-stored [] junk h = refl
text_of-stored (x ∷ text) junk h = rw (h.0, text_of-stored text junk (h.1)) refl

pub Text-append : (text : List ℕ) (c : ℕ) → Text text → (c == 0) ≡ false → Text (text ++ c ∷ [])
Text-append [] c h k = (k, tt)
Text-append (x ∷ text) c h k = (h.0, Text-append text c (h.1) k)

pub reverse_aux-snoc :
    (xs acc : List ℕ) (c : ℕ) → reverse_aux (xs ++ c ∷ []) acc ≡ c ∷ reverse_aux xs acc
reverse_aux-snoc [] acc c = refl
reverse_aux-snoc (x ∷ xs) acc c = reverse_aux-snoc xs (x ∷ acc) c

-- A memory with a text that has this number of characters of line ends at its end.
abbrev pub At : List ℕ → (memory : List ℕ) → (j k : ℕ) → Type 0
At text memory j k = Holds memory text j × Text text × (newlines (reverse text) ≡ some k)

pub not_end :
    (c k : ℕ) (text : List ℕ) → ((c == 10) || (c == 13)) ≡ false → newlines (c ∷ text) ≡ some 0
unfolding newlines
not_end c k text h = rw h refl

pub line_end :
    (c k : ℕ) (text : List ℕ)
    → ((c == 10) || (c == 13)) ≡ true
    → newlines text ≡ some k
    → newlines (c ∷ text) ≡ some (suc k)
unfolding newlines
line_end c k text h e = rw (h, e) refl

pub Plain-Text : (cs : List ℕ) → Plain cs → Text cs
Plain-Text [] h = tt
Plain-Text (c ∷ cs) h = (h.0, Plain-Text cs (h.2))

pub Text-join : (xs ys : List ℕ) → Text xs → Text ys → Text (xs ++ ys)
Text-join [] ys h k = k
Text-join (x ∷ xs) ys h k = (h.0, Text-join xs ys (h.1) k)

pub header-Text : (ls : List (List ℕ)) → Lines ls → Text (header ls)
unfolding header
header-Text [] h = (refl, (refl, tt))
header-Text (l ∷ ls) h =
    Text-join l (13 ∷ 10 ∷ header ls) (Plain-Text l (h.1)) (refl, (refl, header-Text ls (h.2)))
