-- ===== src/Download/Response.antt =====
-- The loop of 线程/httpdownload.c that reads the header of the response.
use mathlib.Core.List.{append-nil, append_assoc}
use study_c_know.Common.{
  ℕ, suc, ◌+◌, ◌-◌, ◌≤◌, ◌≡◌, ◌≢◌, refl, false, Option, some, List, [], ◌∷◌, ◌++◌, ◌==◌, ltb,
  if◌then◌else◌, length, length-append, arith, reverse, ap, sym, ◌∙◌,
}
use study_c_know.Download.{text_of, newlines, got, grow, response_loop}
use study_c_know.Download.Text.{
  not_less, Plain, Text, Lines, header, Holds, put_char-stored, text_of-stored, Text-append,
  reverse_aux-snoc, At, not_end, line_end, Plain-Text, Text-join, header-Text,
}

module _ (realloc : ℕ → Option (List ℕ)) where
  -- The memory that is left after one character.
  step :
      (c : ℕ) (socket text memory : List ℕ) (j k : ℕ)
      → Holds memory text (suc j)
      → Text text
      → (c == 0) ≡ false
      → newlines (c ∷ reverse text) ≡ some k
      → (memory' : List ℕ) × Holds memory' (text ++ c ∷ []) j
        × (response_loop realloc (c ∷ socket) memory (length text) ≡ (
            if k == 4
            then some (got memory' socket)
            else response_loop realloc socket memory' (length text + 1)))
  unfolding response_loop grow
  step c socket text memory j k ([], same, size) ok some_c ends = absurd (omega arith)
  step c socket text memory j k ((y ∷ junk), same, size) ok some_c ends =
      let n = length text in
      let large : ltb (length (text ++ 0 ∷ y ∷ junk)) (n + 1) ≡ false =
        not_less _ _ (omega (arith, length-append text (0 ∷ y ∷ junk))) in
      let memory' = (text ++ c ∷ []) ++ 0 ∷ junk in
      (
        memory',
        (junk, refl, omega arith),
        rw
            (
              same,
              large,
              put_char-stored text junk y c ok some_c,
              text_of-stored (text ++ c ∷ []) junk (Text-append text c ok some_c),
              reverse_aux-snoc text [] c,
              ends,
            )
            refl,
      )

  -- A character after which the loop goes on.
  go_on :
      (c : ℕ) (socket text memory : List ℕ) (j k : ℕ)
      → Holds memory text (suc j)
      → Text text
      → (c == 0) ≡ false
      → newlines (c ∷ reverse text) ≡ some k
      → (k == 4) ≡ false
      → (memory' : List ℕ) × At (text ++ c ∷ []) memory' j k
        × (response_loop realloc (c ∷ socket) memory (length text)
            ≡ response_loop realloc socket memory' (length (text ++ c ∷ [])))
  go_on c socket text memory j k holds ok some_c ends other =
      let (memory', holds', run) = step c socket text memory j k holds ok some_c ends in
      let e : length text + 1 ≡ length (text ++ c ∷ []) =
        omega (arith, length-append text (c ∷ [])) in
      (
        memory',
        (holds', Text-append text c ok some_c, ap newlines (reverse_aux-snoc text [] c) ∙ ends),
        run ∙ rw (other, e) refl,
      )

  -- Characters in a line, after the first one.
  chars :
      (cs rest text memory : List ℕ) (j : ℕ)
      → Plain cs
      → At text memory (length cs + j) 0
      → (memory' : List ℕ) × At (text ++ cs) memory' j 0
        × (response_loop realloc (cs ++ rest) memory (length text)
            ≡ response_loop realloc rest memory' (length (text ++ cs)))
  chars [] rest text memory j plain at =
      let e : 0 + j ≡ j = omega arith in
      let at' = rw e at at in (memory, rw (append-nil text) at', rw (append-nil text) refl)
  chars (c ∷ cs) rest text memory j plain (holds, ok, ends) =
      let e : suc (length cs) + j ≡ suc (length cs + j) = omega arith in
      let holds' = rw e at holds in
      let (m1, at1, run1) =
        go_on c (cs ++ rest) text memory (length cs + j) 0 holds' ok (plain.0)
          (not_end c 0 (reverse text) (plain.1)) refl in
      let (m2, at2, run2) = chars cs rest (text ++ c ∷ []) m1 j (plain.2) at1 in
      let glue = append_assoc text (c ∷ []) cs in
      (m2, rw (sym glue) at2, run1 ∙ run2 ∙ rw glue refl)

  -- The two characters of a line end.
  line_feed :
      (rest text memory : List ℕ) (j : ℕ)
      → At text memory (suc (suc j)) 0
      → (memory' : List ℕ) × At (text ++ 13 ∷ 10 ∷ []) memory' j 2
        × (response_loop realloc (13 ∷ 10 ∷ rest) memory (length text)
            ≡ response_loop realloc rest memory' (length (text ++ 13 ∷ 10 ∷ [])))
  line_feed rest text memory j (holds, ok, ends) =
      let (m1, (h1, o1, e1), run1) =
        go_on 13 (10 ∷ rest) text memory (suc j) 1 holds ok refl
          (line_end 13 0 (reverse text) refl ends) refl in
      let (m2, at2, run2) =
        go_on 10 rest (text ++ 13 ∷ []) m1 j 2 h1 o1 refl
          (line_end 10 1 (reverse (text ++ 13 ∷ [])) refl e1) refl in
      let glue = append_assoc text (13 ∷ []) (10 ∷ []) in
      (m2, rw (sym glue) at2, run1 ∙ run2 ∙ rw glue refl)

  -- The empty line after a line end.
  last_line :
      (rest text memory : List ℕ) (j : ℕ)
      → At text memory (suc (suc j)) 2
      → (memory' : List ℕ) × Holds memory' (text ++ 13 ∷ 10 ∷ []) j
        × (response_loop realloc (13 ∷ 10 ∷ rest) memory (length text) ≡ some (got memory' rest))
  last_line rest text memory j (holds, ok, ends) =
      let (m1, (h1, o1, e1), run1) =
        go_on 13 (10 ∷ rest) text memory (suc j) 3 holds ok refl
          (line_end 13 2 (reverse text) refl ends) refl in
      let (m2, h2, run2) =
        step 10 rest (text ++ 13 ∷ []) m1 j 4 h1 o1 refl
          (line_end 10 3 (reverse (text ++ 13 ∷ [])) refl e1) in
      let glue = append_assoc text (13 ∷ []) (10 ∷ []) in (m2, rw (sym glue) h2, run1 ∙ run2)

  -- A line and its end.
  one_line :
      (l rest text memory : List ℕ) (j : ℕ)
      → l ≢ []
      → Plain l
      → Holds memory text (length l + suc (suc j))
      → Text text
      → (memory' : List ℕ) × At (text ++ (l ++ 13 ∷ 10 ∷ [])) memory' j 2
        × (response_loop realloc (l ++ 13 ∷ 10 ∷ rest) memory (length text)
            ≡ response_loop realloc rest memory' (length (text ++ (l ++ 13 ∷ 10 ∷ []))))
  one_line [] rest text memory j ne plain holds ok = absurd (ne refl)
  one_line (c ∷ cs) rest text memory j ne plain holds ok =
      let e : suc (length cs) + suc (suc j) ≡ suc (length cs + suc (suc j)) = omega arith in
      let holds' = rw e at holds in
      let (m1, at1, run1) =
        go_on c (cs ++ 13 ∷ 10 ∷ rest) text memory (length cs + suc (suc j)) 0 holds' ok (plain.0)
          (not_end c 0 (reverse text) (plain.1)) refl in
      let (m2, at2, run2) =
        chars cs (13 ∷ 10 ∷ rest) (text ++ c ∷ []) m1 (suc (suc j)) (plain.2) at1 in
      let (m3, at3, run3) = line_feed rest ((text ++ c ∷ []) ++ cs) m2 j at2 in
      let glue : ((text ++ c ∷ []) ++ cs) ++ 13 ∷ 10 ∷ [] ≡ text ++ (c ∷ (cs ++ 13 ∷ 10 ∷ [])) =
        append_assoc (text ++ c ∷ []) cs (13 ∷ 10 ∷ [])
        ∙ append_assoc text (c ∷ []) (cs ++ 13 ∷ 10 ∷ []) in
      (m3, rw (sym glue) at3, run1 ∙ run2 ∙ run3 ∙ rw glue refl)

  -- The lines that follow, and the empty line.
  following :
      (ls : List (List ℕ)) (body text memory : List ℕ) (j : ℕ)
      → Lines ls
      → At text memory (length (header ls) + j) 2
      → (memory' : List ℕ) × Holds memory' (text ++ header ls) j
        × (response_loop realloc (header ls ++ body) memory (length text) ≡ some (got memory' body))
  unfolding header
  following [] body text memory j lines at =
      let e : 2 + j ≡ suc (suc j) = omega arith in last_line body text memory j (rw e at at)
  following (l ∷ ls) body text memory j lines (holds, ok, ends) =
      let e : length (l ++ 13 ∷ 10 ∷ header ls) + j
          ≡ length l + suc (suc (length (header ls) + j)) =
        omega (arith, length-append l (13 ∷ 10 ∷ header ls)) in
      let holds' = rw e at holds in
      let (m1, at1, run1) =
        one_line l (header ls ++ body) text memory (length (header ls) + j) (lines.0) (lines.1)
          holds' ok in
      let (m2, h2, run2) = following ls body (text ++ (l ++ 13 ∷ 10 ∷ [])) m1 j (lines.2) at1 in
      let glue : (text ++ (l ++ 13 ∷ 10 ∷ [])) ++ header ls ≡ text ++ (l ++ 13 ∷ 10 ∷ header ls) =
        append_assoc text (l ++ 13 ∷ 10 ∷ []) (header ls)
        ∙ ap (λ t. text ++ t) (append_assoc l (13 ∷ 10 ∷ []) (header ls)) in
      (m2, rw (sym glue) h2, rw (append_assoc l (13 ∷ 10 ∷ header ls) body) (run1 ∙ run2))

  -- If the memory that `malloc` gives begins with the end of a text and has room for the header and its
  -- end, then the loop reads a header, which has a line at least, up to its empty line and no further:
  -- the response is the header, and what follows it stays in the socket.
  pub response_loop-header :
      (l : List ℕ) (ls : List (List ℕ)) (body junk : List ℕ)
      → Lines (l ∷ ls)
      → length (header (l ∷ ls)) ≤ length junk
      → (response : List ℕ) × (response_loop realloc (header (l ∷ ls) ++ body) (0 ∷ junk) 0
          ≡ some (got response body))
        × (text_of response ≡ some (header (l ∷ ls)))
  unfolding header
  response_loop-header l ls body junk lines room =
      let j = length junk - length (header (l ∷ ls)) in
      let size : length junk ≡ length l + suc (suc (length (header ls) + j)) =
        omega (arith, length-append l (13 ∷ 10 ∷ header ls)) in
      let (m1, at1, run1) =
        one_line l (header ls ++ body) [] (0 ∷ junk) (length (header ls) + j) (lines.0) (lines.1)
          (junk, refl, size) tt in
      let (m2, (junk', same, size'), run2) =
        following ls body (l ++ 13 ∷ 10 ∷ []) m1 j (lines.2) at1 in
      let glue = append_assoc l (13 ∷ 10 ∷ []) (header ls) in
      let ok =
        Text-join l (13 ∷ 10 ∷ header ls) (Plain-Text l (lines.1))
          (refl, (refl, header-Text ls (lines.2))) in
      (
        m2,
        rw (append_assoc l (13 ∷ 10 ∷ header ls) body) (run1 ∙ run2),
        rw (same, glue) (text_of-stored (l ++ 13 ∷ 10 ∷ header ls) junk' ok),
      )
