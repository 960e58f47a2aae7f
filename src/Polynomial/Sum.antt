-- ===== src/Polynomial/Sum.antt =====
-- What the terms of a polynomial mean, and what makes a list of terms the sum of two.
use study_c_know.Common.{
  ◌≡◌, true, false, List, [], ◌∷◌, if◌then◌else◌, arith, inl, inr, Bool-cases, sym,
}
use study_c_know.Common.Int.{ℤ, pos, ◌+ℤ◌, ◌==ℤ◌, ltb_ℤ, ==ℤ_iff, eq_of_parts, int_laws}
use study_c_know.Polynomial.{Pol}

-- The coefficient of the power `k`.
unfoldable pub coefficient : ℤ → List Pol → ℤ
coefficient k [] = pos 0
coefficient k (d ∷ ds) = if d.y ==ℤ k then d.x +ℤ coefficient k ds else coefficient k ds

-- The exponents ascend from above `b`.
abbrev pub Ascending : ℤ → List Pol → Type 0
Ascending b [] = Unit {0}
Ascending b (d ∷ ds) = (ltb_ℤ b d.y ≡ true) × Ascending d.y ds

-- No term is zero.
abbrev pub NonZero : List Pol → Type 0
NonZero [] = Unit {0}
NonZero (d ∷ ds) = ((d.x ==ℤ pos 0) ≡ false) × NonZero ds

-- The sum has the coefficients of both, and is in order and without zero terms where both are.
pub record IsSum (xs ys zs : List Pol) : Type 0 where
  pub coefficients : (k : ℤ) → coefficient k zs ≡ coefficient k xs +ℤ coefficient k ys
  pub ascends : (b : ℤ) → Ascending b xs → Ascending b ys → Ascending b zs
  pub non_zero : NonZero xs → NonZero ys → NonZero zs

plus-zero : (a : ℤ) → a +ℤ pos 0 ≡ a
plus-zero a = grind int_laws

zero-plus : (a : ℤ) → pos 0 +ℤ a ≡ a
zero-plus a = grind int_laws

plus_assoc : (a b c : ℤ) → (a +ℤ b) +ℤ c ≡ a +ℤ (b +ℤ c)
plus_assoc a b c = grind int_laws

plus_swap : (a b c : ℤ) → a +ℤ (b +ℤ c) ≡ b +ℤ (a +ℤ c)
plus_swap a b c = grind int_laws

plus_both : (a b c d : ℤ) → (a +ℤ b) +ℤ (c +ℤ d) ≡ (a +ℤ c) +ℤ (b +ℤ d)
plus_both a b c d = grind int_laws

plus_gone : (a b c d : ℤ) → a +ℤ b ≡ pos 0 → c +ℤ d ≡ (a +ℤ c) +ℤ (b +ℤ d)
plus_gone a b c d h = grind int_laws

-- An empty list on either side.
pub IsSum-left : (xs : List Pol) → IsSum xs [] xs
unfolding coefficient
IsSum-left xs = record {
  coefficients = λ k. sym (plus-zero (coefficient k xs));
  ascends = λ b h g. h;
  non_zero = λ h g. h;
}

pub IsSum-right : (ys : List Pol) → IsSum [] ys ys
unfolding coefficient
IsSum-right ys = record {
  coefficients = λ k. sym (zero-plus (coefficient k ys));
  ascends = λ b h g. g;
  non_zero = λ h g. g;
}

below :
    (b : ℤ) (d e : Pol) (ds : List Pol)
    → ltb_ℤ d.y e.y ≡ true
    → Ascending b (e ∷ ds)
    → Ascending d.y (e ∷ ds)
below b d e ds h (g, up) = (h, up)

-- The smaller of the first terms comes first.
pub IsSum-less :
    (d e : Pol) (xs ys zs : List Pol)
    → ltb_ℤ d.y e.y ≡ true
    → IsSum xs (e ∷ ys) zs
    → IsSum (d ∷ xs) (e ∷ ys) (d ∷ zs)
unfolding coefficient
IsSum-less d e xs ys zs less is = record {
  coefficients = λ k. elim (Bool-cases (d.y ==ℤ k)) [
    | inl same ↦ rw (same, is.coefficients k) (sym (plus_assoc _ _ _))
    | inr other ↦ rw other (is.coefficients k)
  ];
  ascends = λ b h g. (h.0, is.ascends d.y (h.1) (below b d e ys less g));
  non_zero = λ h g. (h.0, is.non_zero (h.1) g);
}

pub IsSum-greater :
    (d e : Pol) (xs ys zs : List Pol)
    → ltb_ℤ e.y d.y ≡ true
    → IsSum (d ∷ xs) ys zs
    → IsSum (d ∷ xs) (e ∷ ys) (e ∷ zs)
unfolding coefficient
IsSum-greater d e xs ys zs less is = record {
  coefficients = λ k. elim (Bool-cases (e.y ==ℤ k)) [
    | inl same ↦ rw (same, is.coefficients k) (plus_swap _ _ _)
    | inr other ↦ rw other (is.coefficients k)
  ];
  ascends = λ b h g. (g.0, is.ascends e.y (below b e d xs less h) (g.1));
  non_zero = λ h g. (g.0, is.non_zero h (g.1));
}

not_less_eq : (a b : ℤ) → ltb_ℤ a b ≡ false → ltb_ℤ b a ≡ false → a ≡ b
not_less_eq a b h g = eq_of_parts a b (ground arith)

weaken : (a b : ℤ) (ds : List Pol) → ltb_ℤ a b ≡ true → Ascending b ds → Ascending a ds
weaken a b [] h up = tt
weaken a b (d ∷ ds) h (g, up) = (ground arith, up)

-- Two terms with one exponent become one.
pub IsSum-both :
    (d e : Pol) (xs ys zs : List Pol)
    → ltb_ℤ d.y e.y ≡ false
    → ltb_ℤ e.y d.y ≡ false
    → ((d.x +ℤ e.x) ==ℤ pos 0) ≡ false
    → IsSum xs ys zs
    → IsSum (d ∷ xs) (e ∷ ys) (record d { x = d.x +ℤ e.x } ∷ zs)
unfolding coefficient
IsSum-both d e xs ys zs h1 h2 some_left is =
    let same : d.y ≡ e.y = not_less_eq d.y e.y h1 h2 in
    record {
      coefficients = λ k. elim (Bool-cases (d.y ==ℤ k)) [
        | inl here ↦ rw (here, sym same, here, is.coefficients k) (plus_both _ _ _ _)
        | inr other ↦ rw (other, sym same, other) (is.coefficients k)
      ];
      ascends = λ b h g. (h.0, is.ascends d.y (h.1) (rw same (g.1)));
      non_zero = λ h g. (some_left, is.non_zero (h.1) (g.1));
    }

pub IsSum-cancel :
    (d e : Pol) (xs ys zs : List Pol)
    → ltb_ℤ d.y e.y ≡ false
    → ltb_ℤ e.y d.y ≡ false
    → ((d.x +ℤ e.x) ==ℤ pos 0) ≡ true
    → IsSum xs ys zs
    → IsSum (d ∷ xs) (e ∷ ys) zs
unfolding coefficient
IsSum-cancel d e xs ys zs h1 h2 none_left is =
    let same : d.y ≡ e.y = not_less_eq d.y e.y h1 h2 in
    let gone : d.x +ℤ e.x ≡ pos 0 = (==ℤ_iff _ _).0 none_left in
    record {
      coefficients = λ k. elim (Bool-cases (d.y ==ℤ k)) [
        | inl here ↦ rw (here, sym same, here, is.coefficients k) (plus_gone _ _ _ _ gone)
        | inr other ↦ rw (other, sym same, other) (is.coefficients k)
      ];
      ascends = λ b h g. is.ascends b (weaken b d.y xs (h.0) (h.1)) (weaken b e.y ys (g.0) (g.1));
      non_zero = λ h g. is.non_zero (h.1) (g.1);
    }
