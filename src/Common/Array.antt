-- ===== src/Common/Array.antt =====
-- C arrays: a list of cells, with accesses that fault (`none`) outside the array.
use Prim.Native.Nat.{ℕ, zero, suc, ◌+◌, ◌<◌, ◌≤◌}
use mathlib.Core.Path.{◌≡◌, refl, ap, ap₂, ◌∙◌}
use mathlib.Core.List.{List, [], ◌∷◌, ◌++◌}
use mathlib.Core.Option.{Option, none, some}
use native.Mathlib.Omega.{arith}
use study_c_know.Common.Tests.{ltb, ◌==◌, if◌then◌else◌}
use study_c_know.Common.Lists.{length, get_elem?, get_or, set, take, drop}

-- `none` is an access outside an object, which C leaves undefined.
infixl 5 ◌>>=◌ ◌>>◌
abbrev pub ◌>>=◌ {ℓ κ} : {A : Type ℓ} {B : Type κ} → Option A → (A → Option B) → Option B
none >>= f = none
some a >>= f = f a

abbrev pub ◌>>◌ {ℓ κ} : {A : Type ℓ} {B : Type κ} → Option A → Option B → Option B
m >> k = m >>= λ _. k

module _ {ℓ} {A : Type ℓ} where
  -- `a[i]`
  abbrev pub load : List A → ℕ → Option A
  load = get_elem?

  -- `a[i] = v`
  unfoldable pub store : List A → ℕ → A → Option (List A)
  store a i v = if ltb i (length a) then some (set a i v) else none

  pub store-some : (a : List A) (i : ℕ) (v : A) → i < length a → store a i v ≡ some (set a i v)
  unfolding store
  store-some a i v h = ground arith

  -- Reading below the length succeeds.
  pub load-some : (a : List A) (i : ℕ) → i < length a → (v : A) × (load a i ≡ some v)
  load-some [] i h = absurd (omega arith)
  load-some (x ∷ xs) zero h = (x, refl)
  load-some (x ∷ xs) (suc i) h = load-some xs i (omega arith)

  pub get_elem?-set :
      (xs : List A) (i j : ℕ) (v : A)
      → i < length xs
      → get_elem? (set xs i v) j ≡ (if i == j then some v else get_elem? xs j)
  get_elem?-set [] i j v h = absurd (omega arith)
  get_elem?-set (x ∷ xs) zero zero v h = refl
  get_elem?-set (x ∷ xs) zero (suc j) v h = ground arith
  get_elem?-set (x ∷ xs) (suc i) zero v h = ground arith
  get_elem?-set (x ∷ xs) (suc i) (suc j) v h = ground (arith, get_elem?-set xs i j v)

  pub get_elem?-take :
      (n : ℕ) (xs : List A) (j : ℕ)
      → get_elem? (take n xs) j ≡ (if ltb j n then get_elem? xs j else none)
  get_elem?-take zero xs j = ground arith
  get_elem?-take (suc n) [] j = ground arith
  get_elem?-take (suc n) (x ∷ xs) zero = ground arith
  get_elem?-take (suc n) (x ∷ xs) (suc j) = ground (arith, get_elem?-take n xs j)

  drop-suc : (i : ℕ) (x : A) (xs : List A) → drop (i + 1) xs ≡ drop (suc i + 1) (x ∷ xs)
  drop-suc i x xs = let e : suc i + 1 ≡ suc (i + 1) = omega arith in rw e

  pub take-take : (k n : ℕ) (xs : List A) → k ≤ n → take k (take n xs) ≡ take k xs
  take-take zero n xs h = refl
  take-take (suc k) zero xs h = absurd (omega arith)
  take-take (suc k) (suc n) [] h = refl
  take-take (suc k) (suc n) (x ∷ xs) h = ap (λ t. x ∷ t) (take-take k n xs (omega arith))

  pub take_left : (xs ys : List A) → take (length xs) (xs ++ ys) ≡ xs
  take_left [] ys = refl
  take_left (x ∷ xs) ys = ap (λ t. x ∷ t) (take_left xs ys)

  pub get_elem?-none : (xs : List A) (j : ℕ) → length xs ≤ j → get_elem? xs j ≡ none
  get_elem?-none [] j h = refl
  get_elem?-none (x ∷ xs) zero h = absurd (omega arith)
  get_elem?-none (x ∷ xs) (suc j) h = get_elem?-none xs j (omega arith)

  -- Reading at `i` opens the rest of the list from `i` on.
  pub take-drop-cons :
      (k i : ℕ) (v : A) (xs : List A)
      → get_elem? xs i ≡ some v
      → take (suc k) (drop i xs) ≡ v ∷ take k (drop (i + 1) xs)
  take-drop-cons k i v [] e = cc
  take-drop-cons k zero v (x ∷ xs) e = ground arith
  take-drop-cons k (suc i) v (x ∷ xs) e =
      take-drop-cons k i v xs e ∙ ap (λ t. v ∷ take k t) (drop-suc i x xs)

  -- Two lists with the same elements at every index are equal.
  pub eq_of_get_elem? : (xs ys : List A) → ((j : ℕ) → get_elem? xs j ≡ get_elem? ys j) → xs ≡ ys
  eq_of_get_elem? [] [] h = refl
  eq_of_get_elem? [] (y ∷ ys) h = let e = h 0 in cc
  eq_of_get_elem? (x ∷ xs) [] h = let e = h 0 in cc
  eq_of_get_elem? (x ∷ xs) (y ∷ ys) h =
      ap₂ ◌∷◌ (heads (h 0)) (eq_of_get_elem? xs ys (λ j. h (suc j)))
    where
      heads : some x ≡ some y → x ≡ y
      heads e = cc

  -- for (; rounds left; i++) use(a[i]);  The values in the order in which they are used.
  unfoldable pub read_range : List A → (i rounds : ℕ) → Option (List A)
  read_range a i zero = some []
  read_range a i (suc k) = do v ← load a i; rest ← read_range a (i + 1) k; some (v ∷ rest)

  pub read_range-drop :
      (a : List A) (i k : ℕ) → i + k ≤ length a → read_range a i k ≡ some (take k (drop i a))
  unfolding read_range
  read_range-drop a i zero h = refl
  read_range-drop a i (suc k) h =
      let (v, e) = load-some a i (omega arith) in
      rw (e, take-drop-cons k i v a e, read_range-drop a (i + 1) k (omega arith))

  pub get_or-set :
      (d : A) (a : List A) (i j : ℕ) (x : A)
      → i < length a
      → get_or (set a i x) j d ≡ (if i == j then x else get_or a j d)
  get_or-set d [] i j x h = absurd (omega arith)
  get_or-set d (y ∷ a) zero zero x h = refl
  get_or-set d (y ∷ a) zero (suc j) x h = ground arith
  get_or-set d (y ∷ a) (suc i) zero x h = ground arith
  get_or-set d (y ∷ a) (suc i) (suc j) x h = ground (arith, get_or-set d a i j x)

  pub get_elem?-get_or :
      (d : A) (a : List A) (i : ℕ) → i < length a → get_elem? a i ≡ some (get_or a i d)
  get_elem?-get_or d [] i h = absurd (omega arith)
  get_elem?-get_or d (y ∷ a) zero h = refl
  get_elem?-get_or d (y ∷ a) (suc i) h = get_elem?-get_or d a i (omega arith)
