-- ===== src/Device/Ends.antt =====
-- Runs that end, with what they end in, and how they are put together.
use study_c_know.Common.{
  ◌≡◌, refl, Bool, true, false, Option, some, if◌then◌else◌, ap, ◌∙◌, sym, subst, List,
}
use study_c_know.Device.{Env, State, Io, Resource, and_then}

module _ {C : Type 0} where
  -- The run returns, and its result and its last state satisfy `Q`.
  pub record Ends {A : Type 0} (run : Option (A × State C)) (Q : A → State C → Type 0)
      : Type 0 where
    pub result : A
    pub last : State C
    pub returns : run ≡ some (result, last)
    pub post : Q result last

  pub Ends-pure :
      {A : Type 0} {Q : A → State C → Type 0} (a : A) (s : State C) → Q a s → Ends (some (a, s)) Q
  Ends-pure a s q = record { result = a; last = s; returns = refl; post = q }

  pub Ends-mono :
      {A : Type 0} {o : Option (A × State C)} {P Q : A → State C → Type 0}
      → Ends o P
      → ((a : A) (t : State C) → P a t → Q a t)
      → Ends o Q
  Ends-mono r f = record {
    result = r.result;
    last = r.last;
    returns = r.returns;
    post = f r.result r.last r.post;
  }

  pub Ends-bind :
      {A B : Type 0} {o : Option (A × State C)} (k : A → Io C B) (e : Env C)
      {P : A → State C → Type 0} {Q : B → State C → Type 0}
      → Ends o P
      → ((a : A) (t : State C) → P a t → Ends (k a e t) Q)
      → Ends (and_then o k e) Q
  Ends-bind k e r f =
      let u = f r.result r.last r.post in
      record {
        result = u.result;
        last = u.last;
        returns = ap (λ o. and_then o k e) r.returns ∙ u.returns;
        post = u.post;
      }

  -- Either way of a test.
  pub Ends-if :
      {A : Type 0} {o p : Option (A × State C)} {Q : A → State C → Type 0} (b : Bool)
      → (b ≡ true → Ends o Q)
      → (b ≡ false → Ends p Q)
      → Ends (if b then o else p) Q
  Ends-if true f g = f refl
  Ends-if false f g = g refl

  -- A run from a state whose resources are known.
  pub Ends-at :
      {A : Type 0} (k : Io C A) (e : Env C) (s : State C) {held : List Resource}
      {Q : A → State C → Type 0}
      → s.held ≡ held
      → Ends (k e (record { time = s.time; held = held; trace = s.trace })) Q
      → Ends (k e s) Q
  Ends-at k e s {held} {Q} own r =
      subst (λ h. Ends (k e (record { time = s.time; held = h; trace = s.trace })) Q) (sym own) r
