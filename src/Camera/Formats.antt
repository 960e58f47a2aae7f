-- ===== src/Camera/Formats.antt =====
-- v4l2_enum_formats and v4l2_print_formats end inside the array of ten formats.
use study_c_know.Common.{
  ℕ, zero, suc, ◌+◌, ◌<◌, ◌≡◌, refl, false, some, List, ◌∷◌, length, set, get_or, get_elem?,
  length-set, ◌==◌, arith,
}
use study_c_know.Common.Int.{pos, ◌==ℤ◌}
use study_c_know.Common.Array.{store-some, load-some, get_elem?-set}
use study_c_know.Device.{Env}
use study_c_know.Device.Ends.{Ends, Ends-pure, Ends-if, Ends-bind, Ends-at}
use study_c_know.Camera.{
  Call, enum_fmt, enum_frame_sizes, enum_frame_intervals, enum_loop, rate_loop, size_loop,
  format_loop,
}
use study_c_know.Camera.Driver.{Driver, replay, owned, Kept, state}

-- The camera has fewer than ten formats, and each has finitely many sizes and rates.
pub record IsFinite (e : Env Call) (formats sizes rates : ℕ) : Type 0 where
  pub few : formats < 10
  pub no_format : (t : ℕ) → (e.answer (enum_fmt formats) t ==ℤ pos 0) ≡ false
  pub no_size : (f t : ℕ) → (e.answer (enum_frame_sizes f sizes) t ==ℤ pos 0) ≡ false
  pub no_rate : (f w h t : ℕ) → (e.answer (enum_frame_intervals f w h rates) t ==ℤ pos 0) ≡ false
  pub rate :
      (f w h i t : ℕ) → (get_or (e.payload (enum_frame_intervals f w h i) t) 1 0 == 0) ≡ false

module _ {e : Env Call} {formats sizes rates : ℕ} (is : IsFinite e formats sizes rates)
    (d : Driver) where
  pub enum_loop-Kept :
      (k fuel index : ℕ) (table : List ℕ) (m : ℕ) (us : List Call)
      → index + k ≡ formats
      → k < fuel
      → length table ≡ 10
      → get_elem? table formats ≡ some 0
      → replay e m us ≡ some d
      → Ends
          (enum_loop fuel index table e (state m owned us))
          λ table' t. Kept e owned d t × (length table' ≡ 10) × (get_elem? table' formats ≡ some 0)
  unfolding enum_loop
  enum_loop-Kept k zero index table m us at enough size last ok = absurd (omega arith)
  enum_loop-Kept zero (suc fuel) index table m us at enough size last ok =
      let here : index ≡ formats = omega arith in
      rw (here, is.no_format m) (Ends-pure _ _ ((refl, rw ok refl), size, last))
  enum_loop-Kept (suc k) (suc fuel) index table m us at enough size last ok =
      Ends-if (e.answer (enum_fmt index) m ==ℤ pos 0)
        (λ more.
          let v = get_or (e.payload (enum_fmt index) m) 0 0 in
          let few = is.few in
          rw (store-some table index v (omega arith)) (
            enum_loop-Kept k fuel (index + 1) (set table index v) (suc m) (enum_fmt index ∷ us)
              (omega arith) (omega arith) (omega (arith, length-set table index v))
              (ground (arith, get_elem?-set table index formats v (omega arith))) (rw ok refl)))
        (λ done. Ends-pure _ _ ((refl, rw ok refl), size, last))

  rate_loop-Kept :
      (k fuel f w h index m : ℕ) (us : List Call)
      → index + k ≡ rates
      → k < fuel
      → replay e m us ≡ some d
      → Ends (rate_loop fuel f w h index e (state m owned us)) λ r t. Kept e owned d t
  unfolding rate_loop
  rate_loop-Kept k zero f w h index m us at enough ok = absurd (omega arith)
  rate_loop-Kept zero (suc fuel) f w h index m us at enough ok =
      let here : index ≡ rates = omega arith in
      rw (here, is.no_rate f w h m) (Ends-pure _ _ (refl, rw ok refl))
  rate_loop-Kept (suc k) (suc fuel) f w h index m us at enough ok =
      Ends-if (e.answer (enum_frame_intervals f w h index) m ==ℤ pos 0)
        (λ more. rw (is.rate f w h index m) (
          rate_loop-Kept k fuel f w h (index + 1) (suc m) (enum_frame_intervals f w h index ∷ us)
            (omega arith) (omega arith) (rw ok refl)))
        (λ done. Ends-pure _ _ (refl, rw ok refl))

  size_loop-Kept :
      (k fuel inner f index m : ℕ) (us : List Call)
      → index + k ≡ sizes
      → k < fuel
      → rates < inner
      → replay e m us ≡ some d
      → Ends (size_loop inner fuel f index e (state m owned us)) λ r t. Kept e owned d t
  unfolding size_loop
  size_loop-Kept k zero inner f index m us at enough deep ok = absurd (omega arith)
  size_loop-Kept zero (suc fuel) inner f index m us at enough deep ok =
      let here : index ≡ sizes = omega arith in
      rw (here, is.no_size f m) (Ends-pure _ _ (refl, rw ok refl))
  size_loop-Kept (suc k) (suc fuel) inner f index m us at enough deep ok =
      Ends-if (e.answer (enum_frame_sizes f index) m ==ℤ pos 0)
        (λ more.
          Ends-bind (λ _. size_loop inner fuel f (index + 1)) e
            (rate_loop-Kept rates inner f _ _ 0 (suc m) (enum_frame_sizes f index ∷ us)
              (omega arith) deep (rw ok refl))
            (λ r t kept. Ends-at (size_loop inner fuel f (index + 1)) e t (kept.0) (
              size_loop-Kept k fuel inner f (index + 1) t.time t.trace (omega arith) (omega arith)
                deep (kept.1))))
        (λ done. Ends-pure _ _ (refl, rw ok refl))

  pub format_loop-Kept :
      (k fuel inner i : ℕ) (table : List ℕ) (m : ℕ) (us : List Call)
      → i + k ≡ formats
      → k < fuel
      → sizes < inner
      → rates < inner
      → length table ≡ 10
      → get_elem? table formats ≡ some 0
      → replay e m us ≡ some d
      → Ends (format_loop inner fuel i table e (state m owned us)) λ r t. Kept e owned d t
  unfolding format_loop
  format_loop-Kept k zero inner i table m us at enough w1 w2 size last ok = absurd (omega arith)
  format_loop-Kept zero (suc fuel) inner i table m us at enough w1 w2 size last ok =
      let here : i ≡ formats = omega arith in rw (here, last) (Ends-pure _ _ (refl, ok))
  format_loop-Kept (suc k) (suc fuel) inner i table m us at enough w1 w2 size last ok =
      let few = is.few in
      let (v, found) = load-some table i (omega arith) in
      rw found (
        Ends-if (v == 0) (λ done. Ends-pure _ _ (refl, ok))
          (λ more.
            Ends-bind (λ _. format_loop inner fuel (i + 1) table) e
              (size_loop-Kept sizes inner inner v 0 m us (omega arith) w1 w2 ok)
              (λ r t kept. Ends-at (format_loop inner fuel (i + 1) table) e t (kept.0) (
                format_loop-Kept k fuel inner (i + 1) table t.time t.trace (omega arith)
                  (omega arith) w1 w2 size last (kept.1)))))
