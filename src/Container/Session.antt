-- ===== src/Container/Session.antt =====
-- Filling and draining any container.
use study_c_know.Common.{
  ℕ, zero, suc, ◌<◌, ◌≤◌, ◌≡◌, ◌≢◌, refl, true, false, some, List, [], ◌∷◌, length, take, arith, ap,
  ◌+◌, ◌∙◌, reverse, reverse_aux,
}
use mathlib.Core.Path.{ap₂}
use study_c_know.Common.Array.{take-take}
use study_c_know.LinkedList.{Ptr, null, Bytes, Heap}
use study_c_know.LinkedList.Chain.{has}
use study_c_know.Container.{Container, fill_loop, drain_loop}

-- The addresses of the items are unused and distinct, and the sources long enough.
abbrev pub Ready : ℕ → Heap → List (Ptr × Bytes) → Type 0
Ready size h [] = Unit
Ready size h ((p, d) ∷ items) =
    (p ≢ null)
    × (h.alive p ≡ false)
    × (size ≤ length d)
    × (has p items ≡ false)
    × Ready size h items

pub Ready-frame :
    (size : ℕ) (h g : Heap) (p : Ptr) (items : List (Ptr × Bytes))
    → Ready size h items
    → has p items ≡ false
    → ((a : Ptr) → a ≢ p → g.alive a ≡ h.alive a)
    → Ready size g items
Ready-frame size h g p [] r out same = tt
Ready-frame size h g p ((q, d) ∷ items) r out same =
    (r.0, ground (arith, same q), r.2, r.3, Ready-frame size h g p items (r.4) (ground arith) same)

-- What a container with elements of `size` bytes keeps of the items.
unfoldable pub copies : ℕ → List (Ptr × Bytes) → List Bytes
copies size [] = []
copies size ((p, d) ∷ items) = take size d ∷ copies size items

pub length-copies :
    (size : ℕ) (items : List (Ptr × Bytes)) → length (copies size items) ≡ length items
unfolding copies
length-copies size [] = refl
length-copies size ((p, d) ∷ items) = ap suc (length-copies size items)

-- The first `size` bytes of each element.
unfoldable pub cut : ℕ → List Bytes → List Bytes
cut size [] = []
cut size (d ∷ xs) = take size d ∷ cut size xs

-- A copy is cut already.
pub cut-copies :
    (size : ℕ) (items : List (Ptr × Bytes)) → cut size (copies size items) ≡ copies size items
unfolding cut copies
cut-copies size [] = refl
cut-copies size ((p, d) ∷ items) =
    ap₂ ◌∷◌ (take-take size size d (omega arith)) (cut-copies size items)

cut-reverse_aux :
    (size : ℕ) (xs ys : List Bytes)
    → cut size (reverse_aux xs ys) ≡ reverse_aux (cut size xs) (cut size ys)
unfolding cut
cut-reverse_aux size [] ys = refl
cut-reverse_aux size (d ∷ xs) ys = cut-reverse_aux size xs (d ∷ ys)

pub cut-reverse :
    (size : ℕ) (items : List (Ptr × Bytes))
    → cut size (reverse (copies size items)) ≡ reverse (copies size items)
unfolding cut
cut-reverse size items =
    cut-reverse_aux size (copies size items) []
    ∙ ap (λ (t : List Bytes). reverse_aux t []) (cut-copies size items)

pub length-reverse_aux : (xs ys : List Bytes) → length (reverse_aux xs ys) ≡ length xs + length ys
length-reverse_aux [] ys = omega arith
length-reverse_aux (d ∷ xs) ys = omega (arith, length-reverse_aux xs (d ∷ ys))

module _ (c : Container) where
  -- The elements after the items are added one by one.
  unfoldable pub add_all : List (Ptr × Bytes) → List Bytes → List Bytes
  add_all [] xs = xs
  add_all ((p, d) ∷ items) xs = add_all items (c.add (take c.size d) xs)

  pub fill-add_all :
      (h : Heap) (items : List (Ptr × Bytes)) (xs : List Bytes)
      → c.Holds h xs
      → Ready c.size h items
      → (g : Heap) × (fill_loop c.put items h ≡ some (true, g)) × c.Holds g (add_all items xs)
  unfolding fill_loop add_all
  fill-add_all h [] xs holds r = (h, refl, holds)
  fill-add_all h ((p, d) ∷ items) xs holds r =
      let (g, run, holds', same) = c.put_law h xs p d holds (r.0) (r.1) (r.2) in
      let (k, run', holds'') =
        fill-add_all g items (c.add (take c.size d) xs) holds'
          (Ready-frame c.size h g p items (r.4) (r.3) same) in
      (k, rw run run', holds'')

  pub drain-all :
      (h : Heap) (xs : List Bytes) (fuel : ℕ) (tmp : Bytes) (steps : ℕ)
      → c.Holds h xs
      → length xs < fuel
      → length xs < steps
      → (g : Heap) × (drain_loop steps (c.get fuel) tmp h ≡ some (cut c.size xs, g)) × c.Holds g []
  unfolding drain_loop cut
  drain-all h xs fuel tmp zero holds enough more = absurd (omega arith)
  drain-all h [] zero tmp (suc steps) holds enough more = absurd (omega arith)
  drain-all h [] (suc fuel) tmp (suc steps) holds enough more =
      (h, rw (c.get_nil h fuel holds), holds)
  drain-all h (d ∷ xs) fuel tmp (suc steps) holds enough more =
      let (g, run, holds') = c.get_cons h d xs fuel holds enough in
      let (k, run', holds'') =
        drain-all g xs fuel (take c.size d) steps holds' (omega arith) (omega arith) in
      (k, rw (run, run'), holds'')
