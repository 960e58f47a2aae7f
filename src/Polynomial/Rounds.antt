-- ===== src/Polynomial/Rounds.antt =====
-- A round of `un_LinkNode` for each of its branches, and the end of its loop.
use study_c_know.Common.{
  ℕ, suc, ◌+◌, ◌<◌, ◌≡◌, ◌≢◌, refl, true, false, ◌||◌, some, List, ◌∷◌, ◌==◌, arith, sym,
}
use study_c_know.Common.Int.{ℤ, pos, negsuc, ◌+ℤ◌, ◌==ℤ◌, ltb_ℤ, pos_part, neg_part, to_int}
use study_c_know.NodeHeap.{Ptr, null, Heap, ◌>>=◌, get_next, get_value, set_next, set_value}
use study_c_know.NodeHeap.Chain.{values}
use study_c_know.Polynomial.{Pol, merge, attach, add_coefficient, keep}
use study_c_know.Polynomial.Sum.{IsSum, IsSum-less, IsSum-greater, IsSum-both, IsSum-cancel}
use study_c_know.Polynomial.Left.{Left, Merged, Left-swap, Merged-swap, link, write}
use study_c_know.Polynomial.Steps.{
  root_ne, Merged-linked, first-skipped, Merged-skipped, first-written, Merged-written,
}

pub to_int-small : (x : ℤ) → pos_part x + neg_part x < 2147483648 → to_int x ≡ some x
unfolding to_int
to_int-small (pos n) small = ground arith
to_int-small (negsuc n) small = ground arith

pub sum-small :
    (x y : ℤ)
    → pos_part x + neg_part x < 1073741824
    → pos_part y + neg_part y < 1073741824
    → pos_part (x +ℤ y) + neg_part (x +ℤ y) < 2147483648
unfolding ◌+ℤ◌
sum-small x y h g = ground arith

pub add_small :
    (h : Heap Pol) (a : Ptr) (d e : Pol)
    → h.alive a ≡ true
    → pos_part d.x + neg_part d.x < 1073741824
    → pos_part e.x + neg_part e.x < 1073741824
    → add_coefficient a d e h ≡ some (d.x +ℤ e.x, write h a (record d { x = d.x +ℤ e.x }))
unfolding add_coefficient set_value write
add_small h a d e ok small_1 small_2 =
    rw (to_int-small (d.x +ℤ e.x) (sum-small d.x e.x small_1 small_2), ok) refl

abbrev pub Merges : ℕ → Heap Pol → (r p q : Ptr) → (xs ys : List (Ptr × Pol)) → Type 0
Merges fuel h r p q xs ys =
    (g : Heap Pol) × (zs : List (Ptr × Pol)) × ((merge fuel r p q >>= attach) h ≡ some (tt, g))
    × Merged h g r xs ys zs
    × IsSum (values xs) (values ys) (values zs)

pub merge-stop :
    (fuel : ℕ) (r p q : Ptr) (h : Heap Pol)
    → ((p == null) || (q == null)) ≡ true
    → merge (suc fuel) r p q h ≡ some ((r, (p, q)), h)
unfolding merge
merge-stop fuel r p q h end = rw end refl

module _ (fuel : ℕ) (h : Heap Pol) (r a b : Ptr) (d e : Pol) (xs ys : List (Ptr × Pol))
    (left : Left h r a b ((a, d) ∷ xs) ((b, e) ∷ ys)) where
  pub first_round :
      ltb_ℤ d.y e.y ≡ true
      → Merges fuel (link h r a) a (h.next a) b xs ((b, e) ∷ ys)
      → Merges (suc fuel) h r a b ((a, d) ∷ xs) ((b, e) ∷ ys)
  unfolding merge get_value get_next set_next link
  first_round less (g, zs, run, merged, sum) =
      let node_a = left.first.1 in
      let node_b = left.second.1 in
      let root = left.root in
      let ne = root_ne left in
      let ne' : a ≢ r = λ e. ne (sym e) in
      (
        g,
        (a, d) ∷ zs,
        ground (arith, run),
        Merged-linked left g zs merged,
        IsSum-less d e (values xs) (values ys) (values zs) less sum,
      )

  pub second_round :
      ltb_ℤ e.y d.y ≡ true
      → Merges fuel (link h r b) b a (h.next b) ((a, d) ∷ xs) ys
      → Merges (suc fuel) h r a b ((a, d) ∷ xs) ((b, e) ∷ ys)
  unfolding merge get_value get_next set_next link
  second_round less (g, zs, run, merged, sum) =
      let node_a = left.first.1 in
      let node_b = left.second.1 in
      let root = left.root in
      let ne = root_ne (Left-swap left) in
      let ne' : b ≢ r = λ e. ne (sym e) in
      (
        g,
        (b, e) ∷ zs,
        ground (arith, run),
        Merged-swap (Merged-linked (Left-swap left) g zs (Merged-swap merged)),
        IsSum-greater d e (values xs) (values ys) (values zs) less sum,
      )

  -- The two first terms have one exponent, and their sum is written to the first node.
  pub both_dropped :
      (h1 : ltb_ℤ d.y e.y ≡ false)
      → (h2 : ltb_ℤ e.y d.y ≡ false) → pos_part d.x + neg_part d.x < 1073741824
      → pos_part e.x + neg_part e.x < 1073741824
      → ((d.x +ℤ e.x) ==ℤ pos 0) ≡ true
      → Merges fuel (write h a (record d { x = d.x +ℤ e.x })) r (h.next a) (h.next b) xs ys
      → Merges (suc fuel) h r a b ((a, d) ∷ xs) ((b, e) ∷ ys)
  unfolding merge get_value get_next keep write
  both_dropped h1 h2 small_1 small_2 gone (g, zs, run, merged, sum) =
      let node_a = left.first.1 in
      let node_b = left.second.1 in
      let sum_up = add_small h a d e (node_a.1) small_1 small_2 in
      let d' = record d { x = d.x +ℤ e.x } in
      (
        g,
        zs,
        ground (arith, run),
        Merged-written left d' (
            Merged-skipped (first-written left d') (
              Merged-swap (
                Merged-skipped (Left-swap (first-skipped (first-written left d')))
                  (Merged-swap merged)))),
        IsSum-cancel d e (values xs) (values ys) (values zs) h1 h2 gone sum,
      )

  pub both_kept :
      (h1 : ltb_ℤ d.y e.y ≡ false)
      → (h2 : ltb_ℤ e.y d.y ≡ false) → pos_part d.x + neg_part d.x < 1073741824
      → pos_part e.x + neg_part e.x < 1073741824
      → ((d.x +ℤ e.x) ==ℤ pos 0) ≡ false
      → Merges fuel
          (link (write h a (record d { x = d.x +ℤ e.x })) r a)
          a
          (h.next a)
          (h.next b)
          xs
          ys
      → Merges (suc fuel) h r a b ((a, d) ∷ xs) ((b, e) ∷ ys)
  unfolding merge get_value get_next set_next keep write link
  both_kept h1 h2 small_1 small_2 some_left (g, zs, run, merged, sum) =
      let node_a = left.first.1 in
      let node_b = left.second.1 in
      let root = left.root in
      let ne = root_ne left in
      let ne' : a ≢ r = λ e. ne (sym e) in
      let ne_b = root_ne (Left-swap left) in
      let ne_b' : b ≢ r = λ e. ne_b (sym e) in
      let sum_up = add_small h a d e (node_a.1) small_1 small_2 in
      let d' = record d { x = d.x +ℤ e.x } in
      let rest = Left-swap (first-skipped (Left-swap (first-written left d'))) in
      (
        g,
        (a, d') ∷ zs,
        ground (arith, run),
        Merged-written left d' (
            Merged-swap (
              Merged-skipped (Left-swap (first-written left d'))
                (Merged-swap (Merged-linked rest g zs merged)))),
        IsSum-both d e (values xs) (values ys) (values zs) h1 h2 some_left sum,
      )
