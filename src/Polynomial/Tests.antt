-- ===== src/Polynomial/Tests.antt =====
-- The sum of 多项式合并.c on the two polynomials of its `main`, 5 + 3 x^2 and 4 x - 3 x^2.
use study_c_know.Common.{
  ◌≡◌, ◌≢◌, refl, false, true, Option, none, some, ◌||◌, List, [], ◌∷◌, arith, if◌then◌else◌, ◌==◌,
}
use study_c_know.Common.Int.{ℤ, pos, negsuc, ◌+ℤ◌, to_int}
use study_c_know.NodeHeap.{Ptr, Heap, get_next, get_value, set_next, set_value, allocate}
use study_c_know.NodeHeap.Chain.{has, values}
use study_c_know.Polynomial.{
  Pol, append_node, init_loop, init, show_loop, list_show, add_coefficient, keep, merge, attach,
  un_link_node, main,
}
use study_c_know.Polynomial.Sum.{IsSum}
use study_c_know.Polynomial.Merge.{IsPolynomial, un_link_node-IsSum}

abbrev term : ℤ → ℤ → Pol
term x y = record { x = x; y = y }

abbrev xs : List (Ptr × Pol)
xs = (2, term (pos 5) (pos 0)) ∷ (3, term (pos 3) (pos 2)) ∷ []

abbrev ys : List (Ptr × Pol)
ys = (5, term (pos 4) (pos 1)) ∷ (6, term (negsuc 2) (pos 2)) ∷ []

-- The headers at 1 and 4.
abbrev heap : Heap Pol
heap = record {
  alive = λ a. (a == 1) || ((a == 2) || ((a == 3) || ((a == 4) || ((a == 5) || (a == 6)))));
  value = λ a.
      if a == 2
      then term (pos 5) (pos 0)
      else if a == 3
      then term (pos 3) (pos 2)
      else if a == 5
      then term (pos 4) (pos 1)
      else term (negsuc 2) (pos 2);
  next = λ a.
      if a == 1 then 2 else if a == 2 then 3 else if a == 4 then 5 else if a == 5 then 6 else 0;
}

first-IsPolynomial : IsPolynomial heap 1 xs
first-IsPolynomial = record {
  chain = ground arith;
  root = refl;
  apart = refl;
  distinct = (refl, (refl, tt));
}

second-IsPolynomial : IsPolynomial heap 4 ys
second-IsPolynomial = record {
  chain = ground arith;
  root = refl;
  apart = refl;
  distinct = (refl, (refl, tt));
}

un_link_node-IsSum_example :
    (g : Heap Pol) × (zs : List (Ptr × Pol)) × (un_link_node 5 1 4 heap ≡ some (tt, g))
    × IsPolynomial g 1 zs
    × IsSum (values xs) (values ys) (values zs)
    × ((a : Ptr) → has a zs ≡ true → (has a xs || has a ys) ≡ true)
    × ((a : Ptr) → g.alive a ≡ heap.alive a)
    × ((a : Ptr)
        → (has a xs || has a ys) ≡ false
        → (g.value a ≡ heap.value a) × (a ≢ 1 → g.next a ≡ heap.next a))
un_link_node-IsSum_example =
    un_link_node-IsSum 5 heap 1 4 xs ys first-IsPolynomial second-IsPolynomial (λ a i. ground arith)
      refl (omega arith) (omega arith) (omega arith)

-- Nothing is allocated at the start.
abbrev empty : Heap Pol
empty = record { alive = λ a. false; value = λ a. term (pos 0) (pos 0); next = λ a. 0 }

abbrev printed : {A : Type 0} → Option (A × Heap Pol) → Option A
printed none = none
printed (some (a, h)) = some a

printed-main :
    printed (
      main 5 1
        ((term (pos 5) (pos 0), 2) ∷ (term (pos 3) (pos 2), 3) ∷ [])
        4
        ((term (pos 4) (pos 1), 5) ∷ (term (negsuc 2) (pos 2), 6) ∷ [])
        empty)
    ≡ some (values xs, (values ys, term (pos 5) (pos 0) ∷ term (pos 4) (pos 1) ∷ []))
unfolding append_node init_loop init show_loop list_show add_coefficient keep merge attach
    un_link_node main get_next get_value set_next set_value allocate to_int ◌+ℤ◌
printed-main = refl
