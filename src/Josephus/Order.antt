-- ===== src/Josephus/Order.antt =====
-- Counting out a list: what `kill_sl` is compared with.
use study_c_know.Common.{ℕ, zero, suc, ◌≡◌, refl, [], ◌∷◌, ◌++◌, length, length-append, arith, ◌∙◌}
use study_c_know.Common.Int.{ℤ}
use study_c_know.NodeHeap.{Ptr}
use study_c_know.Josephus.Circle.{Nodes}

-- The first one goes to the end, `k` times.
unfoldable pub spin : ℕ → Nodes → Nodes
spin zero xs = xs
spin (suc k) [] = []
spin (suc k) (x ∷ xs) = spin k (xs ++ x ∷ [])

abbrev pub first : Nodes → Nodes
first [] = []
first (x ∷ xs) = x ∷ []

abbrev pub others : Nodes → Nodes
others [] = []
others (x ∷ xs) = xs

-- `rounds` times the first one after `k` turns is counted out: who is, in order, and who is left.
unfoldable pub order : (rounds k : ℕ) → Nodes → Nodes × Nodes
order zero k xs = ([], xs)
order (suc r) k xs =
    let (gone, left) = order r k (others (spin k xs)) in (first (spin k xs) ++ gone, left)

pub length-spin : (k : ℕ) (xs : Nodes) → length (spin k xs) ≡ length xs
unfolding spin
length-spin zero xs = refl
length-spin (suc k) [] = refl
length-spin (suc k) (x ∷ xs) =
    length-spin k (xs ++ x ∷ []) ∙ omega (arith, length-append {0} xs (x ∷ []))

-- What `order` says of one more round.
pub order-suc :
    (r k : ℕ) (xs ys : Nodes) (c : Ptr) (f : ℤ)
    → spin k xs ≡ (c, f) ∷ ys
    → order (suc r) k xs ≡ ((c, f) ∷ (order r k ys).0, (order r k ys).1)
unfolding order
order-suc r k xs ys c f e = rw e refl
