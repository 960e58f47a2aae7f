-- ===== src/Josephus/Circle.antt =====
-- Circular lists: the nodes from a first one on, until it comes again.
use study_c_know.Common.{◌≡◌, ◌≢◌, refl, true, false, ◌||◌, List, [], ◌∷◌, ◌++◌, arith, ◌==◌}
use study_c_know.Common.Int.{ℤ}
use study_c_know.NodeHeap.{Ptr, Heap}
use study_c_know.NodeHeap.Chain.{has, Distinct, Node, Chain, SameNode, has-append, append-Distinct}

abbrev pub Nodes : Type 0
Nodes = List (Ptr × ℤ)

-- The successors of `u`, which holds `d`, are the nodes `xs` and then `u` again.
pub record Circle (h : Heap ℤ) (u : Ptr) (d : ℤ) (xs : Nodes) : Type 0 where
  pub node : Node h u d
  pub ring : Chain h u xs u
  pub distinct : Distinct ((u, d) ∷ xs)

-- A last node more, before `v`.
Chain-extend :
    (h : Heap ℤ) (a u v : Ptr) (d : ℤ) (xs : Nodes)
    → Chain h a xs u
    → Node h u d
    → h.next u ≡ v
    → Chain h a (xs ++ (u, d) ∷ []) v
Chain-extend h a u v d [] c node e = (c, node, e)
Chain-extend h a u v d ((b, f) ∷ xs) c node e = (c.0, c.1, Chain-extend h b u v d xs (c.2) node e)

-- The circle seen from the second node.
pub turn :
    (h : Heap ℤ) (u : Ptr) (d : ℤ) (a : Ptr) (e : ℤ) (xs : Nodes)
    → Circle h u d ((a, e) ∷ xs)
    → Circle h a e (xs ++ (u, d) ∷ [])
turn h u d a e xs c =
    let (apart, (first, rest)) = c.distinct in
    record {
      node = c.ring.1;
      ring = Chain-extend h a u a d xs (c.ring.2) c.node (c.ring.0);
      distinct = (
        ground (arith, has-append a xs ((u, d) ∷ [])),
        append-Distinct xs ((u, d) ∷ []) rest (refl, tt) (λ b i. ground arith),
      );
    }

-- The last node gets another successor.
Chain-retarget :
    (h g : Heap ℤ) (u v v' t : Ptr) (e : ℤ) (xs : Nodes)
    → Chain h u (xs ++ (t, e) ∷ []) v
    → g.next t ≡ v'
    → ((a : Ptr) → ((a == u) || has a xs) ≡ true → g.next a ≡ h.next a)
    → ((a : Ptr) → has a (xs ++ (t, e) ∷ []) ≡ true → SameNode h g a)
    → Chain g u (xs ++ (t, e) ∷ []) v'
Chain-retarget h g u v v' t e [] c f next same =
    (ground (arith, next u), (c.1.0, ground (arith, same t), ground (arith, same t)), f)
Chain-retarget h g u v v' t e ((b, d) ∷ xs) c f next same = (
  ground (arith, next u),
  (c.1.0, ground (arith, same b), ground (arith, same b)),
  Chain-retarget h g b v v' t e xs (c.2) f (λ a i. next a (ground arith))
      (λ a i. same a (ground arith)),
)

-- The node `c` before the last one in the circle is taken out.
pub take_out-two :
    (h g : Heap ℤ) (c : Ptr) (dc : ℤ) (t : Ptr) (e : ℤ)
    → Circle h c dc ((t, e) ∷ [])
    → g.next t ≡ h.next c
    → SameNode h g t
    → Circle g t e []
take_out-two h g c dc t e is f same =
    let (i, node, k) = is.ring in
    record {
      node = (node.0, ground (arith, same.1), ground (arith, same.0));
      ring = ground arith;
      distinct = (refl, tt);
    }

pub take_out-more :
    (h g : Heap ℤ) (c : Ptr) (dc : ℤ) (b : Ptr) (f : ℤ) (ys : Nodes) (t : Ptr) (e : ℤ)
    → Circle h c dc ((b, f) ∷ ys ++ (t, e) ∷ [])
    → g.next t ≡ h.next c
    → ((a : Ptr) → a ≢ t → g.next a ≡ h.next a)
    → ((a : Ptr) → a ≢ c → SameNode h g a)
    → Circle g b f (ys ++ (t, e) ∷ [])
take_out-more h g c dc b f ys t e is end next same =
    let (i, node, ring) = is.ring in
    let (apart, rest) = is.distinct in
    let (first, others) = rest in
    let in_b = has-append b ys ((t, e) ∷ []) in
    let ne : b ≢ c = λ q. ground arith in
    let last : has t ys ≡ false = last-apart t e ys others in
    record {
      node = (node.0, ground (arith, same b ne), ground (arith, same b ne));
      ring =
          Chain-retarget h g b c b t e ys ring (ground arith)
            (λ a i. next a (λ q. ground (arith, in_b))) (λ a i. same a (λ q. ground arith));
      distinct = rest;
    }
  where
    last-apart : (t : Ptr) (e : ℤ) (ys : Nodes) → Distinct (ys ++ (t, e) ∷ []) → has t ys ≡ false
    last-apart t e [] r = refl
    last-apart t e ((p, q) ∷ ys) r =
        ground (arith, has-append p ys ((t, e) ∷ []), last-apart t e ys (r.1))
