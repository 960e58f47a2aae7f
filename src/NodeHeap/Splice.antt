-- ===== src/NodeHeap/Splice.antt =====
-- Putting a node into a chain and taking one out, for any heap that differs as it should.
use study_c_know.Common.{◌≡◌, ◌≢◌, false, List, ◌∷◌, ◌++◌, arith}
use study_c_know.NodeHeap.{Ptr, Heap}
use study_c_know.NodeHeap.Chain.{
  has, Distinct, Node, Prefix, Chain, SameNode, has-append, Distinct-append, last-mem, Chain-join,
  Prefix-frame, Chain-frame,
}

module _ {D : Type 0} (h g : Heap D) (u : Ptr) (ys zs : List (Ptr × D)) (w v n : Ptr) (d : D)
    (front : Prefix h u ys w) where
  -- `n` stands between `w` and its old successor.
  pub Chain-insert :
      Chain h w zs v
      → has u (ys ++ zs) ≡ false
      → Distinct (ys ++ zs)
      → has n (ys ++ zs) ≡ false
      → n ≢ u
      → Node g n d
      → g.next n ≡ h.next w
      → g.next w ≡ n
      → ((a : Ptr) → a ≢ w → a ≢ n → g.next a ≡ h.next a)
      → ((a : Ptr) → a ≢ n → SameNode h g a)
      → Chain g u (ys ++ (n, d) ∷ zs) v
  Chain-insert back out apart new ne node e f next same =
      let (dy, dz, cross) = Distinct-append ys zs apart in
      let member = last-mem h u ys w front in
      let in_u = has-append u ys zs in
      let in_n = has-append n ys zs in
      Chain-join g u ys ((n, d) ∷ zs) w v
        (Prefix-frame h g u ys w front (ground arith) dy (λ a i ne_w. next a ne_w (ground arith))
          (λ a i. same a (ground arith)))
        (
          f,
          node,
          Chain-frame h g w n zs v back e (λ a i. next a (ground (arith, cross w)) (ground arith))
              (λ a i. same a (ground arith)),
        )

  -- `w` is followed by the successor of `n`, which it was followed by.
  pub Chain-remove :
      Chain h w ((n, d) ∷ zs) v
      → has u (ys ++ (n, d) ∷ zs) ≡ false
      → Distinct (ys ++ (n, d) ∷ zs)
      → g.next w ≡ h.next n
      → ((a : Ptr) → a ≢ w → g.next a ≡ h.next a)
      → ((a : Ptr) → a ≢ n → SameNode h g a)
      → Chain g u (ys ++ zs) v
  Chain-remove back out apart e next same =
      let (dy, dz, cross) = Distinct-append ys ((n, d) ∷ zs) apart in
      let member = last-mem h u ys w front in
      let in_u = has-append u ys ((n, d) ∷ zs) in
      Chain-join g u ys zs w v
        (Prefix-frame h g u ys w front (ground arith) dy (λ a i ne_w. next a ne_w)
          (λ a i. same a (ground (arith, cross a))))
        (Chain-frame h g n w zs v (back.2) e (λ a i. next a (ground (arith, cross w)))
          (λ a i. same a (ground arith)))
