-- ===== src/LinkedList/Splice.antt =====
-- Taking a node out of a circular list and putting one in, on the pointers.
use study_c_know.Common.{◌≡◌, ◌≢◌, refl, true, false, ◌||◌, [], ◌∷◌, ◌++◌, arith, ◌==◌}
use study_c_know.LinkedList.{Ptr, Bytes, Heap, LList, update}
use study_c_know.LinkedList.Chain.{
  Cells, has, Distinct, Prefix, Chain, IsList, SameNode, has-append, Distinct-append,
  append-Distinct, last-mem, Chain-split, Chain-join, Chain-Prefix, Prefix-frame, Chain-frame,
  has-alive,
}

-- A chain that is entered from another node.
Chain-enter :
    (h g : Heap) (w w' : Ptr) (zs : Cells) (v : Ptr)
    → Chain h w zs v
    → has v zs ≡ false
    → Distinct zs
    → g.next w' ≡ h.next w
    → g.prve (h.next w) ≡ w'
    → ((a : Ptr) → has a zs ≡ true → g.next a ≡ h.next a)
    → ((a : Ptr) → ((a == v) || has a zs) ≡ true → a ≢ h.next w → g.prve a ≡ h.prve a)
    → ((a : Ptr) → has a zs ≡ true → SameNode h g a)
    → Chain g w' zs v
Chain-enter h g w w' [] v c out apart e f next prve same = ground arith
Chain-enter h g w w' ((a, d) ∷ zs) v c out apart e f next prve same = (
  ground arith,
  ground arith,
  ground (arith, same a),
  ground (arith, same a),
  Chain-frame h g a zs v (c.4) (λ b i. next b (ground arith))
      (λ b i. prve b (ground arith) (ground arith)) (λ b i. same b (ground arith)),
)

-- The first node of a chain, or its end.
pub first-mem :
    (h : Heap) (w : Ptr) (zs : Cells) (v : Ptr)
    → Chain h w zs v
    → ((h.next w == v) || has (h.next w) zs) ≡ true
first-mem h w [] v c = ground arith
first-mem h w ((a, d) ∷ zs) v c = ground arith

-- The neighbours of the head are the head or nodes of the list, and allocated.
pub next_head :
    {h : Heap} {l : LList} {xs : Cells}
    → IsList h l xs
    → (((h.next l.head == l.head) || has (h.next l.head) xs) ≡ true)
      × (h.alive (h.next l.head) ≡ true)
next_head {h} {l} {xs} is =
    let mem = first-mem h l.head xs l.head is.ring in
    (mem, ground (arith, is.root, has-alive h (h.next l.head) l.head xs l.head is.ring))

pub prve_head :
    {h : Heap} {l : LList} {xs : Cells}
    → IsList h l xs
    → (((h.prve l.head == l.head) || has (h.prve l.head) xs) ≡ true)
      × (h.alive (h.prve l.head) ≡ true)
prve_head {h} {l} {xs} is =
    let (front, last) = Chain-Prefix h l.head xs l.head is.ring in
    let mem = last-mem h l.head xs (h.prve l.head) front in
    (mem, ground (arith, is.root, has-alive h (h.prve l.head) l.head xs l.head is.ring))

-- The heap after `unlink n`.
unfoldable pub unlinked : Heap → Ptr → Heap
unlinked h n = record h {
  prve = update h.prve (h.next n) (h.prve n);
  next = update h.next (h.prve n) (h.next n);
}

-- The heap after a new node `n` with bytes `d` is put between `p` and `q`.
unfoldable pub linked : Heap → (p q n : Ptr) → Bytes → Heap
linked h p q n d = record {
  alive = update h.alive n true;
  prve = update (update h.prve n p) q n;
  next = update (update h.next n q) p n;
  bytes = update h.bytes n d;
}

module _ (h : Heap) (l : LList) (ys zs : Cells) (n : Ptr) (d : Bytes) where
  -- Without the node the pointers form the list of the others.
  pub unlinked-IsList : IsList h l (ys ++ (n, d) ∷ zs) → IsList (unlinked h n) l (ys ++ zs)
  unfolding unlinked
  unlinked-IsList is =
      let (p, front, back) = Chain-split h l.head ys ((n, d) ∷ zs) l.head is.ring in
      let (dy, dz, apart) = Distinct-append ys ((n, d) ∷ zs) is.distinct in
      let member = last-mem h l.head ys p front in
      let next_mem = first-mem h n zs l.head (back.4) in
      let out = has-append l.head ys ((n, d) ∷ zs) in
      let outside = is.apart in
      let left =
        Prefix-frame h (unlinked h n) l.head ys p front (ground arith) dy (ground arith)
          (λ a i. ground (arith, apart a i)) (λ a i. (refl, refl)) in
      let right =
        Chain-enter h (unlinked h n) n p zs l.head (back.4) (ground arith) (dz.1) (ground arith)
          (ground arith) (λ a i. ground (arith, apart a)) (λ a i ne. ground arith)
          (λ a i. (refl, refl)) in
      record {
        ring = Chain-join (unlinked h n) l.head ys zs p l.head left right;
        root = is.root;
        apart = ground (arith, has-append l.head ys zs);
        distinct = append-Distinct ys zs dy (dz.1) (λ a i. ground (arith, apart a i));
      }

-- An address that is not allocated is no node of a list.
pub fresh-outside :
    (h : Heap) (l : LList) (xs : Cells) (n : Ptr)
    → Chain h l.head xs l.head
    → h.alive l.head ≡ true
    → h.alive n ≡ false
    → (has n xs ≡ false) × (n ≢ l.head)
fresh-outside h l xs n ring root fresh =
    (ground (arith, has-alive h n l.head xs l.head ring), λ e. ground arith)

module _ (h : Heap) (l : LList) (ys zs : Cells) (p n : Ptr) (d : Bytes) where
  -- A new node after the last node `p` of `ys` stands between `ys` and `zs`.
  pub linked-IsList :
      Prefix h l.head ys p
      → Chain h p zs l.head
      → h.alive l.head ≡ true
      → has l.head (ys ++ zs) ≡ false
      → Distinct (ys ++ zs)
      → h.alive n ≡ false
      → IsList (linked h p (h.next p) n d) l (ys ++ (n, d) ∷ zs)
  unfolding linked
  linked-IsList front back root out distinct fresh =
      let g = linked h p (h.next p) n d in
      let (dy, dz, apart) = Distinct-append ys zs distinct in
      let member = last-mem h l.head ys p front in
      let next_mem = first-mem h p zs l.head back in
      let out' = has-append l.head ys zs in
      let (new_mem, new_head) =
        fresh-outside h l (ys ++ zs) n (Chain-join h l.head ys zs p l.head front back) root fresh in
      let left =
        Prefix-frame h g l.head ys p front (ground arith) dy
          (λ a i ne. ground (arith, has-append n ys zs))
          (λ a i. ground (arith, apart a, has-append n ys zs))
          (λ a i. ground (arith, has-append n ys zs)) in
      let right =
        Chain-enter h g p n zs l.head back (ground arith) dz (ground (arith, has-append n ys zs))
          (ground (arith, has-append n ys zs)) (λ a i. ground (arith, apart a, has-append n ys zs))
          (λ a i ne. ground (arith, has-append n ys zs))
          (λ a i. ground (arith, has-append n ys zs)) in
      record {
        ring =
            Chain-join g l.head ys ((n, d) ∷ zs) p l.head left
              (ground arith, ground (arith, has-append n ys zs), ground arith, ground arith, right);
        root = ground arith;
        apart = ground (arith, has-append l.head ys ((n, d) ∷ zs));
        distinct =
            append-Distinct ys ((n, d) ∷ zs) dy (ground (arith, has-append n ys zs), dz)
              (λ a i. ground (arith, apart a i, has-append n ys zs));
      }
