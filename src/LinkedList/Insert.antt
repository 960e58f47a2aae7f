-- ===== src/LinkedList/Insert.antt =====
-- `llist_create` and `llist_insert`.
use study_c_know.Common.{
  ℕ, ◌≤◌, ◌≡◌, ◌≢◌, refl, true, false, some, [], ◌∷◌, ◌++◌, length, take, arith,
}
use study_c_know.Common.Int.{ℤ, pos, negsuc, ==ℤ_iff}
use mathlib.Core.List.{append-nil}
use study_c_know.LinkedList.{
  Ptr, null, Bytes, Heap, LList, update, create, insert, forward, backward,
}
use study_c_know.LinkedList.Chain.{
  Cells, has, IsList, SameOutside, Chain-Prefix, Chain-frame, has-append,
}
use study_c_know.LinkedList.Splice.{linked, linked-IsList, fresh-outside, next_head, prve_head}

-- With memory, `llist_create` makes an empty list, and touches nothing else.
pub create_lem :
    (fresh : Ptr) (size : ℕ) (h : Heap)
    → fresh ≢ null
    → (g : Heap) × (create fresh size h ≡ some (some (record { size = size; head = fresh }), g))
      × IsList g (record { size = size; head = fresh }) []
      × SameOutside h g (record { size = size; head = fresh }) []
unfolding create
create_lem fresh size h ne = (
  record {
    alive = update h.alive fresh true;
    prve = update h.prve fresh fresh;
    next = update h.next fresh fresh;
    bytes = h.bytes;
  },
  ground arith,
  record { ring = ground arith; root = ground arith; apart = refl; distinct = tt },
  λ a i o. ground arith,
)

module _ (h : Heap) (l : LList) (fresh : Ptr) (source : Bytes) where
  insert-forward-run :
      fresh ≢ null
      → fresh ≢ l.head
      → l.size ≤ length source
      → h.alive l.head ≡ true
      → h.alive (h.next l.head) ≡ true
      → fresh ≢ h.next l.head
      → insert fresh l source forward h
        ≡ some (pos 0, linked h l.head (h.next l.head) fresh (take l.size source))
  unfolding insert linked
  insert-forward-run ne nh fits root alive nq = ground arith

  insert-backward-run :
      fresh ≢ null
      → fresh ≢ l.head
      → l.size ≤ length source
      → h.alive l.head ≡ true
      → h.alive (h.prve l.head) ≡ true
      → fresh ≢ h.prve l.head
      → insert fresh l source backward h
        ≡ some (pos 0, linked h (h.prve l.head) l.head fresh (take l.size source))
  unfolding insert linked
  insert-backward-run ne nh fits root alive nq = ground arith

  module _ (xs : Cells) (is : IsList h l xs) (ne : fresh ≢ null) (unused : h.alive fresh ≡ false)
      (fits : l.size ≤ length source) where
    -- In forward mode, with memory for a node and data of at least the size of the list,
    -- `llist_insert` returns 0 and puts a copy of the data in a new first node; the other nodes
    -- stay in order with their data, nothing outside the list is written, and no other address is
    -- allocated or freed.
    pub insert-forward :
        (g : Heap) × (insert fresh l source forward h ≡ some (pos 0, g))
        × IsList g l ((fresh, take l.size source) ∷ xs)
        × SameOutside h g l ((fresh, take l.size source) ∷ xs)
        × ((a : Ptr) → a ≢ fresh → g.alive a ≡ h.alive a)
    insert-forward =
        let (mem, alive) = next_head is in
        let (new, ne_head) = fresh-outside h l xs fresh is.ring is.root unused in
        let d = take l.size source in
        (
          linked h l.head (h.next l.head) fresh d,
          insert-forward-run ne ne_head fits is.root alive (ground arith),
          linked-IsList h l [] xs l.head fresh d refl is.ring is.root is.apart is.distinct unused,
          λ a i o. unfold linked in ground arith,
          λ a i. unfold linked in ground arith,
        )

    -- In backward mode, with memory for a node and data of at least the size of the list,
    -- `llist_insert` returns 0 and puts a copy of the data in a new last node; the other nodes stay
    -- in order with their data, nothing outside the list is written, and no other address is
    -- allocated or freed.
    pub insert-backward :
        (g : Heap) × (insert fresh l source backward h ≡ some (pos 0, g))
        × IsList g l (xs ++ (fresh, take l.size source) ∷ [])
        × SameOutside h g l (xs ++ (fresh, take l.size source) ∷ [])
        × ((a : Ptr) → a ≢ fresh → g.alive a ≡ h.alive a)
    insert-backward =
        let (mem, alive) = prve_head is in
        let (new, ne_head) = fresh-outside h l xs fresh is.ring is.root unused in
        let (front, last) = Chain-Prefix h l.head xs l.head is.ring in
        let d = take l.size source in
        let p = h.prve l.head in
        let all = append-nil xs in
        (
          linked h p l.head fresh d,
          insert-backward-run ne ne_head fits is.root alive (ground arith),
          rw last at (
              linked-IsList h l xs [] p fresh d front (last, refl) is.root (rw all is.apart)
                (rw all is.distinct) unused),
          λ a i o. unfold linked in ground (arith, has-append a xs ((fresh, d) ∷ [])),
          λ a i. unfold linked in ground arith,
        )

    -- In any other mode, with memory for a node and data of at least the size of the list,
    -- `llist_insert` returns -3; the list is as before, and the new node, which is not in it, stays
    -- allocated.
    pub insert-leak :
        (mode : ℤ)
        → mode ≢ forward
        → mode ≢ backward
        → (g : Heap) × (insert fresh l source mode h ≡ some (negsuc 2, g))
          × IsList g l xs
          × (has fresh xs ≡ false)
          × (g.alive fresh ≡ true)
    unfolding insert
    insert-leak mode not_forward not_backward =
        let (new, ne_head) = fresh-outside h l xs fresh is.ring is.root unused in
        let g : Heap = record h {
          alive = update h.alive fresh true;
          bytes = update h.bytes fresh (take l.size source);
        } in
        (
          g,
          ground (arith, ==ℤ_iff mode forward, ==ℤ_iff mode backward),
          record {
            ring =
                Chain-frame h g l.head xs l.head is.ring (λ a i. refl) (λ a i. refl)
                  (λ a i. ground arith);
            root = ground arith;
            apart = is.apart;
            distinct = is.distinct;
          },
          new,
          ground arith,
        )

-- Without memory `llist_insert` returns -1 and changes nothing.
pub insert-null :
    (l : LList) (source : Bytes) (mode : ℤ) (h : Heap)
    → insert null l source mode h ≡ some (negsuc 0, h)
unfolding insert
insert-null l source mode h = refl
