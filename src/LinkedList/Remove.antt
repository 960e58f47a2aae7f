-- ===== src/LinkedList/Remove.antt =====
-- `llist_fetch` and `llist_delete`.
use study_c_know.Common.{
  ℕ, ◌<◌, ◌≡◌, refl, Bool, true, false, none, some, ◌∷◌, ◌++◌, length, take, arith, if◌then◌else◌,
  subst,
}
use study_c_know.Common.Int.{ℤ, pos, negsuc}
use study_c_know.LinkedList.{
  Ptr, Bytes, Heap, LList, update, unlink, free, get_bytes, fetch, delete,
}
use study_c_know.LinkedList.Chain.{
  Cells, IsList, SameOutside, Chain-split, Chain-frame, Distinct-append, has-append, has-alive,
  last-mem,
}
use study_c_know.LinkedList.Splice.{unlinked, unlinked-IsList, first-mem}
use study_c_know.LinkedList.Search.{
  first_match, remove_first, find_-first, first_match-split, first_match-has,
}

-- The heap after a node is unlinked and freed.
unfoldable pub without : Heap → Ptr → Heap
without h n = record (unlinked h n) { alive = update h.alive n false }

module _ (h : Heap) (l : LList) (ys zs : Cells) (n : Ptr) (d : Bytes)
    (is : IsList h l (ys ++ (n, d) ∷ zs)) where
  -- `unlink` runs on a node of a list.
  unlink-run : (unlink n h ≡ some (tt, unlinked h n)) × (h.alive n ≡ true) × (h.bytes n ≡ d)
  unfolding unlink unlinked
  unlink-run =
      let (p, front, back) = Chain-split h l.head ys ((n, d) ∷ zs) l.head is.ring in
      let (dy, dz, apart) = Distinct-append ys ((n, d) ∷ zs) is.distinct in
      let member = last-mem h l.head ys p front in
      let next_mem = first-mem h n zs l.head (back.4) in
      let out = has-append l.head ys ((n, d) ∷ zs) in
      let outside = is.apart in
      let alive_p = has-alive h p l.head (ys ++ (n, d) ∷ zs) l.head is.ring in
      let alive_q = has-alive h (h.next n) l.head (ys ++ (n, d) ∷ zs) l.head is.ring in
      let in_p = has-append p ys ((n, d) ∷ zs) in
      let in_q = has-append (h.next n) ys ((n, d) ∷ zs) in
      let root = is.root in (ground (arith, apart p), ground arith, ground arith)

  -- What is left is the list of the other nodes, and the node is free.
  without-IsList :
      IsList (without h n) l (ys ++ zs)
      × ((without h n).alive n ≡ false)
      × SameOutside h (without h n) l (ys ++ (n, d) ∷ zs)
  unfolding without
  without-IsList =
      let rest = unlinked-IsList h l ys zs n d is in
      let (p, front, back) = Chain-split h l.head ys ((n, d) ∷ zs) l.head is.ring in
      let (dy, dz, apart) = Distinct-append ys ((n, d) ∷ zs) is.distinct in
      let member = last-mem h l.head ys p front in
      let next_mem = first-mem h n zs l.head (back.4) in
      let out = has-append l.head ys ((n, d) ∷ zs) in
      let outside = is.apart in
      let root = is.root in
      (
        record {
          ring =
              Chain-frame (unlinked h n) (without h n) l.head (ys ++ zs) l.head rest.ring
                (λ a i. refl) (λ a i. refl)
                (λ a i. (refl, unfold unlinked in ground (arith, apart a, has-append a ys zs)));
          root = unfold unlinked in ground arith;
          apart = rest.apart;
          distinct = rest.distinct;
        },
        ground arith,
        λ a ne o. unfold unlinked in ground (arith, has-append a ys ((n, d) ∷ zs)),
      )

module _ {K : Type 0} (key : K) (cmp : K → Bytes → ℤ) (h : Heap) (l : LList) (xs : Cells) (fuel : ℕ)
    (is : IsList h l xs) (enough : length xs < fuel) where
  -- When no data of the list are accepted, `llist_fetch` and `llist_delete` with fuel for the whole
  -- list return -1 and change nothing.
  pub remove-miss :
      (wanted : Bool)
      → first_match key cmp xs ≡ none
      → (fetch key cmp fuel l wanted h ≡ some ((negsuc 0, none), h))
        × (delete key cmp fuel l h ≡ some (negsuc 0, h))
  unfolding fetch delete
  remove-miss wanted e =
      let found = find_-first key cmp h l xs fuel is enough in
      (ground (arith, found), ground (arith, found))

  -- Otherwise the heap after `unlink` and `free` holds the list without the first such node.
  hit-run :
      (wanted : Bool) (ys zs : Cells) (n : Ptr) (d : Bytes)
      → first_match key cmp xs ≡ some (n, d)
      → IsList h l (ys ++ (n, d) ∷ zs)
      → (fetch key cmp fuel l wanted h
          ≡ some ((pos 0, if wanted then some (take l.size d) else none), without h n))
        × (delete key cmp fuel l h ≡ some (pos 0, without h n))
  unfolding fetch delete free get_bytes without
  hit-run wanted ys zs n d e is' =
      let found = find_-first key cmp h l xs fuel is enough in
      let (run, alive, bytes) = unlink-run h l ys zs n d is' in
      let member = first_match-has key cmp xs n d e in
      let outside = is.apart in
      (unfold unlinked in ground (arith, found, run), unfold unlinked in ground (arith, found, run))

  -- On a list with a node whose data are accepted, and with fuel for the whole list, `llist_fetch`
  -- and `llist_delete` return 0 and take out the first such node: the others stay in order with
  -- their data, that node is freed, nothing outside the list is written, and `fetch` copies the
  -- data if the caller gave a buffer.
  pub remove-hit :
      (wanted : Bool) (n : Ptr) (d : Bytes)
      → first_match key cmp xs ≡ some (n, d)
      → (g : Heap) × (fetch key cmp fuel l wanted h
          ≡ some ((pos 0, if wanted then some (take l.size d) else none), g))
        × (delete key cmp fuel l h ≡ some (pos 0, g))
        × IsList g l (remove_first key cmp xs)
        × (g.alive n ≡ false)
        × SameOutside h g l xs
  remove-hit wanted n d e =
      let (ys, zs, whole, less) = first_match-split key cmp xs n d e in
      let is' = subst (IsList h l) whole is in
      let (fetched, deleted) = hit-run wanted ys zs n d e is' in
      let (rest, freed, same) = without-IsList h l ys zs n d is' in
      (without h n, fetched, deleted, rw less rest, freed, λ a ne o. same a ne (rw whole at o))
