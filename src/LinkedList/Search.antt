-- ===== src/LinkedList/Search.antt =====
-- `find_`, `llist_find` and `llist_travel`: walks that only read.
use study_c_know.Common.{
  ℕ, zero, suc, ◌<◌, ◌≡◌, refl, Bool, true, false, Option, none, some, List, [], ◌∷◌, ◌++◌, length,
  arith, if◌then◌else◌, ◌==◌, Bool-cases, inl, inr, ap,
}
use study_c_know.Common.Int.{ℤ, pos, ◌==ℤ◌}
use study_c_know.LinkedList.{
  Ptr, Bytes, Heap, LList, get_next, get_bytes, find_loop, find_, find, travel_loop, travel,
}
use study_c_know.LinkedList.Chain.{Cells, has, payload, Chain, IsList}

-- The address in a match, NULL (`none`) if there is no match.
abbrev pub pointer : Option (Ptr × Bytes) → Option Ptr
pointer none = none
pointer (some (p, d)) = some p

module _ {K : Type 0} (key : K) (cmp : K → Bytes → ℤ) where
  -- Whether the callback accepts the bytes.
  abbrev pub hit : Bytes → Bool
  hit d = cmp key d ==ℤ pos 0

  -- The first node that is accepted.
  unfoldable pub first_match : Cells → Option (Ptr × Bytes)
  first_match [] = none
  first_match ((p, d) ∷ xs) = if hit d then some (p, d) else first_match xs

  -- The nodes without that one.
  unfoldable pub remove_first : Cells → Cells
  remove_first [] = []
  remove_first ((p, d) ∷ xs) = if hit d then xs else (p, d) ∷ remove_first xs

  -- Its address, or the head if there is none.
  abbrev pub node_or : Ptr → Option (Ptr × Bytes) → Ptr
  node_or head none = head
  node_or head (some (p, d)) = p

  -- What stands before and behind the first node that is accepted.
  pub first_match-split :
      (xs : Cells) (n : Ptr) (d : Bytes)
      → first_match xs ≡ some (n, d)
      → (ys : Cells) × (zs : Cells) × (xs ≡ ys ++ (n, d) ∷ zs) × (remove_first xs ≡ ys ++ zs)
  unfolding first_match remove_first
  first_match-split [] n d e = cc
  first_match-split ((p, b) ∷ xs) n d e = elim (Bool-cases (hit b)) [
    | inl yes_hit ↦ ([], xs, ground arith, rw yes_hit)
    | inr no_hit ↦
        let (ys, zs, whole, less) = first_match-split xs n d (rw no_hit at e) in
        ((p, b) ∷ ys, zs, ap (λ (t : Cells). (p, b) ∷ t) whole, rw (no_hit, less))
  ]

  find_loop-first :
      (h : Heap) (fuel : ℕ) (head u cur : Ptr) (xs : Cells)
      → Chain h u xs head
      → cur ≡ h.next u
      → has head xs ≡ false
      → length xs < fuel
      → find_loop key cmp fuel head cur h ≡ some (node_or head (first_match xs), h)
  unfolding find_loop first_match get_next get_bytes
  find_loop-first h zero head u cur xs c e out enough = absurd (omega arith)
  find_loop-first h (suc fuel) head u cur [] c e out enough = ground arith
  find_loop-first h (suc fuel) head u cur ((a, d) ∷ xs) c e out enough =
      ground (arith, find_loop-first h fuel head a (h.next a) xs (c.4) refl)

  -- `find_` with fuel for the whole list returns the first node that is accepted, or the head.
  pub find_-first :
      (h : Heap) (l : LList) (xs : Cells) (fuel : ℕ)
      → IsList h l xs
      → length xs < fuel
      → find_ key cmp fuel l h ≡ some (node_or l.head (first_match xs), h)
  unfolding find_ get_next
  find_-first h l xs fuel is enough = ground (
    arith,
    is.root,
    find_loop-first h fuel l.head l.head (h.next l.head) xs is.ring refl is.apart enough,
  )

  -- A node that is found is no head.
  pub first_match-has :
      (xs : Cells) (n : Ptr) (d : Bytes) → first_match xs ≡ some (n, d) → has n xs ≡ true
  unfolding first_match
  first_match-has [] n d e = cc
  first_match-has ((p, b) ∷ xs) n d e = ground (arith, first_match-has xs n d)

  find-result :
      (l : LList) (h : Heap) (xs : Cells)
      → has l.head xs ≡ false
      → (m : Option (Ptr × Bytes)) → first_match xs ≡ m
      → (if◌then◌else◌ {A = Option (Option Ptr × Heap)}
          (node_or l.head m == l.head)
          (some (none, h))
          (some (some (node_or l.head m), h)))
        ≡ some (pointer m, h)
  find-result l h xs out none e = ground arith
  find-result l h xs out (some (p, d)) e = ground (arith, first_match-has xs p d e)

  -- `llist_find` with fuel for the whole list points at the data of the first node that is
  -- accepted, is NULL when there is none, and changes nothing.
  pub find-first_match :
      (h : Heap) (l : LList) (xs : Cells) (fuel : ℕ)
      → IsList h l xs
      → length xs < fuel
      → find key cmp fuel l h ≡ some (pointer (first_match xs), h)
  unfolding find
  find-first_match h l xs fuel is enough =
      rw (find_-first h l xs fuel is enough)
        (ground (arith, find-result l h xs is.apart (first_match xs) refl))

module _ {S : Type 0} (op : Bytes → S → S) where
  -- The states of `op` over a list of bytes.
  unfoldable pub run_all : List Bytes → S → S
  run_all [] s = s
  run_all (d ∷ ds) s = run_all ds (op d s)

  travel_loop-run_all :
      (h : Heap) (fuel : ℕ) (head u cur : Ptr) (xs : Cells) (s : S)
      → Chain h u xs head
      → cur ≡ h.next u
      → has head xs ≡ false
      → length xs < fuel
      → travel_loop op fuel head cur s h ≡ some (run_all (payload xs) s, h)
  unfolding travel_loop run_all get_next get_bytes
  travel_loop-run_all h zero head u cur xs s c e out enough = absurd (omega arith)
  travel_loop-run_all h (suc fuel) head u cur [] s c e out enough = ground arith
  travel_loop-run_all h (suc fuel) head u cur ((a, d) ∷ xs) s c e out enough =
      ground (arith, travel_loop-run_all h fuel head a (h.next a) xs (op d s) (c.4) refl)

  -- `llist_travel` with fuel for the whole list calls `op` on the data of every node, in order, and
  -- changes nothing.
  pub travel-run_all :
      (h : Heap) (l : LList) (xs : Cells) (fuel : ℕ) (s : S)
      → IsList h l xs
      → length xs < fuel
      → travel op fuel l s h ≡ some (run_all (payload xs) s, h)
  unfolding travel get_next
  travel-run_all h l xs fuel s is enough = ground (
    arith,
    is.root,
    travel_loop-run_all h fuel l.head l.head (h.next l.head) xs s is.ring refl is.apart enough,
  )
