-- ===== src/LinkedList/Tests.antt =====
-- The theorems of the generic list on a heap with two nodes.
use study_c_know.Common.{
  ℕ, ◌≡◌, ◌≢◌, refl, true, false, ◌||◌, none, some, [], ◌∷◌, ◌++◌, take, arith, if◌then◌else◌, ◌==◌,
}
use study_c_know.Common.Int.{ℤ, pos}
use study_c_know.LinkedList.{
  Ptr, Bytes, Heap, LList, insert, forward, backward, find, fetch, delete, destroy,
}
use study_c_know.LinkedList.Chain.{Cells, has, IsList, SameOutside}
use study_c_know.LinkedList.Insert.{insert-forward, insert-backward}
use study_c_know.LinkedList.Search.{first_match, remove_first, pointer, find-first_match}
use study_c_know.LinkedList.Remove.{remove-hit}
use study_c_know.LinkedList.Destroy.{destroy_ring}

-- The head at 1, nodes at 2 and 3 that hold the bytes 7 and 8.
abbrev heap : Heap
heap = record {
  alive = λ a. (a == 1) || (a == 2) || (a == 3);
  prve = λ a. if a == 1 then 3 else if a == 2 then 1 else 2;
  next = λ a. if a == 1 then 2 else if a == 2 then 3 else 1;
  bytes = λ a. if a == 2 then 7 ∷ [] else 8 ∷ [];
}

abbrev handle : LList
handle = record { size = 1; head = 1 }

abbrev nodes : Cells
nodes = (2, 7 ∷ []) ∷ (3, 8 ∷ []) ∷ []

heap-IsList : IsList heap handle nodes
heap-IsList = record {
  ring = (refl, refl, refl, refl, (refl, refl, refl, refl, (refl, refl)));
  root = refl;
  apart = refl;
  distinct = (refl, (refl, tt));
}

-- A callback that compares the first byte with the key: 0 if they are equal.
abbrev byte_cmp : ℕ → Bytes → ℤ
byte_cmp key [] = pos 1
byte_cmp key (b ∷ bs) = if b == key then pos 0 else pos 1

insert-forward_example :
    (g : Heap) × (insert 4 handle (9 ∷ []) forward heap ≡ some (pos 0, g))
    × IsList g handle ((4, take 1 (9 ∷ [])) ∷ nodes)
    × SameOutside heap g handle ((4, take 1 (9 ∷ [])) ∷ nodes)
    × ((a : Ptr) → a ≢ 4 → g.alive a ≡ heap.alive a)
insert-forward_example =
    insert-forward heap handle 4 (9 ∷ []) nodes heap-IsList (omega arith) refl (omega arith)

insert-backward_example :
    (g : Heap) × (insert 4 handle (9 ∷ []) backward heap ≡ some (pos 0, g))
    × IsList g handle (nodes ++ (4, take 1 (9 ∷ [])) ∷ [])
    × SameOutside heap g handle (nodes ++ (4, take 1 (9 ∷ [])) ∷ [])
    × ((a : Ptr) → a ≢ 4 → g.alive a ≡ heap.alive a)
insert-backward_example =
    insert-backward heap handle 4 (9 ∷ []) nodes heap-IsList (omega arith) refl (omega arith)

find-first_match_example :
    find 8 byte_cmp 3 handle heap ≡ some (pointer (first_match 8 byte_cmp nodes), heap)
find-first_match_example = find-first_match 8 byte_cmp heap handle nodes 3 heap-IsList (omega arith)

found_8 : first_match 8 byte_cmp nodes ≡ some (3, 8 ∷ [])
unfolding first_match
found_8 = refl

remove-hit_example :
    (g : Heap) × (fetch 8 byte_cmp 3 handle true heap
      ≡ some ((pos 0, if true then some (take 1 (8 ∷ [])) else none), g))
    × (delete 8 byte_cmp 3 handle heap ≡ some (pos 0, g))
    × IsList g handle (remove_first 8 byte_cmp nodes)
    × (g.alive 3 ≡ false)
    × SameOutside heap g handle nodes
remove-hit_example =
    remove-hit 8 byte_cmp heap handle nodes 3 heap-IsList (omega arith) true 3 (8 ∷ []) found_8

missing_6 : first_match 6 byte_cmp nodes ≡ none
unfolding first_match
missing_6 = refl

destroy_ring_example :
    (g : Heap) × (destroy 3 handle heap ≡ some (tt, g))
    × ((a : Ptr) → g.alive a ≡ (if (a == 1) || has a nodes then false else heap.alive a))
destroy_ring_example = destroy_ring heap handle nodes 3 heap-IsList (omega arith)
