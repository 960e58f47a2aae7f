-- ===== src/SingleList/Tests.antt =====
-- The theorems of 单链表.c on a heap with a header and two nodes.
use study_c_know.Common.{
  ◌≡◌, ◌≢◌, refl, false, ◌||◌, some, List, [], ◌∷◌, ◌++◌, arith, if◌then◌else◌, ◌==◌,
}
use study_c_know.Common.Int.{ℤ, pos, negsuc}
use study_c_know.NodeHeap.{Ptr, Heap}
use study_c_know.SingleList.{IsList, insert, remove}
use study_c_know.SingleList.Locate.{before, from}
use study_c_know.SingleList.Change.{insert-before, remove_first, is_first, remove-remove_first}
use study_c_know.SingleList.Build.{read_until}

-- The header at 1, the values 7 at 2 and 8 at 3.
abbrev heap : Heap ℤ
heap = record {
  alive = λ a. (a == 1) || (a == 2) || (a == 3);
  value = λ a. if a == 2 then pos 7 else pos 8;
  next = λ a. if a == 1 then 2 else if a == 2 then 3 else 0;
}

abbrev nodes : List (Ptr × ℤ)
nodes = (2, pos 7) ∷ (3, pos 8) ∷ []

heap-IsList : IsList heap 1 nodes
heap-IsList = record {
  chain = ground arith;
  root = refl;
  ne = omega arith;
  apart = refl;
  distinct = (refl, (refl, tt));
}

insert-before_example :
    (g : Heap ℤ) × (insert 3 4 1 (pos 8) (pos 9) heap ≡ some (tt, g))
    × IsList g 1 (before (pos 8) nodes ++ (4, pos 9) ∷ from (pos 8) nodes)
    × ((a : Ptr) → a ≢ 4 → g.alive a ≡ heap.alive a)
insert-before_example =
    insert-before heap 1 nodes 3 4 (pos 8) (pos 9) heap-IsList (omega arith) (omega arith) refl

remove-remove_first_example :
    (g : Heap ℤ) × (remove 3 1 (pos 8) heap ≡ some (tt, g))
    × IsList g 1 (remove_first (pos 8) nodes)
    × ((a : Ptr) → g.alive a ≡ (if is_first a (from (pos 8) nodes) then false else heap.alive a))
remove-remove_first_example = remove-remove_first heap 1 nodes 3 (pos 8) heap-IsList (omega arith)

-- The numbers 5 and 6, read before a -1.
abbrev input : List (ℤ × Ptr)
input = (pos 5, 8) ∷ (pos 6, 9) ∷ (negsuc 0, 0) ∷ []

input_read : read_until input ≡ some ((8, pos 5) ∷ (9, pos 6) ∷ [])
unfolding read_until
input_read = refl
