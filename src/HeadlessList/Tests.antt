-- ===== src/HeadlessList/Tests.antt =====
-- The theorems of nohead单链表.c on a heap with two records.
use study_c_know.Common.{refl, ◌||◌, [], ◌∷◌, arith, if◌then◌else◌, ◌==◌}
use study_c_know.Common.Int.{pos}
use study_c_know.NodeHeap.{Heap}
use study_c_know.HeadlessList.{Score}
use study_c_know.HeadlessList.Laws.{Nodes, IsList}

abbrev ann : Score
ann = record { id = pos 1; name = 65 ∷ []; math = pos 90; chinese = pos 80 }

abbrev bob : Score
bob = record { id = pos 2; name = 66 ∷ []; math = pos 70; chinese = pos 60 }

abbrev heap : Heap Score
heap = record {
  alive = λ a. (a == 2) || (a == 3);
  value = λ a. if a == 2 then ann else bob;
  next = λ a. if a == 2 then 3 else 0;
}

abbrev nodes : Nodes
nodes = (2, ann) ∷ (3, bob) ∷ []

heap-IsList : IsList heap 2 nodes
heap-IsList = record { linked = ground arith; distinct = (refl, (refl, tt)) }
