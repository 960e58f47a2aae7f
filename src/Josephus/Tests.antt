-- ===== src/Josephus/Tests.antt =====
-- The theorems of yuesefu.c on a circle of three.
use study_c_know.Common.{
  ℕ, ◌+◌, ◌≡◌, refl, true, false, ◌||◌, some, [], ◌∷◌, arith, if◌then◌else◌, ◌==◌,
}
use study_c_know.Common.Int.{ℤ, pos}
use study_c_know.NodeHeap.{Ptr, Heap, update}
use study_c_know.NodeHeap.Chain.{values}
use study_c_know.Josephus.{kill}
use study_c_know.Josephus.Circle.{Nodes, Circle}
use study_c_know.Josephus.Build.{Memory}
use study_c_know.Josephus.Order.{spin, order}
use study_c_know.Josephus.Kill.{Killed, kill-order}

abbrev heap : Heap ℤ
heap = record {
  alive = λ a. (a == 1) || (a == 2) || (a == 3);
  value = λ a. pos a;
  next = λ a. if a == 3 then 1 else a + 1;
}

abbrev others : Nodes
others = (2, pos 2) ∷ (3, pos 3) ∷ []

heap-Circle : Circle heap 1 (pos 1) others
heap-Circle = record {
  node = (omega arith, refl, refl);
  ring = (refl, (omega arith, refl, refl), (refl, (omega arith, refl, refl), refl));
  distinct = (refl, (refl, (refl, tt)));
}

kill-order_example :
    (last : Ptr) × (g : Heap ℤ) × (kill 3 9 1 2 heap
      ≡ some ((values ((order 2 1 ((1, pos 1) ∷ others)).0), last), g))
    × Killed
        (record heap { alive = update heap.alive 9 true })
        g
        1
        last
        (order 2 1 ((1, pos 1) ∷ others))
kill-order_example =
    kill-order heap 9 1 (pos 1) others 3 0 heap-Circle (omega arith) refl (omega arith)

-- 2 is counted out first, then 1; 3 is left.
counted_out : order 2 1 ((1, pos 1) ∷ others) ≡ ((2, pos 2) ∷ (1, pos 1) ∷ [], (3, pos 3) ∷ [])
unfolding order spin
counted_out = refl

abbrev empty : Heap ℤ
empty = record { alive = λ a. false; value = λ a. pos 0; next = λ a. 0 }

abbrev malloc : ℕ → Ptr
malloc i = i + 4

empty-Memory : Memory malloc empty 3 1
empty-Memory = record {
  some_left = λ j lo hi. omega arith;
  unused = λ j lo hi. refl;
  apart = λ j l a b c d e. omega (arith, e);
}
