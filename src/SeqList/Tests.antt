-- ===== src/SeqList/Tests.antt =====
-- Runs of sqlist.c and its theorems on small lists.
use study_c_know.Common.{List, ◌∷◌, arith, ◌≡◌, ◌||◌, some}
use study_c_know.Common.{replicate, length-replicate}
use study_c_know.Common.Int.{ℤ, pos}
use study_c_know.SeqList.{SeqList, insert, delete, union}
use study_c_know.SeqList.Bounds.{IsValid, contents}
use study_c_know.SeqList.Spec.{Implements, insert_list, delete_list}
use study_c_know.SeqList.Insert.{insert-insert_list}
use study_c_know.SeqList.Delete.{delete-delete_list}
use study_c_know.SeqList.Find.{has}
use study_c_know.SeqList.Union.{union-has}

-- The elements 7, 8 and 9, before cells that hold 0.
abbrev cells_789 : List ℤ
cells_789 = pos 7 ∷ pos 8 ∷ pos 9 ∷ replicate 1021 (pos 0)

abbrev three : SeqList
three = record { cells = cells_789; last = pos 2 }

abbrev other : SeqList
other = record { cells = pos 9 ∷ replicate 1023 (pos 0); last = pos 0 }

three-IsValid : IsValid three
three-IsValid = record {
  block = omega (arith, length-replicate 1021 (pos 0));
  low = omega arith;
  high = omega arith;
}

other-IsValid : IsValid other
other-IsValid = record {
  block = omega (arith, length-replicate 1023 (pos 0));
  low = omega arith;
  high = omega arith;
}

insert-insert_list_example :
    Implements (insert three (pos 1) (pos 5)) (insert_list (contents three) (pos 1) (pos 5))
insert-insert_list_example = insert-insert_list three (pos 1) (pos 5) three-IsValid

delete-delete_list_example :
    Implements (delete three (pos 2)) (delete_list (contents three) (pos 2))
delete-delete_list_example = delete-delete_list three (pos 2) three-IsValid

-- 9 stands last in the first list, where `sqlist_find` does not look.
union-has_example :
    (r : ℤ × SeqList) × (union three other ≡ some r)
    × IsValid (r.1)
    × (has (pos 9) (contents (r.1))
        ≡ (has (pos 9) (contents three) || has (pos 9) (contents other)))
union-has_example = union-has (pos 9) three other three-IsValid other-IsValid (omega arith)
