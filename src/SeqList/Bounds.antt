-- ===== src/SeqList/Bounds.antt =====
-- The representation invariant of `sqlist`, and the lists that its cells stand for.
use study_c_know.Common.{◌≤◌, ◌≡◌, List, arith, length, take, length-take}
use study_c_know.Common.Int.{ℤ, pos, negsuc, ◌≤ℤ◌, count_of}
use study_c_know.SeqList.{SeqList, data_size}

pub record IsValid (me : SeqList) : Type 0 where
  pub block : length me.cells ≡ data_size
  pub low : negsuc 0 ≤ℤ me.last
  pub high : me.last ≤ℤ pos 1023

-- The list that the structure stands for.
abbrev pub contents : SeqList → List ℤ
contents me = take (count_of me.last) me.cells

pub count-le : {me : SeqList} → IsValid me → count_of me.last ≤ data_size
count-le v = ground arith

pub length-contents : {me : SeqList} → IsValid me → length (contents me) ≡ count_of me.last
length-contents {me} v = omega (arith, length-take (count_of me.last) me.cells, count-le v, v.block)
