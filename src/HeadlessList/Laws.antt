-- ===== src/HeadlessList/Laws.antt =====
-- The calls of nohead单链表.c on the nodes of the list.
use study_c_know.Common.{
  ◌≡◌, ◌≢◌, refl, true, false, some, List, [], ◌∷◌, length, arith, if◌then◌else◌, ◌==◌,
}
use study_c_know.Common.Int.{pos, negsuc}
use study_c_know.NodeHeap.{Ptr, null, Heap, update}
use study_c_know.NodeHeap.Chain.{has, Distinct, Node, Chain, Chain-frame, has-alive}
use study_c_know.HeadlessList.{Score, insert, delete}

abbrev pub Nodes : Type 0
Nodes = List (Ptr × Score)

-- From the first node on, up to NULL.
abbrev pub Linked : Heap Score → Ptr → Nodes → Type 0
Linked h list [] = list ≡ null
Linked h list ((a, d) ∷ xs) = (list ≡ a) × Node h a d × Chain h a xs null

pub record IsList (h : Heap Score) (list : Ptr) (xs : Nodes) : Type 0 where
  pub linked : Linked h list xs
  pub distinct : Distinct xs

-- With memory for a node `list_insert` returns 0 and puts the record in a new first node; the
-- others stay in order, and no other address is allocated or freed.
pub insert-cons :
    (h : Heap Score) (list n : Ptr) (score : Score) (xs : Nodes)
    → IsList h list xs
    → n ≢ null
    → h.alive n ≡ false
    → (g : Heap Score) × (insert n list score h ≡ some ((pos 0, n), g))
      × IsList g n ((n, score) ∷ xs)
      × ((a : Ptr) → a ≢ n → g.alive a ≡ h.alive a)
unfolding insert
insert-cons h list n score [] is ne fresh =
    let e = is.linked in
    (
      record {
        alive = update h.alive n true;
        value = update h.value n score;
        next = update h.next n list;
      },
      ground arith,
      record { linked = ground arith; distinct = (refl, tt) },
      λ a i. ground arith,
    )
insert-cons h list n score ((p, d) ∷ xs) is ne fresh =
    let g : Heap Score = record {
      alive = update h.alive n true;
      value = update h.value n score;
      next = update h.next n list;
    } in
    let (e, node, c) = is.linked in
    let inside = has-alive h n p xs null c in
    let apart : has n ((p, d) ∷ xs) ≡ false = ground arith in
    (
      g,
      ground arith,
      record {
        linked = (
          refl,
          (ne, ground arith, ground arith),
          (
            ground arith,
            (node.0, ground arith, ground arith),
            Chain-frame h g p p xs null c (ground arith) (λ a i. ground arith)
                (λ a i. (ground arith, ground arith)),
          ),
        );
        distinct = (apart, is.distinct);
      },
      λ a i. ground arith,
    )

-- The nodes without the first one.
abbrev pub tail : Nodes → Nodes
tail [] = []
tail (x ∷ xs) = xs

-- `list_delete` returns -1 and changes nothing on an empty list; on another one it returns 0, takes
-- out the first node and frees it, and no other.
pub delete-tail :
    (h : Heap Score) (list : Ptr) (xs : Nodes)
    → IsList h list xs
    → (next : Ptr) × (g : Heap Score) × (delete list h
        ≡ some ((if length xs == 0 then negsuc 0 else pos 0, next), g))
      × IsList g next (tail xs)
      × ((a : Ptr)
          → g.alive a
            ≡ (if length xs == 0 then h.alive a else if a == list then false else h.alive a))
unfolding delete
delete-tail h list [] is = let e = is.linked in (list, h, ground arith, is, λ a. refl)
delete-tail h list ((p, d) ∷ []) is =
    let (e, node, c) = is.linked in
    (
      h.next list,
      record h { alive = update h.alive list false },
      ground arith,
      record { linked = ground arith; distinct = tt },
      λ a. ground arith,
    )
delete-tail h list ((p, d) ∷ (q, b) ∷ xs) is =
    let (e, node, (f, other, c)) = is.linked in
    let (apart, apart') = is.distinct in
    let g : Heap Score = record h { alive = update h.alive list false } in
    (
      h.next list,
      g,
      ground arith,
      record {
        linked = (
          ground arith,
          (other.0, ground arith, other.2),
          Chain-frame h g q q xs null c refl (λ a i. refl) (λ a i. (refl, ground arith)),
        );
        distinct = apart';
      },
      λ a. ground arith,
    )
