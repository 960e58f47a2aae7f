-- ===== src/SingleList/Walk.antt =====
-- The walks of 单链表.c: `Foreach_Linklist`, `findnum_Linklist`, `Destory_Linklist` and
-- `Clear_Linklist`.
use study_c_know.Common.{
  ℕ, zero, suc, ◌+◌, ◌<◌, ◌≡◌, refl, true, false, ◌||◌, some, List, [], ◌∷◌, length, arith,
  if◌then◌else◌, ◌==◌,
}
use study_c_know.Common.Int.{ℤ}
use study_c_know.NodeHeap.{Ptr, null, Heap, update, get_next, get_value, set_next, free}
use study_c_know.NodeHeap.Chain.{has, values, Distinct, Chain, Chain-frame}
use study_c_know.SingleList.{
  IsList, foreach_loop, foreach, free_loop, destroy, count_loop, find_num, clear,
}

foreach_loop-values :
    (h : Heap ℤ) (fuel : ℕ) (u : Ptr) (xs : List (Ptr × ℤ))
    → Chain h u xs null
    → length xs < fuel
    → foreach_loop fuel (h.next u) h ≡ some (values xs, h)
unfolding foreach_loop get_next get_value
foreach_loop-values h zero u xs c enough = absurd (omega arith)
foreach_loop-values h (suc fuel) u [] c enough = ground arith
foreach_loop-values h (suc fuel) u ((a, d) ∷ xs) c enough =
    ground (arith, foreach_loop-values h fuel a xs (c.2))

-- `Foreach_Linklist` with fuel for the whole list prints the values in order and changes nothing.
pub foreach-values :
    (h : Heap ℤ) (header : Ptr) (xs : List (Ptr × ℤ)) (fuel : ℕ)
    → IsList h header xs
    → length xs < fuel
    → foreach fuel header h ≡ some (values xs, h)
unfolding foreach get_next
foreach-values h header xs fuel is enough =
    ground (arith, is.root, is.ne, foreach_loop-values h fuel header xs is.chain enough)

count_loop-length :
    (h : Heap ℤ) (fuel : ℕ) (u : Ptr) (xs : List (Ptr × ℤ)) (i : ℕ)
    → Chain h u xs null
    → length xs < fuel
    → count_loop fuel (h.next u) i h ≡ some (i + length xs, h)
unfolding count_loop get_next
count_loop-length h zero u xs i c enough = absurd (omega arith)
count_loop-length h (suc fuel) u [] i c enough = ground arith
count_loop-length h (suc fuel) u ((a, d) ∷ xs) i c enough =
    ground (arith, count_loop-length h fuel a xs (i + 1) (c.2))

-- `findnum_Linklist` with fuel for the whole list returns one more than the number of elements,
-- since it starts at the header, and changes nothing.
pub find_num-length :
    (h : Heap ℤ) (header : Ptr) (xs : List (Ptr × ℤ)) (fuel : ℕ)
    → IsList h header xs
    → length xs + 1 < fuel
    → find_num fuel header h ≡ some (length xs + 1, h)
unfolding find_num count_loop get_next
find_num-length h header xs zero is enough = absurd (omega arith)
find_num-length h header xs (suc fuel) is enough =
    ground (arith, is.root, is.ne, count_loop-length h fuel header xs 1 is.chain)

-- `h` with the nodes of `xs` given back.
unfoldable pub freed : Heap ℤ → List (Ptr × ℤ) → Heap ℤ
freed h [] = h
freed h ((p, d) ∷ xs) = freed (record h { alive = update h.alive p false }) xs

pub freed-fields :
    (h : Heap ℤ) (xs : List (Ptr × ℤ))
    → ((a : Ptr) → (freed h xs).alive a ≡ (if has a xs then false else h.alive a))
      × ((a : Ptr) → (freed h xs).next a ≡ h.next a)
unfolding freed
freed-fields h [] = (λ a. refl, λ a. refl)
freed-fields h ((p, d) ∷ xs) =
    let (alive, next) = freed-fields (record h { alive = update h.alive p false }) xs in
    (λ a. ground (arith, alive a), next)

free_loop-freed :
    (h : Heap ℤ) (fuel : ℕ) (u cur : Ptr) (xs : List (Ptr × ℤ))
    → Chain h u xs null
    → cur ≡ h.next u
    → Distinct xs
    → length xs < fuel
    → free_loop fuel cur h ≡ some (tt, freed h xs)
unfolding free_loop freed get_next free
free_loop-freed h zero u cur xs c e apart enough = absurd (omega arith)
free_loop-freed h (suc fuel) u cur [] c e apart enough = ground arith
free_loop-freed h (suc fuel) u cur ((a, d) ∷ xs) c e apart enough =
    let g : Heap ℤ = record h { alive = update h.alive a false } in
    let left = Chain-frame h g a a xs null (c.2) refl (λ b i. refl) (λ b i. (refl, ground arith)) in
    ground (arith, free_loop-freed g fuel a (h.next a) xs left refl (apart.1) (omega arith))

-- `Clear_Linklist` with fuel for the whole list leaves an empty list behind the same header; it
-- frees every element once, and nothing else.
pub clear_elements :
    (h : Heap ℤ) (header : Ptr) (xs : List (Ptr × ℤ)) (fuel : ℕ)
    → IsList h header xs
    → length xs < fuel
    → (g : Heap ℤ) × (clear fuel header h ≡ some (tt, g))
      × IsList g header []
      × ((a : Ptr) → g.alive a ≡ (if has a xs then false else h.alive a))
unfolding clear get_next set_next
clear_elements h header xs fuel is enough =
    let k = freed h xs in
    let (alive, next) = freed-fields h xs in
    let kept : k.alive header ≡ true = ground (arith, alive header, is.root, is.apart) in
    (
      record k { next = update k.next header null },
      ground (
        arith,
        is.root,
        is.ne,
        kept,
        free_loop-freed h fuel header (h.next header) xs is.chain refl is.distinct enough,
      ),
      record { chain = ground arith; root = kept; ne = is.ne; apart = refl; distinct = tt },
      alive,
    )

-- `Destory_Linklist` with fuel for the header and the list frees the header and every element once,
-- and nothing else.
pub destroy_chain :
    (h : Heap ℤ) (header : Ptr) (xs : List (Ptr × ℤ)) (fuel : ℕ)
    → IsList h header xs
    → length xs < fuel
    → (g : Heap ℤ) × (destroy (suc fuel) header h ≡ some (tt, g))
      × ((a : Ptr) → g.alive a ≡ (if (a == header) || has a xs then false else h.alive a))
unfolding destroy free_loop get_next free
destroy_chain h header xs fuel is enough =
    let k : Heap ℤ = record h { alive = update h.alive header false } in
    let out = is.apart in
    let left =
      Chain-frame h k header header xs null is.chain refl (λ b i. refl)
        (λ b i. (refl, ground arith)) in
    let (alive, next) = freed-fields k xs in
    (
      freed k xs,
      ground (
        arith,
        is.root,
        is.ne,
        free_loop-freed k fuel header (h.next header) xs left refl is.distinct enough,
      ),
      λ a. ground (arith, alive a),
    )
