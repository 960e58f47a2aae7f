-- ===== src/Polynomial.antt =====
-- 数据结构/链表/单链表/多项式合并.c: two polynomials as lists of terms behind header nodes, and their
-- sum, which takes the nodes of both. Each `malloc` is an argument, the address that it returns.
pub mod Sum
pub mod Left
pub mod Steps
pub mod Rounds
pub mod Merge
mod Tests
use study_c_know.Common.{
  ℕ, zero, suc, Bool, true, false, ◌||◌, Option, none, some, List, [], ◌∷◌, if◌then◌else◌, ◌==◌,
}
use study_c_know.Common.Int.{ℤ, pos, negsuc, ◌+ℤ◌, ◌==ℤ◌, ltb_ℤ, to_int}
use study_c_know.NodeHeap.{
  Ptr, null, Heap, Cmd, pure, ◌>>=◌, ◌>>◌, get_next, get_value, set_next, set_value, allocate,
}

-- A coefficient and its exponent.
pub record Pol : Type 0 where
  pub x : ℤ
  pub y : ℤ

-- A node for the term `d` behind `cur`.
unfoldable pub append_node : (fresh : Ptr) → (cur : Ptr) → Pol → Cmd Pol Ptr
append_node fresh cur d = do
  allocate fresh
  set_value fresh d
  set_next fresh null
  set_next cur fresh
  pure fresh

-- The loop of `Init_Linklist`: one entry for each row of the array, with what `malloc` returns.
unfoldable pub init_loop : List (Pol × Ptr) → (cur : Ptr) → Cmd Pol (Unit {0})
init_loop [] cur = pure tt
init_loop ((d, fresh) ∷ rows) cur = do cur' ← append_node fresh cur d; init_loop rows cur'

unfoldable pub init : (header : Ptr) → List (Pol × Ptr) → Cmd Pol Ptr
init header rows =
    if header == null
    then pure null
    else do allocate header; set_next header null; init_loop rows header; pure header

-- What the loop of `list_show` prints from `cur` on.
unfoldable pub show_loop : ℕ → (cur : Ptr) → Cmd Pol (List Pol)
show_loop zero cur = λ _. none
show_loop (suc fuel) cur =
    if cur == null
    then pure []
    else do d ← get_value cur; n ← get_next cur; rest ← show_loop fuel n; pure (d ∷ rest)

unfoldable pub list_show : ℕ → (list : Ptr) → Cmd Pol (List Pol)
list_show fuel list = do cur ← get_next list; show_loop fuel cur

-- p->data.x += q->data.x, which is undefined where it does not fit an int.
unfoldable pub add_coefficient : Ptr → Pol → Pol → Cmd Pol ℤ
add_coefficient p d e h = add_to (to_int (d.x +ℤ e.x))
  where
    add_to : Option ℤ → Option (ℤ × Heap Pol)
    add_to none = none
    add_to (some s) = (do set_value p (record d { x = s }); pure s) h

-- The node `p` is the last of the sum now, if its coefficient is not 0.
unfoldable pub keep : (r p : Ptr) → ℤ → Cmd Pol Ptr
keep r p s = if s ==ℤ pos 0 then pure r else do set_next r p; pure p

-- while (p && q): `r`, `p` and `q` after the loop
unfoldable pub merge : ℕ → (r p q : Ptr) → Cmd Pol (Ptr × (Ptr × Ptr))
merge zero r p q = λ _. none
merge (suc fuel) r p q = if (p == null) || (q == null) then pure (r, (p, q)) else do
  d ← get_value p
  e ← get_value q
  if ltb_ℤ d.y e.y
      then (do set_next r p; n ← get_next p; merge fuel p n q)
      else if ltb_ℤ e.y d.y
      then (do set_next r q; n ← get_next q; merge fuel q p n)
      else (do
        s ← add_coefficient p d e
        r' ← keep r p s
        m ← get_next p
        n ← get_next q
        merge fuel r' m n)

-- What is left of the other list follows.
unfoldable pub attach : Ptr × (Ptr × Ptr) → Cmd Pol (Unit {0})
attach (r, (p, q)) = do
  (if p == null then set_next r q else pure tt)
  (if q == null then set_next r p else pure tt)

unfoldable pub un_link_node : ℕ → (p1 p2 : Ptr) → Cmd Pol (Unit {0})
un_link_node fuel p1 p2 = do p ← get_next p1; q ← get_next p2; ends ← merge fuel p1 p q; attach ends

-- What the program prints: the two polynomials and their sum.
unfoldable pub main :
    ℕ
    → (header_1 : Ptr) → List (Pol × Ptr)
    → (header_2 : Ptr) → List (Pol × Ptr)
    → Cmd Pol (List Pol × (List Pol × List Pol))
main fuel header_1 a header_2 b = do
  p1 ← init header_1 a
  p2 ← init header_2 b
  first ← list_show fuel p1
  second ← list_show fuel p2
  un_link_node fuel p1 p2
  sum ← list_show fuel p1
  pure (first, (second, sum))
