-- ===== src/Sort/Stable.antt =====
-- src/bin/u4pak/sort.rs: `sort`, by the order of its keys.
use Prim.Native.Nat.{Ordering}
use mathlib.Core.List.{Perm, Pairwise, Pairwise-of_forall}
use mathlib.Core.List.Perm
use mathlib.Core.Path.{fun_ext}
use rust_u4pak.Common.{List, [], ◌∷◌, ◌≡◌, refl}
use rust_u4pak.Record.{Record}
use rust_u4pak.Sort.{SortKey, Comparison, or_else, sort_by, to_cmp, chain, make_chain, sort}
use rust_u4pak.Sort.Inserted.{equals, NotAfter, sort_by-perm, sort_by-IsSorted, equals-sort_by}
use rust_u4pak.Sort.Order.{IsOrder, to_cmp-IsOrder, make_chain-IsOrder}

-- By the first key that tells the two apart.
unfoldable pub by_keys : List SortKey → Comparison Record
unfolding to_cmp
by_keys [] a b = Ordering.eq
by_keys (key ∷ keys) a b = or_else (to_cmp key a b) (by_keys keys a b)

or_else_eq : (o : Ordering) → o ≡ or_else o Ordering.eq
or_else_eq Ordering.lt = refl
or_else_eq Ordering.eq = refl
or_else_eq Ordering.gt = refl

or_else_assoc : (o p q : Ordering) → or_else (or_else o p) q ≡ or_else o (or_else p q)
or_else_assoc Ordering.lt p q = refl
or_else_assoc Ordering.eq p q = refl
or_else_assoc Ordering.gt p q = refl

chain_assoc :
    (cmp1 cmp2 cmp3 : Comparison Record) (a b : Record)
    → or_else (chain cmp1 cmp2 a b) (cmp3 a b) ≡ or_else (cmp1 a b) (or_else (cmp2 a b) (cmp3 a b))
unfolding chain
chain_assoc cmp1 cmp2 cmp3 a b = or_else_assoc (cmp1 a b) (cmp2 a b) (cmp3 a b)

make_chain_lem :
    (cmp : Comparison Record) (keys : List SortKey) (a b : Record)
    → make_chain cmp keys a b ≡ or_else (cmp a b) (by_keys keys a b)
unfolding make_chain by_keys
make_chain_lem cmp [] a b = or_else_eq (cmp a b)
make_chain_lem cmp (key ∷ keys) a b =
    rw (make_chain_lem (chain cmp (to_cmp key)) keys a b)
      (chain_assoc cmp (to_cmp key) (by_keys keys) a b)

make_chain-by_keys :
    (key : SortKey) (keys : List SortKey) → make_chain (to_cmp key) keys ≡ by_keys (key ∷ keys)
unfolding by_keys
make_chain-by_keys key keys = fun_ext λ a. fun_ext λ b. make_chain_lem (to_cmp key) keys a b

abbrev pub IsStableSort : Comparison Record → List Record → List Record → Type 0
IsStableSort cmp sorted list =
    Pairwise (NotAfter cmp) sorted
    × Perm sorted list
    × ((a : Record) → equals cmp a sorted ≡ equals cmp a list)

sort_by-IsStableSort :
    {cmp : Comparison Record} (o : IsOrder cmp) (list : List Record)
    → IsStableSort cmp (sort_by cmp list) list
sort_by-IsStableSort o list =
    (sort_by-IsSorted o list, sort_by-perm o list, λ a. equals-sort_by o a list)

none_after : (a b : Record) → NotAfter (by_keys []) a b
unfolding by_keys
none_after a b = refl

-- Sort gives the same records in an order in which none stands behind one that is greater by the
-- first key that tells the two apart, and keeps the order of those that no key tells apart.
pub sort-IsStableSort :
    (list : List Record) (keys : List SortKey) → IsStableSort (by_keys keys) (sort list keys) list
unfolding sort
sort-IsStableSort list [] = (Pairwise-of_forall none_after, Perm.rfl, λ a. refl)
sort-IsStableSort list (key ∷ keys) =
    rw (← make_chain-by_keys key keys)
      (sort_by-IsStableSort (make_chain-IsOrder (to_cmp key) keys (to_cmp-IsOrder key)) list)
