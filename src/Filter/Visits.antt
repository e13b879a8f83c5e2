-- ===== src/Filter/Visits.antt =====
-- src/filter.rs: what `visit` returns and what it marks.
use rust_u4pak.Common.{
  ◌≡◌, refl, arith, Bool, true, false, ◌&&◌, ◌||◌, Option, none, some, List, [], ◌∷◌, Bool-cases,
  Option-cases, inl, inr, bytes_eq, bytes_eq_refl, bytes_eq→eq,
}
use rust_u4pak.Text.{Text}
use rust_u4pak.Filter.Defs.{Filter, Nodes, filter, get, put, contains_iter, visit_iter, visit_child}
use rust_u4pak.Filter.Laws.{is_prefix, get-put, bytes_eq_sym}

-- The node at a path.
unfoldable pub node_at : List Text → Filter → Option Filter
unfolding get
node_at [] f = some f
node_at (n ∷ p) (filter ns i v) = elim (get n ns) [ none ↦ none | some child ↦ node_at p child ]

abbrev pub is_included : Option Filter → Bool
is_included none = false
is_included (some (filter ns i v)) = i

abbrev pub is_visited : Option Filter → Bool
is_visited none = false
is_visited (some (filter ns i v)) = v

visit_iter-some :
    (m : Text) (q : List Text) (ns : Nodes) (i v : Bool) (child : Filter)
    → get m ns ≡ some child
    → visit_iter (m ∷ q) (filter ns i v) ≡ visit_child m ns i v (some (visit_iter q child))
unfolding visit_iter
visit_iter-some m q ns i v child e = rw e

visit_iter-none :
    (m : Text) (q : List Text) (ns : Nodes) (i v : Bool)
    → get m ns ≡ none
    → visit_iter (m ∷ q) (filter ns i v) ≡ visit_child m ns i v none
unfolding visit_iter
visit_iter-none m q ns i v e = rw e

-- What a visit leaves of the node at `p`: the flag `included`, and `visited` if the node is
-- included and `p` starts the path.
abbrev pub Marked : List Text → List Text → Option Filter → Option Filter → Type 0
Marked p q before after =
    (is_included after ≡ is_included before)
    × (is_visited after ≡ (is_visited before || (is_included before && is_prefix p q)))

Marked-child :
    (q : List Text) (m : Text) (ns : Nodes) (i v : Bool) (o : Option (Filter × Bool))
    → Marked [] q (some (filter ns i v)) (some (visit_child m ns i v o).0)
Marked-child q m ns true v none = (refl, ground arith)
Marked-child q m ns false v none = (refl, ground arith)
Marked-child q m ns true v (some (c, seen)) = (refl, ground arith)
Marked-child q m ns false v (some (c, seen)) = (refl, ground arith)

abbrev pub node_in : List Text → Option Filter → Option Filter
node_in p none = none
node_in p (some child) = node_at p child

pub node_at-child :
    (n : Text) (p : List Text) (ns : Nodes) (i v : Bool)
    → node_at (n ∷ p) (filter ns i v) ≡ node_in p (get n ns)
unfolding node_at
node_at-child n p ns i v = elim (Option-cases (get n ns)) [
  | inl e ↦ rw (e, node_at)
  | inr (c, e) ↦ rw (e, node_at)
]

node_at-visit_none :
    (n m : Text) (p : List Text) (ns : Nodes) (i v : Bool)
    → node_at (n ∷ p) (visit_child m ns i v none).0 ≡ node_in p (get n ns)
node_at-visit_none n m p ns true v = node_at-child n p ns true true
node_at-visit_none n m p ns false v = node_at-child n p ns false v

node_at-visit_some :
    (n m : Text) (p : List Text) (ns : Nodes) (i v : Bool) (c : Filter × Bool)
    → node_at (n ∷ p) (visit_child m ns i v (some c)).0 ≡ node_in p (get n (put m c.0 ns))
node_at-visit_some n m p ns true v (c, seen) = node_at-child n p (put m c ns) true true
node_at-visit_some n m p ns false v (c, seen) = node_at-child n p (put m c ns) false v

Marked-same :
    (p q : List Text) (o : Option Filter) (b : Bool)
    → b ≡ false
    → (is_included o ≡ is_included o) × (is_visited o ≡ (is_visited o || (is_included o && b)))
Marked-same p q o b e = ground arith

Marked-none :
    (n m : Text) (p q : List Text) (ns : Nodes)
    → get m ns ≡ none
    → Marked (n ∷ p) (m ∷ q) (node_in p (get n ns)) (node_in p (get n ns))
Marked-none n m p q ns e = elim (Bool-cases (bytes_eq n m)) [
  | inl same ↦ rw (bytes_eq→eq n m same, e) (refl, refl)
  | inr other ↦ rw other (Marked-same p q (node_in p (get n ns)) false refl)
]

Marked-put :
    (n m : Text) (p q : List Text) (ns : Nodes) (child after : Filter)
    → get m ns ≡ some child
    → Marked p q (node_at p child) (node_at p after)
    → Marked (n ∷ p) (m ∷ q) (node_in p (get n ns)) (node_in p (get n (put m after ns)))
Marked-put n m p q ns child after e marked = elim (Bool-cases (bytes_eq n m)) [
  | inl same ↦ rw (get-put, bytes_eq→eq n m same, bytes_eq_refl m, e) marked
  | inr other ↦
      rw (get-put, bytes_eq_sym m n, other) (Marked-same p q (node_in p (get n ns)) false refl)
]

-- A visit keeps which nodes are included, and marks the included ones that stand on its path, at
-- every place of the tree.
pub node_at-visit_iter :
    (p q : List Text) (f : Filter) → Marked p q (node_at p f) (node_at p (visit_iter q f).0)
unfolding node_at
node_at-visit_iter [] [] (filter ns true v) = unfold visit_iter in (refl, ground arith)
node_at-visit_iter [] [] (filter ns false v) = unfold visit_iter in (refl, ground arith)
node_at-visit_iter (n ∷ p) [] (filter ns true v) = unfold visit_iter in (refl, ground arith)
node_at-visit_iter (n ∷ p) [] (filter ns false v) = unfold visit_iter in (refl, ground arith)
node_at-visit_iter [] (m ∷ q) (filter ns i v) = elim (Option-cases (get m ns)) [
  | inl e ↦ rw (visit_iter-none m q ns i v e) (Marked-child (m ∷ q) m ns i v none)
  | inr (child, e) ↦
      rw (visit_iter-some m q ns i v child e)
        (Marked-child (m ∷ q) m ns i v (some (visit_iter q child)))
]
node_at-visit_iter (n ∷ p) (m ∷ q) (filter ns i v) = elim (Option-cases (get m ns)) [
  | inl e ↦
      rw (visit_iter-none m q ns i v e, node_at-visit_none n m p ns i v, node_at-child n p ns i v)
        (Marked-none n m p q ns e)
  | inr (child, e) ↦
      rw
        (
          visit_iter-some m q ns i v child e,
          node_at-visit_some n m p ns i v (visit_iter q child),
          node_at-child n p ns i v,
        )
        (Marked-put n m p q ns child (visit_iter q child).0 e (node_at-visit_iter p q child))
]

-- The answer of `visit` is the one of `contains`.
pub visit_iter-contains_iter : (q : List Text) (f : Filter) → (visit_iter q f).1 ≡ contains_iter q f
unfolding visit_iter contains_iter
visit_iter-contains_iter [] (filter ns true v) = refl
visit_iter-contains_iter [] (filter ns false v) = refl
visit_iter-contains_iter (m ∷ q) (filter ns true v) = elim (Option-cases (get m ns)) [
  | inl e ↦ rw e
  | inr (child, e) ↦ rw e
]
visit_iter-contains_iter (m ∷ q) (filter ns false v) = elim (Option-cases (get m ns)) [
  | inl e ↦ rw (e, contains_iter)
  | inr (child, e) ↦ rw (e, contains_iter) (visit_iter-contains_iter q child)
]
