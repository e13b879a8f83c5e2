-- ===== src/Filter/Laws.antt =====
-- src/filter.rs: a filter contains the paths at and below the ones it was made from.
use rust_u4pak.Common.{
  ◌≡◌, ◌∙◌, refl, arith, Bool, true, false, ◌&&◌, ◌||◌, Option, none, some, List, [], ◌∷◌, foldl,
  if◌then◌else◌, Bool-cases, inl, inr, bytes_eq, bytes_eq→eq,
}
use rust_u4pak.Text.{Text}
use rust_u4pak.PakPath.{non_empty, parse_pak_path}
use rust_u4pak.Record.{unwrap_or}
use rust_u4pak.Filter.Defs.{
  Filter, Nodes, filter, empty, entry, new, get, put, insert_iter, insert, from_paths,
  contains_iter, contains,
}

-- One list of components starts with another one.
abbrev pub is_prefix : List Text → List Text → Bool
is_prefix [] q = true
is_prefix (n ∷ p) [] = false
is_prefix (n ∷ p) (m ∷ q) = bytes_eq n m && is_prefix p q

bytes_eq-same : (n m k : Text) → bytes_eq n m ≡ true → bytes_eq n k ≡ bytes_eq m k
bytes_eq-same n m k e = rw (bytes_eq→eq n m e)

pub bytes_eq_sym : (n m : Text) → bytes_eq n m ≡ bytes_eq m n
unfolding bytes_eq
bytes_eq_sym [] [] = refl
bytes_eq_sym [] (y ∷ m) = refl
bytes_eq_sym (x ∷ n) [] = refl
bytes_eq_sym (x ∷ n) (y ∷ m) = ground (arith, bytes_eq_sym n m)

bytes_eq-other : (k n m : Text) → bytes_eq k n ≡ false → bytes_eq n m ≡ true → bytes_eq k m ≡ false
bytes_eq-other k n m e h = rw (← bytes_eq→eq n m h) e

-- What a name leads to after an entry was put.
pub get-put :
    (n m : Text) (f : Filter) (ns : Nodes)
    → get m (put n f ns) ≡ (if bytes_eq n m then some f else get m ns)
unfolding get put
get-put n m f empty = refl
get-put n m f (entry k child ns) = elim (Bool-cases (bytes_eq k n)) [
  | inl e ↦ rw (e, bytes_eq-same k n m e) (ground arith)
  | inr e ↦ rw (e, get-put n m f ns) (ground (arith, bytes_eq-other k n m e))
]

-- The child that a name leads to, or that is made for it.
abbrev pub child_at : Text → Nodes → Filter
child_at name ns = unwrap_or (get name ns) new

contains_iter-new : (q : List Text) → contains_iter q new ≡ false
unfolding contains_iter get
contains_iter-new [] = refl
contains_iter-new (m ∷ q) = refl

-- A tree whose root is not included contains what the children contain.
pub contains_iter-child :
    (m : Text) (q : List Text) (ns : Nodes) (v : Bool)
    → contains_iter (m ∷ q) (filter ns false v) ≡ contains_iter q (child_at m ns)
unfolding contains_iter
contains_iter-child m q ns v = go (get m ns)
  where
    go :
        (o : Option Filter)
        → ◌≡◌ {A = Bool}
            (elim o [ some child ↦ contains_iter q child | none ↦ false ])
            (contains_iter q (unwrap_or o new))
    go none = rw contains_iter-new
    go (some child) = refl

child_at-put :
    (n m : Text) (f : Filter) (ns : Nodes)
    → child_at m (put n f ns) ≡ (if bytes_eq n m then f else child_at m ns)
child_at-put n m f ns = rw get-put (ground arith)

insert_iter-skip :
    (p : List Text) (ns : Nodes) (i v : Bool)
    → insert_iter ([] ∷ p) (filter ns i v) ≡ insert_iter p (filter ns i v)
unfolding insert_iter
insert_iter-skip p ns i v = refl

contains_iter-included :
    (q : List Text) (ns : Nodes) (v : Bool) → contains_iter q (filter ns true v) ≡ true
unfolding contains_iter
contains_iter-included [] ns v = refl
contains_iter-included (m ∷ q) ns v = refl

or_true : (b : Bool) → (b || true) ≡ true
or_true b = ground arith

-- A path below a child that was put, by whether its name is the one that was put.
contains_iter-put :
    (n m : Text) (p q : List Text) (child : Filter) (ns : Nodes)
    → contains_iter q child ≡ (contains_iter q (child_at n ns) || is_prefix p q)
    → contains_iter q (child_at m (put n child ns))
      ≡ (contains_iter q (child_at m ns) || (bytes_eq n m && is_prefix p q))
contains_iter-put n m p q child ns e = elim (Bool-cases (bytes_eq n m)) [
  | inl same ↦ rw (child_at-put, same) (rw (← bytes_eq→eq n m same) e)
  | inr other ↦ rw (child_at-put, other) (ground arith)
]

-- After an insertion the tree contains what it contained, and all that starts with the path.
pub contains_iter-insert_iter :
    (p : List Text) (f : Filter) (q : List Text)
    → contains_iter q (insert_iter p f) ≡ (contains_iter q f || is_prefix (non_empty p) q)
unfolding insert_iter non_empty
contains_iter-insert_iter [] (filter ns i v) q = rw (contains_iter-included, or_true)
contains_iter-insert_iter ([] ∷ p) (filter ns i v) q = contains_iter-insert_iter p (filter ns i v) q
contains_iter-insert_iter ((c ∷ n) ∷ p) (filter ns true v) q =
    contains_iter-included q _ v ∙ rw (contains_iter-included q ns v)
contains_iter-insert_iter ((c ∷ n) ∷ p) (filter ns false v) [] = unfold contains_iter in refl
contains_iter-insert_iter ((c ∷ n) ∷ p) (filter ns false v) (m ∷ q) =
    rw (contains_iter-child m q ns v, contains_iter-child)
      (contains_iter-put (c ∷ n) m (non_empty p) q _ ns
        (contains_iter-insert_iter p (child_at (c ∷ n) ns) q))

-- Some path of the list starts the given one.
abbrev pub any_prefix : List Text → List Text → Bool
any_prefix [] q = false
any_prefix (p ∷ paths) q = is_prefix (parse_pak_path p) q || any_prefix paths q

or_assoc : (a b c : Bool) → ((a || b) || c) ≡ (a || (b || c))
or_assoc a b c = ground arith

contains_iter-inserts :
    (paths : List Text) (f : Filter) (q : List Text)
    → contains_iter q (foldl (λ g path. insert path g) f paths)
      ≡ (contains_iter q f || any_prefix paths q)
unfolding insert parse_pak_path
contains_iter-inserts [] f q = ground arith
contains_iter-inserts (p ∷ paths) f q =
    contains_iter-inserts paths (insert p f) q
    ∙ rw contains_iter-insert_iter
        (or_assoc (contains_iter q f) (is_prefix (parse_pak_path p) q) (any_prefix paths q))

-- A path is in the filter of a list of paths exactly if its components start with those of a
-- path of the list. Slashes at the ends and empty components do not matter.
pub contains-from_paths :
    (paths : List Text) (path : Text)
    → contains path (from_paths paths) ≡ any_prefix paths (parse_pak_path path)
unfolding contains from_paths
contains-from_paths paths path =
    contains_iter-inserts paths new (parse_pak_path path) ∙ rw contains_iter-new
