-- ===== src/Filter/Selected.antt =====
-- src/filter.rs: the records that `records.iter().filter(|record| filter.visit(...))` takes, as
-- src/check.rs, src/unpack.rs and src/bin/u4pak/list.rs use it.
use rust_u4pak.Common.{
  ◌≡◌, ◌∙◌, refl, sym, ap, Bool, true, false, Option, none, some, List, [], ◌∷◌, Option-cases, inl,
  inr, if◌then◌else◌,
}
use rust_u4pak.Text.{Text}
use rust_u4pak.PakPath.{parse_pak_path}
use rust_u4pak.Record.{Record}
use rust_u4pak.Filter.Defs.{
  Filter, Nodes, filter, new, get, contains_iter, contains, visit_iter, visit, from_paths,
}
use rust_u4pak.Filter.Laws.{child_at, contains_iter-child, any_prefix, contains-from_paths}
use rust_u4pak.Filter.Visits.{
  node_at, is_included, node_at-child, node_at-visit_iter, visit_iter-contains_iter,
}

-- The records that the filter takes, and the filter with its marks.
unfoldable pub visited_records : Filter → List Record → List Record × Filter
unfolding visit
visited_records f [] = ([], f)
visited_records f (r ∷ records) =
    let (f', taken) = visit r.filename f in
    let (rest, f'') = visited_records f' records in if taken then (r ∷ rest, f'') else (rest, f'')

-- `Iterator::filter`.
unfoldable pub keep {ℓ} : {A : Type ℓ} → (A → Bool) → List A → List A
keep p [] = []
keep p (x ∷ xs) = let rest = keep p xs in if p x then x ∷ rest else rest

keep-eq {ℓ} :
    {A : Type ℓ} (p q : A → Bool) (xs : List A) → ((x : A) → p x ≡ q x) → keep p xs ≡ keep q xs
unfolding keep
keep-eq p q [] h = refl
keep-eq p q (x ∷ xs) h = rw (h x, keep-eq p q xs h) refl

included-new : (p : List Text) → is_included (node_at p new) ≡ false
unfolding node_at get
included-new [] = refl
included-new (n ∷ p) = refl

included-child :
    (m : Text) (p : List Text) (ns : Nodes) (i v : Bool)
    → is_included (node_at p (child_at m ns)) ≡ is_included (node_at (m ∷ p) (filter ns i v))
included-child m p ns i v = elim (Option-cases (get m ns)) [
  | inl e ↦ rw (node_at-child, e) (included-new p)
  | inr (child, e) ↦ rw (node_at-child, e) refl
]

-- Filters that include the same nodes contain the same paths.
contains_iter-included_eq :
    (q : List Text) (f g : Filter)
    → ((p : List Text) → is_included (node_at p f) ≡ is_included (node_at p g))
    → contains_iter q f ≡ contains_iter q g
contains_iter-included_eq [] (filter ns i v) (filter ms j w) h =
    unfold contains_iter node_at in h []
contains_iter-included_eq (m ∷ q) (filter ns true v) (filter ms true w) h =
    unfold contains_iter in refl
contains_iter-included_eq (m ∷ q) (filter ns true v) (filter ms false w) h =
    absurd (let clash : ◌≡◌ {A = Bool} true false = unfold node_at in h [] in cc)
contains_iter-included_eq (m ∷ q) (filter ns false v) (filter ms true w) h =
    absurd (let clash : ◌≡◌ {A = Bool} false true = unfold node_at in h [] in cc)
contains_iter-included_eq (m ∷ q) (filter ns false v) (filter ms false w) h =
    contains_iter-child m q ns v
    ∙ contains_iter-included_eq q (child_at m ns) (child_at m ms)
        (λ p. included-child m p ns false v ∙ h (m ∷ p) ∙ sym (included-child m p ms false w))
    ∙ sym (contains_iter-child m q ms w)

-- A visit does not change what a filter contains.
pub contains-visit :
    (seen path : Text) (f : Filter) → contains path (visit seen f).0 ≡ contains path f
unfolding contains visit
contains-visit seen path f =
    contains_iter-included_eq (parse_pak_path path) (visit_iter (parse_pak_path seen) f).0 f
      (λ p. (node_at-visit_iter p (parse_pak_path seen) f).0)

visit-contains : (path : Text) (f : Filter) → (visit path f).1 ≡ contains path f
unfolding contains visit
visit-contains path f = visit_iter-contains_iter (parse_pak_path path) f

taken_first :
    (taken : Bool) (r : Record) (rest kept : List Record) (f : Filter)
    → rest ≡ kept
    → (if◌then◌else◌ {A = List Record × Filter} taken (r ∷ rest, f) (rest, f)).0
      ≡ (if taken then r ∷ kept else kept)
taken_first true r rest kept f h = ap (◌∷◌ r) h
taken_first false r rest kept f h = h

visited_records-keep :
    (f : Filter) (records : List Record)
    → (visited_records f records).0 ≡ keep (λ r. contains r.filename f) records
unfolding visited_records keep
visited_records-keep f [] = refl
visited_records-keep f (r ∷ records) =
    let rest = visited_records-keep (visit r.filename f).0 records in
    let same =
      keep-eq (λ q. contains q.filename (visit r.filename f).0) (λ q. contains q.filename f) records
        (λ q. contains-visit r.filename q.filename f) in
    rw (← visit-contains r.filename f) (
      taken_first (visit r.filename f).1 r (visited_records (visit r.filename f).0 records).0
        (keep (λ q. contains q.filename f) records)
        (visited_records (visit r.filename f).0 records).1 (rest ∙ same))

-- The records that check, unpack and list take when they visit each record of an archive in the
-- filter of some paths are, in their order, those whose components start with those of one of
-- the paths.
pub visited_records-from_paths :
    (paths : List Text) (records : List Record)
    → (visited_records (from_paths paths) records).0
      ≡ keep (λ r. any_prefix paths (parse_pak_path r.filename)) records
visited_records-from_paths paths records =
    visited_records-keep (from_paths paths) records
    ∙ keep-eq (λ r. contains r.filename (from_paths paths))
        (λ r. any_prefix paths (parse_pak_path r.filename)) records
        (λ r. contains-from_paths paths r.filename)

-- The records that are asked for, in the order of the archive.
abbrev pub asked : Option (List Text) → List Record → List Record
asked none records = records
asked (some paths) records = keep (λ r. any_prefix paths (parse_pak_path r.filename)) records
