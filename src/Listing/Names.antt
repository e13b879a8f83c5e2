-- ===== src/Listing/Names.antt =====
-- src/bin/u4pak/list.rs: the list of the names only.
use mathlib.Core.List.{Mem, Perm, forall_mem-cons, not-mem-nil}
use mathlib.Core.List.Perm
use rust_u4pak.Common.{
  Bool-cases, inl, inr, ℕ, ◌≡◌, ◌∙◌, refl, ap, Bool, false, Option, none, some, List, [], ◌∷◌, ◌++◌,
  if◌then◌else◌, Bytes, map, All,
}
use rust_u4pak.Text.{Text, as_bytes}
use rust_u4pak.PakPath.{split, parse_pak_path}
use rust_u4pak.PakPath.Splits.{has_char, split_first}
use rust_u4pak.Record.{Record}
use rust_u4pak.Pak.{Pak}
use rust_u4pak.Filter.Laws.{any_prefix}
use rust_u4pak.Filter.Selected.{asked, keep, visited_records-from_paths}
use rust_u4pak.Sort.{SortKey, sort}
use rust_u4pak.Sort.Stable.{by_keys, IsStableSort, sort-IsStableSort}
use rust_u4pak.Listing.{ListOptions, only_names, list_names, list_records, list, chosen, ordered}

abbrev pub name_bytes : Record → Bytes
name_bytes r = as_bytes r.filename

abbrev pub separator : Bool → ℕ
separator null_separated = if null_separated then 0 else b'\n'

-- The order that is asked for.
abbrev pub keys_of : Option (List SortKey) → List SortKey
keys_of none = []
keys_of (some order) = order

abbrev LacksAll : ℕ → List Record → Type 0
LacksAll sep = All (λ r. has_char sep (name_bytes r) ≡ false)

LacksAll→mem :
    (sep : ℕ) (records : List Record)
    → LacksAll sep records
    → (r : Record) → Mem r records
    → has_char sep (name_bytes r) ≡ false
LacksAll→mem sep [] all = λ r m. absurd (not-mem-nil m)
LacksAll→mem sep (r ∷ records) all =
    (forall_mem-cons λ q. hlevel).1 (all.0, LacksAll→mem sep records all.1)

mem→LacksAll :
    (sep : ℕ) (records : List Record)
    → ((r : Record) → Mem r records → has_char sep (name_bytes r) ≡ false)
    → LacksAll sep records
mem→LacksAll sep [] h = tt
mem→LacksAll sep (r ∷ records) h =
    let (first, others) = (forall_mem-cons λ q. hlevel).0 h in
    (first, mem→LacksAll sep records others)

lacks-perm :
    (sep : ℕ) {records listed : List Record}
    → Perm records listed
    → LacksAll sep records
    → LacksAll sep listed
lacks-perm sep {records} {listed} perm all =
    mem→LacksAll sep listed λ r m. LacksAll→mem sep records all r ((Perm.mem_iff perm).1 m)

lacks-keep :
    (sep : ℕ) (p : Record → Bool) (records : List Record)
    → LacksAll sep records
    → LacksAll sep (keep p records)
unfolding keep
lacks-keep sep p [] all = tt
lacks-keep sep p (r ∷ records) all = elim (Bool-cases (p r)) [
  | inl taken ↦ rw taken (all.0, lacks-keep sep p records all.1)
  | inr left_out ↦ rw left_out (lacks-keep sep p records all.1)
]

lacks-asked :
    (sep : ℕ) (paths : Option (List Text)) (records : List Record)
    → LacksAll sep records
    → LacksAll sep (asked paths records)
lacks-asked sep none records all = all
lacks-asked sep (some paths) records all =
    lacks-keep sep (λ r. any_prefix paths (parse_pak_path r.filename)) records all

module _ (format_timestamp : ℕ → Option Text) where
  split-list_names :
      (sep : ℕ) (records : List Record)
      → All (λ r. has_char sep (name_bytes r) ≡ false) records
      → split sep (list_names format_timestamp sep records) ≡ map name_bytes records ++ [] ∷ []
  unfolding list_names split
  split-list_names sep [] all = refl
  split-list_names sep (r ∷ records) all =
      split_first sep (name_bytes r) (list_names format_timestamp sep records) all.0
      ∙ ap (◌∷◌ (name_bytes r)) (split-list_names sep records all.1)

  chosen-asked :
      (paths : Option (List Text)) (records : List Record)
      → (chosen format_timestamp paths records).0 ≡ asked paths records
  chosen-asked none records = refl
  chosen-asked (some paths) records = visited_records-from_paths paths records

  ordered-sort :
      (order : Option (List SortKey)) (records : List Record)
      → ordered format_timestamp order records ≡ sort records (keys_of order)
  unfolding sort
  ordered-sort none records = refl
  ordered-sort (some order) records = refl

  -- What list prints when it prints names only, taken apart at the separator, are the names of
  -- the records below the paths that are asked for, sorted by the keys that are asked for with
  -- equal ones in their order, and an empty text behind the last separator; if no name of the
  -- archive has the separator in it.
  pub list-only_names :
      (options : ListOptions) (pak : Pak) (null_separated : Bool)
      → options.style ≡ only_names null_separated
      → All (λ r. has_char (separator null_separated) (name_bytes r) ≡ false) pak.index.records
      → (listed : List Record) × (split
            (separator null_separated)
            (list format_timestamp options pak).0
          ≡ map name_bytes listed ++ [] ∷ [])
        × IsStableSort
            (by_keys (keys_of options.order))
            listed
            (asked options.paths pak.index.records)
  unfolding list list_records
  list-only_names options pak null_separated names lacks =
      let records = asked options.paths pak.index.records in
      let listed = sort records (keys_of options.order) in
      let stable = sort-IsStableSort records (keys_of options.order) in
      let all =
        lacks-perm (separator null_separated) (Perm.symm stable.1)
          (lacks-asked (separator null_separated) options.paths pak.index.records lacks) in
      (
        listed,
        rw (names, chosen-asked options.paths pak.index.records, ordered-sort options.order records)
            (split-list_names (separator null_separated) listed all),
        stable,
      )
