-- ===== src/Filter/Defs.antt =====
-- src/filter.rs: the tree and its operations. A `HashMap` is an association list; the order in
-- which it is iterated is the order of insertion here, and nothing more is promised.
use rust_u4pak.Common.{
  Bool, true, false, Option, none, some, List, [], ◌∷◌, ◌++◌, foldl, if◌then◌else◌, bytes_eq,
}
use rust_u4pak.Text.{Text}
use rust_u4pak.PakPath.{is_empty, trim_start, trim_end, trim_matches, split, parse_pak_path}
use rust_u4pak.Record.{unwrap_or}

mutual
  pub data Filter : Type 0 where
    filter : Nodes → Bool → Bool → Filter

  pub data Nodes : Type 0 where
    empty : Nodes
    entry : Text → Filter → Nodes → Nodes

abbrev pub nodes : Filter → Nodes
nodes (filter ns included visited) = ns

abbrev pub included : Filter → Bool
included (filter ns i visited) = i

abbrev pub visited : Filter → Bool
visited (filter ns included v) = v

-- `Filter::new`.
abbrev pub new : Filter
new = filter empty false false

-- `HashMap::get`, and what replaces an entry or adds one.
unfoldable pub get : Text → Nodes → Option Filter
unfolding bytes_eq
get name empty = none
get name (entry n child ns) = let rest = get name ns in if bytes_eq n name then some child else rest

unfoldable pub put : Text → Filter → Nodes → Nodes
unfolding bytes_eq
put name f empty = entry name f empty
put name f (entry n child ns) =
    let rest = put name f ns in if bytes_eq n name then entry n f ns else entry n child rest

-- `insert_iter`: an empty component is skipped, a missing child is made.
unfoldable pub insert_iter : List Text → Filter → Filter
unfolding get put
insert_iter [] (filter ns i v) = filter ns true v
insert_iter (name ∷ path) (filter ns i v) =
    let skipped = insert_iter path (filter ns i v) in
    let child = insert_iter path (unwrap_or (get name ns) new) in
    if is_empty name then skipped else filter (put name child ns) i v

unfoldable pub insert : Text → Filter → Filter
unfolding insert_iter trim_start trim_end split
insert path f = insert_iter (split b'/' (trim_matches b'/' path)) f

unfoldable pub from_paths : List Text → Filter
unfolding insert
from_paths paths = foldl (λ f path. insert path f) new paths

unfoldable pub contains_iter : List Text → Filter → Bool
unfolding get
contains_iter [] (filter ns i v) = i
contains_iter (name ∷ path) (filter ns true v) = true
contains_iter (name ∷ path) (filter ns false v) = elim (get name ns) [
  | some child ↦ contains_iter path child
  | none ↦ false
]

unfoldable pub contains : Text → Filter → Bool
unfolding contains_iter parse_pak_path
contains path f = contains_iter (parse_pak_path path) f

-- `visit_iter`: the tree after it, and whether the path is in the filter.
abbrev pub visit_child : Text → Nodes → Bool → Bool → Option (Filter × Bool) → Filter × Bool
visit_child name ns true v (some (child, seen)) = (filter (put name child ns) true true, true)
visit_child name ns true v none = (filter ns true true, true)
visit_child name ns false v (some (child, seen)) = (filter (put name child ns) false v, seen)
visit_child name ns false v none = (filter ns false v, false)

unfoldable pub visit_iter : List Text → Filter → Filter × Bool
unfolding get put
visit_iter [] (filter ns true v) = (filter ns true true, true)
visit_iter [] (filter ns false v) = (filter ns false v, false)
visit_iter (name ∷ path) (filter ns i v) =
    visit_child name ns i v
      (elim (get name ns) [ some child ↦ some (visit_iter path child) | none ↦ none ])

unfoldable pub visit : Text → Filter → Filter × Bool
unfolding visit_iter parse_pak_path
visit path f = visit_iter (parse_pak_path path) f

-- `FilterIter`: the included nodes, children first, each with its path.
unfoldable mutual
  pub iter_from : Text → Filter → List (Filter × Text)
  iter_from buffer (filter ns true v) = iter_nodes buffer ns ++ (filter ns true v, buffer) ∷ []
  iter_from buffer (filter ns false v) = iter_nodes buffer ns

  pub iter_nodes : Text → Nodes → List (Filter × Text)
  iter_nodes buffer empty = []
  iter_nodes buffer (entry name child ns) =
      iter_from (buffer ++ b'/' ∷ name) child ++ iter_nodes buffer ns

abbrev keep_unvisited : List (Filter × Text) → List Text
keep_unvisited [] = []
keep_unvisited ((f, path) ∷ rest) =
    if visited f then keep_unvisited rest else path ∷ keep_unvisited rest

unfoldable pub non_visited_paths : Filter → List Text
unfolding iter_from
non_visited_paths f = keep_unvisited (iter_from [] f)

-- `assert_all_visited` reports these paths, if there are any.
unfoldable pub assert_all_visited : Filter → Bool
unfolding non_visited_paths
assert_all_visited f = is_empty (non_visited_paths f)
