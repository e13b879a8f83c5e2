-- ===== src/PakPath.antt =====
-- src/util.rs: `parse_pak_path` and `make_pak_path`, with what they use of Rust's `str`.
pub mod Laws
pub mod Splits
use rust_u4pak.Common.{ℕ, Bool, true, false, not, ◌&&◌, List, [], ◌∷◌, ◌++◌, ◌==◌, if◌then◌else◌}
use rust_u4pak.Text.{Text}

abbrev pub is_empty {ℓ} : {A : Type ℓ} → List A → Bool
is_empty [] = true
is_empty (x ∷ xs) = false

-- `trim_start_matches`, `trim_end_matches` and `trim_matches` of a character.
unfoldable pub trim_start : ℕ → Text → Text
trim_start c [] = []
trim_start c (x ∷ t) = if x == c then trim_start c t else x ∷ t

unfoldable pub trim_end : ℕ → Text → Text
trim_end c [] = []
trim_end c (x ∷ t) = let rest = trim_end c t in if (x == c) && is_empty rest then [] else x ∷ rest

abbrev pub trim_matches : ℕ → Text → Text
trim_matches c t = trim_end c (trim_start c t)

-- `split` at a character: never empty.
abbrev pub cons_first : ℕ → List Text → List Text
cons_first x [] = (x ∷ []) ∷ []
cons_first x (p ∷ ps) = (x ∷ p) ∷ ps

unfoldable pub split : ℕ → Text → List Text
split c [] = [] ∷ []
split c (x ∷ t) = let parts = split c t in if x == c then [] ∷ parts else cons_first x parts

-- `filter(|comp| !comp.is_empty())`.
unfoldable pub non_empty : List Text → List Text
non_empty [] = []
non_empty (p ∷ ps) = let rest = non_empty ps in if is_empty p then rest else p ∷ rest

unfoldable pub parse_pak_path : Text → List Text
unfolding trim_start trim_end split non_empty
parse_pak_path path = non_empty (split b'/' (trim_matches b'/' path))

-- The components behind the first.
unfoldable pub with_slashes : List Text → Text
with_slashes [] = []
with_slashes (p ∷ ps) = b'/' ∷ (p ++ with_slashes ps)

unfoldable pub make_pak_path : List Text → Text
unfolding with_slashes
make_pak_path [] = b'/' ∷ []
make_pak_path (p ∷ ps) = p ++ with_slashes ps
