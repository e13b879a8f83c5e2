-- ===== src/Sort/Keys.antt =====
-- src/bin/u4pak/sort.rs: `parse_order`, for an order that is written as names.
use rust_u4pak.Common.{
  ℕ, arith, Bool, true, false, List, [], ◌∷◌, ◌++◌, ◌≡◌, refl, map, ◌==◌, if◌then◌else◌, bytes_eq,
}
use rust_u4pak.Common.Texts.{codes}
use rust_u4pak.Io.{done}
use rust_u4pak.Text.{Text}
use rust_u4pak.PakPath.{cons_first, split}
use rust_u4pak.PakPath.Splits.{has_char, split_first, split_last}
use rust_u4pak.Sizes.{to_ascii_lowercase}
use rust_u4pak.Sort.{
  SortKey, name, offset, size, compr_method, uncompr_size, compr_block_size, timestamp, encrypted,
  rev_name, rev_offset, rev_size, rev_compr_method, rev_uncompr_size, rev_compr_block_size,
  rev_timestamp, rev_encrypted, try_from, parse_keys, parse_order,
}

abbrev pub key_name : SortKey → Text
key_name name = codes "name"
key_name offset = codes "offset"
key_name size = codes "size"
key_name compr_method = codes "compression-method"
key_name uncompr_size = codes "uncompressed-size"
key_name compr_block_size = codes "compression-block-size"
key_name timestamp = codes "timestamp"
key_name encrypted = codes "encrypted"
key_name rev_name = codes "-name"
key_name rev_offset = codes "-offset"
key_name rev_size = codes "-size"
key_name rev_compr_method = codes "-compression-method"
key_name rev_uncompr_size = codes "-uncompressed-size"
key_name rev_compr_block_size = codes "-compression-block-size"
key_name rev_timestamp = codes "-timestamp"
key_name rev_encrypted = codes "-encrypted"

-- The names, with commas between them.
unfoldable pub key_names : SortKey → List SortKey → Text
key_names key [] = key_name key
key_names key (k ∷ keys) = key_name key ++ b',' ∷ key_names k keys

abbrev pub lower : Text → Text
lower = map to_ascii_lowercase

to_ascii_lowercase_idem : (c : ℕ) → to_ascii_lowercase (to_ascii_lowercase c) ≡ to_ascii_lowercase c
to_ascii_lowercase_idem c = ground arith

pub lower_idem : (t : Text) → lower (lower t) ≡ lower t
lower_idem [] = refl
lower_idem (c ∷ t) = rw (to_ascii_lowercase_idem c, lower_idem t) refl

comma-lower : (c : ℕ) → (to_ascii_lowercase c == b',') ≡ (c == b',')
comma-lower c = ground arith

map-cons_first :
    (c : ℕ) (ps : List Text)
    → cons_first (to_ascii_lowercase c) (map lower ps) ≡ map lower (cons_first c ps)
map-cons_first c [] = refl
map-cons_first c (p ∷ ps) = refl

map-if :
    (b : Bool) (ps qs : List Text)
    → (if b then [] ∷ map lower ps else map lower qs) ≡ map lower (if b then [] ∷ ps else qs)
map-if true ps qs = refl
map-if false ps qs = refl

split-lower : (t : Text) → split b',' (lower t) ≡ map lower (split b',' t)
unfolding split
split-lower [] = refl
split-lower (c ∷ t) =
    rw (comma-lower c, split-lower t, map-cons_first c (split b',' t))
      (map-if (c == b',') (split b',' t) (cons_first c (split b',' t)))

try_from-lower : (t : Text) → try_from (lower t) ≡ try_from t
unfolding try_from
try_from-lower t = rw (lower_idem t) refl

parse_keys-lower : (ts : List Text) → parse_keys (map lower ts) ≡ parse_keys ts
unfolding parse_keys
parse_keys-lower [] = refl
parse_keys-lower (t ∷ ts) = rw (try_from-lower t, parse_keys-lower ts) refl

try_from-key_name : (k : SortKey) → try_from (key_name k) ≡ done k
unfolding try_from bytes_eq
try_from-key_name name = refl
try_from-key_name offset = refl
try_from-key_name size = refl
try_from-key_name compr_method = refl
try_from-key_name uncompr_size = refl
try_from-key_name compr_block_size = refl
try_from-key_name timestamp = refl
try_from-key_name encrypted = refl
try_from-key_name rev_name = refl
try_from-key_name rev_offset = refl
try_from-key_name rev_size = refl
try_from-key_name rev_compr_method = refl
try_from-key_name rev_uncompr_size = refl
try_from-key_name rev_compr_block_size = refl
try_from-key_name rev_timestamp = refl
try_from-key_name rev_encrypted = refl

has_char-key_name : (k : SortKey) → has_char b',' (key_name k) ≡ false
unfolding has_char
has_char-key_name name = refl
has_char-key_name offset = refl
has_char-key_name size = refl
has_char-key_name compr_method = refl
has_char-key_name uncompr_size = refl
has_char-key_name compr_block_size = refl
has_char-key_name timestamp = refl
has_char-key_name encrypted = refl
has_char-key_name rev_name = refl
has_char-key_name rev_offset = refl
has_char-key_name rev_size = refl
has_char-key_name rev_compr_method = refl
has_char-key_name rev_uncompr_size = refl
has_char-key_name rev_compr_block_size = refl
has_char-key_name rev_timestamp = refl
has_char-key_name rev_encrypted = refl

split-key_names :
    (key : SortKey) (keys : List SortKey)
    → split b',' (key_names key keys) ≡ map key_name (key ∷ keys)
unfolding key_names
split-key_names key [] = split_last b',' (key_name key) (has_char-key_name key)
split-key_names key (k ∷ keys) =
    rw
      (
        split_first b',' (key_name key) (key_names k keys) (has_char-key_name key),
        split-key_names k keys,
      )
      refl

parse_keys-key_name : (keys : List SortKey) → parse_keys (map key_name keys) ≡ done keys
unfolding parse_keys
parse_keys-key_name [] = refl
parse_keys-key_name (k ∷ keys) = rw (try_from-key_name k, parse_keys-key_name keys) refl

-- parse_order reads, from a text that is in lower case the names of one or more keys with commas
-- between them, these keys in their order.
pub parse_order-key_names :
    (value : Text) (key : SortKey) (keys : List SortKey)
    → map to_ascii_lowercase value ≡ key_names key keys
    → parse_order value ≡ done (key ∷ keys)
unfolding parse_order
parse_order-key_names value key keys h =
    rw (← parse_keys-lower (split b',' value), ← split-lower value, h, split-key_names key keys)
      (parse_keys-key_name (key ∷ keys))
