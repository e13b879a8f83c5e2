-- ===== src/Sort.antt =====
-- src/bin/u4pak/sort.rs: the keys, their comparisons, the sort and `parse_order`. `sort_by` of Rust's
-- slices is stable; here it inserts from the end.
pub mod Keys
pub mod Order
pub mod Inserted
pub mod Stable
use Prim.Native.Nat.{compare, Ordering}
use rust_u4pak.Common.{
  ℕ, Bool, true, false, Option, none, some, List, [], ◌∷◌, Bytes, if◌then◌else◌, ◌||◌, bytes_eq,
}
use rust_u4pak.Common.Texts.{codes}
use rust_u4pak.Io.{Result, done, failed, illegal_sort}
use rust_u4pak.Results.{◌>>=◌}
use rust_u4pak.Text.{Text}
use rust_u4pak.PakPath.{split}
use rust_u4pak.Sizes.{is_word}
use rust_u4pak.Record.{Record}

pub data SortKey : Type 0 where
  name offset size compr_method uncompr_size compr_block_size timestamp encrypted : SortKey
  rev_name rev_offset rev_size rev_compr_method rev_uncompr_size : SortKey
  rev_compr_block_size rev_timestamp rev_encrypted : SortKey

-- `DEFAULT_ORDER` and `PHYSICAL_ORDER`.
abbrev pub default_order : List SortKey
default_order = name ∷ []

abbrev pub physical_order : List SortKey
physical_order = offset ∷ []

-- `TryFrom<&str>`.
unfoldable pub try_from : Text → Result SortKey
unfolding bytes_eq
try_from value =
    if is_word (codes "p") value
      || is_word (codes "name") value
      || is_word (codes "path") value
      || is_word (codes "filename") value
    then done name
    else if is_word (codes "s") value
        || is_word (codes "size") value
        || is_word (codes "compressed-size") value
    then done size
    else if is_word (codes "o") value || is_word (codes "offset") value
    then done offset
    else if is_word (codes "c") value
        || is_word (codes "compr-method") value
        || is_word (codes "compression-method") value
    then done compr_method
    else if is_word (codes "u") value || is_word (codes "uncompressed-size") value
    then done uncompr_size
    else if is_word (codes "b") value || is_word (codes "compression-block-size") value
    then done compr_block_size
    else if is_word (codes "t") value || is_word (codes "timestamp") value
    then done timestamp
    else if is_word (codes "e") value || is_word (codes "encrypted") value
    then done encrypted
    else if is_word (codes "-p") value
        || is_word (codes "-name") value
        || is_word (codes "-path") value
        || is_word (codes "-filename") value
    then done rev_name
    else if is_word (codes "-s") value
        || is_word (codes "-size") value
        || is_word (codes "-compressed-size") value
    then done rev_size
    else if is_word (codes "-o") value || is_word (codes "-offset") value
    then done rev_offset
    else if is_word (codes "-c") value
        || is_word (codes "-compr-method") value
        || is_word (codes "-compression-method") value
    then done rev_compr_method
    else if is_word (codes "-u") value || is_word (codes "-uncompressed-size") value
    then done rev_uncompr_size
    else if is_word (codes "-b") value || is_word (codes "-compression-block-size") value
    then done rev_compr_block_size
    else if is_word (codes "-t") value || is_word (codes "-timestamp") value
    then done rev_timestamp
    else if is_word (codes "-e") value || is_word (codes "-encrypted") value
    then done rev_encrypted
    else failed illegal_sort

abbrev pub Comparison : Type 0 → Type 0
Comparison A = A → A → Ordering

-- `match cmp1(a, b) { Equal => cmp2(a, b), ord => ord }`.
abbrev pub or_else : Ordering → Ordering → Ordering
or_else Ordering.eq second = second
or_else Ordering.lt second = Ordering.lt
or_else Ordering.gt second = Ordering.gt

-- `cmp` of `str`, `bool` and `Option`. The order of the bytes of a `str` is that of its characters.
unfoldable pub cmp_str : Comparison Bytes
cmp_str [] [] = Ordering.eq
cmp_str [] (y ∷ ys) = Ordering.lt
cmp_str (x ∷ xs) [] = Ordering.gt
cmp_str (x ∷ xs) (y ∷ ys) = or_else (compare x y) (cmp_str xs ys)

unfoldable pub cmp_bool : Comparison Bool
cmp_bool false true = Ordering.lt
cmp_bool true false = Ordering.gt
cmp_bool _ _ = Ordering.eq

unfoldable pub cmp_option : {A : Type 0} → Comparison A → Comparison (Option A)
cmp_option cmp none none = Ordering.eq
cmp_option cmp none (some b) = Ordering.lt
cmp_option cmp (some a) none = Ordering.gt
cmp_option cmp (some a) (some b) = cmp a b

unfoldable pub to_cmp : SortKey → Comparison Record
to_cmp name a b = cmp_str a.filename b.filename
to_cmp size a b = compare a.size b.size
to_cmp offset a b = compare a.offset b.offset
to_cmp compr_method a b = compare a.compression_method b.compression_method
to_cmp uncompr_size a b = compare a.uncompressed_size b.uncompressed_size
to_cmp compr_block_size a b = compare a.compression_block_size b.compression_block_size
to_cmp timestamp a b = cmp_option compare a.timestamp b.timestamp
to_cmp encrypted a b = cmp_bool a.encrypted b.encrypted
to_cmp rev_name a b = cmp_str b.filename a.filename
to_cmp rev_size a b = compare b.size a.size
to_cmp rev_offset a b = compare b.offset a.offset
to_cmp rev_compr_method a b = compare b.compression_method a.compression_method
to_cmp rev_uncompr_size a b = compare b.uncompressed_size a.uncompressed_size
to_cmp rev_compr_block_size a b = compare b.compression_block_size a.compression_block_size
to_cmp rev_timestamp a b = cmp_option compare b.timestamp a.timestamp
to_cmp rev_encrypted a b = cmp_bool b.encrypted a.encrypted

unfoldable pub chain : {A : Type 0} → Comparison A → Comparison A → Comparison A
chain cmp1 cmp2 a b = or_else (cmp1 a b) (cmp2 a b)

unfoldable pub make_chain : Comparison Record → List SortKey → Comparison Record
make_chain cmp1 [] = cmp1
make_chain cmp1 (key ∷ iter) = make_chain (chain cmp1 (to_cmp key)) iter

-- `sort_by`: an element goes in front of those that it is not greater than.
abbrev pub is_greater : Ordering → Bool
is_greater Ordering.gt = true
is_greater _ = false

unfoldable pub insert_by : {A : Type 0} → Comparison A → A → List A → List A
insert_by cmp x [] = x ∷ []
insert_by cmp x (y ∷ ys) =
    let rest = insert_by cmp x ys in if is_greater (cmp x y) then y ∷ rest else x ∷ y ∷ ys

unfoldable pub sort_by : {A : Type 0} → Comparison A → List A → List A
unfolding insert_by
sort_by cmp [] = []
sort_by cmp (x ∷ xs) = insert_by cmp x (sort_by cmp xs)

unfoldable pub sort : List Record → List SortKey → List Record
unfolding sort_by make_chain
sort list [] = list
sort list (first_key ∷ iter) = sort_by (make_chain (to_cmp first_key) iter) list

-- The loop of `parse_order`.
unfoldable pub parse_keys : List Text → Result (List SortKey)
unfolding try_from
parse_keys [] = done []
parse_keys (key ∷ keys) =
    let rest = parse_keys keys in try_from key >>= λ k. rest >>= λ order. done (k ∷ order)

unfoldable pub parse_order : Text → Result (List SortKey)
unfolding parse_keys split
parse_order value = parse_keys (split b',' value)
