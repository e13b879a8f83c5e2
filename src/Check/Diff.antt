-- ===== src/Check/Diff.antt =====
-- `Record::metadata_diff` of src/record.rs: what `check` says of a header that does not fit its
-- record, with `{:?}` of the fields as `derive(Debug)` gives it.
use rust_u4pak.Common.{
  ℕ, Bool, true, false, ◌&&◌, not, Option, none, some, List, [], ◌∷◌, ◌++◌, ◌==◌, if◌then◌else◌,
  Bytes, bytes_eq, ◌≡◌, refl, arith, ==_refl,
}
use rust_u4pak.Common.Texts.{codes}
use rust_u4pak.Text.{Text}
use rust_u4pak.PakPath.{is_empty}
use rust_u4pak.Record.{
  Record, CompressionBlock, null_sha1, unwrap_or, option_eq, bool_eq, blocks_eq, same_metadata,
}
use rust_u4pak.Tables.{format_u64, hex_display}

abbrev pub debug_bool : Bool → Text
debug_bool true = codes "true"
debug_bool false = codes "false"

abbrev pub debug_option {ℓ} : {A : Type ℓ} → (A → Text) → Option A → Text
debug_option debug none = codes "None"
debug_option debug (some a) = codes "Some(" ++ (debug a ++ codes ")")

abbrev pub debug_block : CompressionBlock → Text
debug_block b =
    codes "CompressionBlock { start_offset: "
    ++ (format_u64 b.start_offset
        ++ (codes ", end_offset: " ++ (format_u64 b.end_offset ++ codes " }")))

-- The elements of a `Vec`, with ", " between them.
unfoldable pub debug_elements : List CompressionBlock → Text
debug_elements [] = []
debug_elements (b ∷ []) = debug_block b
debug_elements (b ∷ bs) = debug_block b ++ (codes ", " ++ debug_elements bs)

abbrev pub debug_blocks : List CompressionBlock → Text
debug_blocks bs = codes "[" ++ (debug_elements bs ++ codes "]")

-- The macro `cmp_record_field`, with the `==` and the `{:?}` of the field's type.
abbrev pub cmp_record_field {ℓ} : {A : Type ℓ} → Text → (A → A → Bool) → (A → Text) → A → A → Text
cmp_record_field field eq debug a b =
    if not (eq a b)
    then codes "\t"
      ++ (field ++ (codes ": " ++ (debug a ++ (codes " != " ++ (debug b ++ codes "\n")))))
    else []

abbrev pub diff_sha1 : Option Bytes → Option Bytes → Text
diff_sha1 a b =
    if not (option_eq bytes_eq a b)
    then codes "\tsha1: "
      ++ (hex_display (unwrap_or a null_sha1)
          ++ (codes " != " ++ hex_display (unwrap_or b null_sha1)))
    else []

abbrev pub diff_blocks : Option (List CompressionBlock) → Option (List CompressionBlock) → Text
diff_blocks a b =
    if not (option_eq blocks_eq a b)
    then codes "\tcompression_blocks:\n\t\t"
      ++ (debug_option debug_blocks a ++ (codes "\n\t\t\t!=\n\t\t" ++ debug_option debug_blocks b))
    else []

-- `Record::metadata_diff`.
unfoldable pub metadata_diff : Record → Record → Text
metadata_diff r other =
    cmp_record_field (codes "size") ◌==◌ format_u64 r.size other.size
    ++ (cmp_record_field (codes "uncompressed_size") ◌==◌ format_u64 r.uncompressed_size
          other.uncompressed_size
        ++ (cmp_record_field (codes "timestamp") (option_eq ◌==◌) (debug_option format_u64)
              r.timestamp other.timestamp
            ++ (cmp_record_field (codes "encrypted") bool_eq debug_bool r.encrypted other.encrypted
                ++ (cmp_record_field (codes "compression_block_size") ◌==◌ format_u64
                      r.compression_block_size other.compression_block_size
                    ++ (diff_sha1 r.sha1 other.sha1
                        ++ diff_blocks r.compression_blocks other.compression_blocks)))))

-- What is written if two fields differ is not empty.
is_empty-unless :
    (equal : Bool) (c : ℕ) (t : Text) → is_empty (if not equal then c ∷ t else []) ≡ equal
is_empty-unless true c t = refl
is_empty-unless false c t = refl

is_empty-unless-++ :
    (equal : Bool) (c : ℕ) (t rest : Text)
    → is_empty ((if not equal then c ∷ t else []) ++ rest) ≡ equal && is_empty rest
is_empty-unless-++ true c t rest = refl
is_empty-unless-++ false c t rest = refl

-- The order in which `metadata_diff` compares what `same_metadata` compares.
fields_reordered :
    (a b c d e f g : Bool)
    → a && (b && (c && (d && (e && (f && g))))) ≡ a && b && true && c && f && g && d && e
fields_reordered a b c d e f g = ground arith

-- metadata_diff is empty exactly if same_metadata holds when the compression methods are taken
-- to be the same.
pub metadata_diff-same_metadata :
    (r other : Record)
    → is_empty (metadata_diff r other)
      ≡ same_metadata (record r { compression_method = other.compression_method }) other
unfolding metadata_diff same_metadata
metadata_diff-same_metadata r other =
    simp (is_empty-unless-++, is_empty-unless, ==_refl other.compression_method)
      (fields_reordered (r.size == other.size) (r.uncompressed_size == other.uncompressed_size)
        (option_eq ◌==◌ r.timestamp other.timestamp) (bool_eq r.encrypted other.encrypted)
        (r.compression_block_size == other.compression_block_size)
        (option_eq bytes_eq r.sha1 other.sha1)
        (option_eq blocks_eq r.compression_blocks other.compression_blocks))
