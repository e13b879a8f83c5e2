-- ===== src/Info.antt =====
-- src/info.rs: the counts and sums of `info`. The sums are `u64`, and wrap around as a release
-- build does.
pub mod Columns
pub mod Steps
pub mod Totals
use rust_u4pak.Common.{ℕ, ◌+◌, List, [], ◌∷◌, ◌++◌, ◌==◌, if◌then◌else◌, Bool, true, false, length}
use rust_u4pak.Common.Texts.{codes}
use rust_u4pak.Text.{Text}
use rust_u4pak.Pak.{Pak}
use rust_u4pak.Tables.{left, right, format_u64, format_size, print_table}
use rust_u4pak.Word64.{add64}
use rust_u4pak.Record.{
  Record, compr_none, compr_zlib, compr_bias_memory, compr_bias_speed, unwrap_or,
}

-- The variables of the loop.
pub record Sums : Type 0 where
  pub sum_size : ℕ
  pub sum_uncompressed_size : ℕ
  pub uncompr_count : ℕ
  pub zlib_count : ℕ
  pub bias_speed_count : ℕ
  pub bias_memory_count : ℕ
  pub other_count : ℕ
  pub encrypted_count : ℕ
  pub sum_uncompr_size : ℕ
  pub sum_zlib_size : ℕ
  pub sum_bias_speed_size : ℕ
  pub sum_bias_memory_size : ℕ
  pub sum_unknown_size : ℕ
  pub sum_encrypted_size : ℕ
  pub sum_uncompr_zlib_size : ℕ
  pub sum_uncompr_bias_speed_size : ℕ
  pub sum_uncompr_bias_memory_size : ℕ
  pub sum_uncompr_unknown_size : ℕ
  pub sum_uncompr_encrypted_size : ℕ

abbrev pub no_sums : Sums
no_sums = record {
  sum_size = 0;
  sum_uncompressed_size = 0;
  uncompr_count = 0;
  zlib_count = 0;
  bias_speed_count = 0;
  bias_memory_count = 0;
  other_count = 0;
  encrypted_count = 0;
  sum_uncompr_size = 0;
  sum_zlib_size = 0;
  sum_bias_speed_size = 0;
  sum_bias_memory_size = 0;
  sum_unknown_size = 0;
  sum_encrypted_size = 0;
  sum_uncompr_zlib_size = 0;
  sum_uncompr_bias_speed_size = 0;
  sum_uncompr_bias_memory_size = 0;
  sum_uncompr_unknown_size = 0;
  sum_uncompr_encrypted_size = 0;
}

unfoldable pub add_all : Record → Sums → Sums
add_all r s = record s {
  sum_size = add64 s.sum_size r.size;
  sum_uncompressed_size = add64 s.sum_uncompressed_size r.uncompressed_size;
}

unfoldable pub add_encrypted : Record → Sums → Sums
add_encrypted r s =
    if r.encrypted
    then record s {
      encrypted_count = s.encrypted_count + 1;
      sum_encrypted_size = add64 s.sum_encrypted_size r.size;
      sum_uncompr_encrypted_size = add64 s.sum_uncompr_encrypted_size r.uncompressed_size;
    }
    else s

-- The match on the compression method.
unfoldable pub add_method : Record → Sums → Sums
add_method r s =
    if r.compression_method == compr_none
    then record s {
      uncompr_count = s.uncompr_count + 1;
      sum_uncompr_size = add64 s.sum_uncompr_size r.size;
    }
    else if r.compression_method == compr_zlib
    then record s {
      zlib_count = s.zlib_count + 1;
      sum_zlib_size = add64 s.sum_zlib_size r.size;
      sum_uncompr_zlib_size = add64 s.sum_uncompr_zlib_size r.uncompressed_size;
    }
    else if r.compression_method == compr_bias_speed
    then record s {
      bias_speed_count = s.bias_speed_count + 1;
      sum_bias_speed_size = add64 s.sum_bias_speed_size r.size;
      sum_uncompr_bias_speed_size = add64 s.sum_uncompr_bias_speed_size r.uncompressed_size;
    }
    else if r.compression_method == compr_bias_memory
    then record s {
      bias_memory_count = s.bias_memory_count + 1;
      sum_bias_memory_size = add64 s.sum_bias_memory_size r.size;
      sum_uncompr_bias_memory_size = add64 s.sum_uncompr_bias_memory_size r.uncompressed_size;
    }
    else record s {
      other_count = s.other_count + 1;
      sum_unknown_size = add64 s.sum_unknown_size r.size;
      sum_uncompr_unknown_size = add64 s.sum_uncompr_unknown_size r.uncompressed_size;
    }

-- The loop over the records.
unfoldable pub count_records : Sums → List Record → Sums
unfolding add_all add_encrypted add_method
count_records s [] = s
count_records s (r ∷ records) = count_records (add_method r (add_encrypted r (add_all r s))) records

-- `fmt_size`.
abbrev pub fmt_size : Bool → ℕ → Text
fmt_size true n = format_size n
fmt_size false n = format_u64 n

-- `info`, as the text that it prints.
unfoldable pub info : Bool → Pak → Text
unfolding count_records print_table
info human_readable pak =
    let s = count_records no_sums pak.index.records in
    let fmt = fmt_size human_readable in
    (codes "Pak Version: " ++ (format_u64 pak.version ++ b'\n' ∷ []))
    ++ ((codes "Mount Point: " ++ (unwrap_or pak.index.mount_point [] ++ b'\n' ∷ []))
        ++ (b'\n'
            ∷ print_table ([] ∷ codes "Count" ∷ codes "Size" ∷ codes "Uncompr." ∷ [])
                (left ∷ right ∷ right ∷ right ∷ [])
                ((codes "Files:"
                    ∷ format_u64 (length pak.index.records)
                    ∷ fmt s.sum_size
                    ∷ fmt s.sum_uncompressed_size
                    ∷ [])
                  ∷ (codes "Uncompr.:"
                      ∷ format_u64 s.uncompr_count
                      ∷ fmt s.sum_uncompr_size
                      ∷ []
                      ∷ [])
                  ∷ (codes "ZLIB Compr.:"
                      ∷ format_u64 s.zlib_count
                      ∷ fmt s.sum_zlib_size
                      ∷ fmt s.sum_uncompr_zlib_size
                      ∷ [])
                  ∷ (codes "Bias Speed Compr.:"
                      ∷ format_u64 s.bias_speed_count
                      ∷ fmt s.sum_bias_speed_size
                      ∷ fmt s.sum_uncompr_bias_speed_size
                      ∷ [])
                  ∷ (codes "Bias Memory Compr.:"
                      ∷ format_u64 s.bias_memory_count
                      ∷ fmt s.sum_bias_memory_size
                      ∷ fmt s.sum_uncompr_bias_memory_size
                      ∷ [])
                  ∷ (codes "Unknown Compr.:"
                      ∷ format_u64 s.other_count
                      ∷ fmt s.sum_unknown_size
                      ∷ fmt s.sum_uncompr_unknown_size
                      ∷ [])
                  ∷ (codes "Encrypted:"
                      ∷ format_u64 s.encrypted_count
                      ∷ fmt s.sum_encrypted_size
                      ∷ fmt s.sum_uncompr_encrypted_size
                      ∷ [])
                  ∷ [])))
