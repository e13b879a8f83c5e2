-- ===== src/Info/Totals.antt =====
-- src/info.rs: the whole of the loop.
use rust_u4pak.Common.{ℕ, ◌+◌, ◌^◌, ◌%◌, ◌≡◌, ◌∙◌, ap, arith, List, [], ◌∷◌, length}
use rust_u4pak.Word64.{add64}
use rust_u4pak.Record.{Record, compr_none, compr_zlib, compr_bias_memory, compr_bias_speed}
use rust_u4pak.Filter.Selected.{keep}
use rust_u4pak.Info.{Sums, no_sums, add_all, add_encrypted, add_method, count_records}
use rust_u4pak.Info.Columns.{
  sum_of, sum64, sum64-eq-sum_of, has_method, is_other, is_encrypted, size_of, uncompressed_of,
  columns, count-keep, sum-keep,
}
use rust_u4pak.Info.Steps.{step, add-step}

columns-step :
    (r : Record) (s : Sums) (records : List Record)
    → columns (step r s) records ≡ columns s (r ∷ records)
unfolding columns
columns-step r s records = λ i. record {
  sum_size = sum64 size_of (add64 s.sum_size (size_of r)) records;
  sum_uncompressed_size =
      sum64 uncompressed_of (add64 s.sum_uncompressed_size (uncompressed_of r)) records;
  uncompr_count = count-keep (has_method compr_none) s.uncompr_count r records i;
  zlib_count = count-keep (has_method compr_zlib) s.zlib_count r records i;
  bias_speed_count = count-keep (has_method compr_bias_speed) s.bias_speed_count r records i;
  bias_memory_count = count-keep (has_method compr_bias_memory) s.bias_memory_count r records i;
  other_count = count-keep is_other s.other_count r records i;
  encrypted_count = count-keep is_encrypted s.encrypted_count r records i;
  sum_uncompr_size = sum-keep (has_method compr_none) size_of s.sum_uncompr_size r records i;
  sum_zlib_size = sum-keep (has_method compr_zlib) size_of s.sum_zlib_size r records i;
  sum_bias_speed_size =
      sum-keep (has_method compr_bias_speed) size_of s.sum_bias_speed_size r records i;
  sum_bias_memory_size =
      sum-keep (has_method compr_bias_memory) size_of s.sum_bias_memory_size r records i;
  sum_unknown_size = sum-keep is_other size_of s.sum_unknown_size r records i;
  sum_encrypted_size = sum-keep is_encrypted size_of s.sum_encrypted_size r records i;
  sum_uncompr_zlib_size =
      sum-keep (has_method compr_zlib) uncompressed_of s.sum_uncompr_zlib_size r records i;
  sum_uncompr_bias_speed_size =
      sum-keep (has_method compr_bias_speed) uncompressed_of s.sum_uncompr_bias_speed_size r records
        i;
  sum_uncompr_bias_memory_size =
      sum-keep (has_method compr_bias_memory) uncompressed_of s.sum_uncompr_bias_memory_size r
        records i;
  sum_uncompr_unknown_size =
      sum-keep is_other uncompressed_of s.sum_uncompr_unknown_size r records i;
  sum_uncompr_encrypted_size =
      sum-keep is_encrypted uncompressed_of s.sum_uncompr_encrypted_size r records i;
}

zero_plus : (n : ℕ) → 0 + n ≡ n
zero_plus n = omega arith

plus_zero : (n : ℕ) → n ≡ n + 0
plus_zero n = omega arith

columns-nil : (s : Sums) → s ≡ columns s []
unfolding columns keep
columns-nil s = λ i. record {
  sum_size = s.sum_size;
  sum_uncompressed_size = s.sum_uncompressed_size;
  uncompr_count = plus_zero s.uncompr_count i;
  zlib_count = plus_zero s.zlib_count i;
  bias_speed_count = plus_zero s.bias_speed_count i;
  bias_memory_count = plus_zero s.bias_memory_count i;
  other_count = plus_zero s.other_count i;
  encrypted_count = plus_zero s.encrypted_count i;
  sum_uncompr_size = s.sum_uncompr_size;
  sum_zlib_size = s.sum_zlib_size;
  sum_bias_speed_size = s.sum_bias_speed_size;
  sum_bias_memory_size = s.sum_bias_memory_size;
  sum_unknown_size = s.sum_unknown_size;
  sum_encrypted_size = s.sum_encrypted_size;
  sum_uncompr_zlib_size = s.sum_uncompr_zlib_size;
  sum_uncompr_bias_speed_size = s.sum_uncompr_bias_speed_size;
  sum_uncompr_bias_memory_size = s.sum_uncompr_bias_memory_size;
  sum_uncompr_unknown_size = s.sum_uncompr_unknown_size;
  sum_uncompr_encrypted_size = s.sum_uncompr_encrypted_size;
}

count_records-columns :
    (s : Sums) (records : List Record) → count_records s records ≡ columns s records
unfolding count_records
count_records-columns s [] = columns-nil s
count_records-columns s (r ∷ records) =
    count_records-columns (add_method r (add_encrypted r (add_all r s))) records
    ∙ ap (λ t. columns t records) (add-step r s)
    ∙ columns-step r s records

-- The counts and the sums modulo 2 ^ 64 of each kind.
abbrev pub totals : List Record → Sums
totals records = record {
  sum_size = sum_of size_of records % 2 ^ 64;
  sum_uncompressed_size = sum_of uncompressed_of records % 2 ^ 64;
  uncompr_count = length (keep (has_method compr_none) records);
  zlib_count = length (keep (has_method compr_zlib) records);
  bias_speed_count = length (keep (has_method compr_bias_speed) records);
  bias_memory_count = length (keep (has_method compr_bias_memory) records);
  other_count = length (keep is_other records);
  encrypted_count = length (keep is_encrypted records);
  sum_uncompr_size = sum_of size_of (keep (has_method compr_none) records) % 2 ^ 64;
  sum_zlib_size = sum_of size_of (keep (has_method compr_zlib) records) % 2 ^ 64;
  sum_bias_speed_size = sum_of size_of (keep (has_method compr_bias_speed) records) % 2 ^ 64;
  sum_bias_memory_size = sum_of size_of (keep (has_method compr_bias_memory) records) % 2 ^ 64;
  sum_unknown_size = sum_of size_of (keep is_other records) % 2 ^ 64;
  sum_encrypted_size = sum_of size_of (keep is_encrypted records) % 2 ^ 64;
  sum_uncompr_zlib_size = sum_of uncompressed_of (keep (has_method compr_zlib) records) % 2 ^ 64;
  sum_uncompr_bias_speed_size =
      sum_of uncompressed_of (keep (has_method compr_bias_speed) records) % 2 ^ 64;
  sum_uncompr_bias_memory_size =
      sum_of uncompressed_of (keep (has_method compr_bias_memory) records) % 2 ^ 64;
  sum_uncompr_unknown_size = sum_of uncompressed_of (keep is_other records) % 2 ^ 64;
  sum_uncompr_encrypted_size = sum_of uncompressed_of (keep is_encrypted records) % 2 ^ 64;
}

sum64_zero :
    (f : Record → ℕ) (records : List Record) → sum64 f 0 records ≡ sum_of f records % 2 ^ 64
sum64_zero f records = sum64-eq-sum_of f 0 records (omega arith) ∙ omega arith

columns-totals : (records : List Record) → columns no_sums records ≡ totals records
unfolding columns
columns-totals records = λ i. record {
  sum_size = sum64_zero size_of records i;
  sum_uncompressed_size = sum64_zero uncompressed_of records i;
  uncompr_count = zero_plus (length (keep (has_method compr_none) records)) i;
  zlib_count = zero_plus (length (keep (has_method compr_zlib) records)) i;
  bias_speed_count = zero_plus (length (keep (has_method compr_bias_speed) records)) i;
  bias_memory_count = zero_plus (length (keep (has_method compr_bias_memory) records)) i;
  other_count = zero_plus (length (keep is_other records)) i;
  encrypted_count = zero_plus (length (keep is_encrypted records)) i;
  sum_uncompr_size = sum64_zero size_of (keep (has_method compr_none) records) i;
  sum_zlib_size = sum64_zero size_of (keep (has_method compr_zlib) records) i;
  sum_bias_speed_size = sum64_zero size_of (keep (has_method compr_bias_speed) records) i;
  sum_bias_memory_size = sum64_zero size_of (keep (has_method compr_bias_memory) records) i;
  sum_unknown_size = sum64_zero size_of (keep is_other records) i;
  sum_encrypted_size = sum64_zero size_of (keep is_encrypted records) i;
  sum_uncompr_zlib_size = sum64_zero uncompressed_of (keep (has_method compr_zlib) records) i;
  sum_uncompr_bias_speed_size =
      sum64_zero uncompressed_of (keep (has_method compr_bias_speed) records) i;
  sum_uncompr_bias_memory_size =
      sum64_zero uncompressed_of (keep (has_method compr_bias_memory) records) i;
  sum_uncompr_unknown_size = sum64_zero uncompressed_of (keep is_other records) i;
  sum_uncompr_encrypted_size = sum64_zero uncompressed_of (keep is_encrypted records) i;
}

-- The loop of info counts the records of each compression method and the encrypted ones, and
-- sums up the sizes of each, modulo 2 ^ 64.
pub count_records-totals : (records : List Record) → count_records no_sums records ≡ totals records
count_records-totals records = count_records-columns no_sums records ∙ columns-totals records
