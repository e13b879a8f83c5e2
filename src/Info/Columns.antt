-- ===== src/Info/Columns.antt =====
-- src/info.rs: each column of the sums, by the records that it counts.
use rust_u4pak.Common.{
  ℕ, ◌+◌, ◌^◌, ◌%◌, ◌<◌, ◌≡◌, ◌∙◌, arith, Bool, Bool-cases, inl, inr, not, ◌&&◌, List, [], ◌∷◌,
  ◌==◌, if◌then◌else◌, length,
}
use rust_u4pak.Word64.{add64}
use rust_u4pak.Record.{Record, compr_none, compr_zlib, compr_bias_memory, compr_bias_speed}
use rust_u4pak.Filter.Selected.{keep}
use rust_u4pak.Info.{Sums}

-- The sum of a field.
abbrev pub sum_of : (Record → ℕ) → List Record → ℕ
sum_of f [] = 0
sum_of f (r ∷ records) = f r + sum_of f records

-- The same with the wrap-around of each addition.
abbrev pub sum64 : (Record → ℕ) → ℕ → List Record → ℕ
sum64 f n [] = n
sum64 f n (r ∷ records) = sum64 f (add64 n (f r)) records

pub sum64-eq-sum_of :
    (f : Record → ℕ) (n : ℕ) (records : List Record)
    → n < 2 ^ 64
    → sum64 f n records ≡ (n + sum_of f records) % 2 ^ 64
sum64-eq-sum_of f n [] small = omega arith
sum64-eq-sum_of f n (r ∷ records) small =
    sum64-eq-sum_of f (add64 n (f r)) records (omega arith) ∙ omega arith

abbrev pub has_method : ℕ → Record → Bool
has_method method r = r.compression_method == method

abbrev pub is_other : Record → Bool
is_other r =
    not (r.compression_method == compr_none)
    && not (r.compression_method == compr_zlib)
    && not (r.compression_method == compr_bias_speed)
    && not (r.compression_method == compr_bias_memory)

abbrev pub is_encrypted : Record → Bool
is_encrypted r = r.encrypted

abbrev pub size_of : Record → ℕ
size_of r = r.size

abbrev pub uncompressed_of : Record → ℕ
uncompressed_of r = r.uncompressed_size

-- Each variable, with what the records of its kind add to it.
unfoldable pub columns : Sums → List Record → Sums
unfolding keep
columns s records =
    let uncompr = keep (has_method compr_none) records in
    let zlib = keep (has_method compr_zlib) records in
    let bias_speed = keep (has_method compr_bias_speed) records in
    let bias_memory = keep (has_method compr_bias_memory) records in
    let other = keep is_other records in
    let crypted = keep is_encrypted records in
    record {
      sum_size = sum64 size_of s.sum_size records;
      sum_uncompressed_size = sum64 uncompressed_of s.sum_uncompressed_size records;
      uncompr_count = s.uncompr_count + length uncompr;
      zlib_count = s.zlib_count + length zlib;
      bias_speed_count = s.bias_speed_count + length bias_speed;
      bias_memory_count = s.bias_memory_count + length bias_memory;
      other_count = s.other_count + length other;
      encrypted_count = s.encrypted_count + length crypted;
      sum_uncompr_size = sum64 size_of s.sum_uncompr_size uncompr;
      sum_zlib_size = sum64 size_of s.sum_zlib_size zlib;
      sum_bias_speed_size = sum64 size_of s.sum_bias_speed_size bias_speed;
      sum_bias_memory_size = sum64 size_of s.sum_bias_memory_size bias_memory;
      sum_unknown_size = sum64 size_of s.sum_unknown_size other;
      sum_encrypted_size = sum64 size_of s.sum_encrypted_size crypted;
      sum_uncompr_zlib_size = sum64 uncompressed_of s.sum_uncompr_zlib_size zlib;
      sum_uncompr_bias_speed_size = sum64 uncompressed_of s.sum_uncompr_bias_speed_size bias_speed;
      sum_uncompr_bias_memory_size =
          sum64 uncompressed_of s.sum_uncompr_bias_memory_size bias_memory;
      sum_uncompr_unknown_size = sum64 uncompressed_of s.sum_uncompr_unknown_size other;
      sum_uncompr_encrypted_size = sum64 uncompressed_of s.sum_uncompr_encrypted_size crypted;
    }

-- The row of a kind: its count and a sum.
pub count-keep :
    (p : Record → Bool) (n : ℕ) (r : Record) (records : List Record)
    → (if p r then n + 1 else n) + length (keep p records) ≡ n + length (keep p (r ∷ records))
unfolding keep
count-keep p n r records = elim (Bool-cases (p r)) [
  | inl yes_it ↦ rw yes_it (omega arith)
  | inr no_it ↦ rw no_it
]

pub sum-keep :
    (p : Record → Bool) (f : Record → ℕ) (n : ℕ) (r : Record) (records : List Record)
    → sum64 f (if p r then add64 n (f r) else n) (keep p records) ≡ sum64 f n (keep p (r ∷ records))
unfolding keep
sum-keep p f n r records = elim (Bool-cases (p r)) [ inl yes_it ↦ rw yes_it | inr no_it ↦ rw no_it ]
