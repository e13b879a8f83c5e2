-- ===== src/Record/Defs.antt =====
-- src/record.rs: the data, `same_metadata`, `move_to` and `get_serialized_size`; the header sizes
-- and compression methods of src/pak.rs, and `NULL_SHA1` of src/check.rs.
use rust_u4pak.Common.{
  ℕ, ◌+◌, ◌*◌, Bool, true, false, ◌&&◌, not, Option, none, some, List, [], ◌∷◌, ◌==◌, if◌then◌else◌,
  ltb, Bytes, bytes_eq, replicate, map,
}
use rust_u4pak.Word64.{add64, sub64}

abbrev pub compr_none : ℕ
compr_none = 0x00

abbrev pub compr_zlib : ℕ
compr_zlib = 0x01

abbrev pub compr_bias_memory : ℕ
compr_bias_memory = 0x10

abbrev pub compr_bias_speed : ℕ
compr_bias_speed = 0x20

abbrev pub v1_record_header_size : ℕ
v1_record_header_size = 56

abbrev pub v2_record_header_size : ℕ
v2_record_header_size = 48

abbrev pub v3_record_header_size : ℕ
v3_record_header_size = 53

abbrev pub conan_exile_record_header_size : ℕ
conan_exile_record_header_size = 57

abbrev pub compression_block_header_size : ℕ
compression_block_header_size = 16

-- `NULL_SHA1`.
abbrev pub null_sha1 : Bytes
null_sha1 = replicate 20 0

pub record CompressionBlock : Type 0 where
  pub start_offset : ℕ
  pub end_offset : ℕ

pub record Record : Type 0 where
  pub filename : Bytes
  pub offset : ℕ
  pub size : ℕ
  pub uncompressed_size : ℕ
  pub compression_method : ℕ
  pub timestamp : Option ℕ
  pub sha1 : Option Bytes
  pub compression_blocks : Option (List CompressionBlock)
  pub encrypted : Bool
  pub compression_block_size : ℕ

abbrev pub unwrap_or {ℓ} : {A : Type ℓ} → Option A → A → A
unwrap_or none d = d
unwrap_or (some a) d = a

-- The constructors `Record::v1`, `Record::v2` and `Record::v3`.
abbrev pub v1 : Bytes → ℕ → ℕ → ℕ → ℕ → ℕ → Option Bytes → Record
v1 name off sz usz method time hash = record {
  filename = name;
  offset = off;
  size = sz;
  uncompressed_size = usz;
  compression_method = method;
  timestamp = some time;
  sha1 = hash;
  compression_blocks = none;
  encrypted = false;
  compression_block_size = 0;
}

abbrev pub v2 : Bytes → ℕ → ℕ → ℕ → ℕ → Option Bytes → Record
v2 name off sz usz method hash = record {
  filename = name;
  offset = off;
  size = sz;
  uncompressed_size = usz;
  compression_method = method;
  timestamp = none;
  sha1 = hash;
  compression_blocks = none;
  encrypted = false;
  compression_block_size = 0;
}

abbrev pub v3 :
    Bytes → ℕ → ℕ → ℕ → ℕ → Option Bytes → Option (List CompressionBlock) → Bool → ℕ → Record
v3 name off sz usz method hash blocks crypted block_size = record {
  filename = name;
  offset = off;
  size = sz;
  uncompressed_size = usz;
  compression_method = method;
  timestamp = none;
  sha1 = hash;
  compression_blocks = blocks;
  encrypted = crypted;
  compression_block_size = block_size;
}

-- `Record::get_serialized_size`; its `u32` count is multiplied as a `u64`, and cannot overflow.
unfoldable pub get_serialized_size : ℕ → ℕ → ℕ
get_serialized_size method count =
    if not (method == compr_none)
    then v3_record_header_size + (16 * count + 4)
    else v3_record_header_size

-- `==` on the optional fields, as `derive(PartialEq)` gives it.
abbrev pub option_eq {ℓ} : {A : Type ℓ} → (A → A → Bool) → Option A → Option A → Bool
option_eq eq none none = true
option_eq eq (some a) (some b) = eq a b
option_eq eq _ _ = false

abbrev pub bool_eq : Bool → Bool → Bool
bool_eq true b = b
bool_eq false b = not b

abbrev pub block_eq : CompressionBlock → CompressionBlock → Bool
block_eq a b = (a.start_offset == b.start_offset) && (a.end_offset == b.end_offset)

unfoldable pub blocks_eq : List CompressionBlock → List CompressionBlock → Bool
blocks_eq [] [] = true
blocks_eq (a ∷ as') (b ∷ bs) = block_eq a b && blocks_eq as' bs
blocks_eq _ _ = false

-- `Record::same_metadata`.
unfoldable pub same_metadata : Record → Record → Bool
unfolding blocks_eq bytes_eq
same_metadata r other =
    (r.size == other.size)
    && (r.uncompressed_size == other.uncompressed_size)
    && (r.compression_method == other.compression_method)
    && option_eq ◌==◌ r.timestamp other.timestamp
    && option_eq bytes_eq r.sha1 other.sha1
    && option_eq blocks_eq r.compression_blocks other.compression_blocks
    && bool_eq r.encrypted other.encrypted
    && (r.compression_block_size == other.compression_block_size)

-- The body of the loop of `Record::move_to`, over one block.
abbrev pub move_block : ℕ → ℕ → CompressionBlock → CompressionBlock
move_block old_offset new_offset b = record {
  start_offset = add64 (sub64 b.start_offset old_offset) new_offset;
  end_offset = add64 (sub64 b.end_offset old_offset) new_offset;
}

abbrev pub option_map {ℓ κ} : {A : Type ℓ} {B : Type κ} → (A → B) → Option A → Option B
option_map f none = none
option_map f (some a) = some (f a)

-- `Record::move_to`.
unfoldable pub move_to : ℕ → ℕ → Record → Record
move_to version new_offset r = record r {
  offset = new_offset;
  compression_blocks =
      if ltb version 7
      then option_map (map (move_block r.offset new_offset)) r.compression_blocks
      else r.compression_blocks;
}
