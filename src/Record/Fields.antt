-- ===== src/Record/Fields.antt =====
-- src/record.rs: each reader over the fields of its layout, with any offset and any bytes behind.
use rust_u4pak.Common.{
  ℕ, ◌^◌, ◌<◌, ◌≡◌, refl, ◌∙◌, arith, Bool, true, false, Option, none, some, List, [], ◌++◌,
  append_assoc, Bytes, length, All, ◌==◌, not,
}
use rust_u4pak.Io.{Reader, ok, ◌>>=◌, read_exact_lem}
use rust_u4pak.Codec.{decode_u64, decode_u32, decode_u8, decode_array, encode_u8, encode_u32}
use rust_u4pak.Codec.RoundTrip.{decode_uint-to_le_bytes, decode_counted-encode_counted}
use rust_u4pak.Record.Defs.{Record, CompressionBlock, compr_none, v1, v2, v3}
use rust_u4pak.Record.Read.{
  decode_block, decode_blocks, read_v1, read_v2, read_v3, read_conan_exiles,
}
use rust_u4pak.Record.Write.{
  encode_block, encode_blocks, bool_u8, head_fields, sha1_field, v1_fields, v2_fields, v3_fields,
}

-- Two `u64` offsets.
abbrev pub IsBlock : CompressionBlock → Type 0
IsBlock b = (b.start_offset < 2 ^ 64) × (b.end_offset < 2 ^ 64)

-- The fields that every layout has fit their types, and there is a checksum.
pub record IsHead (r : Record) (hash : Bytes) : Type 0 where
  pub size_lt : r.size < 2 ^ 64
  pub uncompressed_lt : r.uncompressed_size < 2 ^ 64
  pub method_lt : r.compression_method < 2 ^ 32
  pub sha1_is : r.sha1 ≡ some hash
  pub hash_length : length hash ≡ 20

-- Blocks are there exactly if the record is compressed, and a `u32` counts them.
abbrev pub IsBlocks : ℕ → Option (List CompressionBlock) → Type 0
IsBlocks method none = method ≡ compr_none
IsBlocks method (some blocks) =
    ((method == compr_none) ≡ false) × (length blocks < 2 ^ 32) × All IsBlock blocks

pub record IsTail (r : Record) : Type 0 where
  pub blocks_ok : IsBlocks r.compression_method r.compression_blocks
  pub block_size_lt : r.compression_block_size < 2 ^ 32
  pub no_timestamp : r.timestamp ≡ none

pub decode_block-encode_block :
    (b : CompressionBlock) (s : Bytes) → IsBlock b → decode_block (encode_block b ++ s) ≡ ok b s
unfolding decode_block encode_block
decode_block-encode_block b s h = rw append_assoc (
    rw (decode_uint-to_le_bytes 8 b.start_offset _ h.0, ◌>>=◌)
      (rw (decode_uint-to_le_bytes 8 b.end_offset s h.1, ◌>>=◌)))

decode_blocks-encode_blocks :
    (method : ℕ) (blocks : Option (List CompressionBlock)) (s : Bytes)
    → IsBlocks method blocks
    → decode_blocks method (encode_blocks blocks ++ s) ≡ ok blocks s
unfolding decode_blocks encode_blocks
decode_blocks-encode_blocks method none s h = rw h
decode_blocks-encode_blocks method (some blocks) s h = rw h.0 (
    rw (
      decode_counted-encode_counted decode_block encode_block decode_block-encode_block blocks s h.1
          h.2,
      ◌>>=◌,
    ))

-- The four fields that every layout starts with, in front of any other reader.
read_head :
    (r : Record) (offset : ℕ) (tail s : Bytes) (k : ℕ → ℕ → ℕ → ℕ → Reader Record) {hash : Bytes}
    → offset < 2 ^ 64
    → IsHead r hash
    → (do o ← decode_u64; sz ← decode_u64; usz ← decode_u64; method ← decode_u32; k o sz usz method)
        (head_fields offset r tail ++ s)
      ≡ k offset r.size r.uncompressed_size r.compression_method (tail ++ s)
read_head r offset tail s k fits head = simp append_assoc (
    rw (decode_uint-to_le_bytes 8 offset _ fits, ◌>>=◌)
      (rw (decode_uint-to_le_bytes 8 r.size _ head.size_lt, ◌>>=◌)
        (rw (decode_uint-to_le_bytes 8 r.uncompressed_size _ head.uncompressed_lt, ◌>>=◌)
          (rw (decode_uint-to_le_bytes 4 r.compression_method _ head.method_lt, ◌>>=◌)))))

flag_is : (b : Bool) → not (bool_u8 b == 0) ≡ b
flag_is true = refl
flag_is false = refl

flag_lt : (b : Bool) → bool_u8 b < 256 ^ 1
flag_lt true = omega arith
flag_lt false = omega arith

-- The fields that a version 3 layout ends with, in front of any other reader.
read_tail :
    (r : Record) (tail s : Bytes)
    (k : Bytes → Option (List CompressionBlock) → ℕ → ℕ → Reader Record) {hash : Bytes}
    → IsHead r hash
    → IsTail r
    → (do
      sha1 ← decode_array 20
      blocks ← decode_blocks r.compression_method
      encrypted ← decode_u8
      block_size ← decode_u32
      k sha1 blocks encrypted block_size)
        ((sha1_field r
            ++ (encode_blocks r.compression_blocks
                ++ (encode_u8 (bool_u8 r.encrypted)
                    ++ (encode_u32 r.compression_block_size ++ tail))))
          ++ s)
      ≡ k hash r.compression_blocks (bool_u8 r.encrypted) r.compression_block_size (tail ++ s)
read_tail r tail s k {hash} head t = simp append_assoc (
    rw head.sha1_is (
      rw (read_exact_lem 20 hash _ head.hash_length, ◌>>=◌)
        (rw
          (
            decode_blocks-encode_blocks r.compression_method r.compression_blocks _ t.blocks_ok,
            ◌>>=◌,
          )
          (rw (decode_uint-to_le_bytes 1 (bool_u8 r.encrypted) _ (flag_lt r.encrypted), ◌>>=◌)
            (rw (decode_uint-to_le_bytes 4 r.compression_block_size _ t.block_size_lt, ◌>>=◌))))))

-- A version 3 record as it is read back, with the offset that was written.
abbrev pub at_offset : Record → Bytes → ℕ → Record
at_offset r hash offset =
    v3 r.filename offset r.size r.uncompressed_size r.compression_method (some hash)
      r.compression_blocks r.encrypted r.compression_block_size

module _ (r : Record) (hash s : Bytes) (offset : ℕ) (fits : offset < 2 ^ 64)
    (head : IsHead r hash) where
  pub read_v1-v1_fields :
      (time : ℕ)
      → time < 2 ^ 64
      → r.timestamp ≡ some time
      → read_v1 r.filename (v1_fields offset r ++ s)
        ≡ ok
            (v1 r.filename offset r.size r.uncompressed_size r.compression_method time (some hash))
            s
  unfolding read_v1
  read_v1-v1_fields time time_lt stamped =
      read_head r offset _ s _ fits head
      ∙ rw (stamped, head.sha1_is)
          (rw append_assoc (
            rw (decode_uint-to_le_bytes 8 time _ time_lt, ◌>>=◌)
              (rw (read_exact_lem 20 hash s head.hash_length, ◌>>=◌))))

  pub read_v2-v2_fields :
      read_v2 r.filename (v2_fields offset r ++ s)
      ≡ ok (v2 r.filename offset r.size r.uncompressed_size r.compression_method (some hash)) s
  unfolding read_v2
  read_v2-v2_fields =
      read_head r offset _ s _ fits head
      ∙ rw head.sha1_is (rw (read_exact_lem 20 hash s head.hash_length, ◌>>=◌))

  pub read_v3-v3_fields :
      IsTail r → read_v3 r.filename (v3_fields offset r [] ++ s) ≡ ok (at_offset r hash offset) s
  unfolding read_v3
  read_v3-v3_fields t =
      read_head r offset _ s _ fits head ∙ read_tail r [] s _ head t ∙ rw (flag_is r.encrypted)

  pub read_conan_exiles-v3_fields :
      IsTail r
      → read_conan_exiles r.filename (v3_fields offset r (encode_u32 0) ++ s)
        ≡ ok (at_offset r hash offset) s
  unfolding read_conan_exiles
  read_conan_exiles-v3_fields t =
      read_head r offset _ s _ fits head
      ∙ read_tail r (encode_u32 0) s _ head t
      ∙ rw (decode_uint-to_le_bytes 4 0 s (omega arith), ◌>>=◌) (rw (flag_is r.encrypted))
