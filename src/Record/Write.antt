-- ===== src/Record/Write.antt =====
-- src/record.rs: the eight `write_*` functions, as the bytes that they append to the writer.
use rust_u4pak.Common.{ℕ, Bool, true, false, Option, none, some, [], List, Bytes, ◌++◌}
use rust_u4pak.Codec.{encode_u8, encode_u32, encode_u64, encode_array, encode_counted}
use rust_u4pak.Record.Defs.{Record, CompressionBlock, null_sha1, unwrap_or}

-- `Encode` for `CompressionBlock`.
unfoldable pub encode_block : CompressionBlock → Bytes
encode_block b = encode_u64 b.start_offset ++ encode_u64 b.end_offset

-- `if let Some(blocks) = &self.compression_blocks { blocks [u32] }`.
unfoldable pub encode_blocks : Option (List CompressionBlock) → Bytes
encode_blocks none = []
encode_blocks (some blocks) = encode_counted encode_block blocks

-- `self.encrypted as u8`.
abbrev pub bool_u8 : Bool → ℕ
bool_u8 true = 1
bool_u8 false = 0

-- Each layout with the offset that stands in front: the record's own in the index, 0 inline.
abbrev pub head_fields : ℕ → Record → Bytes → Bytes
head_fields offset r tail =
    encode_u64 offset
    ++ (encode_u64 r.size
        ++ (encode_u64 r.uncompressed_size ++ (encode_u32 r.compression_method ++ tail)))

abbrev pub sha1_field : Record → Bytes
sha1_field r = encode_array (unwrap_or r.sha1 null_sha1)

abbrev pub v1_fields : ℕ → Record → Bytes
v1_fields offset r = head_fields offset r (encode_u64 (unwrap_or r.timestamp 0) ++ sha1_field r)

abbrev pub v2_fields : ℕ → Record → Bytes
v2_fields offset r = head_fields offset r (sha1_field r)

abbrev pub v3_fields : ℕ → Record → Bytes → Bytes
v3_fields offset r tail = head_fields offset r (
    sha1_field r
    ++ (encode_blocks r.compression_blocks
        ++ (encode_u8 (bool_u8 r.encrypted) ++ (encode_u32 r.compression_block_size ++ tail))))

unfoldable pub write_v1 : Record → Bytes
write_v1 r = v1_fields r.offset r

unfoldable pub write_v1_inline : Record → Bytes
write_v1_inline r = v1_fields 0 r

unfoldable pub write_v2 : Record → Bytes
write_v2 r = v2_fields r.offset r

unfoldable pub write_v2_inline : Record → Bytes
write_v2_inline r = v2_fields 0 r

unfoldable pub write_v3 : Record → Bytes
write_v3 r = v3_fields r.offset r []

unfoldable pub write_v3_inline : Record → Bytes
write_v3_inline r = v3_fields 0 r []

unfoldable pub write_conan_exiles : Record → Bytes
write_conan_exiles r = v3_fields r.offset r (encode_u32 0)

-- Twenty bytes of unknown meaning, written as zeros.
unfoldable pub write_conan_exiles_inline : Record → Bytes
write_conan_exiles_inline r = v3_fields 0 r (encode_array null_sha1)
