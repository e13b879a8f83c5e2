-- ===== src/Unpack/Defs.antt =====
-- src/unpack.rs: `unpack_record` and `decrypt_entry`, as the components of the path and the bytes
-- of the file that is written.
use rust_u4pak.Common.{
  ℕ, ◌-◌, ◌^◌, not, ◌||◌, Option, none, some, List, [], ◌∷◌, ◌++◌, ltb, leb, ◌==◌, if◌then◌else◌,
  Bytes, length, take, drop,
}
use rust_u4pak.Word64.{add64, sub64, align}
use rust_u4pak.Io.{
  Result, done, failed, panic, invalid_seek, corrupt_stream, missing_key, unsupported_method,
  Outcome, ok, err, read_exact,
}
use rust_u4pak.Results.{◌>>=◌}
use rust_u4pak.Crypto.{Zlib}
use rust_u4pak.Decrypt.{Cipher, decrypt}
use rust_u4pak.Text.{Text}
use rust_u4pak.PakPath.{parse_pak_path}
use rust_u4pak.Record.{Record, CompressionBlock, compr_none, compr_zlib}
use rust_u4pak.Record.Entry.{aes_block_size}
use rust_u4pak.Index.Legacy.{Variant}
use rust_u4pak.Pak.{header_size}

-- `PAK_RELATIVE_COMPRESSION_OFFSET_VERSION` of src/pak.rs.
abbrev pub pak_relative_compression_offset_version : ℕ
pak_relative_compression_offset_version = 5

-- `&buffer[start..end]`, which panics out of range.
abbrev pub slice : Bytes → ℕ → ℕ → Result Bytes
slice buffer start end =
    if ltb end start || ltb (length buffer) end
    then failed panic
    else done (take (end - start) (drop start buffer))

-- `seek`, and `read_exact` into a buffer of `size` bytes.
abbrev read_result : Outcome Bytes Bytes → Result Bytes
read_result (ok b rest) = done b
read_result (err e rest) = failed e

unfoldable pub read_at : Bytes → ℕ → ℕ → Result Bytes
unfolding read_exact
read_at file start size =
    if leb (2 ^ 63) start
    then failed invalid_seek
    else if leb (2 ^ 63) size
    then failed panic
    else read_result (read_exact size (drop start file))

-- Where a block stands in the data, from the offset that the record has for it.
abbrev pub block_offset : ℕ → ℕ → ℕ → ℕ → ℕ
block_offset version header start_offset offset =
    if ltb version pak_relative_compression_offset_version
    then sub64 (sub64 offset header) (sub64 start_offset header)
    else sub64 offset header

abbrev lift_align : Option ℕ → Result ℕ
lift_align none = failed panic
lift_align (some n) = done n

-- `buffer_length`: encrypted data is padded to whole AES blocks.
unfoldable pub buffer_length : Record → Result ℕ
unfolding align
buffer_length r = if r.encrypted then lift_align (align r.size aes_block_size) else done r.size

abbrev pub inflated : Option Bytes → Result Bytes
inflated none = failed corrupt_stream
inflated (some b) = done b

module _ (zlib : Zlib) where
  abbrev pub inflate : Bytes → Result Bytes
  inflate s = inflated (zlib.decompress s)

  -- The loop over the blocks.
  unfoldable pub unpack_blocks : ℕ → ℕ → ℕ → Bytes → List CompressionBlock → Result Bytes
  unpack_blocks version header start_offset buffer [] = done []
  unpack_blocks version header start_offset buffer (b ∷ blocks) =
      let rest = unpack_blocks version header start_offset buffer blocks in
      do
        stream ←
            slice buffer (block_offset version header start_offset b.start_offset)
              (block_offset version header start_offset b.end_offset)
        out ← inflate stream
        more ← rest
        done (out ++ more)

  -- The match on the compression method.
  unfoldable pub unpack_data : ℕ → ℕ → ℕ → Record → Bytes → Result Bytes
  unfolding unpack_blocks
  unpack_data version header start_offset r buffer =
      if r.compression_method == compr_none
      then done buffer
      else if r.compression_method == compr_zlib
      then elim r.compression_blocks [
        | some blocks ↦ unpack_blocks version header start_offset buffer blocks
        | none ↦ inflate buffer
      ]
      else failed (unsupported_method r.compression_method)

  module _ (aes : Cipher) where
    unfoldable pub decrypt_entry : Record → Option Bytes → Bytes → Result Bytes
    unfolding decrypt
    decrypt_entry r key buffer = if not r.encrypted then done buffer else elim key [
      | none ↦ failed missing_key
      | some k ↦ decrypt aes buffer k >>= λ plain. done (take r.size plain)
    ]

    unfoldable pub unpack_record :
        ℕ → Variant → Option Bytes → Bytes → Record → Result (List Text × Bytes)
    unfolding read_at buffer_length decrypt_entry unpack_data parse_pak_path
    unpack_record version variant key file r = do
      header ← header_size version variant r
      let start_offset = add64 r.offset header
      size ← buffer_length r
      buffer ← read_at file start_offset size
      plain ← decrypt_entry r key buffer
      out ← unpack_data version header start_offset r plain
      done (parse_pak_path r.filename, out)
