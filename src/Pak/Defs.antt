-- ===== src/Pak/Defs.antt =====
-- src/pak.rs: constants, `Pak`, `Footer`, `Options`, `header_size` and `footer_size`.
use rust_u4pak.Common.{
  ℕ, ◌+◌, ◌*◌, Bool, not, Option, none, some, List, Bytes, length, ◌==◌, leb, if◌then◌else◌,
}
use rust_u4pak.Io.{Result, done, failed, panic}
use rust_u4pak.Word64.{add64, mul64}
use rust_u4pak.Paths.{Encoding}
use rust_u4pak.Record.{
  Record, CompressionBlock, v1_record_header_size, v2_record_header_size, v3_record_header_size,
  conan_exile_record_header_size, compression_block_header_size,
}
use rust_u4pak.Index.Legacy.{Variant, standard, conan_exiles}
use rust_u4pak.Index.Read.{Index}

abbrev pub pak_magic : ℕ
pak_magic = 0x5A6F12E1

abbrev pub pak_max_supported_version : ℕ
pak_max_supported_version = 11

abbrev pub pak_bool_size : ℕ
pak_bool_size = 1

abbrev pub pak_compression_method_count : ℕ
pak_compression_method_count = 5

abbrev pub pak_compression_method_size : ℕ
pak_compression_method_size = 32

abbrev pub pak_encryption_guid_size : ℕ
pak_encryption_guid_size = 16

pub record Options : Type 0 where
  pub variant : Variant
  pub ignore_magic : Bool
  pub encoding : Encoding
  pub force_version : Option ℕ
  pub encryption_key : Option Bytes

pub record Footer : Type 0 where
  pub footer_offset : ℕ
  pub encryption_uuid : ℕ
  pub encrypted : Bool
  pub magic : ℕ
  pub version : ℕ
  pub index_offset : ℕ
  pub index_size : ℕ
  pub index_sha1 : Bytes
  pub frozen : Bool
  pub compression : Bytes

pub record Pak : Type 0 where
  pub variant : Variant
  pub version : ℕ
  pub index_offset : ℕ
  pub index_size : ℕ
  pub index_sha1 : Bytes
  pub index : Index

abbrev pub blocks_size : ℕ → Option (List CompressionBlock) → ℕ
blocks_size version none = v3_record_header_size
blocks_size version (some blocks) =
    let size = add64 v3_record_header_size (mul64 (length blocks) compression_block_header_size) in
    if leb 3 version then add64 size 4 else size

-- `Pak::header_size`.
unfoldable pub header_size : ℕ → Variant → Record → Result ℕ
header_size version conan_exiles r =
    if not (version == 4) then failed panic else done conan_exile_record_header_size
header_size version standard r = done (
    if version == 1
    then v1_record_header_size
    else if version == 2
    then v2_record_header_size
    else blocks_size version r.compression_blocks)

-- `Pak::footer_size`: magic, version, offset, size and checksum, and what later versions add.
unfoldable pub footer_size : ℕ → ℕ
footer_size version =
    4
    + 4
    + 8
    + 8
    + 20
    + (if leb 4 version then pak_bool_size else 0)
    + (if leb 7 version then pak_encryption_guid_size else 0)
    + (if leb 8 version then pak_compression_method_count * pak_compression_method_size else 0)
    + (if version == 9 then pak_bool_size else 0)
