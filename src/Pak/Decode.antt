-- ===== src/Pak/Decode.antt =====
-- src/pak.rs: `get_version` and `decode_footer`.
use rust_u4pak.Common.{ℕ, ◌+◌, ◌-◌, ◌*◌, false, [], Bytes, ◌==◌, leb, if◌then◌else◌}
use rust_u4pak.Io.{unknown_version, ok, err, Action, Reader, ◌>>=◌, pure, fail, seek_end, from_here}
use rust_u4pak.Codec.{decode_bool, decode_u32, decode_u64, decode_u128, decode_array}
use rust_u4pak.Pak.Defs.{
  Footer, footer_size, pak_magic, pak_bool_size, pak_encryption_guid_size,
  pak_compression_method_count, pak_compression_method_size,
}

abbrev compression_bytes : ℕ
compression_bytes = pak_compression_method_count * pak_compression_method_size

-- The layouts of `decode_footer`, for the offset of the footer: version 10 and later, and 8.
unfoldable pub footer_v10 : ℕ → Reader Footer
footer_v10 offset = do
  encryption_uuid ← decode_u128
  encrypted ← decode_bool
  magic ← decode_u32
  version ← decode_u32
  index_offset ← decode_u64
  index_size ← decode_u64
  index_sha1 ← decode_array 20
  compression ← decode_array compression_bytes
  pure (record {
    footer_offset = offset;
    encryption_uuid = encryption_uuid;
    encrypted = encrypted;
    magic = magic;
    version = version;
    index_offset = index_offset;
    index_size = index_size;
    index_sha1 = index_sha1;
    frozen = false;
    compression = compression;
  })

unfoldable pub footer_v9 : ℕ → Reader Footer
footer_v9 offset = do
  encryption_uuid ← decode_u128
  encrypted ← decode_bool
  magic ← decode_u32
  version ← decode_u32
  index_offset ← decode_u64
  index_size ← decode_u64
  index_sha1 ← decode_array 20
  frozen ← decode_bool
  compression ← decode_array compression_bytes
  pure (record {
    footer_offset = offset;
    encryption_uuid = encryption_uuid;
    encrypted = encrypted;
    magic = magic;
    version = version;
    index_offset = index_offset;
    index_size = index_size;
    index_sha1 = index_sha1;
    frozen = frozen;
    compression = compression;
  })

unfoldable pub footer_v7 : ℕ → Reader Footer
footer_v7 offset = do
  encryption_uuid ← decode_u128
  encrypted ← decode_bool
  magic ← decode_u32
  version ← decode_u32
  index_offset ← decode_u64
  index_size ← decode_u64
  index_sha1 ← decode_array 20
  pure (record {
    footer_offset = offset;
    encryption_uuid = encryption_uuid;
    encrypted = encrypted;
    magic = magic;
    version = version;
    index_offset = index_offset;
    index_size = index_size;
    index_sha1 = index_sha1;
    frozen = false;
    compression = [];
  })

unfoldable pub footer_v4 : ℕ → Reader Footer
footer_v4 offset = do
  encrypted ← decode_bool
  magic ← decode_u32
  version ← decode_u32
  index_offset ← decode_u64
  index_size ← decode_u64
  index_sha1 ← decode_array 20
  pure (record {
    footer_offset = offset;
    encryption_uuid = 0;
    encrypted = encrypted;
    magic = magic;
    version = version;
    index_offset = index_offset;
    index_size = index_size;
    index_sha1 = index_sha1;
    frozen = false;
    compression = [];
  })

unfoldable pub footer_v1 : ℕ → Reader Footer
footer_v1 offset = do
  magic ← decode_u32
  version ← decode_u32
  index_offset ← decode_u64
  index_size ← decode_u64
  index_sha1 ← decode_array 20
  pure (record {
    footer_offset = offset;
    encryption_uuid = 0;
    encrypted = false;
    magic = magic;
    version = version;
    index_offset = index_offset;
    index_size = index_size;
    index_sha1 = index_sha1;
    frozen = false;
    compression = [];
  })

-- The match on the version.
unfoldable pub footer_fields : ℕ → ℕ → Reader Footer
unfolding footer_v10 footer_v9 footer_v7 footer_v4 footer_v1
footer_fields version offset =
    if leb 10 version
    then footer_v10 offset
    else if version == 9
    then footer_v9 offset
    else if version == 8
    then footer_v10 offset
    else if version == 7
    then footer_v7 offset
    else if leb 4 version
    then footer_v4 offset
    else footer_v1 offset

abbrev pub magic_and_version : Reader (ℕ × ℕ)
magic_and_version = do magic ← decode_u32; version ← decode_u32; pure (magic, version)

module _ (file : Bytes) where
  unfoldable pub decode_footer : ℕ → Action ℕ Footer
  unfolding footer_fields footer_size
  decode_footer version = do
    offset ← seek_end file (footer_size version)
    from_here file (footer_fields version offset)

  -- Looks for the magic at a distance from the end, and goes on if it is not there.
  unfoldable pub probe : ℕ → Action ℕ ℕ → Action ℕ ℕ
  probe distance next pos = elim (seek_end file distance pos) [
    | err e p ↦ next pos
    | ok offset p ↦
        (do
          found ← from_here file magic_and_version
          if found.0 == pak_magic then pure found.1 else next)
          p
  ]

  -- `get_version`.
  unfoldable pub get_version : Action ℕ ℕ
  unfolding probe footer_size
  get_version = probe (footer_size 10 - (pak_encryption_guid_size + pak_bool_size)) (
      probe (footer_size 9 - (pak_encryption_guid_size + pak_bool_size)) (
        probe (footer_size 8 - (pak_encryption_guid_size + pak_bool_size))
          (probe (footer_size 7 - pak_bool_size) (probe (footer_size 3) (fail unknown_version)))))
