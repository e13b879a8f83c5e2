-- ===== src/Index/Legacy.antt =====
-- src/index.rs: `read_records_legacy`.
use rust_u4pak.Common.{ℕ, zero, suc, ◌||◌, not, List, [], ◌∷◌, ◌==◌, leb, if◌then◌else◌, Bytes}
use rust_u4pak.Io.{
  Result, done, failed, conan_version, unsupported_version, Reader, ◌>>=◌, pure, lift,
}
use rust_u4pak.Codec.{decode_u32}
use rust_u4pak.Paths.{Encoding, read_path}
use rust_u4pak.Record.{Record}
use rust_u4pak.Record.Read.{read_v1, read_v2, read_v3, read_conan_exiles}

-- `Variant` of src/pak.rs.
pub data Variant : Type 0 where
  standard conan_exiles : Variant

-- The match that picks the reader of a record.
unfoldable pub read_record_for : Variant → ℕ → Result (Bytes → Reader Record)
read_record_for conan_exiles version =
    if not (version == 4) then failed (conan_version version) else done read_conan_exiles
read_record_for standard version =
    if version == 1
    then done read_v1
    else if version == 2
    then done read_v2
    else if leb version 5 || leb version 9
    then done read_v3
    else failed (unsupported_version version)

-- The loop that reads a path and a record `entry_count` times.
unfoldable pub read_named_records : Encoding → (Bytes → Reader Record) → ℕ → Reader (List Record)
read_named_records encoding read_record zero = pure []
read_named_records encoding read_record (suc n) = do
  filename ← read_path encoding
  r ← read_record filename
  records ← read_named_records encoding read_record n
  pure (r ∷ records)

unfoldable pub read_records_legacy : ℕ → Variant → Encoding → Reader (List Record)
unfolding read_record_for read_named_records
read_records_legacy version variant encoding = do
  read_record ← lift (read_record_for variant version)
  entry_count ← decode_u32
  read_named_records encoding read_record entry_count
