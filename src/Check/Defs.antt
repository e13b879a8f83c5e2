-- ===== src/Check/Defs.antt =====
-- src/check.rs: `check_data`, and the work of a thread on a record.
use rust_u4pak.Common.{
  ℕ, zero, suc, ◌-◌, ◌^◌, Bool, true, false, not, ◌&&◌, ◌||◌, Option, none, some, List, [], ◌∷◌,
  ◌++◌, ltb, leb, ◌==◌, if◌then◌else◌, Bytes, bytes_eq, drop,
}
use rust_u4pak.Word64.{add64}
use rust_u4pak.Io.{
  Error, invalid_seek, checksum_mismatch, metadata_mismatch, size_differs, data_bleeds, block_order,
  block_start, record_end, unknown_method, inline_offset, unsupported_version, conan_version,
  Result, done, failed, ok, err, Reader, ◌>>=◌, pure, fail, panic, read_exact,
}
use rust_u4pak.Crypto.{Sha1Hasher}
use rust_u4pak.Record.{
  Record, CompressionBlock, compr_none, compr_zlib, compr_bias_memory, compr_bias_speed, null_sha1,
  unwrap_or, same_metadata,
}
use rust_u4pak.Record.Read.{read_v1, read_v2, read_v3, read_conan_exiles}
use rust_u4pak.Index.Legacy.{Variant, standard, conan_exiles}
use rust_u4pak.Pak.{header_size}
use rust_u4pak.Pack.{buffer_size}
use rust_u4pak.Unpack.{read_at}

-- `COMPR_METHODS.contains`.
abbrev pub is_compr_method : ℕ → Bool
is_compr_method m =
    (m == compr_none) || (m == compr_zlib) || (m == compr_bias_memory) || (m == compr_bias_speed)

module _ (sha : Sha1Hasher) where
  open sha use {State, new, update, finish}

  -- The loop of `check_data`, which reads once more for the rest, of 0 bytes too.
  unfoldable pub hash_loop : ℕ → ℕ → State → Reader State
  hash_loop zero remaining h = fail panic
  hash_loop (suc fuel) remaining h =
      if leb buffer_size remaining
      then (read_exact buffer_size >>= λ buffer.
          hash_loop fuel (remaining - buffer_size) (update h buffer))
      else (read_exact remaining >>= λ buffer. pure (update h buffer))

  abbrev pub compared : Bytes → Bytes → Result {0} Unit
  compared digest checksum = if bytes_eq digest checksum then done tt else failed checksum_mismatch

  unfoldable pub check_data : Bool → Bytes → ℕ → ℕ → Bytes → Result {0} Unit
  unfolding hash_loop bytes_eq
  check_data ignore_null_checksums file offset size checksum =
      if ignore_null_checksums && bytes_eq checksum null_sha1
      then done tt
      else if leb (2 ^ 63) offset
      then failed invalid_seek
      else elim (hash_loop (suc size) size new (drop offset file)) [
        | ok h rest ↦ compared (finish h) checksum
        | err e rest ↦ failed e
      ]

-- What a thread sends about a record, and whether it returned.
pub record Report : Type 0 where
  pub sent : List Error
  pub ended : Bool

abbrev pub nothing : Report
nothing = record { sent = []; ended = false }

-- An error after which the thread returns.
abbrev pub last_error : Error → Report
last_error e = record { sent = e ∷ []; ended = true }

infixl 5 ◌>>◌
abbrev pub ◌>>◌ : Report → Report → Report
a >> b = if a.ended then a else record { sent = a.sent ++ b.sent; ended = b.ended }

-- Where the blocks of a record stand: what their offsets count from, and where the first begins.
abbrev pub block_base : Variant → ℕ → ℕ → ℕ → ℕ × ℕ
block_base conan_exiles version offset header = (0, add64 (add64 offset header) 20)
block_base standard version offset header =
    if leb 7 version
    then (offset, add64 header 4)
    else if leb 4 version
    then (0, add64 (add64 offset header) 4)
    else (0, add64 offset header)

-- `read_record`.
unfoldable pub record_reader : Variant → ℕ → Result (Bytes → Reader Record)
record_reader conan_exiles version =
    if not (version == 4) then failed (conan_version version) else done read_conan_exiles
record_reader standard version =
    if version == 1
    then done read_v1
    else if version == 2
    then done read_v2
    else if leb version 5 || (version == 7)
    then done read_v3
    else failed (unsupported_version version)

module _ (sha : Sha1Hasher) (abort_on_error ignore_null_checksums : Bool) where
  open sha use {State, new, update, finish}

  -- The macro `check_error!`.
  abbrev pub check_error : Error → Report
  check_error e = record { sent = e ∷ []; ended = abort_on_error }

  abbrev pub error_if : Bool → Error → Report
  error_if b e = if b then check_error e else nothing

  abbrev pub error_of : Result {0} Unit → Report
  error_of (done u) = nothing
  error_of (failed e) = check_error e

  -- The header in front of the data, against the record of the index.
  abbrev pub check_inline : (Bytes → Reader Record) → Bytes → Record → Report
  check_inline read_record file r =
      if leb (2 ^ 63) r.offset
      then check_error invalid_seek
      else elim (read_record r.filename (drop r.offset file)) [
        | ok other rest ↦
            error_if (not (other.offset == 0)) (inline_offset other.offset)
            >> error_if (not (same_metadata r other)) metadata_mismatch
        | err e rest ↦ check_error e
      ]

  -- The loop over the blocks: what is sent, the offset behind them, and their hash. A block too
  -- large for a buffer makes the thread panic, and is sent as the error `panic` here.
  pub record Progress : Type 0 where
    pub report : Report
    pub next_start_offset : ℕ
    pub hasher : State

  abbrev pub after : Report → Progress → Progress
  after a p = record p { report = a >> p.report }

  unfoldable pub check_blocks : Bytes → ℕ → List CompressionBlock → ℕ → State → Progress
  check_blocks file base_offset [] next_start_offset h = record {
    report = nothing;
    next_start_offset = next_start_offset;
    hasher = h;
  }
  check_blocks file base_offset (b ∷ blocks) next_start_offset h =
      let rest = check_blocks file base_offset blocks in
      let block_size = b.end_offset - b.start_offset in
      let misplaced = error_if (not (next_start_offset == b.start_offset)) block_start in
      if ltb b.end_offset b.start_offset
      then after (check_error block_order) (rest next_start_offset h)
      else elim (read_at file (add64 base_offset b.start_offset) block_size) [
        | failed e ↦ record {
          report = misplaced >> last_error e;
          next_start_offset = next_start_offset;
          hasher = h;
        }
        | done buffer ↦
            after misplaced (rest (add64 next_start_offset block_size) (update h buffer))
      ]

  abbrev pub block_errors : ℕ → Option Bytes → Progress → Report
  block_errors end_offset checksum p =
      p.report
      >> error_if (not (p.next_start_offset == end_offset)) record_end
      >> error_if (not (bytes_eq (finish p.hasher) (unwrap_or checksum null_sha1)))
          checksum_mismatch

  -- `record.sha1().map_or(true, |sha1| sha1 != NULL_SHA1)`.
  abbrev pub has_checksum : Option Bytes → Bool
  has_checksum none = true
  has_checksum (some checksum) = not (bytes_eq checksum null_sha1)

  -- The data of a record.
  unfoldable pub check_contents : Variant → ℕ → Bytes → ℕ → Record → Report
  unfolding bytes_eq
  check_contents variant version file header r = elim r.compression_blocks [
    | some blocks ↦
        let (base_offset, start) = block_base variant version r.offset header in
        if not ignore_null_checksums || has_checksum r.sha1
        then block_errors (add64 start r.size) r.sha1
            (check_blocks file base_offset blocks start new)
        else nothing
    | none ↦ error_of (
        check_data sha ignore_null_checksums file (add64 r.offset header) r.size
          (unwrap_or r.sha1 null_sha1))
  ]

  -- What a thread does with a record; what it calls may panic.
  unfoldable pub check_record :
      Variant → ℕ → ℕ → (Bytes → Reader Record) → Bytes → Record → Result Report
  unfolding same_metadata
  check_record variant version index_offset read_record file r =
      elim (header_size version variant r) [
        | failed e ↦ failed e
        | done header ↦
            let offset = add64 r.offset header in
            done (
              error_if (not (is_compr_method r.compression_method))
                (unknown_method r.compression_method)
              >> error_if
                  ((r.compression_method == compr_none) && not (r.size == r.uncompressed_size))
                  size_differs
              >> error_if (ltb index_offset (add64 offset r.size)) data_bleeds
              >> check_inline read_record file r
              >> check_contents variant version file header r)
      ]
