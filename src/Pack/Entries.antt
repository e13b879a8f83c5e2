-- ===== src/Pack/Entries.antt =====
-- The index that `pack` writes, read by the loops of src/index.rs.
use rust_u4pak.Common.{
  ℕ, ◌%◌, ◌^◌, ◌<◌, ◌≡◌, arith, List, [], ◌∷◌, ◌++◌, append_assoc, flatten, Bytes, length, All,
}
use rust_u4pak.Io.{done, Reader, ok, ◌>>=◌}
use rust_u4pak.Codec.{encode_u32}
use rust_u4pak.Codec.RoundTrip.{decode_uint-to_le_bytes}
use rust_u4pak.Text.{Text}
use rust_u4pak.Text.RoundTrip.{IsText}
use rust_u4pak.Paths.{Encoding, read_path, write_path}
use rust_u4pak.Paths.RoundTrip.{NoNul, read_path-write_path}
use rust_u4pak.Record.{Record}
use rust_u4pak.Index.Legacy.{standard, read_record_for, read_named_records, read_records_legacy}
use rust_u4pak.Results.{>>=-eq-done}
use rust_u4pak.Pack.Archive.{index_writer, index_entries, index_buffers}

-- A text without NUL whose written form is shorter than 2 GiB.
pub record IsName (encoding : Encoding) (name : Text) : Type 0 where
  pub text : IsText name
  pub plain : NoNul name
  pub short : (b : Bytes) → write_path name encoding ≡ done b → length b < 2 ^ 31

module _ (encoding : Encoding) (read : Bytes → Reader Record) (write : Record → Bytes)
    {P : Record → Type 0}
    (reads : (r : Record) (s : Bytes) → P r → read r.filename (write r ++ s) ≡ ok r s) where
  -- The entries are read back in order, with any bytes behind them.
  pub read_named_records-index_entries :
      (records : List Record) (s : Bytes) {buffers : List Bytes}
      → All (λ r. IsName encoding r.filename × P r) records
      → index_entries encoding write records ≡ done buffers
      → read_named_records encoding read (length records) (flatten buffers ++ s) ≡ ok records s
  unfolding read_named_records index_entries flatten
  read_named_records-index_entries [] s {buffers} h e =
      let none_left : buffers ≡ [] = cc in rw none_left
  read_named_records-index_entries (r ∷ records) s {buffers} (h, hs) e =
      let (path, written, e') = >>=-eq-done (write_path r.filename encoding) _ e in
      let (rest, later, e'') = >>=-eq-done (index_entries encoding write records) _ e' in
      let split : buffers ≡ (path ++ write r) ∷ rest = cc e'' in
      let name =
        read_path-write_path encoding r.filename (write r ++ (flatten rest ++ s)) h.0.text h.0.plain
          written (h.0.short path written) in
      rw split (
        simp append_assoc (
          rw (name, ◌>>=◌)
            (rw (reads r _ h.1, ◌>>=◌)
              (rw (read_named_records-index_entries records s hs later, ◌>>=◌)))))

-- What the version's reader and writer have to do with each other, for the records `P` allows.
pub record Layout (version : ℕ) (P : Record → Type 0) : Type 0 where
  pub read : Bytes → Reader Record
  pub write : Record → Bytes
  pub reader_is : read_record_for standard version ≡ done read
  pub writer_is : index_writer standard version ≡ done write
  pub reads : (r : Record) (s : Bytes) → P r → read r.filename (write r ++ s) ≡ ok r s

abbrev pub IsEntry : Encoding → (Record → Type 0) → Record → Type 0
IsEntry encoding P r = IsName encoding r.filename × P r

module _ {version : ℕ} {P : Record → Type 0} (layout : Layout version P) (encoding : Encoding) where
  -- The buffers of an index, in a layout of the standard variant for the version, hold the mount
  -- point, which read_path reads, and behind it the records, which read_records_legacy reads in
  -- their order, with any bytes behind them; for fewer than 2 ^ 32 records that the reader of
  -- the layout reads back as its writer wrote them, and a mount point and names of records that
  -- are texts without NUL whose written forms are shorter than 2 ^ 31 bytes.
  pub read_records_legacy-index_buffers :
      (mount : Text) (records : List Record) (s : Bytes) {buffers : List Bytes}
      → IsName encoding mount
      → length records < 2 ^ 32
      → All (IsEntry encoding P) records
      → index_buffers encoding layout.write mount records ≡ done buffers
      → (rest : Bytes) × (read_path encoding (flatten buffers ++ s) ≡ ok mount rest)
        × (read_records_legacy version standard encoding rest ≡ ok records s)
  unfolding index_buffers flatten read_records_legacy
  read_records_legacy-index_buffers mount records s {buffers} name few h e =
      let (path, written, e') = >>=-eq-done (write_path mount encoding) _ e in
      let (entries, later, e'') = >>=-eq-done (index_entries encoding layout.write records) _ e' in
      let split : buffers ≡ (path ++ encode_u32 (length records % 2 ^ 32)) ∷ entries = cc e'' in
      let count : length records % 2 ^ 32 ≡ length records = omega arith in
      let rest = encode_u32 (length records) ++ (flatten entries ++ s) in
      (
        rest,
        rw (split, count)
            (simp append_assoc (
              read_path-write_path encoding mount rest name.text name.plain written
                (name.short path written))),
        rw (layout.reader_is, ◌>>=◌)
            (rw (decode_uint-to_le_bytes 4 (length records) (flatten entries ++ s) few, ◌>>=◌)
              (read_named_records-index_entries encoding layout.read layout.write layout.reads
                records s h later)),
      )
