-- ===== src/Pack/Layouts.antt =====
-- The three versions that `pack` writes, as layouts: the reader and the writer of src/record.rs
-- for the version, and the records they agree on.
use rust_u4pak.Common.{ℕ, refl, Bytes}
use rust_u4pak.Record.{Record}
use rust_u4pak.Record.Read.{read_v1, read_v2, read_v3}
use rust_u4pak.Record.Write.{write_v1, write_v2, write_v3}
use rust_u4pak.Record.RoundTrip.{
  IsV1, IsV2, IsV3, read_v1-write_v1, read_v2-write_v2, read_v3-write_v3,
}
use rust_u4pak.Index.Legacy.{read_record_for}
use rust_u4pak.Pack.Archive.{index_writer}
use rust_u4pak.Pack.Entries.{Layout}

abbrev pub FitsV1 : Record → Type 0
FitsV1 r = (hash : Bytes) × (time : ℕ) × IsV1 r hash time

abbrev pub FitsV2 : Record → Type 0
FitsV2 r = (hash : Bytes) × IsV2 r hash

abbrev pub FitsV3 : Record → Type 0
FitsV3 r = (hash : Bytes) × IsV3 r hash

unfoldable pub layout_v1 : Layout 1 FitsV1
unfolding index_writer read_record_for
layout_v1 = record {
  read = read_v1;
  write = write_v1;
  reader_is = refl;
  writer_is = refl;
  reads = λ r s (hash, time, h). read_v1-write_v1 r s h;
}

unfoldable pub layout_v2 : Layout 2 FitsV2
unfolding index_writer read_record_for
layout_v2 = record {
  read = read_v2;
  write = write_v2;
  reader_is = refl;
  writer_is = refl;
  reads = λ r s (hash, h). read_v2-write_v2 r s h;
}

unfoldable pub layout_v3 : Layout 3 FitsV3
unfolding index_writer read_record_for
layout_v3 = record {
  read = read_v3;
  write = write_v3;
  reader_is = refl;
  writer_is = refl;
  reads = λ r s (hash, h). read_v3-write_v3 r s h;
}
