-- ===== src/Record/Layouts.antt =====
-- src/record.rs: the readers and writers of all the layouts, in the index and in front of the data.
use rust_u4pak.Common.{ℕ, ◌≡◌, ◌++◌, Bytes}
use rust_u4pak.Io.{Reader, ok}
use rust_u4pak.Record.Defs.{Record}
use rust_u4pak.Record.Read.{read_v1, read_v2, read_v3, read_conan_exiles}
use rust_u4pak.Record.Write.{
  write_v1, write_v2, write_v3, write_conan_exiles, write_v1_inline, write_v2_inline,
  write_v3_inline,
}
use rust_u4pak.Record.RoundTrip.{
  IsV1, IsV2, IsV3, read_v1-write_v1, read_v2-write_v2, read_v3-write_v3,
  read_conan_exiles-write_conan_exiles,
}
use rust_u4pak.Record.Inline.{
  at_zero, read_v1-write_v1_inline, read_v2-write_v2_inline, read_v3-write_v3_inline,
}

pub data RecordLayout : Type 0 where
  first second third conan : RecordLayout

abbrev pub reader : RecordLayout → Bytes → Reader Record
reader first = read_v1
reader second = read_v2
reader third = read_v3
reader conan = read_conan_exiles

-- In the index.
abbrev pub writer : RecordLayout → Record → Bytes
writer first = write_v1
writer second = write_v2
writer third = write_v3
writer conan = write_conan_exiles

-- A record in the range of the fields of a layout.
abbrev pub IsInRange : RecordLayout → Record → Bytes → Type 0
IsInRange first r hash = (time : ℕ) × IsV1 r hash time
IsInRange second r hash = IsV2 r hash
IsInRange third r hash = IsV3 r hash
IsInRange conan r hash = IsV3 r hash

-- The reader of each layout of the index, of versions 1, 2 and 3 and of Conan Exiles, reads back
-- every record in the range of its fields that the writer of the layout wrote, with any bytes
-- behind it.
pub read-write :
    (layout : RecordLayout) (r : Record) (hash s : Bytes)
    → IsInRange layout r hash
    → reader layout r.filename (writer layout r ++ s) ≡ ok r s
read-write first r hash s (time, h) = read_v1-write_v1 r s h
read-write second r hash s h = read_v2-write_v2 r s h
read-write third r hash s h = read_v3-write_v3 r s h
read-write conan r hash s h = read_conan_exiles-write_conan_exiles r s h

-- In front of the data. Headers of Conan Exiles are not written.
pub data InlineLayout : Type 0 where
  first second third : InlineLayout

abbrev pub layout_of : InlineLayout → RecordLayout
layout_of InlineLayout.first = RecordLayout.first
layout_of InlineLayout.second = RecordLayout.second
layout_of InlineLayout.third = RecordLayout.third

abbrev pub inline_form : InlineLayout → Record → Bytes
inline_form InlineLayout.first = write_v1_inline
inline_form InlineLayout.second = write_v2_inline
inline_form InlineLayout.third = write_v3_inline

-- The inline header of a record of version 1, 2 or 3 in the range of its fields is read as that
-- record at offset 0, with any bytes behind it.
pub read-inline_form :
    (layout : InlineLayout) (r : Record) (hash s : Bytes)
    → IsInRange (layout_of layout) r hash
    → reader (layout_of layout) r.filename (inline_form layout r ++ s) ≡ ok (at_zero r) s
read-inline_form InlineLayout.first r hash s (time, h) = read_v1-write_v1_inline r s h
read-inline_form InlineLayout.second r hash s h = read_v2-write_v2_inline r s h
read-inline_form InlineLayout.third r hash s h = read_v3-write_v3_inline r s h
