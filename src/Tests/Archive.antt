-- ===== src/Tests/Archive.antt =====
-- Concrete inputs for the theorems on opening a file that src/pack.rs made.
use rust_u4pak.Common.{
  ℕ, ◌<◌, ◌^◌, ◌≡◌, refl, arith, false, none, List, [], ◌∷◌, ◌++◌, inr, Bytes, replicate, length,
}
use rust_u4pak.Io.{Result, done, ok}
use rust_u4pak.Codec.{to_le_bytes}
use rust_u4pak.Pak.{Pak}
use rust_u4pak.Pack.Archive.{
  finish_archive, footer_bytes, index_buffers, index_entries, index_writer,
}
use rust_u4pak.Pack.Layouts.{FitsV3}
use rust_u4pak.Pack.Reopen.{Opens, IsWritten, IsQuiet, stored}
use rust_u4pak.Io.{from_here, read_exact}
use rust_u4pak.Codec.{encode_u32, encode_counted, decode_uint, from_le_bytes}
use rust_u4pak.Pak.Open.{from_reader}
use rust_u4pak.Common.{foldl}
use rust_u4pak.Common.{flatten}
use rust_u4pak.Pak.Decode.{decode_footer}
use rust_u4pak.Pack.Footers.{footer_at}
use rust_u4pak.Index.Legacy.{read_records_legacy}
use rust_u4pak.Record.Fields.{IsBlock, decode_block-encode_block}
use rust_u4pak.Record.Read.{decode_block}
use rust_u4pak.Codec.{decode_counted}
use rust_u4pak.Codec.RoundTrip.{decode_counted-encode_counted}
use rust_u4pak.Text.{as_bytes}
use rust_u4pak.Paths.{read_path}
use rust_u4pak.Record.Write.{write_v3, encode_blocks, encode_block}
use rust_u4pak.Paths.{utf8, write_path}
use rust_u4pak.Record.{CompressionBlock, compr_zlib}
use rust_u4pak.Index.Legacy.{standard}
use rust_u4pak.Pak.{Options}
use rust_u4pak.Pack.{PackOptions}
use rust_u4pak.Pack.Archive.{Written}
use rust_u4pak.Pack.Entries.{IsName, read_records_legacy-index_buffers}
use rust_u4pak.Pack.Layouts.{layout_v3}
use rust_u4pak.Pack.Footers.{decode_footer-footer_bytes}
use rust_u4pak.Pack.Reopen.{from_reader-finish_archive}
use rust_u4pak.Tests.{
  test_sha, test_cipher, test_hash, file_name, compressed, compressed-IsV3, file_name-IsText,
  file_name-NoNul, file_name_bytes, write_file_name,
}

-- An archive with one compressed file, of 100 + 73 + 20 bytes of data.
abbrev pub test_options : PackOptions
test_options = record {
  variant = standard;
  version = 3;
  mount_point = none;
  compression_method = compr_zlib;
  compression_block_size = 65536;
  compression_min_size = 0;
  compression_level = 6;
  encoding = utf8;
}

abbrev test_open_options : Options
test_open_options = record {
  variant = standard;
  ignore_magic = false;
  encoding = utf8;
  force_version = none;
  encryption_key = none;
}

abbrev test_written : Written
test_written = record { out = replicate 193 1; data_size = 193; records = compressed ∷ [] }

test-Opens : Opens test_options test_open_options
test-Opens = record {
  old = omega arith;
  packs_standard = refl;
  is_standard = refl;
  same_encoding = refl;
  unforced = refl;
}

done_length :
    (a : Bytes) {b : Bytes}
    → ◌≡◌ {A = Result Bytes} (done a) (done b)
    → length a < 2 ^ 31
    → length b < 2 ^ 31
done_length a e h = ground arith

file_name-IsName : IsName utf8 file_name
file_name-IsName = record {
  text = file_name-IsText;
  plain = file_name-NoNul;
  short = λ b e. done_length file_name_bytes (rw write_file_name at e) (omega arith);
}

write_empty : write_path [] utf8 ≡ done (1 ∷ 0 ∷ 0 ∷ 0 ∷ 0 ∷ [])
unfolding write_path as_bytes to_le_bytes
write_empty = refl

empty-IsName : IsName utf8 []
empty-IsName = record {
  text = tt;
  plain = tt;
  short = λ b e. done_length (1 ∷ 0 ∷ 0 ∷ 0 ∷ 0 ∷ []) (rw write_empty at e) (omega arith);
}

test_written-IsWritten : IsWritten utf8 FitsV3 test_written
test_written-IsWritten = record {
  size_is = refl;
  few = omega arith;
  entries = ((file_name-IsName, (test_hash, compressed-IsV3)), tt);
}

abbrev test_buffers : List Bytes
test_buffers =
    ((1 ∷ 0 ∷ 0 ∷ 0 ∷ 0 ∷ []) ++ encode_u32 1) ∷ (file_name_bytes ++ write_v3 compressed) ∷ []

abbrev test_index_hash : Bytes
test_index_hash = test_sha.finish (foldl test_sha.update test_sha.new test_buffers)

abbrev test_file : Bytes
test_file = test_written.out ++ (flatten test_buffers ++ footer_bytes 3 193 91 test_index_hash)

abbrev test_pak : Pak
test_pak = record {
  variant = standard;
  version = 3;
  index_offset = 193;
  index_size = 91;
  index_sha1 = test_index_hash;
  index = record { mount_point = none; records = compressed ∷ [] };
}

test_finished : finish_archive test_sha test_options test_written ≡ done (test_file, test_pak)
unfolding finish_archive footer_bytes index_buffers index_entries index_writer write_v3 write_path
    as_bytes to_le_bytes flatten encode_blocks encode_counted encode_block
test_finished = refl

test_file_fits : length test_file < 2 ^ 63
unfolding footer_bytes write_v3 to_le_bytes flatten encode_blocks encode_counted encode_block
test_file_fits = omega arith

test_file-IsQuiet : IsQuiet test_file
unfolding footer_bytes write_v3 to_le_bytes flatten from_here decode_uint read_exact from_le_bytes
    encode_blocks encode_counted encode_block
test_file-IsQuiet = (
  inr (0x01010101, 0x01010101, _, refl, refl),
  inr (0x01010101, 0x01010101, _, refl, refl),
  inr (_, _, _, refl, refl),
)

from_reader-finish_archive_example :
    (q : ℕ) × (from_reader test_cipher test_file test_open_options 0
      ≡ ok (stored test_options test_open_options test_pak) q)
from_reader-finish_archive_example =
    from_reader-finish_archive test_sha test_cipher test_options test_open_options test-Opens
      layout_v3 empty-IsName test_written 0 test_written-IsWritten test_finished test_file_fits
      test_file-IsQuiet

-- The footer of that archive, and its index.
decode_footer-footer_bytes_example :
    decode_footer (replicate 284 1 ++ footer_bytes 3 193 91 test_hash) 3 0
    ≡ ok (footer_at 284 3 193 91 test_hash) 328
decode_footer-footer_bytes_example =
    decode_footer-footer_bytes 3 193 91 test_hash refl (omega arith) (omega arith) (omega arith)
      (replicate 284 1) 0 (omega arith)

test_index : index_buffers utf8 write_v3 [] (compressed ∷ []) ≡ done test_buffers
unfolding index_buffers index_entries write_path as_bytes to_le_bytes
test_index = refl

read_records_legacy-index_buffers_example :
    (rest : Bytes) × (read_path utf8 (flatten test_buffers ++ 1 ∷ []) ≡ ok [] rest)
    × (read_records_legacy 3 standard utf8 rest ≡ ok (compressed ∷ []) (1 ∷ []))
unfolding layout_v3 write_v3
read_records_legacy-index_buffers_example =
    read_records_legacy-index_buffers layout_v3 utf8 [] (compressed ∷ []) (1 ∷ []) empty-IsName
      (omega arith) ((file_name-IsName, (test_hash, compressed-IsV3)), tt) test_index

blocks_read :
    (b : CompressionBlock) (s : Bytes) → IsBlock b → decode_block (encode_block b ++ s) ≡ ok b s
blocks_read b s h = decode_block-encode_block b s h

decode_counted-encode_counted_example :
    decode_counted decode_block
      (encode_counted encode_block (record { start_offset = 1; end_offset = 2 } ∷ []) ++ 1 ∷ [])
    ≡ ok (record { start_offset = 1; end_offset = 2 } ∷ []) (1 ∷ [])
decode_counted-encode_counted_example =
    decode_counted-encode_counted decode_block encode_block blocks_read
      (record { start_offset = 1; end_offset = 2 } ∷ []) (1 ∷ []) (omega arith)
      ((omega arith, omega arith), tt)
