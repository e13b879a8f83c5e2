-- ===== src/Tests.antt =====
-- Concrete inputs for the theorems, and runs of the code on them.
mod Archive
mod Packing
mod Mounting
mod Checking
mod Commands
mod Listing
use rust_u4pak.Common.{
  ℕ, zero, suc, ◌≤◌, ◌<◌, ap, length-replicate, ◌^◌, ◌≡◌, refl, arith, true, false, none, some, All,
  List, [], ◌∷◌, ◌++◌, inr, append_assoc, append-nil, Bytes, take, replicate, length, length-append,
}
use rust_u4pak.Io.{Result, done, ok}
use rust_u4pak.Crypto.{Sha1Hasher}
use rust_u4pak.Decrypt.{Cipher}
use rust_u4pak.Text.{Text}
use rust_u4pak.Codec.{to_le_bytes}
use rust_u4pak.Pak.{Pak}
use rust_u4pak.Pack.Archive.{
  finish_archive, footer_bytes, index_buffers, index_entries, index_writer,
}
use rust_u4pak.Pack.Layouts.{FitsV3}
use rust_u4pak.Pack.Reopen.{Opens, IsWritten, IsQuiet, stored}
use rust_u4pak.Io.{from_here, read_exact}
use rust_u4pak.Codec.{encode_u32, encode_counted, decode_uint, from_le_bytes}
use rust_u4pak.Pak.Open.{from_reader}
use rust_u4pak.Common.{foldl}
use rust_u4pak.Common.{flatten}
use rust_u4pak.Pak.Decode.{decode_footer}
use rust_u4pak.Pack.Footers.{footer_at}
use rust_u4pak.Index.Legacy.{read_records_legacy}
use rust_u4pak.Record.Fields.{IsBlock, decode_block-encode_block}
use rust_u4pak.Record.Read.{decode_block}
use rust_u4pak.Codec.{decode_counted}
use rust_u4pak.Codec.RoundTrip.{decode_counted-encode_counted}
use rust_u4pak.Text.{as_bytes, from_utf8}
use rust_u4pak.Text.RoundTrip.{IsText}
use rust_u4pak.PakPath.{parse_pak_path, make_pak_path}
use rust_u4pak.PakPath.Laws.{IsComponent, parse_pak_path-IsComponent}
use rust_u4pak.Paths.{read_path}
use rust_u4pak.Paths.RoundTrip.{NoNul}
use rust_u4pak.Record.{same_metadata}
use rust_u4pak.Record.Layouts.{first, InlineLayout, read-write, read-inline_form}
use rust_u4pak.Record.Inline.{at_zero}
use rust_u4pak.Record.Read.{read_v1, read_v2, read_v3, read_conan_exiles}
use rust_u4pak.Record.Write.{
  write_v1, write_v2, write_v3, write_conan_exiles, write_v1_inline, write_v2_inline,
  write_v3_inline, encode_blocks, encode_block,
}
use rust_u4pak.Pak.{header_size}
use rust_u4pak.Word64.{align}
use rust_u4pak.Filter.{
  Filter, filter, entry, empty, contains, from_paths, contains_iter, visit_iter,
}
use rust_u4pak.Filter.Laws.{any_prefix}
use rust_u4pak.Filter.Visits.{Marked, node_at}
use rust_u4pak.Text.RoundTrip.{from_utf8-as_bytes}
use rust_u4pak.PakPath.Laws.{parse_pak_path-make_pak_path}
use rust_u4pak.Paths.{utf8, write_path}
use rust_u4pak.Paths.RoundTrip.{read_path-write_path}
use rust_u4pak.Record.{Record, CompressionBlock, compr_none, compr_zlib}
use rust_u4pak.Record.RoundTrip.{
  IsV1, IsV2, IsV3, read_v1-write_v1, read_v2-write_v2, read_v3-write_v3,
  read_conan_exiles-write_conan_exiles,
}
use rust_u4pak.Record.Inline.{
  same_metadata_of_offset, read_v1-write_v1_inline, read_v2-write_v2_inline,
  read_v3-write_v3_inline,
}
use rust_u4pak.Index.Legacy.{standard}
use rust_u4pak.Pak.{Options}
use rust_u4pak.Pak.Sizes.{header_size-write_inline}
use rust_u4pak.Pack.{PackOptions}
use rust_u4pak.Pack.Archive.{Written}
use rust_u4pak.Pack.Entries.{IsName, read_records_legacy-index_buffers}
use rust_u4pak.Pack.Layouts.{layout_v3}
use rust_u4pak.Pack.Footers.{decode_footer-footer_bytes}
use rust_u4pak.Pack.Reopen.{from_reader-finish_archive}
use rust_u4pak.Word64.Align.{align_sixteen}
use rust_u4pak.Filter.Laws.{contains-from_paths}
use rust_u4pak.Filter.Visits.{visit_iter-contains_iter, node_at-visit_iter}

length-take_le : (n : ℕ) (xs : Bytes) → n ≤ length xs → length (take n xs) ≡ n
length-take_le zero xs h = refl
length-take_le (suc n) [] h = absurd (omega arith)
length-take_le (suc n) (x ∷ xs) h = ap suc (length-take_le n xs (omega arith))

-- A stand-in for the digest: the first 20 bytes, with zeros behind.
length-take_padded : (n : ℕ) (h : Bytes) → length (take n (h ++ replicate n 0)) ≡ n
length-take_padded n h =
    length-take_le n (h ++ replicate n 0)
      (omega (arith, length-append h (replicate n 0), length-replicate {A = ℕ} n 0))

abbrev test_sha : Sha1Hasher
test_sha = record {
  State = Bytes;
  new = [];
  update = λ h b. h ++ b;
  finish = λ h. take 20 (h ++ replicate 20 0);
  update_nil = λ h. append-nil h;
  update-update = λ h a b. append_assoc h a b;
  length-finish = λ h. length-take_padded 20 h;
}

abbrev test_cipher : Cipher
test_cipher key block = block

abbrev test_hash : Bytes
test_hash = replicate 20 7

abbrev file_name : Text
file_name = b'a' ∷ b'/' ∷ 0xE9 ∷ []

abbrev compressed : Record
compressed = record {
  filename = file_name;
  offset = 100;
  size = 20;
  uncompressed_size = 60;
  compression_method = compr_zlib;
  timestamp = none;
  sha1 = some test_hash;
  compression_blocks = some (record { start_offset = 173; end_offset = 193 } ∷ []);
  encrypted = false;
  compression_block_size = 60;
}

abbrev plain_v2 : Record
plain_v2 = record compressed {
  compression_method = compr_none;
  compression_blocks = none;
  compression_block_size = 0;
}

abbrev plain_v1 : Record
plain_v1 = record plain_v2 { timestamp = some 1600000000 }

compressed-IsV3 : IsV3 compressed test_hash
compressed-IsV3 = record {
  head = record {
    size_lt = omega arith;
    uncompressed_lt = omega arith;
    method_lt = omega arith;
    sha1_is = refl;
    hash_length = refl;
  };
  offset_lt = omega arith;
  tail = record {
    blocks_ok = (refl, omega arith, ((omega arith, omega arith), tt));
    block_size_lt = omega arith;
    no_timestamp = refl;
  };
}

plain_v2-IsV2 : IsV2 plain_v2 test_hash
plain_v2-IsV2 = record {
  head = record {
    size_lt = omega arith;
    uncompressed_lt = omega arith;
    method_lt = omega arith;
    sha1_is = refl;
    hash_length = refl;
  };
  offset_lt = omega arith;
  no_timestamp = refl;
  blocks_none = refl;
  plain = refl;
  block_size_zero = refl;
}

plain_v1-IsV1 : IsV1 plain_v1 test_hash 1600000000
plain_v1-IsV1 = record {
  head = record {
    size_lt = omega arith;
    uncompressed_lt = omega arith;
    method_lt = omega arith;
    sha1_is = refl;
    hash_length = refl;
  };
  offset_lt = omega arith;
  time_lt = omega arith;
  time_is = refl;
  blocks_none = refl;
  plain = refl;
  block_size_zero = refl;
}

file_name-IsText : IsText file_name
file_name-IsText = (refl, (refl, (refl, tt)))

file_name-NoNul : NoNul file_name
file_name-NoNul = (omega arith, (omega arith, (omega arith, tt)))

abbrev file_name_bytes : Bytes
file_name_bytes = 5 ∷ 0 ∷ 0 ∷ 0 ∷ b'a' ∷ b'/' ∷ 0xC3 ∷ 0xA9 ∷ 0 ∷ []

write_file_name : write_path file_name utf8 ≡ done file_name_bytes
unfolding write_path as_bytes to_le_bytes
write_file_name = refl

read-write_example : read_v1 file_name (write_v1 plain_v1 ++ 1 ∷ []) ≡ ok plain_v1 (1 ∷ [])
read-write_example = read-write first plain_v1 _ (1 ∷ []) (_, plain_v1-IsV1)

read-inline_form_example :
    read_v3 file_name (write_v3_inline compressed ++ 1 ∷ []) ≡ ok (at_zero compressed) (1 ∷ [])
read-inline_form_example = read-inline_form InlineLayout.third compressed _ (1 ∷ []) compressed-IsV3

read_path-write_path_example : read_path utf8 (file_name_bytes ++ 1 ∷ []) ≡ ok file_name (1 ∷ [])
read_path-write_path_example =
    read_path-write_path utf8 file_name (1 ∷ []) file_name-IsText file_name-NoNul write_file_name
      (omega arith)

abbrev components : List Text
components = (b'a' ∷ []) ∷ (b'b' ∷ b'c' ∷ []) ∷ []

parse_pak_path-make_pak_path_example : parse_pak_path (make_pak_path components) ≡ components
parse_pak_path-make_pak_path_example =
    parse_pak_path-make_pak_path components ((refl, (refl, tt)), ((refl, (refl, (refl, tt))), tt))

parse_pak_path-IsComponent_example :
    All IsComponent (parse_pak_path (b'/' ∷ b'a' ∷ b'/' ∷ b'/' ∷ b'b' ∷ []))
parse_pak_path-IsComponent_example =
    parse_pak_path-IsComponent (b'/' ∷ b'a' ∷ b'/' ∷ b'/' ∷ b'b' ∷ [])

header_size-write_inline_example :
    (header_size 1 standard compressed ≡ done (length (write_v1_inline compressed)))
    × (header_size 2 standard compressed ≡ done (length (write_v2_inline compressed)))
    × (header_size 3 standard compressed ≡ done (length (write_v3_inline compressed)))
header_size-write_inline_example = header_size-write_inline compressed refl (omega arith)

align_sixteen_example : align 33 16 ≡ some 48
align_sixteen_example = align_sixteen 33 (omega arith)

contains-from_paths_example :
    contains (b'a' ∷ b'/' ∷ b'b' ∷ []) (from_paths ((b'/' ∷ b'a' ∷ []) ∷ []))
    ≡ any_prefix ((b'/' ∷ b'a' ∷ []) ∷ []) (parse_pak_path (b'a' ∷ b'/' ∷ b'b' ∷ []))
contains-from_paths_example =
    contains-from_paths ((b'/' ∷ b'a' ∷ []) ∷ []) (b'a' ∷ b'/' ∷ b'b' ∷ [])

abbrev small_tree : Filter
small_tree = filter (entry (b'a' ∷ []) (filter empty true false) empty) false false

node_at-visit_iter_example :
    Marked
      ((b'a' ∷ []) ∷ [])
      components
      (node_at ((b'a' ∷ []) ∷ []) small_tree)
      (node_at ((b'a' ∷ []) ∷ []) (visit_iter components small_tree).0)
node_at-visit_iter_example = node_at-visit_iter ((b'a' ∷ []) ∷ []) components small_tree
