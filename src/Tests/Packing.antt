-- ===== src/Tests/Packing.antt =====
-- Concrete inputs for the theorems on src/pack.rs and src/unpack.rs.
use mathlib.Core.List.{Perm}
use mathlib.Core.List.Perm
use rust_u4pak.Common.{
  zero, suc, ◌<◌, ◌^◌, ◌≡◌, refl, ap, arith, Bool, true, false, ◌&&◌, Option, none, some, inl, List,
  [], ◌∷◌, ◌++◌, ◌==◌, if◌then◌else◌, Bool-cases, inr, Bytes, replicate, length, map,
}
use rust_u4pak.Io.{done}
use rust_u4pak.Crypto.{Zlib}
use rust_u4pak.Record.{Record}
use rust_u4pak.Index.Legacy.{standard}
use rust_u4pak.Pak.{header_size}
use rust_u4pak.Pack.{PackPath, PackOptions, SourceFile, Work}
use rust_u4pak.Pack.Worker.{sent, process_work}
use rust_u4pak.Pack.Sent.{IsSent}
use rust_u4pak.Pack.Works.{Allows, process_work-IsSent}
use rust_u4pak.Common.{foldl, flatten}
use rust_u4pak.Io.{read_exact}
use rust_u4pak.Codec.{encode_u32, encode_counted, to_le_bytes}
use rust_u4pak.Text.{as_bytes}
use rust_u4pak.Paths.{write_path}
use rust_u4pak.Record.{move_to}
use rust_u4pak.Record.Write.{write_v3, write_v3_inline, encode_blocks, encode_block}
use rust_u4pak.Pak.{Pak}
use rust_u4pak.Io.{ok}
use rust_u4pak.PakPath.{parse_pak_path}
use rust_u4pak.Pack.{block_loop, compress_block, write_uncompressed}
use rust_u4pak.Pack.Worker.{no_blocks}
use rust_u4pak.Pack.Chunks.{chunks, block_loop-chunks, write_uncompressed_lem}
use rust_u4pak.Unpack.{unpack_record}
use rust_u4pak.Unpack.Whole.{UnpackOptions, default_options, Unpacked, unpack}
use rust_u4pak.Unpack.Archive.{expected, unpack-pack}
use rust_u4pak.Unpack.Records.{IsPacked, unpack_record-IsPacked}
use rust_u4pak.Pack.Worker.{base_header_size, pack_opened, pack_file, pack_content, pack_blocks}
use rust_u4pak.Pack.Archive.{
  finish_archive, footer_bytes, index_buffers, index_entries, index_writer, pack,
}
use rust_u4pak.Pack.Received.{Item, sent_item, IsItem}
use rust_u4pak.Tests.{test_sha, test_cipher, file_name, file_name_bytes}
use rust_u4pak.Tests.Archive.{test_options}

-- A stand-in for zlib: zeros are stored by their number.
abbrev all_zero : Bytes → Bool
all_zero [] = true
all_zero (x ∷ xs) = (x == 0) && all_zero xs

pub all_zero→eq : (xs : Bytes) → all_zero xs ≡ true → replicate (length xs) 0 ≡ xs
all_zero→eq [] h = refl
all_zero→eq (x ∷ xs) h = ground (arith, all_zero→eq xs)

abbrev store : Bytes → Bytes
store b = if all_zero b then 0 ∷ length b ∷ [] else 1 ∷ b

abbrev restore : Bytes → Option Bytes
restore (zero ∷ n ∷ []) = some (replicate n 0)
restore (suc k ∷ b) = some b
restore _ = none

abbrev pub test_zlib : Zlib
test_zlib = record {
  compress = λ level b. store b;
  decompress = restore;
  decompress-compress = λ level b. elim (Bool-cases (all_zero b)) [
    | inl zeros ↦ rw zeros (ap some (all_zero→eq b zeros))
    | inr other ↦ rw other
  ];
  length-compress = λ level b. elim (Bool-cases (all_zero b)) [
    | inl zeros ↦ rw zeros (omega arith)
    | inr other ↦ rw other (omega arith)
  ];
}

abbrev test_path : PackPath
test_path = record {
  compression_method = 1;
  compression_block_size = some 100;
  compression_level = none;
  filename = file_name;
  rename = none;
}

abbrev test_file_source : SourceFile
test_file_source = record { content = replicate 150 0; created = done 0 }

abbrev test_work : Work
test_work = record {
  filename = file_name;
  opened = done test_file_source;
  path = test_path;
  compression_method = 1;
}

abbrev pub block_options : PackOptions
block_options = record test_options { compression_min_size = 1 }

test_work-Allows : Allows block_options test_work
test_work-Allows = record {
  written = omega arith;
  method = inr refl;
  min_size = omega arith;
  block_size = omega arith;
  block_size_lt = omega arith;
}

process_work-IsSent_example :
    (r : Record) × (out : Bytes) × (process_work test_sha test_zlib block_options 53 test_work
      ≡ sent r out)
    × (r.filename ≡ file_name)
    × IsSent test_sha test_zlib 3 r out (replicate 150 0)
unfolding base_header_size
process_work-IsSent_example =
    process_work-IsSent test_sha test_zlib block_options test_work 53 refl test_work-Allows
      test_file_source (omega arith) refl 0 (λ one. (refl, omega arith))

-- The result for that file: two streams of two bytes each behind a header of 89 bytes.
abbrev pub zeros_body : Bytes
zeros_body = 0 ∷ 100 ∷ 0 ∷ 50 ∷ []

abbrev pub zeros_record : Record
zeros_record = record {
  filename = file_name;
  offset = 0;
  size = 4;
  uncompressed_size = 150;
  compression_method = 1;
  timestamp = none;
  sha1 = some (zeros_body ++ replicate 16 0);
  compression_blocks = some (
      record { start_offset = 89; end_offset = 91 }
      ∷ record { start_offset = 91; end_offset = 93 }
      ∷ []);
  encrypted = false;
  compression_block_size = 100;
}

abbrev pub zeros_item : Item
zeros_item = record {
  packed = zeros_record;
  out = replicate 89 0 ++ zeros_body;
  content = replicate 150 0;
}

process_work_run :
    process_work test_sha test_zlib block_options 53 test_work
    ≡ sent zeros_record (replicate 89 0 ++ zeros_body)
unfolding process_work pack_opened pack_file pack_content pack_blocks block_loop read_exact
process_work_run = refl

pub zeros_item-IsPacked : IsPacked test_zlib 89 zeros_record (replicate 150 0) zeros_body
unfolding flatten
zeros_item-IsPacked = record {
  at_start = refl;
  plain = refl;
  size_is = refl;
  holds = inr (inr (6, replicate 100 0 ∷ replicate 50 0 ∷ [], refl, refl, refl, refl));
}

pub zeros_item-IsItem : IsItem test_sha test_zlib 3 zeros_item
unfolding header_size move_to
zeros_item-IsItem = record {
  header = 89;
  body = zeros_body;
  out_is = refl;
  packed = zeros_item-IsPacked;
  recorded = record {
    uncompressed = refl;
    small = omega arith;
    plain_blocks = λ h. absurd (omega (arith, h));
    checksum = refl;
    stamped = (λ h. absurd (omega (arith, h)), λ h. refl);
    early = λ h. absurd (omega (arith, h));
    late = λ h. (omega arith, λ k. cc);
  };
  hashed = refl;
  few = omega arith;
  header_is = λ offset. refl;
}

abbrev pub zeros_buffers : List Bytes
zeros_buffers =
    ((1 ∷ 0 ∷ 0 ∷ 0 ∷ 0 ∷ []) ++ encode_u32 1) ∷ (file_name_bytes ++ write_v3 zeros_record) ∷ []

abbrev pub zeros_hash : Bytes
zeros_hash = test_sha.finish (foldl test_sha.update test_sha.new zeros_buffers)

abbrev pub zeros_archive : Bytes
zeros_archive =
    (write_v3_inline zeros_record ++ zeros_body)
    ++ (flatten zeros_buffers ++ footer_bytes 3 93 107 zeros_hash)

abbrev pub zeros_pak : Pak
zeros_pak = record {
  variant = standard;
  version = 3;
  index_offset = 93;
  index_size = 107;
  index_sha1 = zeros_hash;
  index = record { mount_point = none; records = zeros_record ∷ [] };
}

pub pack_run :
    pack test_sha block_options (map sent_item (zeros_item ∷ [])) ≡ done (zeros_archive, zeros_pak)
unfolding pack finish_archive footer_bytes index_buffers index_entries index_writer write_v3
    write_path as_bytes to_le_bytes flatten encode_blocks encode_counted encode_block
    write_v3_inline
pack_run = refl

pub zeros_archive_fits : length zeros_archive < 2 ^ 63
unfolding footer_bytes write_v3 write_v3_inline to_le_bytes flatten encode_blocks encode_counted
    encode_block
zeros_archive_fits = omega arith

write_uncompressed_lem_example :
    write_uncompressed test_sha 53 2 (1 ∷ 2 ∷ 3 ∷ [])
    ≡ ok (replicate 53 0 ++ (1 ∷ 2 ∷ []), test_sha.finish (1 ∷ 2 ∷ [])) (3 ∷ [])
write_uncompressed_lem_example = write_uncompressed_lem test_sha 53 (1 ∷ 2 ∷ []) (3 ∷ [])

block_loop-chunks_example :
    block_loop test_sha test_zlib 6 4 2 3 (no_blocks test_sha test_zlib 57) (0 ∷ 0 ∷ 0 ∷ 7 ∷ [])
    ≡ ok
        (foldl
          (compress_block test_sha test_zlib 6)
          (no_blocks test_sha test_zlib 57)
          (chunks 4 2 (0 ∷ 0 ∷ 0 ∷ [])))
        (7 ∷ [])
block_loop-chunks_example =
    block_loop-chunks test_sha test_zlib 6 2 (omega arith) 4 3 (no_blocks test_sha test_zlib 57)
      (0 ∷ 0 ∷ 0 ∷ []) (7 ∷ []) refl (omega arith)

unpack_record-IsPacked_example :
    unpack_record test_zlib test_cipher 3 standard none
      ((5 ∷ []) ++ (replicate 89 1 ++ (zeros_body ++ (6 ∷ []))))
      (move_to 3 1 zeros_record)
    ≡ done (parse_pak_path file_name, replicate 150 0)
unfolding header_size move_to
unpack_record-IsPacked_example =
    unpack_record-IsPacked test_zlib test_cipher 3 none (5 ∷ []) (replicate 89 1) (6 ∷ [])
      zeros_record (omega arith) zeros_item-IsPacked refl (omega arith)

abbrev by_compression : UnpackOptions
by_compression = record default_options { dirname_from_compression = true }

unpack-pack_example :
    (files : List Unpacked) × (unpack test_zlib test_cipher zeros_pak zeros_archive
        ((b'o' ∷ []) ∷ [])
        by_compression
        (λ rs. rs)
      ≡ done files)
    × Perm files (map (expected ((b'o' ∷ []) ∷ []) by_compression) (zeros_item ∷ []))
unpack-pack_example =
    unpack-pack test_sha test_zlib test_cipher block_options by_compression (zeros_item ∷ []) refl
      (omega arith) (zeros_item-IsItem, tt) (omega arith) pack_run zeros_archive_fits refl
      ((b'o' ∷ []) ∷ []) (λ rs. rs) λ records. Perm.rfl
