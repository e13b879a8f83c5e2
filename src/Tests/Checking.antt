-- ===== src/Tests/Checking.antt =====
-- Concrete inputs for the theorems on src/check.rs.
use rust_u4pak.Common.{
  ◌≡◌, ◌≢◌, ◌↔◌, refl, inl, arith, false, none, some, [], ◌∷◌, ◌++◌, bytes_eq, replicate,
}
use rust_u4pak.Io.{done, failed, checksum_mismatch}
use rust_u4pak.Record.{same_metadata, blocks_eq}
use rust_u4pak.Record.Read.{read_v3}
use rust_u4pak.Index.Legacy.{standard}
use rust_u4pak.Common.Texts.{codes}
use rust_u4pak.PakPath.{is_empty}
use rust_u4pak.Pak.{Pak}
use rust_u4pak.Check.Defs.{check_data, record_reader}
use rust_u4pak.Check.Hashes.{check_data_lem}
use rust_u4pak.Check.Whole.{CheckOptions, check, all_errors}
use rust_u4pak.Check.Distinct.{AreDistinct}
use rust_u4pak.Check.Accepted.{check_lem}
use rust_u4pak.Check.Archive.{check-pack}
use rust_u4pak.Tables.{digits}
use rust_u4pak.Check.Diff.{metadata_diff, debug_elements, metadata_diff-same_metadata}
use rust_u4pak.Tests.{test_sha}
use rust_u4pak.Tests.Packing.{
  test_zlib, zeros_record, zeros_archive, zeros_pak, zeros_hash, zeros_item, zeros_item-IsItem,
  block_options, pack_run, zeros_archive_fits,
}

-- The digest of the stand-in are the first 20 bytes.
check_data_lem_example :
    check_data test_sha false (7 ∷ 1 ∷ 2 ∷ 9 ∷ []) 1 2 ((1 ∷ 2 ∷ []) ++ replicate 18 0) ≡ done tt
unfolding bytes_eq
check_data_lem_example =
    check_data_lem test_sha false (7 ∷ []) (1 ∷ 2 ∷ []) (9 ∷ []) ((1 ∷ 2 ∷ []) ++ replicate 18 0)
      (omega arith)

check_data_wrong :
    check_data test_sha false (7 ∷ 1 ∷ 2 ∷ 9 ∷ []) 1 3 ((1 ∷ 2 ∷ []) ++ replicate 18 0)
    ≡ failed checksum_mismatch
unfolding bytes_eq
check_data_wrong =
    check_data_lem test_sha false (7 ∷ []) (1 ∷ 2 ∷ 9 ∷ []) [] ((1 ∷ 2 ∷ []) ++ replicate 18 0)
      (omega arith)

abbrev check_options : CheckOptions
check_options = record {
  variant = standard;
  abort_on_error = false;
  ignore_null_checksums = false;
  paths = none;
}

check_lem_example :
    (check test_sha check_options zeros_pak zeros_archive ((zeros_record ∷ []) ∷ [] ∷ []) ≡ done 0)
    ↔ ((check_data test_sha false zeros_archive 93 107 zeros_hash ≡ done tt)
        × AreDistinct (zeros_record ∷ [])
        × (all_errors test_sha check_options zeros_pak zeros_archive read_v3
              ((zeros_record ∷ []) ∷ [] ∷ [])
            ≡ done [])
        × Unit {0})
unfolding record_reader
check_lem_example =
    check_lem test_sha check_options zeros_pak zeros_archive read_v3 ((zeros_record ∷ []) ∷ [] ∷ [])
      refl

-- Of two records of one name the second is reported.
abbrev twice_named : Pak
twice_named = record zeros_pak {
  index = record zeros_pak.index { records = zeros_record ∷ zeros_record ∷ [] };
}

twice_named_fails : check test_sha check_options twice_named zeros_archive [] ≢ done 0
unfolding record_reader
twice_named_fails accepted =
    let (index, distinct, sent, found) =
      (check_lem test_sha check_options twice_named zeros_archive read_v3 [] refl).0 accepted in
    distinct.0.0 refl

-- One thread gets the record twice.
check-pack_example :
    check test_sha check_options zeros_pak zeros_archive
      ((zeros_record ∷ zeros_record ∷ []) ∷ [] ∷ [])
    ≡ done 0
unfolding record_reader
check-pack_example =
    check-pack test_sha test_zlib block_options check_options read_v3 refl (zeros_item ∷ []) refl
      (omega arith) (zeros_item-IsItem, tt) (omega arith, tt) (omega arith) pack_run
      zeros_archive_fits refl refl (refl, tt) ((zeros_record ∷ zeros_record ∷ []) ∷ [] ∷ [])
      ((inl refl, (inl refl, tt)), (tt, tt))

metadata_diff_run :
    metadata_diff zeros_record (record zeros_record { size = 12; timestamp = some 7 })
    ≡ codes "\tsize: 4 != 12\n\ttimestamp: None != Some(7)\n"
unfolding metadata_diff bytes_eq blocks_eq digits
metadata_diff_run = refl

metadata_diff_of_blocks :
    metadata_diff zeros_record (record zeros_record { compression_blocks = none })
    ≡ codes
        "\tcompression_blocks:\n\t\tSome([CompressionBlock { start_offset: 89, end_offset: 91 }, CompressionBlock { start_offset: 91, end_offset: 93 }])\n\t\t\t!=\n\t\tNone"
unfolding metadata_diff bytes_eq debug_elements digits
metadata_diff_of_blocks = refl

-- A method that differs is not in the text.
metadata_diff-same_metadata_example :
    is_empty (metadata_diff (record zeros_record { compression_method = 0 }) zeros_record)
    ≡ same_metadata zeros_record zeros_record
metadata_diff-same_metadata_example =
    metadata_diff-same_metadata (record zeros_record { compression_method = 0 }) zeros_record
