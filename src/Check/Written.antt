-- ===== src/Check/Written.antt =====
-- src/check.rs: a record of version 3 as `pack` writes it.
use rust_u4pak.Common.{
  ℕ, ◌+◌, ◌^◌, ◌≤◌, ◌<◌, ◌≡◌, arith, Bool, none, some, Option, List, ◌++◌, Bytes, length,
}
use rust_u4pak.Io.{done}
use rust_u4pak.Crypto.{Sha1Hasher, Zlib}
use rust_u4pak.Record.{Record, CompressionBlock, compr_none, move_to}
use rust_u4pak.Record.Fields.{IsBlocks}
use rust_u4pak.Record.Inline.{read_v3-write_v3_inline}
use rust_u4pak.Record.Read.{read_v3}
use rust_u4pak.Record.RoundTrip.{IsV3}
use rust_u4pak.Record.Write.{write_v3_inline}
use rust_u4pak.Index.Legacy.{standard}
use rust_u4pak.Pak.Sizes.{blocks_length, header_size-write_inline}
use rust_u4pak.Unpack.Records.{IsPacked}
use rust_u4pak.Check.Defs.{nothing, check_record}
use rust_u4pak.Check.Packed.{check_record-nothing}

few_blocks :
    (method : ℕ) (o : Option (List CompressionBlock)) → IsBlocks method o → blocks_length o < 2 ^ 63
few_blocks method none h = omega arith
few_blocks method (some blocks) (packed, few, all) = omega (arith, few)

-- Nothing is reported of a record of version 3 that is moved to its place, where its inline
-- header and its data stand in front of the index, if the record stands for a content whose size
-- it has, has no blocks if it is not compressed, is in the range of its fields, and has the
-- checksum of the data; whatever the options are.
pub check_record-write_v3_inline :
    (sha : Sha1Hasher) (zlib : Zlib) (abort ignore : Bool) (r : Record)
    (before content body after hash : Bytes) (index_offset : ℕ)
    → IsPacked zlib (length (write_v3_inline (move_to 3 (length before) r))) r content body
    → IsV3 (move_to 3 (length before) r) hash
    → r.uncompressed_size ≡ length content
    → (r.compression_method ≡ compr_none → r.compression_blocks ≡ none)
    → r.sha1 ≡ some (sha.finish (sha.update sha.new body))
    → length before + (length (write_v3_inline (move_to 3 (length before) r)) + length body)
      ≤ index_offset
    → index_offset < 2 ^ 63
    → check_record sha abort ignore standard 3 index_offset read_v3
        (before ++ (write_v3_inline (move_to 3 (length before) r) ++ (body ++ after)))
        (move_to 3 (length before) r)
      ≡ done nothing
unfolding move_to
check_record-write_v3_inline sha zlib abort ignore r before content body after hash index_offset
      packed v3 uncompressed plain_blocks hashed within fits =
    let moved = move_to 3 (length before) r in
    let (v1_size, v2_size, v3_size) =
      header_size-write_inline moved (rw v3.head.sha1_is v3.head.hash_length)
        (few_blocks moved.compression_method moved.compression_blocks v3.tail.blocks_ok) in
    check_record-nothing sha zlib abort ignore 3 (omega arith) r before (write_v3_inline moved)
      content body after packed uncompressed plain_blocks hashed (omega arith) index_offset read_v3
      (λ s. read_v3-write_v3_inline moved s v3) v3_size within
