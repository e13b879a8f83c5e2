-- ===== src/Check/Sent.antt =====
-- src/check.rs: a record that a worker of src/pack.rs sent, at its place in a file.
use rust_u4pak.Common.{
  ℕ, ◌+◌, ◌^◌, ◌≤◌, ◌<◌, ◌≡◌, ◌∙◌, inl, inr, sym, ap, arith, Bool, true, Bool-cases, none, some,
  Option, List, [], ◌∷◌, ◌++◌, ◌==◌, Bytes, length, length-append, map, All, ltb, leb, ◌||◌,
}
use rust_u4pak.Io.{done, ok, Reader}
use rust_u4pak.Crypto.{Sha1Hasher, Zlib}
use rust_u4pak.Record.{Record, CompressionBlock, move_to, move_block, option_map}
use rust_u4pak.Record.Fields.{IsBlock, IsBlocks, IsHead}
use rust_u4pak.Record.Inline.{
  at_zero, read_v1-write_v1_inline, read_v2-write_v2_inline, read_v3-write_v3_inline,
}
use rust_u4pak.Record.RoundTrip.{IsV1, IsV2, IsV3}
use rust_u4pak.Index.Legacy.{standard}
use rust_u4pak.Pack.Archive.{inline_writer}
use rust_u4pak.Pack.Placed.{length-header, not_done, done_eq}
use rust_u4pak.Pack.Received.{Item, IsItem}
use rust_u4pak.Pack.Sent.{IsRecorded, length-map}
use rust_u4pak.Pak.Sizes.{blocks_length}
use rust_u4pak.Unpack.Chunks.{streams, blocks_from}
use rust_u4pak.Unpack.Records.{IsPacked}
use rust_u4pak.Check.Defs.{nothing, record_reader, check_record}
use rust_u4pak.Check.Packed.{check_record-nothing}

blocks_from-All :
    (zlib : Zlib) (level offset start : ℕ) (cs : List Bytes)
    → offset + (start + length (streams zlib level cs)) < 2 ^ 63
    → All IsBlock (map (move_block 0 offset) (blocks_from zlib level start cs))
blocks_from-All zlib level offset start [] fits = tt
blocks_from-All zlib level offset start (c ∷ cs) fits =
    let s = zlib.compress level c in
    let all = length-append s (streams zlib level cs) in
    (
      (omega arith, omega (arith, all)),
      blocks_from-All zlib level offset (start + length s) cs (omega (arith, all)),
    )

-- A record that is moved to its place is in the range of the fields of its version.
module _ (sha : Sha1Hasher) (zlib : Zlib) (version : ℕ) (old : version < 4) (r : Record)
    (header offset : ℕ) (content body : Bytes) (packed : IsPacked zlib header r content body)
    (recorded : IsRecorded sha version r body content)
    (fits : offset + (header + length body) < 2 ^ 63) where
  abbrev digest : Bytes
  digest = sha.finish (sha.update sha.new body)

  method_lt : r.compression_method < 2 ^ 32
  method_lt = elim packed.holds [
    | inl (method, same) ↦ omega (arith, method)
    | inr (inl (level, method, none_is, stream)) ↦ omega (arith, method)
    | inr (inr (level, cs, method, blocks_are, body_is, content_is)) ↦ omega (arith, method)
  ]

  moved-IsHead : IsHead (move_to version offset r) digest
  unfolding move_to
  moved-IsHead = record {
    size_lt = omega (arith, packed.size_is);
    uncompressed_lt = omega (arith, recorded.uncompressed, recorded.small);
    method_lt = method_lt;
    sha1_is = recorded.checksum;
    hash_length = sha.length-finish _;
  }

  moved_option :
      (o : Option (List CompressionBlock))
      → r.compression_blocks ≡ o
      → (move_to version offset r).compression_blocks ≡ option_map (map (move_block 0 offset)) o
  unfolding move_to
  moved_option o is =
      let early : ltb version 7 ≡ true = ground arith in rw (early, is, packed.at_start)

  moved-IsBlocks :
      2 < version
      → blocks_length r.compression_blocks < 2 ^ 32
      → IsBlocks r.compression_method (move_to version offset r).compression_blocks
  moved-IsBlocks three few = elim packed.holds [
    | inl (method, same) ↦ rw (moved_option none (recorded.plain_blocks method)) method
    | inr (inl (level, method, none_is, stream)) ↦
        rw (moved_option none none_is) ((recorded.late three).1 none_is)
    | inr (inr (level, cs, method, blocks_are, body_is, content_is)) ↦
        let blocks = blocks_from zlib level header cs in
        rw (moved_option (some blocks) blocks_are) (
          rw method,
          omega (arith, length-map (move_block 0 offset) blocks, rw blocks_are at few),
          blocks_from-All zlib level offset header cs (omega (arith, ap length body_is)),
        )
  ]

  moved-IsV1 : version ≡ 1 → (time : ℕ) × IsV1 (move_to version offset r) digest time
  unfolding move_to
  moved-IsV1 one =
      let (time, stamp, time_lt) = recorded.stamped.0 one in
      let (none_is, zero_size) = recorded.early (omega (arith, one)) in
      (
        time,
        record {
          head = moved-IsHead;
          offset_lt = omega arith;
          time_lt = time_lt;
          time_is = stamp;
          blocks_none = moved_option none none_is;
          plain = packed.plain;
          block_size_zero = zero_size;
        },
      )

  moved-IsV2 : version ≡ 2 → IsV2 (move_to version offset r) digest
  unfolding move_to
  moved-IsV2 two =
      let (none_is, zero_size) = recorded.early (omega (arith, two)) in
      record {
        head = moved-IsHead;
        offset_lt = omega arith;
        no_timestamp = recorded.stamped.1 (omega (arith, two));
        blocks_none = moved_option none none_is;
        plain = packed.plain;
        block_size_zero = zero_size;
      }

  moved-IsV3 :
      version ≡ 3
      → blocks_length r.compression_blocks < 2 ^ 32
      → IsV3 (move_to version offset r) digest
  unfolding move_to
  moved-IsV3 three few =
      let above : 2 < version = omega (arith, three) in
      record {
        head = moved-IsHead;
        offset_lt = omega arith;
        tail = record {
          blocks_ok = moved-IsBlocks above few;
          block_size_lt = (recorded.late above).0;
          no_timestamp = recorded.stamped.1 (omega (arith, three));
        };
      }

  reads_as :
      (write : Record → Bytes) (read : Bytes → Reader Record) {one_write : Record → Bytes}
      {one_read : Bytes → Reader Record}
      → one_write ≡ write
      → one_read ≡ read
      → ((s : Bytes)
          → one_read r.filename (one_write (move_to version offset r) ++ s)
            ≡ ok (at_zero (move_to version offset r)) s)
      → (s : Bytes)
      → read r.filename (write (move_to version offset r) ++ s)
        ≡ ok (at_zero (move_to version offset r)) s
  reads_as write read e e' h = rw (← e, ← e') h

  -- The header that is written is read as the record at offset 0.
  pub inline-reads :
      (write : Record → Bytes) (read : Bytes → Reader Record)
      → inline_writer standard version ≡ done write
      → record_reader standard version ≡ done read
      → blocks_length r.compression_blocks < 2 ^ 32
      → (s : Bytes)
      → read r.filename (write (move_to version offset r) ++ s)
        ≡ ok (at_zero (move_to version offset r)) s
  unfolding inline_writer record_reader move_to
  inline-reads write read writer reader few = elim (Bool-cases (version == 1)) [
    | inl is_one ↦
        let one : version ≡ 1 = ground arith in
        reads_as write read (done_eq (rw is_one at writer)) (done_eq (rw is_one at reader))
          λ s. read_v1-write_v1_inline (move_to version offset r) s (moved-IsV1 one).1
    | inr not_one ↦ elim (Bool-cases (version == 2)) [
      | inl is_two ↦
          let two : version ≡ 2 = ground arith in
          reads_as write read (done_eq (rw (not_one, is_two) at writer))
            (done_eq (rw (not_one, is_two) at reader))
            λ s. read_v2-write_v2_inline (move_to version offset r) s (moved-IsV2 two)
      | inr not_two ↦ elim (Bool-cases (version == 3)) [
        | inl is_three ↦
            let three : version ≡ 3 = ground arith in
            let early : (leb version 5 || (version == 7)) ≡ true = ground arith in
            reads_as write read (done_eq (rw (not_one, not_two, is_three) at writer))
              (done_eq (rw (not_one, not_two, early) at reader))
              λ s. read_v3-write_v3_inline (move_to version offset r) s (moved-IsV3 three few)
        | inr not_three ↦ absurd (not_done (rw (not_one, not_two, not_three) at writer))
      ]
    ]
  ]

module _ (sha : Sha1Hasher) (zlib : Zlib) (version : ℕ) (old : version < 4) (write : Record → Bytes)
    (writer : inline_writer standard version ≡ done write) (read : Bytes → Reader Record)
    (reader : record_reader standard version ≡ done read) where
  -- Nothing is reported of a record that a worker sent, where its header and data stand in front
  -- of the index.
  pub check_record-IsSent :
      (abort ignore : Bool) (front back : Bytes) (i : Item) (sends : IsItem sha zlib version i)
      (index_offset : ℕ)
      → blocks_length i.packed.compression_blocks < 2 ^ 32
      → let moved = move_to version (length front) i.packed in
        length front + (length (write moved) + length sends.body) ≤ index_offset
        → length (front ++ (write moved ++ (sends.body ++ back))) < 2 ^ 63
        → check_record sha abort ignore standard version index_offset read
            (front ++ (write moved ++ (sends.body ++ back)))
            moved
          ≡ done nothing
  check_record-IsSent abort ignore front back i sends index_offset few within fits =
      let moved = move_to version (length front) i.packed in
      let head = write moved in
      let same = length-header version write writer sha zlib i.packed sends (length front) in
      let packed : IsPacked zlib (length head) i.packed i.content sends.body =
        rw same sends.packed in
      let placed : length front + (length head + length sends.body) < 2 ^ 63 = omega (
        arith,
        length-append front (head ++ (sends.body ++ back)),
        length-append head (sends.body ++ back),
        length-append sends.body back,
      ) in
      check_record-nothing sha zlib abort ignore version old i.packed front head i.content
        sends.body back packed sends.recorded.uncompressed sends.recorded.plain_blocks
        sends.recorded.checksum placed index_offset read
        (inline-reads sha zlib version old i.packed (length head) (length front) i.content
          sends.body packed sends.recorded placed write read writer reader few)
        (sends.header_is (length front) ∙ ap done (sym same)) within
