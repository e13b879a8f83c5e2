-- ===== src/Check/Packed.antt =====
-- src/check.rs: a record that stands in a file as `pack` puts it there.
use rust_u4pak.Common.{
  ℕ, ◌+◌, ◌^◌, ◌≤◌, ◌<◌, ◌≡◌, ◌∙◌, inl, inr, refl, sym, ap, arith, Bool, true, false, Bool-cases,
  not, none, some, List, ◌++◌, append_assoc, ltb, leb, ◌==◌, Bytes, bytes_eq, bytes_eq_refl, length,
  length-append, drop-append, ==_refl, ◌&&◌, ◌||◌,
}
use rust_u4pak.Word64.{add64}
use rust_u4pak.Io.{done, ok, Reader}
use rust_u4pak.Crypto.{Sha1Hasher, Zlib}
use rust_u4pak.Record.{Record, compr_none, move_to, null_sha1}
use rust_u4pak.Record.Inline.{at_zero, same_metadata_of_offset}
use rust_u4pak.Index.Legacy.{standard}
use rust_u4pak.Pak.{header_size}
use rust_u4pak.Unpack.Chunks.{streams, blocks_from}
use rust_u4pak.Unpack.Records.{IsPacked}
use rust_u4pak.Check.Defs.{
  is_compr_method, has_checksum, nothing, check_inline, check_contents, check_record, error_of,
  check_data,
}
use rust_u4pak.Check.Hashes.{check_data_lem}
use rust_u4pak.Check.Records.{check_blocks-streams}

pub or_true : (b : Bool) → (b || true) ≡ true
or_true true = refl
or_true false = refl

-- A record in a file: `before`, its header, its data, and what follows.
module _ (sha : Sha1Hasher) (zlib : Zlib) (abort ignore : Bool) (version : ℕ) (old : version < 4)
    (r : Record) (before inline content body after : Bytes)
    (packed : IsPacked zlib (length inline) r content body)
    (uncompressed : r.uncompressed_size ≡ length content)
    (plain_blocks : r.compression_method ≡ compr_none → r.compression_blocks ≡ none)
    (hashed : r.sha1 ≡ some (sha.finish (sha.update sha.new body)))
    (fits : length before + (length inline + length body) < 2 ^ 63) where
  abbrev archive : Bytes
  archive = before ++ (inline ++ (body ++ after))

  abbrev moved : Record
  moved = move_to version (length before) r

  data_offset : add64 (length before) (length inline) ≡ length (before ++ inline)
  data_offset = omega (arith, length-append before inline)

  digest : Bytes
  digest = sha.finish (sha.update sha.new body)

  check_data-body :
      check_data sha ignore archive
        (length (before ++ inline))
        (length body)
        (sha.finish (sha.update sha.new body))
      ≡ done tt
  check_data-body =
      let all =
        check_data_lem sha ignore (before ++ inline) body after
          (sha.finish (sha.update sha.new body)) (omega (arith, length-append before inline)) in
      rw (← append_assoc before inline (body ++ after)) (
        all
        ∙ rw (bytes_eq_refl (sha.finish (sha.update sha.new body)))
            (rw (or_true (ignore && bytes_eq (sha.finish (sha.update sha.new body)) null_sha1))))

  contents-none :
      r.compression_blocks ≡ none
      → check_contents sha abort ignore standard version archive (length inline) moved ≡ nothing
  unfolding check_contents move_to
  contents-none none_is =
      let early : ltb version 7 ≡ true = ground arith in
      rw (early, none_is)
        (rw (data_offset, packed.size_is, hashed) (ap (error_of sha abort ignore) check_data-body))

  contents-some :
      (level : ℕ) (cs : List Bytes)
      → r.compression_blocks ≡ some (blocks_from zlib level (length inline) cs)
      → body ≡ streams zlib level cs
      → check_contents sha abort ignore standard version archive (length inline) moved ≡ nothing
  unfolding check_contents move_to
  contents-some level cs blocks_are body_is =
      let early : ltb version 7 ≡ true = ground arith in
      let early' : leb 7 version ≡ false = ground arith in
      let early'' : leb 4 version ≡ false = ground arith in
      let start : add64 (length before) (length inline) ≡ length before + length inline =
        omega arith in
      let all =
        check_blocks-streams sha abort ignore zlib level (length before) (length inline) cs
          (before ++ inline) after sha.new (length-append before inline)
          (omega (arith, ap length body_is, length-append before inline)) in
      let here = rw append_assoc at (rw (← body_is) at all) in
      let behind : add64 (length before + length inline) (length body)
          ≡ length before + (length inline + length body) =
        omega arith in
      let same = ==_refl (length before + (length inline + length body)) in
      let matches = bytes_eq_refl (sha.finish (sha.update sha.new body)) in
      elim (Bool-cases (not ignore || has_checksum sha abort ignore r.sha1)) [
        | inr ignored ↦ rw (early, blocks_are) (rw ignored)
        | inl hashed_too ↦
            rw (early, blocks_are)
              (rw hashed_too (
                rw (early', early'', start, packed.at_start, packed.size_is, hashed)
                  (rw here (rw (behind, same, matches)))))
      ]

  inline-nothing :
      (read_record : Bytes → Reader Record)
      → ((s : Bytes) → read_record r.filename (inline ++ s) ≡ ok (at_zero moved) s)
      → check_inline sha abort ignore read_record archive moved ≡ nothing
  unfolding move_to
  inline-nothing read_record reads =
      let seekable : leb (2 ^ 63) (length before) ≡ false = ground arith in
      let here = drop-append before (inline ++ (body ++ after)) (length before) refl in
      rw (seekable, here) (rw (reads (body ++ after)) (rw (same_metadata_of_offset moved 0)))

  contents-nothing :
      check_contents sha abort ignore standard version archive (length inline) moved ≡ nothing
  contents-nothing = elim packed.holds [
    | inl (method, same) ↦ contents-none (plain_blocks method)
    | inr (inl (level, method, none_is, stream)) ↦ contents-none none_is
    | inr (inr (level, cs, method, blocks_are, body_is, content_is)) ↦
        contents-some level cs blocks_are body_is
  ]

  method_known :
      (is_compr_method r.compression_method ≡ true)
      × (((r.compression_method == compr_none) && not (r.size == r.uncompressed_size)) ≡ false)
  method_known = elim packed.holds [
    | inl (method, same) ↦
        let sizes : r.size ≡ r.uncompressed_size =
          packed.size_is ∙ ap length same ∙ sym uncompressed in
        rw method (refl, rw sizes (ap not (==_refl r.uncompressed_size)))
    | inr (inl (level, method, none_is, stream)) ↦ rw method (refl, refl)
    | inr (inr (level, cs, method, blocks_are, body_is, content_is)) ↦ rw method (refl, refl)
  ]

  moved_known :
      (is_compr_method moved.compression_method ≡ true)
      × (((moved.compression_method == compr_none) && not (moved.size == moved.uncompressed_size))
          ≡ false)
  unfolding move_to
  moved_known = method_known

  moved_inside :
      (index_offset : ℕ)
      → length before + (length inline + length body) ≤ index_offset
      → ltb index_offset (add64 (add64 moved.offset (length inline)) moved.size) ≡ false
  unfolding move_to
  moved_inside index_offset within = ground (arith, packed.size_is)

  pub check_record-nothing :
      (index_offset : ℕ) (read_record : Bytes → Reader Record)
      → ((s : Bytes) → read_record r.filename (inline ++ s) ≡ ok (at_zero moved) s)
      → header_size version standard moved ≡ done (length inline)
      → length before + (length inline + length body) ≤ index_offset
      → check_record sha abort ignore standard version index_offset read_record archive moved
        ≡ done nothing
  unfolding check_record
  check_record-nothing index_offset read_record reads header_is within =
      let (known', sizes') = moved_known in
      let inside' : ltb index_offset (add64 (add64 moved.offset (length inline)) moved.size)
          ≡ false =
        moved_inside index_offset within in
      let seen = inline-nothing read_record reads in
      rw (header_is, check_record) (rw (known', sizes', inside', seen, contents-nothing))
