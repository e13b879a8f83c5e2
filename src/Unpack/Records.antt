-- ===== src/Unpack/Records.antt =====
-- `unpack_record` on a file in which a record's header and data stand.
use rust_u4pak.Common.{
  ℕ, ◌+◌, ◌^◌, ◌<◌, ◌≡◌, ◌∙◌, ◌⊎◌, inl, inr, sym, ap, arith, true, false, Option, none, some, List,
  [], ◌++◌, append_assoc, flatten, ltb, leb, Bytes, length, length-append, drop-append,
}
use rust_u4pak.Word64.{add64}
use rust_u4pak.Io.{done, read_exact_lem}
use rust_u4pak.Results.{◌>>=◌}
use rust_u4pak.Crypto.{Zlib}
use rust_u4pak.Decrypt.{Cipher}
use rust_u4pak.PakPath.{parse_pak_path}
use rust_u4pak.Record.{Record, compr_none, compr_zlib, move_to}
use rust_u4pak.Index.Legacy.{standard}
use rust_u4pak.Pak.{header_size}
use rust_u4pak.Unpack.Defs.{
  inflate, read_at, unpack_data, buffer_length, decrypt_entry, unpack_record,
}
use rust_u4pak.Unpack.Chunks.{streams, blocks_from, inflate-compress, unpack_blocks-streams}

-- The bytes at a place of a file.
pub read_at-append :
    (a b c : Bytes) (i n : ℕ)
    → i ≡ length a
    → n ≡ length b
    → length a + length b < 2 ^ 63
    → read_at (a ++ (b ++ c)) i n ≡ done b
unfolding read_at
read_at-append a b c i n i_is n_is fits =
    let start : leb (2 ^ 63) i ≡ false = ground arith in
    let size : leb (2 ^ 63) n ≡ false = ground arith in
    rw (start, size, drop-append a (b ++ c) i i_is) (rw (read_exact_lem n b c (sym n_is)))

module _ (zlib : Zlib) where
  -- What the data of a record stands for: the content itself, one stream, or a stream for each chunk.
  abbrev pub Holds : ℕ → Record → Bytes → Bytes → Type 0
  Holds header r content body =
      ((r.compression_method ≡ compr_none) × (body ≡ content))
      ⊎ ((level : ℕ) × (r.compression_method ≡ compr_zlib)
          × (r.compression_blocks ≡ none)
          × (body ≡ zlib.compress level content))
      ⊎ ((level : ℕ) × (cs : List Bytes) × (r.compression_method ≡ compr_zlib)
          × (r.compression_blocks ≡ some (blocks_from zlib level header cs))
          × (body ≡ streams zlib level cs)
          × (flatten cs ≡ content))

  -- A record that stands for a file, and its data behind a header of this size.
  pub record IsPacked (header : ℕ) (r : Record) (content body : Bytes) : Type 0 where
    pub at_start : r.offset ≡ 0
    pub plain : r.encrypted ≡ false
    pub size_is : r.size ≡ length body
    pub holds : Holds header r content body

  unpack_data-move_to :
      (version header offset : ℕ) (r : Record) {content body : Bytes}
      → version < 4
      → IsPacked header r content body
      → offset + (header + length body) < 2 ^ 63
      → unpack_data zlib version header (add64 offset header) (move_to version offset r) body
        ≡ done content
  unfolding unpack_data move_to
  unpack_data-move_to version header offset r {content} {body} old packed fits =
      let before : ltb version 7 ≡ true = ground arith in
      elim packed.holds [
        | inl (method, same) ↦ rw (method, same)
        | inr (inl (level, method, blocks, stream)) ↦
            rw (method, before)
              (rw (blocks, unpack_data)
                (ap (inflate zlib) stream ∙ inflate-compress zlib level content))
        | inr (inr (level, cs, method, blocks, data_is, content_is)) ↦
            rw (method, before)
              (rw (blocks, packed.at_start)
                (rw (data_is, ← content_is)
                  (unpack_blocks-streams zlib level version header offset header [] cs (omega arith)
                    (omega arith) (omega (arith, ap length data_is)))))
      ]

  module _ (aes : Cipher) where
    -- A record that was moved to where its header and its data stand is unpacked to its content.
    pub unpack_record-IsPacked :
        (version : ℕ) (key : Option Bytes) (front head back : Bytes) (r : Record)
        {content body : Bytes}
        → version < 4
        → IsPacked (length head) r content body
        → header_size version standard (move_to version (length front) r) ≡ done (length head)
        → length (front ++ (head ++ (body ++ back))) < 2 ^ 63
        → unpack_record zlib aes version standard key
            (front ++ (head ++ (body ++ back)))
            (move_to version (length front) r)
          ≡ done (parse_pak_path r.filename, content)
    unfolding unpack_record move_to buffer_length decrypt_entry
    unpack_record-IsPacked version key front head back r {content} {body} old packed size fits =
        let all : length (front ++ (head ++ (body ++ back)))
            ≡ length front + (length head + (length body + length back)) =
          omega (
            arith,
            length-append front (head ++ (body ++ back)),
            length-append head (body ++ back),
            length-append body back,
          ) in
        let read : read_at (front ++ (head ++ (body ++ back))) (add64 (length front) (length head))
              r.size
            ≡ done body =
          rw (← append_assoc front head (body ++ back)) (
            read_at-append (front ++ head) body back (add64 (length front) (length head)) r.size
              (omega (arith, length-append front head)) packed.size_is
              (omega (arith, length-append front head))) in
        let out =
          unpack_data-move_to version (length head) (length front) r old packed (omega arith) in
        rw (size, ◌>>=◌) (rw packed.plain (rw (read, ◌>>=◌) (rw (out, ◌>>=◌))))
