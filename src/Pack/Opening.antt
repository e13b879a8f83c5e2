-- ===== src/Pack/Opening.antt =====
-- src/pak.rs and src/index.rs: the steps of opening a file, for an index of `pack`.
use rust_u4pak.Common.{
  ℕ, ◌+◌, ◌-◌, ◌^◌, ◌<◌, ◌≡◌, arith, true, false, none, List, [], ◌++◌, append-nil, flatten, Bytes,
  length, length-append, ltb, All,
}
use rust_u4pak.Word64.{add64}
use rust_u4pak.Io.{done, ok, ◌>>=◌, attempt, seek_start, read_exact-append}
use rust_u4pak.Io.Files.{from_here-tail}
use rust_u4pak.Decrypt.{Cipher}
use rust_u4pak.Text.{Text}
use rust_u4pak.Paths.{Encoding, read_path}
use rust_u4pak.Record.{Record}
use rust_u4pak.Index.Legacy.{standard, read_records_legacy}
use rust_u4pak.Index.Secondary.{read_buffer, on_buffer}
use rust_u4pak.Index.Read.{Index, mount_of, index_body, read_index, expect}
use rust_u4pak.Pak.{Pak, Options, Footer}
use rust_u4pak.Pak.Decode.{decode_footer, get_version}
use rust_u4pak.Pak.Open.{read_pak, from_reader}
use rust_u4pak.Pack.Archive.{index_buffers}
use rust_u4pak.Pack.Entries.{IsName, IsEntry, Layout, read_records_legacy-index_buffers}
use rust_u4pak.Pack.Footers.{footer_at}

-- What is stored of an index: an empty mount point is none.
abbrev pub stored_index : Text → List Record → Index
stored_index mount records = record { mount_point = mount_of mount; records = records }

module _ (aes : Cipher) (file : Bytes) (version : ℕ) (encoding : Encoding)
    (old : version < 10) where
  index_body-ok :
      (buffer : Bytes) (pos : ℕ) {mount : Text} {rest s : Bytes} {records : List Record}
      → read_path encoding buffer ≡ ok mount rest
      → read_records_legacy version standard encoding rest ≡ ok records s
      → index_body aes file version standard encoding none buffer pos
        ≡ ok (stored_index mount records) pos
  index_body-ok buffer pos mounted listed =
      let before : ltb version 10 ≡ true = ground arith in
      rw (mounted, index_body) (rw before (rw (listed, on_buffer, expect)))

module _ (aes : Cipher) {version : ℕ} {P : Record → Type 0} (layout : Layout version P)
    (encoding : Encoding) (old : version < 10) (mount : Text) (records : List Record)
    {buffers : List Bytes} (name : IsName encoding mount) (few : length records < 2 ^ 32)
    (h : All (IsEntry encoding P) records)
    (e : index_buffers encoding layout.write mount records ≡ done buffers) where
  index_body-buffers :
      (file : Bytes) (pos : ℕ)
      → index_body aes file version standard encoding none (flatten buffers) pos
        ≡ ok (stored_index mount records) pos
  index_body-buffers file pos =
      let (rest, mounted, listed) =
        read_records_legacy-index_buffers layout encoding mount records [] name few h e in
      index_body-ok aes file version encoding old (flatten buffers) pos (rw append-nil at mounted)
        listed

  -- The index is read at its place, whatever stands in front of it and behind it.
  pub read_index-buffers :
      (front tail : Bytes)
      → length (flatten buffers) < 2 ^ 63
      → read_index aes
          (front ++ (flatten buffers ++ tail))
          (length (flatten buffers))
          version
          standard
          encoding
          none
          (length front)
        ≡ ok (stored_index mount records) (length front + length (flatten buffers))
  unfolding read_index
  read_index-buffers front tail fits =
      let small : ltb (length (flatten buffers)) (2 ^ 63) ≡ true = ground arith in
      let buffer : read_buffer (length (flatten buffers)) (flatten buffers ++ tail)
          ≡ ok (flatten buffers) tail =
        unfold read_buffer in rw small (read_exact-append (flatten buffers) tail) in
      let moved : length front + (length (flatten buffers ++ tail) - length tail)
          ≡ length front + length (flatten buffers) =
        omega (arith, length-append (flatten buffers) tail) in
      rw
        (
          from_here-tail front (flatten buffers ++ tail) (read_buffer (length (flatten buffers)))
              buffer,
          ◌>>=◌,
        )
        (rw moved (
          index_body-buffers (front ++ (flatten buffers ++ tail))
            (length front + length (flatten buffers))))

module _ (aes : Cipher) (file : Bytes) (options : Options) where
  -- The checks around the index, for a footer that is not encrypted.
  pub read_pak-ok :
      (place version offset size pos : ℕ) (hash : Bytes) {index : Index}
      → offset + size ≡ place
      → place < 2 ^ 63
      → read_index aes file size version options.variant options.encoding none offset
        ≡ ok index place
      → read_pak aes file options (footer_at place version offset size hash) pos
        ≡ ok
            (record {
              variant = options.variant;
              version = version;
              index_offset = offset;
              index_size = size;
              index_sha1 = hash;
              index = index;
            })
            place
  unfolding read_pak
  read_pak-ok place version offset size pos hash sum small read =
      let inside : ltb place (add64 offset size) ≡ false = ground arith in
      let at_start : ltb offset (2 ^ 63) ≡ true = ground arith in
      let start : seek_start file offset pos ≡ ok offset offset = rw at_start in
      let at_end : ltb place place ≡ false = ground arith in
      rw inside (rw (start, ◌>>=◌) (rw (read, ◌>>=◌) (rw at_end)))

  pub from_reader-ok :
      (pos : ℕ) {version p q : ℕ} {footer : Footer} {pak : Pak} {q' : ℕ}
      → options.force_version ≡ none
      → get_version file pos ≡ ok version p
      → decode_footer file version p ≡ ok footer q
      → read_pak aes file options footer q ≡ ok pak q'
      → from_reader aes file options pos ≡ ok pak q'
  unfolding from_reader
  from_reader-ok pos unforced found decoded read =
      rw unforced (rw (found, ◌>>=◌, attempt) (rw (decoded, ◌>>=◌) read))
