-- ===== src/Pack/Reopen.antt =====
-- A file that src/pack.rs finishes, opened by `Pak::from_reader` of src/pak.rs.
use rust_u4pak.Common.{
  ℕ, ◌+◌, ◌%◌, ◌^◌, ◌<◌, ◌≡◌, ◌∙◌, sym, arith, none, List, [], ◌++◌, append_assoc, foldl, flatten,
  Bytes, length, length-append, All,
}
use rust_u4pak.Io.{Result, done, ok}
use rust_u4pak.Crypto.{Sha1Hasher}
use rust_u4pak.Decrypt.{Cipher}
use rust_u4pak.Text.{Text}
use rust_u4pak.Paths.{Encoding}
use rust_u4pak.Record.{Record, unwrap_or}
use rust_u4pak.Index.Legacy.{standard}
use rust_u4pak.Index.Read.{read_index}
use rust_u4pak.Pak.{Pak, Options}
use rust_u4pak.Pak.Open.{from_reader}
use rust_u4pak.Results.{>>=-eq-done}
use rust_u4pak.Pack.Defs.{PackOptions}
use rust_u4pak.Pack.Archive.{Written, index_writer, index_buffers, footer_bytes, finish_archive}
use rust_u4pak.Pack.Entries.{IsName, IsEntry, Layout}
use rust_u4pak.Pack.Footers.{Quiet, decode_footer-footer_bytes, get_version-footer_bytes}
use rust_u4pak.Pack.Opening.{stored_index, read_index-buffers, read_pak-ok, from_reader-ok}

-- What the written data has to satisfy: its size is its length, and its entries fit the layout.
pub record IsWritten (encoding : Encoding) (P : Record → Type 0) (w : Written) : Type 0 where
  pub size_is : w.data_size ≡ length w.out
  pub few : length w.records < 2 ^ 32
  pub entries : All (IsEntry encoding P) w.records

-- The options under which a file is opened that `pack` made.
pub record Opens (options : PackOptions) (open_options : Options) : Type 0 where
  pub old : options.version < 4
  pub packs_standard : options.variant ≡ standard
  pub is_standard : open_options.variant ≡ standard
  pub same_encoding : open_options.encoding ≡ options.encoding
  pub unforced : open_options.force_version ≡ none

-- No other place where a magic is looked for has one.
abbrev pub IsQuiet : Bytes → Type 0
IsQuiet file = Quiet file 204 × Quiet file 205 × Quiet file 60

-- The mount point that is written.
abbrev pub mount_of_options : PackOptions → Text
mount_of_options options = unwrap_or options.mount_point []

module _ (aes : Cipher) (options : PackOptions) (open_options : Options)
    (opens : Opens options open_options) {P : Record → Type 0} (layout : Layout options.version P)
    (mount_name : IsName options.encoding (mount_of_options options)) where
  -- The three parts of a file: data, index and footer.
  opened_parts :
      (w : Written) (hash : Bytes) (pos : ℕ) {buffers : List Bytes}
      → IsWritten options.encoding P w
      → length hash ≡ 20
      → index_buffers options.encoding layout.write (mount_of_options options) w.records
        ≡ done buffers
      → length w.out + length (flatten buffers) < 2 ^ 63
      → let file =
          (w.out ++ flatten buffers)
          ++ footer_bytes options.version (length w.out) (length (flatten buffers)) hash in
        IsQuiet file
        → (q : ℕ) × (from_reader aes file open_options pos
            ≡ ok
                (record {
                  variant = open_options.variant;
                  version = options.version;
                  index_offset = length w.out;
                  index_size = length (flatten buffers);
                  index_sha1 = hash;
                  index = stored_index (mount_of_options options) w.records;
                })
                q)
  opened_parts w hash pos {buffers} is_written hashed listed fits (q10, q9, q7) =
      let version = options.version in
      let idx = flatten buffers in
      let front = w.out ++ idx in
      let tail = footer_bytes version (length w.out) (length idx) hash in
      let sum : length w.out + length idx ≡ length front = omega (arith, length-append w.out idx) in
      let small : version < 2 ^ 32 = omega (arith, opens.old) in
      let (p, found) =
        get_version-footer_bytes front version (length w.out) (length idx) hash pos hashed small q10
          q9 q7 in
      let decoded =
        decode_footer-footer_bytes version (length w.out) (length idx) hash hashed small
          (omega arith) (omega arith) front p opens.old in
      let read =
        read_index-buffers aes layout options.encoding (omega (arith, opens.old))
          (mount_of_options options) w.records mount_name is_written.few is_written.entries listed
          w.out tail (omega arith) in
      let read' : read_index aes (front ++ tail) (length idx) version open_options.variant
            open_options.encoding none (length w.out)
          ≡ ok (stored_index (mount_of_options options) w.records) (length front) =
        rw (opens.is_standard, opens.same_encoding, append_assoc) (read ∙ rw sum) in
      (
        length front,
        from_reader-ok aes (front ++ tail) open_options pos opens.unforced found decoded (
            read_pak-ok aes (front ++ tail) open_options (length front) version (length w.out)
              (length idx) (length front + 44) hash sum (omega arith) read'),
      )

-- The value that `pack` returns, as the file stores it: the index has no empty mount point.
abbrev pub stored : PackOptions → Options → Pak → Pak
stored options open_options pak = record pak {
  variant = open_options.variant;
  index = stored_index (mount_of_options options) pak.index.records;
}

done_pair :
    {A B : Type 0} {a c : A} {b d : B}
    → ◌≡◌ {A = Result (A × B)} (done (a, b)) (done (c, d))
    → (a ≡ c) × (b ≡ d)
done_pair e = ground arith

module _ (sha : Sha1Hasher) (aes : Cipher) (options : PackOptions) (open_options : Options)
    (opens : Opens options open_options) {P : Record → Type 0} (layout : Layout options.version P)
    (mount_name : IsName options.encoding (mount_of_options options)) where
  -- The two results, for the buffers of the index.
  abbrev finished_file : Written → List Bytes → Bytes
  finished_file w buffers =
      w.out
      ++ (flatten buffers
          ++ footer_bytes options.version w.data_size (length (flatten buffers) % 2 ^ 64)
              (sha.finish (foldl sha.update sha.new buffers)))

  abbrev finished_pak : Written → List Bytes → Pak
  finished_pak w buffers = record {
    variant = options.variant;
    version = options.version;
    index_offset = w.data_size;
    index_size = length (flatten buffers) % 2 ^ 64;
    index_sha1 = sha.finish (foldl sha.update sha.new buffers);
    index = record { mount_point = options.mount_point; records = w.records };
  }

  finish_archive-eq-done :
      (w : Written) {file : Bytes} {pak : Pak}
      → finish_archive sha options w ≡ done (file, pak)
      → (buffers : List Bytes) × (index_buffers options.encoding layout.write
            (mount_of_options options)
            w.records
          ≡ done buffers)
        × (finished_file w buffers ≡ file)
        × (finished_pak w buffers ≡ pak)
  unfolding finish_archive
  finish_archive-eq-done w finished =
      let writer : index_writer options.variant options.version ≡ done layout.write =
        rw opens.packs_standard layout.writer_is in
      let (buffers, listed, e) =
        >>=-eq-done
          (index_buffers options.encoding layout.write (mount_of_options options) w.records) _
          (rw writer at finished) in
      (buffers, listed, (done_pair e).0, (done_pair e).1)

  -- The same for numbers and a file that are equal to those.
  opened_equal :
      (w : Written) (pos : ℕ) {buffers : List Bytes} (hash : Bytes) (offset size : ℕ) (file : Bytes)
      → IsWritten options.encoding P w
      → length hash ≡ 20
      → index_buffers options.encoding layout.write (mount_of_options options) w.records
        ≡ done buffers
      → length w.out + length (flatten buffers) < 2 ^ 63
      → offset ≡ length w.out
      → size ≡ length (flatten buffers)
      → file ≡ (w.out ++ flatten buffers) ++ footer_bytes options.version offset size hash
      → IsQuiet file
      → (q : ℕ) × (from_reader aes file open_options pos
          ≡ ok
              (record {
                variant = open_options.variant;
                version = options.version;
                index_offset = offset;
                index_size = size;
                index_sha1 = hash;
                index = stored_index (mount_of_options options) w.records;
              })
              q)
  opened_equal w pos hash offset size file is_written hashed listed fits offset_is size_is file_is
        quiet =
      let file_is' = rw (offset_is, size_is) at file_is in
      rw (offset_is, size_is, file_is')
        (opened_parts aes options open_options opens layout mount_name w hash pos is_written hashed
          listed fits (rw file_is' at quiet))

  opened_buffers :
      (w : Written) (pos : ℕ) {buffers : List Bytes}
      → IsWritten options.encoding P w
      → index_buffers options.encoding layout.write (mount_of_options options) w.records
        ≡ done buffers
      → length (finished_file w buffers) < 2 ^ 63
      → IsQuiet (finished_file w buffers)
      → (q : ℕ) × (from_reader aes (finished_file w buffers) open_options pos
          ≡ ok (stored options open_options (finished_pak w buffers)) q)
  opened_buffers w pos {buffers} is_written listed fits quiet =
      let hash = sha.finish (foldl sha.update sha.new buffers) in
      let tail =
        footer_bytes options.version w.data_size (length (flatten buffers) % 2 ^ 64) hash in
      let parts : length (finished_file w buffers)
          ≡ length w.out + (length (flatten buffers) + length tail) =
        omega (
          arith,
          length-append w.out (flatten buffers ++ tail),
          length-append (flatten buffers) tail,
        ) in
      opened_equal w pos hash w.data_size (length (flatten buffers) % 2 ^ 64)
        (finished_file w buffers) is_written (sha.length-finish _) listed (omega arith)
        is_written.size_is (omega arith) (sym (append_assoc w.out (flatten buffers) tail)) quiet

  -- A file of less than 2 ^ 63 bytes that finish_archive completes, for the standard variant and
  -- a version below 4, is opened by from_reader, for the same encoding and the standard variant
  -- and with no version forced, as the pak that was returned, an empty mount point as none; if
  -- the size that is kept of the data in front of the index is its length, there are fewer than
  -- 2 ^ 32 records, which the reader of the version reads back as its writer wrote them, the
  -- mount point and the names of the records are texts without NUL whose written forms are
  -- shorter than 2 ^ 31 bytes, and no magic stands by chance at the other places where it is
  -- looked for.
  pub from_reader-finish_archive :
      (w : Written) (pos : ℕ) {file : Bytes} {pak : Pak}
      → IsWritten options.encoding P w
      → finish_archive sha options w ≡ done (file, pak)
      → length file < 2 ^ 63
      → IsQuiet file
      → (q : ℕ) × (from_reader aes file open_options pos ≡ ok (stored options open_options pak) q)
  from_reader-finish_archive w pos is_written finished fits quiet =
      let (buffers, listed, file_is, pak_is) = finish_archive-eq-done w finished in
      rw (← file_is, ← pak_is)
        (opened_buffers w pos is_written listed (rw (← file_is) at fits) (rw (← file_is) at quiet))
