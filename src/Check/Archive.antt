-- ===== src/Check/Archive.antt =====
-- src/check.rs on what src/pack.rs makes.
use rust_u4pak.Common.{
  ℕ, ◌+◌, ◌%◌, ◌^◌, ◌<◌, ◌≡◌, ◌∙◌, inl, inr, sym, ap, arith, Bool, none, List, [], ◌∷◌, ◌++◌, Bytes,
  bytes_eq, bytes_eq_refl, length, length-append, map, foldl, flatten, All, Any, ◌&&◌,
}
use rust_u4pak.Io.{done, Reader}
use rust_u4pak.Crypto.{Sha1Hasher, Zlib}
use rust_u4pak.Record.{Record, null_sha1}
use rust_u4pak.Index.Legacy.{standard}
use rust_u4pak.Pak.{Pak}
use rust_u4pak.Pak.Sizes.{blocks_length}
use rust_u4pak.Pack.{PackOptions}
use rust_u4pak.Pack.Archive.{pack}
use rust_u4pak.Pack.Received.{Item, sent_item, total, IsItem, Each}
use rust_u4pak.Pack.Whole.{IsArchive, pack-IsArchive}
use rust_u4pak.Check.Defs.{nothing, check_data, record_reader, check_record}
use rust_u4pak.Check.Hashes.{check_data_lem}
use rust_u4pak.Check.Packed.{or_true}
use rust_u4pak.Check.Sent.{check_record-IsSent}
use rust_u4pak.Check.Whole.{CheckOptions, check}
use rust_u4pak.Check.Distinct.{AreNew}
use rust_u4pak.Check.Accepted.{IsClean, check-IsClean}

-- A `u32` counts the blocks.
abbrev pub HasFewBlocks : Item → Type 0
HasFewBlocks i = blocks_length i.packed.compression_blocks < 2 ^ 32

-- A record of the list.
abbrev pub IsAmong : List Record → Record → Type 0
IsAmong records r = Any (λ q. q ≡ r) records

module _ (sha : Sha1Hasher) where
  foldl-flatten :
      (h : sha.State) (buffers : List Bytes)
      → foldl sha.update h buffers ≡ sha.update h (flatten buffers)
  unfolding flatten
  foldl-flatten h [] = sym (sha.update_nil h)
  foldl-flatten h (b ∷ buffers) =
      foldl-flatten (sha.update h b) buffers ∙ sha.update-update h b (flatten buffers)

  index_data :
      (ignore : Bool) (out footer : Bytes) (buffers : List Bytes) (offset size : ℕ)
      (file hash : Bytes)
      → length out ≡ offset
      → length (flatten buffers) % 2 ^ 64 ≡ size
      → sha.finish (foldl sha.update sha.new buffers) ≡ hash
      → out ++ (flatten buffers ++ footer) ≡ file
      → length file < 2 ^ 63
      → check_data sha ignore file offset size hash ≡ done tt
  index_data ignore out footer buffers offset size file hash offset_is size_is hash_is file_is
        fits =
      let index = flatten buffers in
      let parts : length out + (length index + length footer) < 2 ^ 63 = omega (
        arith,
        ap length file_is,
        length-append out (index ++ footer),
        length-append index footer,
      ) in
      let size_is' : length index ≡ size = omega (arith, size_is) in
      let hash_is' : sha.finish (sha.update sha.new index) ≡ hash =
        rw (foldl-flatten sha.new buffers) at hash_is in
      rw (← offset_is, ← size_is', ← hash_is', ← file_is)
        (check_data_lem sha ignore out index footer (sha.finish (sha.update sha.new index))
            (omega arith)
          ∙ rw (bytes_eq_refl (sha.finish (sha.update sha.new index)))
              (rw (or_true (ignore && bytes_eq (sha.finish (sha.update sha.new index)) null_sha1))))

-- What is so of each record is so of one among them.
Each-IsAmong :
    (Q : Bytes → Record → Type 0) (R : Item → Type 0) (file : Bytes) (records : List Record)
    (items : List Item)
    → Each (λ file r i. R i → Q file r) file records items
    → All R items
    → (r : Record) → IsAmong records r
    → Q file r
Each-IsAmong Q R file [] items each all r among = absurd among
Each-IsAmong Q R file (q ∷ records) [] each all r among = cc
Each-IsAmong Q R file (q ∷ records) (i ∷ items) each all r among = elim among [
  | inl same ↦ rw (← same) (each.0 all.0)
  | inr later ↦ Each-IsAmong Q R file records items each.1 all.1 r later
]

All-map :
    {P Q : Record → Type 0} (f : (r : Record) → P r → Q r) (records : List Record)
    → All P records
    → All Q records
All-map f [] all = tt
All-map f (r ∷ records) (p, all) = (f r p, All-map f records all)

All-All-map :
    {P Q : Record → Type 0} (f : (r : Record) → P r → Q r) (threads : List (List Record))
    → All (All P) threads
    → All (All Q) threads
All-All-map f [] all = tt
All-All-map f (records ∷ threads) (p, all) = (All-map f records p, All-All-map f threads all)

module _ (sha : Sha1Hasher) (zlib : Zlib) (options : PackOptions) (check_options : CheckOptions)
    (read : Bytes → Reader Record)
    (reader : record_reader standard options.version ≡ done read) where
  abbrev Passes : ℕ → Bytes → Record → Type 0
  Passes index_offset file r =
      check_record sha check_options.abort_on_error check_options.ignore_null_checksums standard
        options.version index_offset read file r
      ≡ done nothing

  IsArchive-Passes :
      (items : List Item) {file : Bytes} {pak : Pak}
      → options.variant ≡ standard
      → options.version < 4
      → All (IsItem sha zlib options.version) items
      → total items < 2 ^ 62
      → pack sha options (map sent_item items) ≡ done (file, pak)
      → length file < 2 ^ 63
      → IsArchive sha options zlib
          (λ file r i. HasFewBlocks i → Passes (total items) file r)
          items
          file
          pak
  IsArchive-Passes items normal old sends small packed fits =
      pack-IsArchive sha options zlib (λ file r i. HasFewBlocks i → Passes (total items) file r)
        items normal
        (λ write writer front back i sends' within inside few.
          check_record-IsSent sha zlib options.version old write writer read reader
            check_options.abort_on_error check_options.ignore_null_checksums front back i sends'
            (total items) few within inside)
        sends small packed fits

  -- Check returns 0 for the archive that pack makes of the results that workers sent for some
  -- files, in any order, whatever its options are but that it is told the variant and no paths,
  -- if no name comes twice and each thread receives records of the archive; for a version below
  -- 4 of which check has a reader, a u32 counting the blocks of each record, less than 2 ^ 62
  -- bytes of data and a file of less than 2 ^ 63 bytes.
  pub check-pack :
      (items : List Item) {file : Bytes} {pak : Pak}
      → options.variant ≡ standard
      → options.version < 4
      → All (IsItem sha zlib options.version) items
      → All HasFewBlocks items
      → total items < 2 ^ 62
      → pack sha options (map sent_item items) ≡ done (file, pak)
      → length file < 2 ^ 63
      → check_options.variant ≡ standard
      → check_options.paths ≡ none
      → AreNew [] pak.index.records
      → (threads : List (List Record)) → All (All (IsAmong pak.index.records)) threads
      → check sha check_options pak file threads ≡ done 0
  check-pack items {file} {pak} normal old sends few small packed fits standard_too all new threads
        among =
      let archive = IsArchive-Passes items normal old sends small packed fits in
      let finished = archive.finished in
      let w = archive.written in
      let offset_is : total items ≡ pak.index_offset =
        sym archive.out_size ∙ sym archive.data_size_is ∙ finished.offset_is in
      let clean : (r : Record)
          → IsAmong pak.index.records r
          → IsClean sha check_options pak file read r =
        λ r a.
          rw (standard_too, ← finished.version_is, ← offset_is)
            (Each-IsAmong (Passes (total items)) HasFewBlocks file pak.index.records items
              archive.each few r a) in
      check-IsClean sha check_options pak file read threads
        (index_data sha check_options.ignore_null_checksums w.out finished.footer finished.buffers
          pak.index_offset pak.index_size file pak.index_sha1
          (sym archive.data_size_is ∙ finished.offset_is) finished.size_is finished.sha1_is
          finished.file_is fits)
        (rw (standard_too, ← finished.version_is) reader) all new (All-All-map clean threads among)
