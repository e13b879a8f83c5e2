-- ===== src/Pack/Whole.antt =====
-- src/pack.rs: the whole of `pack`, with `unpack_record` of src/unpack.rs on its result.
use rust_u4pak.Common.{
  ◌+◌, ◌^◌, ◌<◌, ◌≤◌, ◌%◌, ℕ, foldl, flatten, ◌≡◌, ◌∙◌, refl, sym, ap, arith, Option, List, [],
  ◌++◌, All, Bytes, length, length-append, map,
}
use rust_u4pak.Io.{Result, done}
use rust_u4pak.Results.{>>=-eq-done}
use rust_u4pak.Crypto.{Sha1Hasher, Zlib}
use rust_u4pak.Decrypt.{Cipher}
use rust_u4pak.Record.{Record, move_to, unwrap_or}
use rust_u4pak.Index.Legacy.{standard}
use rust_u4pak.Pak.{Pak}
use rust_u4pak.Pack.Defs.{PackOptions}
use rust_u4pak.Pack.Archive.{
  Written, nothing, inline_writer, check_method, receive, index_writer, index_buffers,
  finish_archive, pack,
}
use rust_u4pak.Pack.Received.{Item, sent_item, total, IsItem, Each, receive-Each}
use rust_u4pak.Pack.Unpacked.{Unpacks, Recovers, unpack_record-IsSent}

pair_eq :
    {A B : Type 0} {a c : A} {b d : B}
    → ◌≡◌ {A = Result (A × B)} (done (a, b)) (done (c, d))
    → (a ≡ c) × (b ≡ d)
pair_eq e = ground arith

written_eq : {a b : Written} → ◌≡◌ {A = Result Written} (done a) (done b) → a ≡ b
written_eq e = ground arith

-- What `finish_archive` makes: the data, the index and the footer, and where they stand.
pub record IsFinished (sha : Sha1Hasher) (options : PackOptions) (w : Written) (file : Bytes)
    (pak : Pak) : Type 0 where
  pub buffers : List Bytes
  pub footer : Bytes
  pub file_is : w.out ++ (flatten buffers ++ footer) ≡ file
  pub records_is : w.records ≡ pak.index.records
  pub variant_is : options.variant ≡ pak.variant
  pub version_is : options.version ≡ pak.version
  pub offset_is : w.data_size ≡ pak.index_offset
  pub size_is : length (flatten buffers) % 2 ^ 64 ≡ pak.index_size
  pub sha1_is : sha.finish (foldl sha.update sha.new buffers) ≡ pak.index_sha1

module _ (sha : Sha1Hasher) (options : PackOptions) where
  pub finish_archive-IsFinished :
      (w : Written) {file : Bytes} {pak : Pak}
      → finish_archive sha options w ≡ done (file, pak)
      → IsFinished sha options w file pak
  unfolding finish_archive
  finish_archive-IsFinished w e =
      let (write, writer, e') = >>=-eq-done (index_writer options.variant options.version) _ e in
      let (buffers, listed, e'') =
        >>=-eq-done
          (index_buffers options.encoding write (unwrap_or options.mount_point []) w.records) _
          e' in
      let same = (pair_eq e'').1 in
      record {
        buffers = buffers;
        footer = _;
        file_is = (pair_eq e'').0;
        records_is = ap (λ p. p.index.records) same;
        variant_is = ap (λ p. p.variant) same;
        version_is = ap (λ p. p.version) same;
        offset_is = ap (λ p. p.index_offset) same;
        size_is = ap (λ p. p.index_size) same;
        sha1_is = ap (λ p. p.index_sha1) same;
      }

  module _ (zlib : Zlib) where
    -- What holds of each item at its place holds in the archive.
    abbrev pub HoldsAt : (Bytes → Record → Item → Type 0) → ℕ → (Record → Bytes) → Type 0
    HoldsAt P end write =
        (front back : Bytes) (i : Item) (sends : IsItem sha zlib options.version i)
        → let moved = move_to options.version (length front) i.packed in
          length front + (length (write moved) + length sends.body) ≤ end
          → length (front ++ (write moved ++ (sends.body ++ back))) < 2 ^ 63
          → P (front ++ (write moved ++ (sends.body ++ back))) moved i

    Each-eq :
        (P : Bytes → Record → Item → Type 0) {file file' : Bytes} {records records' : List Record}
        (items : List Item)
        → file ≡ file'
        → records ≡ records'
        → Each P file records items
        → Each P file' records' items
    Each-eq P items e e' h = coe 0 1 (k. Each P (e k) (e' k) items) h

    -- The parts of an archive that `pack` makes of the results for some files.
    pub record IsArchive (P : Bytes → Record → Item → Type 0) (items : List Item) (file : Bytes)
        (pak : Pak) : Type 0 where
      pub written : Written
      pub finished : IsFinished sha options written file pak
      pub data_size_is : written.data_size ≡ length written.out
      pub out_size : length written.out ≡ total items
      pub each : Each P file pak.index.records items

    received :
        {P : Bytes → Record → Item → Type 0} (write : Record → Bytes)
        (writer : inline_writer standard options.version ≡ done write) (items : List Item)
        (w : Written) {file : Bytes} {pak : Pak}
        → HoldsAt P (total items) write
        → All (IsItem sha zlib options.version) items
        → total items < 2 ^ 62
        → receive write options.version nothing (map sent_item items) ≡ done w
        → finish_archive sha options w ≡ done (file, pak)
        → length file < 2 ^ 63
        → IsArchive P items file pak
    received {P} write writer items w {file} holds sends small got finish fits =
        let finished = finish_archive-IsFinished w finish in
        let back = flatten finished.buffers ++ finished.footer in
        let (new, tail, e, tail_size, each) =
          receive-Each sha zlib options.version write writer P (total items) holds items nothing []
            sends refl (omega arith) (omega arith) in
        let first : w.out ≡ tail = ap (λ v. v.out) (written_eq (sym got ∙ e)) in
        let whole : length w.out + length back ≡ length file =
          sym (length-append w.out back) ∙ ap length finished.file_is in
        let (new', tail', e', tail_size', each') =
          receive-Each sha zlib options.version write writer P (total items) holds items nothing
            back sends refl (omega (arith, ap length first, tail_size, whole, fits))
            (omega arith) in
        let same = written_eq (sym got ∙ e') in
        record {
          written = w;
          finished = finished;
          data_size_is = ap (λ v. v.data_size) same ∙ sym (ap (λ v. length v.out) same);
          out_size = ap (λ v. length v.out) same ∙ tail_size';
          each =
              Each-eq P items (ap (λ v. v.out ++ back) (sym same) ∙ finished.file_is)
                (ap (λ v. v.records) (sym same) ∙ finished.records_is) each';
        }

    pub pack-IsArchive :
        (P : Bytes → Record → Item → Type 0) (items : List Item) {file : Bytes} {pak : Pak}
        → options.variant ≡ standard
        → ((write : Record → Bytes)
            → inline_writer standard options.version ≡ done write
            → HoldsAt P (total items) write)
        → All (IsItem sha zlib options.version) items
        → total items < 2 ^ 62
        → pack sha options (map sent_item items) ≡ done (file, pak)
        → length file < 2 ^ 63
        → IsArchive P items file pak
    unfolding pack
    pack-IsArchive P items normal holds sends small e fits =
        let (write, writer, e') = >>=-eq-done (inline_writer options.variant options.version) _ e in
        let (checked, method, e'') = >>=-eq-done (check_method options.compression_method) _ e' in
        let (w, got, finish) =
          >>=-eq-done (receive write options.version nothing (map sent_item items)) _ e'' in
        let writer' : inline_writer standard options.version ≡ done write = rw normal at writer in
        received write writer' items w (holds write writer') sends small got finish fits

    module _ (aes : Cipher) (key : Option Bytes) where
      -- Of the results that workers sent for some files, in any order, `pack` makes an archive of which `unpack_record`
      -- unpacks each record to the path and the content of its file, in that order. The version is
      -- below 4, the data smaller than 2 ^ 62 bytes and the file smaller than 2 ^ 63.
      pub pack-Recovers :
          (items : List Item) {file : Bytes} {pak : Pak}
          → options.variant ≡ standard
          → options.version < 4
          → All (IsItem sha zlib options.version) items
          → total items < 2 ^ 62
          → pack sha options (map sent_item items) ≡ done (file, pak)
          → length file < 2 ^ 63
          → Recovers zlib aes key options.version file pak.index.records items
      pack-Recovers items normal old sends small e fits =
          (pack-IsArchive (Unpacks zlib aes key options.version) items normal
            (λ write writer front back i sends' within.
              unpack_record-IsSent zlib aes key options.version sha write writer old front back i
                sends')
            sends small e fits).each
