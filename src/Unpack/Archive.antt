-- ===== src/Unpack/Archive.antt =====
-- src/unpack.rs on what src/pack.rs makes.
use mathlib.Core.List.{Mem, Perm, forall_mem-cons, not-mem-nil}
use mathlib.Core.List.Perm
use rust_u4pak.Common.{
  ◌^◌, ◌<◌, ◌≡◌, ◌∙◌, refl, sym, ap, Bool, true, false, none, List, [], ◌∷◌, ◌++◌, Bytes, length,
  map, All, ℕ,
}
use rust_u4pak.Io.{Result, done, failed}
use rust_u4pak.Results.{◌>>=◌}
use rust_u4pak.Crypto.{Sha1Hasher, Zlib}
use rust_u4pak.Decrypt.{Cipher}
use rust_u4pak.Text.{Text}
use rust_u4pak.PakPath.{parse_pak_path}
use rust_u4pak.Record.{Record, move_to}
use rust_u4pak.Index.Legacy.{standard}
use rust_u4pak.Pak.{Pak}
use rust_u4pak.Pack.{PackOptions}
use rust_u4pak.Pack.Archive.{inline_writer, pack}
use rust_u4pak.Pack.Received.{Item, sent_item, total, IsItem, Each}
use rust_u4pak.Pack.Whole.{HoldsAt, pack-IsArchive}
use rust_u4pak.Pack.Unpacked.{Unpacks, unpack_record-IsSent}
use rust_u4pak.Unpack.Whole.{UnpackOptions, work_outdir, Unpacked, unpack_work, unpack_iter, unpack}

abbrev is_done {ℓ} : {A : Type ℓ} → Result A → Bool
is_done (done a) = true
is_done (failed e) = false

abbrev or_default {ℓ} : {A : Type ℓ} → A → Result A → A
or_default a (done b) = b
or_default a (failed e) = a

is_done-eq {ℓ} : {A : Type ℓ} (a : A) (m : Result A) → is_done m ≡ true → m ≡ done (or_default a m)
is_done-eq a (done b) h = refl
is_done-eq a (failed e) h = cc

-- The file that an item is unpacked to.
abbrev pub expected : List Text → UnpackOptions → Item → Unpacked
expected outdir options i = (
  work_outdir outdir options.dirname_from_compression i.packed.compression_method
      ++ parse_pak_path i.packed.filename,
  i.content,
)

module _ (zlib : Zlib) (aes : Cipher) (pak : Pak) (file : Bytes) (outdir : List Text)
    (options : UnpackOptions) where
  abbrev work : Record → Result Unpacked
  work = unpack_work zlib aes pak file outdir options

  abbrev file_of : Record → Unpacked
  file_of r = or_default ([], []) (work r)

  unpack_iter-done :
      (records : List Record)
      → ((r : Record) → Mem r records → is_done (work r) ≡ true)
      → unpack_iter zlib aes pak file outdir options records ≡ done (map file_of records)
  unfolding unpack_iter
  unpack_iter-done [] h = refl
  unpack_iter-done (r ∷ records) h =
      let (first, others) = (forall_mem-cons λ r. hlevel).0 h in
      let rest = unpack_iter-done records others in
      rw (is_done-eq ([], []) (work r) first, ◌>>=◌) (rw (rest, ◌>>=◌))

  abbrev Works : Bytes → Record → Item → Type 0
  Works bytes r i =
      unpack_work zlib aes pak file outdir options r ≡ done (expected outdir options i)

  Works-done :
      (records : List Record) (items : List Item)
      → Each Works file records items
      → (r : Record) → Mem r records
      → is_done (work r) ≡ true
  Works-done [] [] each = λ r m. absurd (not-mem-nil m)
  Works-done (r ∷ records) (i ∷ items) each =
      (forall_mem-cons λ r. hlevel).1 (ap is_done each.0, Works-done records items each.1)
  Works-done [] (i ∷ items) each = cc
  Works-done (r ∷ records) [] each = cc

  Works-files :
      (records : List Record) (items : List Item)
      → Each Works file records items
      → map file_of records ≡ map (expected outdir options) items
  Works-files [] [] each = refl
  Works-files (r ∷ records) (i ∷ items) each = rw (each.0, Works-files records items each.1)
  Works-files [] (i ∷ items) each = cc
  Works-files (r ∷ records) [] each = cc

  -- What arrives in another order is the same.
  unpack_iter-perm :
      (records : List Record) (items : List Item) (arrived : List Record)
      → Each Works file records items
      → Perm arrived records
      → (files : List Unpacked) × (unpack_iter zlib aes pak file outdir options arrived
          ≡ done files)
        × Perm files (map (expected outdir options) items)
  unpack_iter-perm records items arrived each perm = (
    map file_of arrived,
    unpack_iter-done arrived λ r m. Works-done records items each r ((Perm.mem_iff perm).0 m),
    rw (← Works-files records items each) (Perm.map file_of perm),
  )

  Works-of_Unpacks :
      (r : Record) (i : Item)
      → pak.variant ≡ standard
      → Unpacks zlib aes options.encryption_key pak.version file r i
      → r.compression_method ≡ i.packed.compression_method
      → Works file r i
  unfolding unpack_work
  Works-of_Unpacks r i normal unpacked method = rw (normal, unpacked, method)

Each-map :
    (P Q : Bytes → Record → Item → Type 0) (file : Bytes) (records : List Record)
    (items : List Item)
    → ((r : Record) (i : Item) → P file r i → Q file r i)
    → Each P file records items
    → Each Q file records items
Each-map P Q file [] [] f each = tt
Each-map P Q file (r ∷ records) (i ∷ items) f each =
    (f r i each.0, Each-map P Q file records items f each.1)
Each-map P Q file [] (i ∷ items) f each = each
Each-map P Q file (r ∷ records) [] f each = each

module _ (sha : Sha1Hasher) (zlib : Zlib) (aes : Cipher) (options : PackOptions)
    (unpack_options : UnpackOptions) where
  abbrev Placed : Bytes → Record → Item → Type 0
  Placed file r i =
      Unpacks zlib aes unpack_options.encryption_key options.version file r i
      × (r.compression_method ≡ i.packed.compression_method)

  Placed-at :
      options.version < 4
      → (end : ℕ) (write : Record → Bytes) → inline_writer standard options.version ≡ done write
      → HoldsAt sha options zlib Placed end write
  unfolding move_to
  Placed-at old end write writer front back i sends within fits = (
    unpack_record-IsSent zlib aes unpack_options.encryption_key options.version sha write writer old
        front back i sends fits,
    refl,
  )

  -- Unpack returns, from the archive that pack makes of the results that workers sent for some
  -- files, the contents of these files at their paths below the output directory, or below its
  -- subdirectory for their compression method if the options say so, in some order, whatever the
  -- order is in which its own threads finish; with no paths in the options, for a version below
  -- 4, less than 2 ^ 62 bytes of data and a file of less than 2 ^ 63 bytes.
  pub unpack-pack :
      (items : List Item) {file : Bytes} {pak : Pak}
      → options.variant ≡ standard
      → options.version < 4
      → All (IsItem sha zlib options.version) items
      → total items < 2 ^ 62
      → pack sha options (map sent_item items) ≡ done (file, pak)
      → length file < 2 ^ 63
      → unpack_options.paths ≡ none
      → (outdir : List Text) (arrive : List Record → List Record)
      → ((records : List Record) → Perm (arrive records) records)
      → (files : List Unpacked) × (unpack zlib aes pak file outdir unpack_options arrive
          ≡ done files)
        × Perm files (map (expected outdir unpack_options) items)
  unfolding unpack
  unpack-pack items {file} {pak} normal old sends small packed fits all outdir arrive perm =
      let archive =
        pack-IsArchive sha options zlib Placed items normal
          (λ write writer. Placed-at old (total items) write writer) sends small packed fits in
      let finished = archive.finished in
      let works =
        Each-map Placed (Works zlib aes pak file outdir unpack_options) file pak.index.records items
          (λ r i p.
            Works-of_Unpacks zlib aes pak file outdir unpack_options r i
              (sym finished.variant_is ∙ normal) (rw finished.version_is at p.0) p.1)
          archive.each in
      rw all (
        unpack_iter-perm zlib aes pak file outdir unpack_options pak.index.records items
          (arrive pak.index.records) works (perm pak.index.records))
