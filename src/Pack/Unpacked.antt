-- ===== src/Pack/Unpacked.antt =====
-- src/pack.rs and src/unpack.rs: a record that `pack` puts into a file is unpacked to the file that
-- it stands for.
use rust_u4pak.Common.{ℕ, ◌^◌, ◌<◌, ◌≡◌, ◌∙◌, sym, ap, Option, List, ◌++◌, Bytes, length}
use rust_u4pak.Io.{done}
use rust_u4pak.Crypto.{Sha1Hasher, Zlib}
use rust_u4pak.Decrypt.{Cipher}
use rust_u4pak.PakPath.{parse_pak_path}
use rust_u4pak.Record.{Record, move_to}
use rust_u4pak.Index.Legacy.{standard}
use rust_u4pak.Pack.Archive.{inline_writer}
use rust_u4pak.Unpack.{unpack_record}
use rust_u4pak.Unpack.Records.{IsPacked, unpack_record-IsPacked}
use rust_u4pak.Pack.Placed.{length-header}
use rust_u4pak.Pack.Received.{Item, IsItem, Each}

module _ (zlib : Zlib) (aes : Cipher) (key : Option Bytes) (version : ℕ) where
  abbrev pub Unpacks : Bytes → Record → Item → Type 0
  Unpacks file r i =
      unpack_record zlib aes version standard key file r
      ≡ done (parse_pak_path i.packed.filename, i.content)

  -- The records of a file are unpacked to the paths and contents of the items, in this order.
  abbrev pub Recovers : Bytes → List Record → List Item → Type 0
  Recovers = Each Unpacks

  pub unpack_record-IsSent :
      (sha : Sha1Hasher) (write : Record → Bytes)
      (writer : inline_writer standard version ≡ done write) (old : version < 4)
      (front back : Bytes) (i : Item) (sends : IsItem sha zlib version i)
      → let moved = move_to version (length front) i.packed in
        length (front ++ (write moved ++ (sends.body ++ back))) < 2 ^ 63
        → Unpacks (front ++ (write moved ++ (sends.body ++ back))) moved i
  unpack_record-IsSent sha write writer old front back i sends fits =
      let head = write (move_to version (length front) i.packed) in
      let same = length-header version write writer sha zlib i.packed sends (length front) in
      let packed : IsPacked zlib (length head) i.packed i.content sends.body =
        rw same sends.packed in
      unpack_record-IsPacked zlib aes version key front head back i.packed old packed
        (sends.header_is (length front) ∙ ap done (sym same)) fits
