-- ===== src/Index/Read.antt =====
-- src/index.rs: `Index` and `Index::read`.
use rust_u4pak.Common.{ℕ, Option, none, some, List, [], ◌∷◌, ◌++◌, ltb, if◌then◌else◌, Bytes}
use rust_u4pak.Io.{
  panic, conan_version, Result, done, failed, ok, err, Action, ◌>>=◌, pure, fail, attempt,
  from_here,
}
use rust_u4pak.Decrypt.{Cipher}
use rust_u4pak.Text.{Text}
use rust_u4pak.Paths.{Encoding, read_path}
use rust_u4pak.Record.{Record}
use rust_u4pak.Index.Legacy.{Variant, read_records_legacy}
use rust_u4pak.Index.Secondary.{
  SecondaryIndexInfo, read_records, read_secondary_index_records, read_buffer, decrypted, on_buffer,
}

pub record Index : Type 0 where
  pub mount_point : Option Text
  pub records : List Record

-- `if mount_point.is_empty() { None } else { Some(mount_point) }`.
abbrev pub mount_of : Text → Option Text
mount_of [] = none
mount_of (c ∷ t) = some (c ∷ t)

-- `.expect(...)`: an error is a panic.
abbrev pub expect {ℓ} : {S : Type 0} {A : Type ℓ} → Action S A → Action S A
expect m s = elim (m s) [ ok a s' ↦ ok a s' | err e s' ↦ err panic s' ]

-- The records of the directories, if they can be read, behind the records of the index.
abbrev with_secondary : List Record → Result (List Record) → List Record
with_secondary r (done more) = r ++ more
with_secondary r (failed e) = r

module _ (aes : Cipher) (file : Bytes) where
  abbrev records_of :
      ℕ
      → Encoding
      → Option Bytes
      → Result (SecondaryIndexInfo × List Record)
      → Action ℕ (List Record)
  records_of version encoding key (failed e) = fail (conan_version version)
  records_of version encoding key (done (info, r)) = do
    more ← attempt (read_secondary_index_records aes file info key encoding)
    pure (with_secondary r more)

  -- What stands in the index buffer.
  abbrev pub index_body : ℕ → Variant → Encoding → Option Bytes → Bytes → Action ℕ Index
  index_body version variant encoding key buffer pos = elim (read_path encoding buffer) [
    | err e rest ↦ err e pos
    | ok mount rest ↦
        (if ltb version 10
            then (do
              records ← on_buffer (expect (read_records_legacy version variant encoding)) rest
              pure (record { mount_point = mount_of mount; records = records }))
            else (do
              read ← on_buffer (attempt (read_records encoding)) rest
              records ← records_of version encoding key read
              pure (record { mount_point = mount_of mount; records = records })))
          pos
  ]

  unfoldable pub read_index : ℕ → ℕ → Variant → Encoding → Option Bytes → Action ℕ Index
  unfolding read_records_legacy read_records read_secondary_index_records read_buffer
  read_index index_size version variant encoding key = do
    index_buff ← from_here file (read_buffer index_size)
    decrypted_index ← decrypted aes key index_buff
    index_body version variant encoding key decrypted_index
