-- ===== src/Pak/Open.antt =====
-- src/pak.rs: `Pak::from_reader`.
use rust_u4pak.Common.{ℕ, not, ◌&&◌, Option, none, some, Bytes, ◌==◌, ltb, if◌then◌else◌}
use rust_u4pak.Word64.{add64}
use rust_u4pak.Io.{
  unknown_version, illegal_magic, illegal_index, index_bleeds, Result, done, failed, ok, Action,
  ◌>>=◌, pure, fail, attempt, seek_start,
}
use rust_u4pak.Decrypt.{Cipher}
use rust_u4pak.Index.Read.{read_index}
use rust_u4pak.Pak.Defs.{Options, Footer, Pak, pak_magic, pak_max_supported_version}
use rust_u4pak.Pak.Decode.{decode_footer, get_version}

abbrev pub position : Action ℕ ℕ
position pos = ok pos pos

module _ (aes : Cipher) (file : Bytes) (options : Options) where
  abbrev detected_footer : Result ℕ → Action ℕ Footer
  detected_footer (done version) = decode_footer file version
  detected_footer (failed e) =
      if options.ignore_magic
      then decode_footer file pak_max_supported_version
      else fail unknown_version

  abbrev checked_magic : Footer → Action ℕ Footer
  checked_magic footer =
      if not options.ignore_magic && not (footer.magic == pak_magic)
      then fail (illegal_magic footer.magic)
      else pure footer

  -- The footer, of the version that the options force or that is found.
  abbrev find_footer : Option ℕ → Action ℕ Footer
  find_footer (some version) = do footer ← decode_footer file version; checked_magic footer
  find_footer none = do version ← attempt (get_version file); detected_footer version

  -- The checks on the footer, and the index.
  unfoldable pub read_pak : Footer → Action ℕ Pak
  unfolding read_index
  read_pak footer =
      if ltb footer.footer_offset (add64 footer.index_offset footer.index_size)
      then fail (illegal_index footer.index_offset footer.index_size footer.footer_offset)
      else do
        start ← seek_start file footer.index_offset
        index ←
            read_index aes file footer.index_size footer.version options.variant options.encoding
              (if footer.encrypted then options.encryption_key else none)
        pos ← position
        if ltb footer.footer_offset pos
            then fail index_bleeds
            else pure (record {
              variant = options.variant;
              version = footer.version;
              index_offset = footer.index_offset;
              index_size = footer.index_size;
              index_sha1 = footer.index_sha1;
              index = index;
            })

  unfoldable pub from_reader : Action ℕ Pak
  unfolding decode_footer get_version read_pak
  from_reader = do footer ← find_footer options.force_version; read_pak footer
