-- ===== src/Pack/Archive.antt =====
-- src/pack.rs: `pack`, from the list of paths to the bytes of the file. What the workers send
-- arrives in an order that the threads decide: it is a list.
use rust_u4pak.Common.{
  ℕ, ◌%◌, ◌^◌, Bool, false, not, ◌&&◌, ◌||◌, none, some, List, [], ◌∷◌, ◌++◌, foldl, flatten, ◌==◌,
  ltb, leb, if◌then◌else◌, Bytes, bytes_eq, length, drop,
}
use rust_u4pak.Word64.{add64}
use rust_u4pak.Io.{
  Result, done, failed, panic, conan_version, conan_writing, unsupported_version,
  unsupported_method, compression_version, not_unique,
}
use rust_u4pak.Results.{◌>>=◌}
use rust_u4pak.Codec.{encode_u32, encode_u64, encode_array}
use rust_u4pak.Crypto.{Sha1Hasher}
use rust_u4pak.Text.{Text}
use rust_u4pak.PakPath.{parse_pak_path, make_pak_path, trim_end, split, non_empty}
use rust_u4pak.Paths.{Encoding, write_path}
use rust_u4pak.Record.{Record, compr_none, compr_zlib, move_to, unwrap_or}
use rust_u4pak.Record.Write.{
  write_v1, write_v2, write_v3, write_v1_inline, write_v2_inline, write_v3_inline,
  write_conan_exiles,
}
use rust_u4pak.Index.Legacy.{Variant, standard, conan_exiles}
use rust_u4pak.Pak.{Pak, pak_magic}
use rust_u4pak.Pack.Defs.{PackPath, PackOptions, SourceFile, Work, compr_default}
use rust_u4pak.Pack.Worker.{Outgoing, sent, refused, lost}

-- The writers of the two matches, and the checks in front of any output.
unfoldable pub inline_writer : Variant → ℕ → Result (Record → Bytes)
inline_writer conan_exiles version = failed conan_writing
inline_writer standard version =
    if version == 1
    then done write_v1_inline
    else if version == 2
    then done write_v2_inline
    else if version == 3
    then done write_v3_inline
    else failed (unsupported_version version)

unfoldable pub index_writer : Variant → ℕ → Result (Record → Bytes)
index_writer conan_exiles version =
    if not (version == 4) then failed (conan_version version) else done write_conan_exiles
index_writer standard version =
    if version == 1
    then done write_v1
    else if version == 2
    then done write_v2
    else if version == 3
    then done write_v3
    else failed (unsupported_version version)

abbrev pub check_method : ℕ → Result (Unit {0})
check_method method =
    if (method == compr_none) || (method == compr_zlib)
    then done tt
    else failed (unsupported_method method)

-- A file that a path leads to: its components below that path, and what opening it gives.
abbrev pub Found : Type 0
Found = List Text × Result SourceFile

-- The components that a path has in the archive: of its new name, or of the path itself.
unfoldable pub pak_components : PackPath → List Text
unfolding parse_pak_path trim_end split non_empty
pak_components path = elim path.rename [
  | some name ↦ parse_pak_path name
  | none ↦ non_empty (split b'/' (trim_end b'/' path.filename))
]

unfoldable pub seen : Text → List Text → Bool
unfolding bytes_eq
seen name [] = false
seen name (n ∷ names) = bytes_eq n name || seen name names

-- `make_filename` and `Work`, for the files of one path. The names that are in use go along.
unfoldable pub path_works : PackPath → ℕ → List Text → List Found → Result (List Text × List Work)
unfolding seen make_pak_path
path_works path method names [] = done (names, [])
path_works path method names ((below, opened) ∷ files) =
    let name = make_pak_path (pak_components path ++ below) in
    let rest = path_works path method (name ∷ names) files in
    if seen name names then failed (not_unique name) else (do
      later ← rest
      done (
        later.0,
        record { filename = name; opened = opened; path = path; compression_method = method }
            ∷ later.1,
      ))

-- The loop over the paths. `scan` is the file system: the files of a path, or its error.
module _ (scan : PackPath → Result (List Found)) (options : PackOptions) where
  abbrev method_of : PackPath → ℕ
  method_of path =
      if path.compression_method == compr_default
      then options.compression_method
      else path.compression_method

  unfoldable pub collect_works : List Text → List PackPath → Result (List Work)
  unfolding path_works pak_components
  collect_works names [] = done []
  collect_works names (path ∷ paths) =
      if ltb options.version 2 && not (method_of path == compr_none)
      then failed compression_version
      else do
        files ← scan path
        works ← path_works path (method_of path) names files
        rest ← collect_works works.0 paths
        done (works.1 ++ rest)

-- What has been written when a result arrives.
pub record Written : Type 0 where
  pub out : Bytes
  pub data_size : ℕ
  pub records : List Record

abbrev pub nothing : Written
nothing = record { out = []; data_size = 0; records = [] }

-- `data.splice(0..buffer.len(), buffer)`, which panics if there is less data.
unfoldable pub splice : Bytes → Bytes → Result Bytes
splice buffer s =
    if leb (length buffer) (length s) then done (buffer ++ drop (length buffer) s) else failed panic

-- A record with its data, at the end of what is written.
unfoldable pub append_record : (Record → Bytes) → ℕ → Written → Record → Bytes → Result Written
unfolding move_to splice
append_record write_inline version w r s =
    let moved = move_to version w.data_size r in
    do
      spliced ← splice (write_inline moved) s
      done (record {
        out = w.out ++ spliced;
        data_size = add64 w.data_size (length spliced);
        records = w.records ++ moved ∷ [];
      })

-- The loop that receives the results. An error that no worker sends is not received.
unfoldable pub receive : (Record → Bytes) → ℕ → Written → List Outgoing → Result Written
unfolding append_record
receive write_inline version w [] = done w
receive write_inline version w (sent r s ∷ results) = do
  w' ← append_record write_inline version w r s
  receive write_inline version w' results
receive write_inline version w (refused e ∷ results) = failed e
receive write_inline version w (lost e ∷ results) = receive write_inline version w results

-- The records of the index, each behind its path, as the buffers that are written.
unfoldable pub index_entries : Encoding → (Record → Bytes) → List Record → Result (List Bytes)
unfolding write_path
index_entries encoding write_record [] = done []
index_entries encoding write_record (r ∷ records) = do
  path ← write_path r.filename encoding
  rest ← index_entries encoding write_record records
  done ((path ++ write_record r) ∷ rest)

-- The index: the mount point and a count in one buffer, and the entries.
unfoldable pub index_buffers :
    Encoding → (Record → Bytes) → Text → List Record → Result (List Bytes)
unfolding index_entries
index_buffers encoding write_record mount records = do
  path ← write_path mount encoding
  entries ← index_entries encoding write_record records
  done ((path ++ encode_u32 (length records % 2 ^ 32)) ∷ entries)

-- The five fields at the end.
unfoldable pub footer_bytes : ℕ → ℕ → ℕ → Bytes → Bytes
footer_bytes version index_offset index_size index_sha1 =
    encode_u32 pak_magic
    ++ (encode_u32 version
        ++ (encode_u64 index_offset ++ (encode_u64 index_size ++ encode_array index_sha1)))

module _ (sha : Sha1Hasher) (options : PackOptions) where
  -- The index and the footer behind the data, and the value that `pack` returns.
  unfoldable pub finish_archive : Written → Result (Bytes × Pak)
  unfolding index_buffers footer_bytes index_writer
  finish_archive w = do
    write_record ← index_writer options.variant options.version
    buffers ←
        index_buffers options.encoding write_record (unwrap_or options.mount_point []) w.records
    let index = flatten buffers
    let index_sha1 = sha.finish (foldl sha.update sha.new buffers)
    let index_size = length index % 2 ^ 64
    done (
      w.out ++ (index ++ footer_bytes options.version w.data_size index_size index_sha1),
      record {
        variant = options.variant;
        version = options.version;
        index_offset = w.data_size;
        index_size = index_size;
        index_sha1 = index_sha1;
        index = record { mount_point = options.mount_point; records = w.records };
      },
    )

  -- `pack`, from the results in the order of their arrival.
  unfoldable pub pack : List Outgoing → Result (Bytes × Pak)
  unfolding inline_writer receive finish_archive
  pack results = do
    write_inline ← inline_writer options.variant options.version
    checked ← check_method options.compression_method
    w ← receive write_inline options.version nothing results
    finish_archive w
