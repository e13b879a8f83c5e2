-- ===== src/Unpack/Whole.antt =====
-- src/unpack.rs: `unpack` and `unpack_iter`. The threads decide in which order the results for
-- the records arrive: that is `arrive`.
use rust_u4pak.Common.{
  ℕ, Bool, true, false, Option, none, some, List, [], ◌∷◌, ◌++◌, ◌==◌, if◌then◌else◌, Bytes, length,
}
use rust_u4pak.Common.Texts.{codes}
use rust_u4pak.Io.{Result, done, failed, paths_not_found}
use rust_u4pak.Results.{◌>>=◌}
use rust_u4pak.Crypto.{Zlib}
use rust_u4pak.Decrypt.{Cipher}
use rust_u4pak.Text.{Text}
use rust_u4pak.Record.{Record, compr_none}
use rust_u4pak.Pak.{Pak}
use rust_u4pak.Filter.{from_paths, assert_all_visited, non_visited_paths}
use rust_u4pak.Filter.Selected.{visited_records}
use rust_u4pak.Unpack.Defs.{unpack_record}

pub record UnpackOptions : Type 0 where
  pub dirname_from_compression : Bool
  pub paths : Option (List Text)
  pub encryption_key : Option Bytes

-- The `Default` of `UnpackOptions`.
abbrev pub default_options : UnpackOptions
default_options = record { dirname_from_compression = false; paths = none; encryption_key = none }

-- The directory of a record: the components of its path.
unfoldable pub work_outdir : List Text → Bool → ℕ → List Text
work_outdir outdir false method = outdir
work_outdir outdir true method =
    if method == compr_none then outdir ++ codes "none" ∷ [] else outdir ++ codes "zlib" ∷ []

-- A file that is written: the components of its path, and its bytes.
abbrev pub Unpacked : Type 0
Unpacked = List Text × Bytes

module _ (zlib : Zlib) (aes : Cipher) (pak : Pak) (file : Bytes) (outdir : List Text)
    (options : UnpackOptions) where
  -- The body of the loop of `worker_proc`.
  unfoldable pub unpack_work : Record → Result Unpacked
  unfolding work_outdir
  unpack_work r = do
    out ← unpack_record zlib aes pak.version pak.variant options.encryption_key file r
    done (work_outdir outdir options.dirname_from_compression r.compression_method ++ out.0, out.1)

  -- The loop that receives the results, which ends with the first error.
  unfoldable pub unpack_iter : List Record → Result (List Unpacked)
  unfolding unpack_work
  unpack_iter [] = done []
  unpack_iter (r ∷ records) =
      let rest = unpack_iter records in unpack_work r >>= λ f. rest >>= λ files. done (f ∷ files)

  unfoldable pub unpack : (List Record → List Record) → Result (List Unpacked)
  unfolding unpack_iter visited_records assert_all_visited
  unpack arrive = elim options.paths [
    | none ↦ unpack_iter (arrive pak.index.records)
    | some paths ↦
        let (records, f) = visited_records (from_paths paths) pak.index.records in
        unpack_iter (arrive records) >>= λ files.
        if assert_all_visited f
        then done files
        else failed (paths_not_found (length (non_visited_paths f)))
  ]
