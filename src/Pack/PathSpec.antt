-- ===== src/Pack/PathSpec.antt =====
-- src/pack.rs: `PackPath::new`, its `TryFrom<&str>` and the defaults of `PackOptions`.
pub mod Laws
use rust_u4pak.Common.{
  ℕ, arith, Bool, true, false, Bool-cases, ◌&&◌, Option, none, some, List, [], ◌∷◌, ◌++◌, ◌*◌, ◌≡◌,
  ◌⊎◌, inl, inr, refl, ◌<◌, ◌^◌, ltb, ◌==◌, if◌then◌else◌, bytes_eq,
}
use rust_u4pak.Common.Texts.{codes}
use rust_u4pak.Io.{Result, done, failed, illegal_spec}
use rust_u4pak.Results.{◌>>=◌, >>=-eq-done, Result-cases}
use rust_u4pak.Text.{Text}
use rust_u4pak.PakPath.{split}
use rust_u4pak.Paths.{utf8}
use rust_u4pak.Sizes.{is_word, parse_size, parse_compression_level, parse_compression_level-eq-done}
use rust_u4pak.Record.{compr_none, compr_zlib}
use rust_u4pak.Index.Legacy.{standard}
use rust_u4pak.Pack.Defs.{PackPath, PackOptions, compr_default}

-- `DEFAULT_BLOCK_SIZE`, `DEFAULT_COMPRESSION_LEVEL` and `DEFAULT_MIN_COMPRESSION_SIZE`.
abbrev pub default_block_size : ℕ
default_block_size = 64 * 1024

abbrev pub default_compression_level : ℕ
default_compression_level = 6

abbrev pub default_min_compression_size : ℕ
default_min_compression_size = 100

abbrev pub default_options : PackOptions
default_options = record {
  variant = standard;
  version = 3;
  mount_point = none;
  compression_method = compr_none;
  compression_block_size = default_block_size;
  compression_min_size = default_min_compression_size;
  compression_level = default_compression_level;
  encoding = utf8;
}

-- `PackPath::new`.
abbrev pub new : Text → PackPath
new filename = record {
  compression_method = compr_default;
  compression_block_size = none;
  compression_level = none;
  filename = filename;
  rename = none;
}

-- `find`, `split_at` behind what is found, and the first part without its last character.
abbrev cons_part : ℕ → Option (Text × Text) → Option (Text × Text)
cons_part c none = none
cons_part c (some (front, rest)) = some (c ∷ front, rest)

unfoldable pub split_behind : ℕ → Text → Option (Text × Text)
split_behind mark [] = none
split_behind mark (c ∷ t) =
    let later = split_behind mark t in if c == mark then some ([], t) else cons_part c later

-- The variables of the loop over the parameters.
pub record Params : Type 0 where
  pub compression_method : ℕ
  pub compression_block_size : Option ℕ
  pub compression_level : Option ℕ
  pub rename : Option Text

abbrev pub default_params : Params
default_params = record {
  compression_method = compr_default;
  compression_block_size = none;
  compression_level = none;
  rename = none;
}

abbrev pub sized : Result ℕ → Params → Result Params
sized (done n) ps =
    if ltb 0 n && ltb n (2 ^ 32)
    then done (record ps { compression_block_size = some n })
    else failed illegal_spec
sized (failed e) ps = failed illegal_spec

-- A parameter with a value.
unfoldable pub parse_value : Text → Text → Params → Result Params
unfolding bytes_eq parse_size parse_compression_level
parse_value key value ps =
    if is_word (codes "level") key
    then (parse_compression_level value >>= λ n. done (record ps { compression_level = some n }))
    else if is_word (codes "block_size") key
    then if is_word (codes "default") value
      then done (record ps { compression_block_size = some default_block_size })
      else sized (parse_size value) ps
    else if is_word (codes "rename") key
    then done (record ps { rename = some value })
    else failed illegal_spec

unfoldable pub parse_param : Text → Params → Result Params
unfolding parse_value split_behind
parse_param param ps =
    if is_word (codes "zlib") param
    then done (record ps { compression_method = compr_zlib })
    else if is_word (codes "none") param
    then done (record ps { compression_method = compr_none })
    else elim (split_behind b'=' param) [
      | none ↦ failed illegal_spec
      | some (key, value) ↦ parse_value key value ps
    ]

unfoldable pub parse_params : List Text → Params → Result Params
unfolding parse_param
parse_params [] ps = done ps
parse_params (param ∷ params) ps = parse_param param ps >>= λ ps'. parse_params params ps'

abbrev from_params : Text → Params → PackPath
from_params filename ps = record {
  compression_method = ps.compression_method;
  compression_block_size = ps.compression_block_size;
  compression_level = ps.compression_level;
  filename = filename;
  rename = ps.rename;
}

-- Behind the first colon.
unfoldable pub parse_suffix : Text → Result PackPath
unfolding split_behind parse_params split
parse_suffix suffix = elim (split_behind b':' suffix) [
  | none ↦ failed illegal_spec
  | some (param_str, filename) ↦
      parse_params (split b',' param_str) default_params >>= λ ps. done (from_params filename ps)
]

unfoldable pub try_from : Text → Result PackPath
unfolding parse_suffix
try_from [] = done (new [])
try_from (c ∷ suffix) = if c == b':' then parse_suffix suffix else done (new (c ∷ suffix))
