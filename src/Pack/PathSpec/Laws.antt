-- ===== src/Pack/PathSpec/Laws.antt =====
-- src/pack.rs: `TryFrom<&str>` of `PackPath`, for the specifications that it takes.
use rust_u4pak.Common.{
  ℕ, arith, Bool, true, false, Bool-cases, ◌&&◌, Option, none, some, Option-cases, List, [], ◌∷◌,
  ◌++◌, ◌≡◌, ◌⊎◌, inl, inr, refl, sym, ap, ◌<◌, ◌^◌, ltb, ◌==◌, ==_iff, if◌then◌else◌,
}
use rust_u4pak.Common.Texts.{codes}
use rust_u4pak.Io.{Result, done, failed, illegal_spec}
use rust_u4pak.Results.{◌>>=◌, >>=-eq-done}
use rust_u4pak.Text.{Text}
use rust_u4pak.PakPath.{split}
use rust_u4pak.PakPath.Splits.{has_char}
use rust_u4pak.Sizes.{is_word, parse_size, parse_compression_level, parse_compression_level-eq-done}
use rust_u4pak.Record.{compr_none, compr_zlib}
use rust_u4pak.Pack.Defs.{PackPath, compr_default}
use rust_u4pak.Pack.PathSpec.{
  new, split_behind, Params, default_params, default_block_size, sized, parse_value, parse_param,
  parse_params, parse_suffix, try_from, from_params,
}

-- What `if let` and `unwrap_or` leave to the options, or a value in these bounds.
abbrev pub IsMethod : ℕ → Type 0
IsMethod n = (n ≡ compr_default) ⊎ ((n ≡ compr_none) ⊎ (n ≡ compr_zlib))

abbrev pub IsWithin : ℕ → Option ℕ → Type 0
IsWithin bound none = Unit
IsWithin bound (some n) = (0 < n) × (n < bound)

abbrev pub HasBounds : ℕ → Option ℕ → Option ℕ → Type 0
HasBounds method block_size level =
    IsMethod method × IsWithin (2 ^ 32) block_size × IsWithin 10 level

abbrev ParamsBounds : Params → Type 0
ParamsBounds ps = HasBounds ps.compression_method ps.compression_block_size ps.compression_level

-- A text and the rest behind its first `mark`.
abbrev IsSplit : ℕ → Text → Text × Text → Type 0
IsSplit mark t parts = (t ≡ parts.0 ++ mark ∷ parts.1) × (has_char mark parts.0 ≡ false)

IsSplit-of_eq :
    (mark : ℕ) (t : Text) (p q : Text × Text)
    → IsSplit mark t p
    → some p ≡ some q
    → IsSplit mark t q
IsSplit-of_eq mark t p q s h = let same : p ≡ q = cc in rw (← same) s

IsSplit-cons :
    (mark c : ℕ) (t : Text) (parts : Text × Text)
    → (c == mark) ≡ false
    → IsSplit mark t parts
    → IsSplit mark (c ∷ t) (c ∷ parts.0, parts.1)
unfolding has_char
IsSplit-cons mark c t parts n s = (ap (◌∷◌ c) s.0, rw n s.1)

split_behind-IsSplit :
    (mark : ℕ) (t : Text) (parts : Text × Text)
    → split_behind mark t ≡ some parts
    → IsSplit mark t parts
unfolding split_behind has_char
split_behind-IsSplit mark [] parts h = cc
split_behind-IsSplit mark (c ∷ t) parts h = elim (Bool-cases (c == mark)) [
  | inl e ↦
      let same : c ≡ mark = (==_iff c mark).0 e in
      IsSplit-of_eq mark (c ∷ t) ([], t) parts (ap (λ x. x ∷ t) same, refl) (rw e at h)
  | inr n ↦ elim (Option-cases (split_behind mark t)) [
    | inl none_later ↦ absurd (let clash = rw (n, none_later) at h in cc)
    | inr (later, e) ↦
        IsSplit-of_eq mark (c ∷ t) (c ∷ later.0, later.1) parts
          (IsSplit-cons mark c t later n (split_behind-IsSplit mark t later e)) (rw (n, e) at h)
  ]
]

ParamsBounds-of_eq : (p q : Params) → ParamsBounds p → done p ≡ done q → ParamsBounds q
ParamsBounds-of_eq p q b h = let same : p ≡ q = cc in rw (← same) b

sized-HasBounds :
    (m : Result ℕ) (ps ps' : Params) → ParamsBounds ps → sized m ps ≡ done ps' → ParamsBounds ps'
sized-HasBounds (failed e) ps ps' b h = cc
sized-HasBounds (done n) ps ps' b h = elim (Bool-cases (ltb 0 n && ltb n (2 ^ 32))) [
  | inl inside ↦
      ParamsBounds-of_eq (record ps { compression_block_size = some n }) ps'
        (b.0, (ground (arith, inside), ground (arith, inside)), b.2) (rw inside at h)
  | inr outside ↦ absurd (let clash = rw outside at h in cc)
]

level-HasBounds :
    (value : Text) (ps ps' : Params)
    → ParamsBounds ps
    → (parse_compression_level value >>= λ n. done (record ps { compression_level = some n }))
      ≡ done ps'
    → ParamsBounds ps'
level-HasBounds value ps ps' b h =
    let (n, e, k) =
      >>=-eq-done (parse_compression_level value)
        (λ n. done (record ps { compression_level = some n })) h in
    ParamsBounds-of_eq (record ps { compression_level = some n }) ps'
      (b.0, b.1, parse_compression_level-eq-done value n e) k

parse_value-HasBounds :
    (key value : Text) (ps ps' : Params)
    → ParamsBounds ps
    → parse_value key value ps ≡ done ps'
    → ParamsBounds ps'
unfolding parse_value
parse_value-HasBounds key value ps ps' b h =
    by_key (is_word (codes "level") key) (is_word (codes "block_size") key)
      (is_word (codes "default") value) (is_word (codes "rename") key) h
  where
    by_key :
        (level size default rename : Bool)
        → (if level
            then (parse_compression_level value >>= λ n.
                done (record ps { compression_level = some n }))
            else if size
            then if default
              then done (record ps { compression_block_size = some default_block_size })
              else sized (parse_size value) ps
            else if rename
            then done (record ps { rename = some value })
            else failed illegal_spec)
          ≡ done ps'
        → ParamsBounds ps'
    by_key true s d r h = level-HasBounds value ps ps' b h
    by_key false true true r h =
        ParamsBounds-of_eq (record ps { compression_block_size = some default_block_size }) ps'
          (b.0, (omega arith, omega arith), b.2) h
    by_key false true false r h = sized-HasBounds (parse_size value) ps ps' b h
    by_key false false d true h = ParamsBounds-of_eq (record ps { rename = some value }) ps' b h
    by_key false false d false h = cc

parse_param-HasBounds :
    (param : Text) (ps ps' : Params)
    → ParamsBounds ps
    → parse_param param ps ≡ done ps'
    → ParamsBounds ps'
unfolding parse_param
parse_param-HasBounds param ps ps' b h =
    by_word (is_word (codes "zlib") param) (is_word (codes "none") param) (split_behind b'=' param)
      h
  where
    by_word :
        (zlib none_word : Bool) (parts : Option (Text × Text))
        → (if zlib
            then done (record ps { compression_method = compr_zlib })
            else if none_word
            then done (record ps { compression_method = compr_none })
            else elim parts [
              | none ↦ failed illegal_spec
              | some (key, value) ↦ parse_value key value ps
            ])
          ≡ done ps'
        → ParamsBounds ps'
    by_word true n p h =
        ParamsBounds-of_eq (record ps { compression_method = compr_zlib }) ps'
          (inr (inr refl), b.1, b.2) h
    by_word false true p h =
        ParamsBounds-of_eq (record ps { compression_method = compr_none }) ps'
          (inr (inl refl), b.1, b.2) h
    by_word false false none h = cc
    by_word false false (some (key, value)) h = parse_value-HasBounds key value ps ps' b h

parse_params-HasBounds :
    (params : List Text) (ps ps' : Params)
    → ParamsBounds ps
    → parse_params params ps ≡ done ps'
    → ParamsBounds ps'
unfolding parse_params
parse_params-HasBounds [] ps ps' b h = ParamsBounds-of_eq ps ps' b h
parse_params-HasBounds (param ∷ params) ps ps' b h =
    let (q, e, k) = >>=-eq-done (parse_param param ps) (λ ps'. parse_params params ps') h in
    parse_params-HasBounds params q ps' (parse_param-HasBounds param ps q b e) k

-- The two forms that a specification has, and what it keeps of the file's name.
abbrev pub IsSpecOf : Text → PackPath → Type 0
IsSpecOf spec p =
    (p ≡ new spec)
    ⊎ ((params : Text) × (spec ≡ b':' ∷ params ++ b':' ∷ p.filename)
        × (has_char b':' params ≡ false))

abbrev PathBounds : PackPath → Type 0
PathBounds p = HasBounds p.compression_method p.compression_block_size p.compression_level

new-PathBounds :
    (spec : Text) (p : PackPath) → done (new spec) ≡ done p → PathBounds p × IsSpecOf spec p
new-PathBounds spec p h =
    let same : new spec ≡ p = cc in (rw (← same) (inl refl, tt, tt), inl (sym same))

from_params-PathBounds :
    (suffix params filename : Text) (ps : Params) (p : PackPath)
    → ParamsBounds ps
    → IsSplit b':' suffix (params, filename)
    → done (from_params filename ps) ≡ done p
    → PathBounds p × IsSpecOf (b':' ∷ suffix) p
from_params-PathBounds suffix params filename ps p b s h =
    let same : from_params filename ps ≡ p = cc in
    rw (← same) (b, inr (params, ap (◌∷◌ b':') s.0, s.1))

parse_suffix-PathBounds :
    (suffix : Text) (p : PackPath)
    → parse_suffix suffix ≡ done p
    → PathBounds p × IsSpecOf (b':' ∷ suffix) p
unfolding parse_suffix
parse_suffix-PathBounds suffix p h = elim (Option-cases (split_behind b':' suffix)) [
  | inl none_behind ↦ absurd (let clash = rw (none_behind, parse_suffix) at h in cc)
  | inr ((params, filename), e) ↦
      let h' = rw (e, parse_suffix) at h in
      let (ps, parsed, k) =
        >>=-eq-done (parse_params (split b',' params) default_params)
          (λ ps. done (from_params filename ps)) h' in
      from_params-PathBounds suffix params filename ps p
        (parse_params-HasBounds (split b',' params) default_params ps (inl refl, tt, tt) parsed)
        (split_behind-IsSplit b':' suffix (params, filename) e) k
]

-- A path that try_from makes of a specification has the default method, none or zlib, a block
-- size from 1 to 2 ^ 32 - 1 if any and a level from 1 to 9 if any; and the specification is the
-- name of its file alone, with no parameter set, or a colon, parameters without a colon, a colon
-- and that name.
pub try_from-PathBounds :
    (spec : Text) (p : PackPath) → try_from spec ≡ done p → PathBounds p × IsSpecOf spec p
unfolding try_from
try_from-PathBounds [] p h = new-PathBounds [] p h
try_from-PathBounds (c ∷ suffix) p h = elim (Bool-cases (c == b':')) [
  | inl e ↦
      let same : c ≡ b':' = (==_iff c b':').0 e in
      rw same (parse_suffix-PathBounds suffix p (rw e at h))
  | inr n ↦ new-PathBounds (c ∷ suffix) p (rw n at h)
]
