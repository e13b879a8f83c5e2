-- ===== src/Args.antt =====
-- src/bin/u4pak/args.rs: the arguments in a file. The bytes `&source[start_index..index]` are kept
-- as they come, in `piece`.
pub mod Quoted
use rust_u4pak.Common.{
  ℕ, Bool, ◌||◌, Option, none, some, List, [], ◌∷◌, ◌++◌, ◌==◌, if◌then◌else◌, Bytes,
}
use rust_u4pak.Io.{Result, done, failed, invalid_utf8, unexpected_end}
use rust_u4pak.Results.{◌>>=◌}
use rust_u4pak.Text.{Text, from_utf8}

pub data ParseState : Type 0 where
  space comment plain_string quoted_string quote : ParseState

-- The variables of the loop.
pub record Parser : Type 0 where
  pub state : ParseState
  pub piece : Bytes
  pub buffer : Text
  pub args : List Text

abbrev pub is_ascii_whitespace : ℕ → Bool
is_ascii_whitespace b = (b == b' ') || (b == 0x09) || (b == 0x0A) || (b == 0x0C) || (b == 0x0D)

-- `buffer.push_str` of the piece.
abbrev pub push_piece : Parser → Result Parser
push_piece p = elim (from_utf8 p.piece) [
  | none ↦ failed invalid_utf8
  | some value ↦ done (record p { piece = []; buffer = p.buffer ++ value })
]

-- The argument that ends.
abbrev pub push_arg : Parser → Parser
push_arg p = record p { state = space; buffer = []; args = p.args ++ (p.buffer ∷ []) }

abbrev pub step_in : ParseState → ℕ → Parser → Result Parser
step_in space byte p = done (
    if byte == b'"'
    then record p { state = quoted_string; piece = [] }
    else if byte == b'#'
    then record p { state = comment }
    else if is_ascii_whitespace byte
    then p
    else record p { state = plain_string; piece = byte ∷ [] })
step_in comment byte p = done (if byte == 0x0A then record p { state = space } else p)
step_in plain_string byte p =
    if is_ascii_whitespace byte
    then (push_piece p >>= λ p'. done (push_arg p'))
    else if byte == b'"'
    then (push_piece p >>= λ p'. done (record p' { state = quoted_string }))
    else done (record p { piece = p.piece ++ (byte ∷ []) })
step_in quoted_string byte p = done (
    if byte == b'"'
    then record p { state = quote }
    else record p { piece = p.piece ++ (byte ∷ []) })
step_in quote byte p =
    if byte == b'"'
    then done (record p { state = quoted_string; piece = []; buffer = p.buffer ++ (b'"' ∷ []) })
    else if is_ascii_whitespace byte
    then (push_piece p >>= λ p'. done (push_arg p'))
    else (push_piece p >>= λ p'. done (record p' { state = plain_string; piece = byte ∷ [] }))

-- The loop over the bytes.
unfoldable pub parse_bytes : Bytes → Parser → Result Parser
parse_bytes [] p = done p
parse_bytes (byte ∷ source) p = let rest = parse_bytes source in step_in p.state byte p >>= rest

-- Behind the end of the file.
abbrev pub finish_in : ParseState → Parser → Result (List Text)
finish_in space p = done p.args
finish_in comment p = done p.args
finish_in plain_string p = push_piece p >>= λ p'. done (push_arg p').args
finish_in quoted_string p = failed unexpected_end
finish_in quote p = push_piece p >>= λ p'. done (push_arg p').args

abbrev pub started : Text → Parser
started bin_name = record { state = space; piece = []; buffer = []; args = bin_name ∷ [] }

unfoldable pub parse_arg_file : Text → Bytes → Result (List Text)
parse_arg_file bin_name source = parse_bytes source (started bin_name) >>= λ p. finish_in p.state p
