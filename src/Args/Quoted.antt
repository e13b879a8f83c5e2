-- ===== src/Args/Quoted.antt =====
-- src/bin/u4pak/args.rs: arguments that are written in quotes.
use rust_u4pak.Common.{
  ℕ, ◌≡◌, ◌∙◌, false, some, List, [], ◌∷◌, ◌++◌, append_assoc, append-nil, ◌==◌, Bytes, All,
}
use rust_u4pak.Io.{done, failed, unexpected_end}
use rust_u4pak.Results.{◌>>=◌}
use rust_u4pak.Text.{Text, as_bytes, from_utf8}
use rust_u4pak.Text.RoundTrip.{IsText, from_utf8-as_bytes}
use rust_u4pak.Args.{Parser, space, quoted_string, quote, parse_bytes, parse_arg_file, push_piece}

-- Arguments in quotes, one in a line.
abbrev pub in_quotes : List Text → Bytes
in_quotes [] = []
in_quotes (a ∷ args) = b'"' ∷ (as_bytes a ++ (b'"' ∷ 0x0A ∷ in_quotes args))

-- A byte that is no quotation mark.
abbrev pub IsInside : ℕ → Type 0
IsInside b = (b == b'"') ≡ false

abbrev pub IsQuotable : Text → Type 0
IsQuotable a = IsText a × All IsInside (as_bytes a)

abbrev inside_quotes : Bytes → Text → List Text → Parser
inside_quotes piece buffer args = record {
  state = quoted_string;
  piece = piece;
  buffer = buffer;
  args = args;
}

abbrev between : Bytes → List Text → Parser
between piece args = record { state = space; piece = piece; buffer = []; args = args }

-- The bytes of an argument.
parse_bytes-IsInside :
    (xs s piece : Bytes) (buffer : Text) (args : List Text)
    → All IsInside xs
    → parse_bytes (xs ++ s) (inside_quotes piece buffer args)
      ≡ parse_bytes s (inside_quotes (piece ++ xs) buffer args)
unfolding parse_bytes
parse_bytes-IsInside [] s piece buffer args h = rw append-nil
parse_bytes-IsInside (x ∷ xs) s piece buffer args (first, h) =
    rw first (parse_bytes-IsInside xs s (piece ++ (x ∷ [])) buffer args h ∙ rw append_assoc)

push_piece-some :
    (p : Parser) (value : Text)
    → from_utf8 p.piece ≡ some value
    → push_piece p ≡ done (record p { piece = []; buffer = p.buffer ++ value })
push_piece-some p value h = rw (h, push_piece)

-- The quote behind an argument and the end of the line.
parse_bytes-closed :
    (s piece : Bytes) (buffer value : Text) (args : List Text)
    → from_utf8 piece ≡ some value
    → parse_bytes (b'"' ∷ 0x0A ∷ s) (inside_quotes piece buffer args)
      ≡ parse_bytes s (between [] (args ++ ((buffer ++ value) ∷ [])))
unfolding parse_bytes
parse_bytes-closed s piece buffer value args valid = rw (
  push_piece-some (record { state = quote; piece = piece; buffer = buffer; args = args }) value
      valid,
  ◌>>=◌,
)

-- An argument with its quotes and the end of the line.
parse_bytes-quoted :
    (a : Text) (s piece : Bytes) (args : List Text)
    → IsQuotable a
    → parse_bytes (b'"' ∷ (as_bytes a ++ (b'"' ∷ 0x0A ∷ s))) (between piece args)
      ≡ parse_bytes s (between [] (args ++ (a ∷ [])))
unfolding parse_bytes
parse_bytes-quoted a s piece args (text, h) =
    parse_bytes-IsInside (as_bytes a) (b'"' ∷ 0x0A ∷ s) [] [] args h
    ∙ parse_bytes-closed s (as_bytes a) [] a args (from_utf8-as_bytes a text)

parse_bytes-in_quotes :
    (more : List Text) (s piece : Bytes) (args : List Text)
    → All IsQuotable more
    → (piece' : Bytes) × (parse_bytes (in_quotes more ++ s) (between piece args)
        ≡ parse_bytes s (between piece' (args ++ more)))
parse_bytes-in_quotes [] s piece args h = (piece, rw append-nil)
parse_bytes-in_quotes (a ∷ more) s piece args (quotable, h) =
    let (piece', parsed) = parse_bytes-in_quotes more s [] (args ++ (a ∷ [])) h in
    (
      piece',
      rw append_assoc (parse_bytes-quoted a (in_quotes more ++ s) piece args quotable)
          ∙ parsed
          ∙ rw append_assoc,
    )

-- parse_arg_file reads back, behind the name of the program, arguments that are each written in
-- quotes in a line of its own, if they are texts without quotation marks.
pub parse_arg_file-in_quotes :
    (bin_name : Text) (args : List Text)
    → All IsQuotable args
    → parse_arg_file bin_name (in_quotes args) ≡ done (bin_name ∷ args)
unfolding parse_arg_file parse_bytes
parse_arg_file-in_quotes bin_name args h =
    let (piece, parsed) = parse_bytes-in_quotes args [] [] (bin_name ∷ []) h in
    rw (rw append-nil at parsed, ◌>>=◌)

-- An argument whose quote is not closed.
opened :
    (piece rest : Bytes) (args : List Text)
    → All IsInside rest
    → parse_bytes (b'"' ∷ rest) (between piece args) ≡ done (inside_quotes rest [] args)
unfolding parse_bytes
opened piece rest args inside =
    let all = parse_bytes-IsInside rest [] [] [] args inside in rw append-nil at all

-- A quote that is not closed is an error.
pub parse_arg_file-unclosed :
    (bin_name : Text) (args : List Text) (rest : Bytes)
    → All IsQuotable args
    → All IsInside rest
    → parse_arg_file bin_name (in_quotes args ++ (b'"' ∷ rest)) ≡ failed unexpected_end
unfolding parse_arg_file
parse_arg_file-unclosed bin_name args rest h inside =
    let (piece, parsed) = parse_bytes-in_quotes args (b'"' ∷ rest) [] (bin_name ∷ []) h in
    rw (parsed ∙ opened piece rest (bin_name ∷ args) inside, ◌>>=◌)

-- Of an argument in quotes with one escaped quotation mark in it, parse_arg_file keeps the mark
-- and the text behind it and loses what stands in front of it.
pub parse_arg_file-escaped :
    (bin_name : Text) (before : Bytes) (after : Text)
    → All IsInside before
    → IsQuotable after
    → parse_arg_file bin_name
        (b'"' ∷ (before ++ (b'"' ∷ b'"' ∷ (as_bytes after ++ (b'"' ∷ 0x0A ∷ [])))))
      ≡ done (bin_name ∷ (b'"' ∷ after) ∷ [])
unfolding parse_arg_file parse_bytes
parse_arg_file-escaped bin_name before after h (text, h') = rw (
  parse_bytes-IsInside before (b'"' ∷ b'"' ∷ (as_bytes after ++ (b'"' ∷ 0x0A ∷ []))) [] []
        (bin_name ∷ []) h
      ∙ parse_bytes-IsInside (as_bytes after) (b'"' ∷ 0x0A ∷ []) [] (b'"' ∷ []) (bin_name ∷ []) h'
      ∙ parse_bytes-closed [] (as_bytes after) (b'"' ∷ []) after (bin_name ∷ [])
          (from_utf8-as_bytes after text),
  ◌>>=◌,
)
