-- ===== src/Tables.antt =====
-- src/util.rs: `format_size` and the tables, as the text that they print; `compression_method_name`
-- and `HexDisplay` of src/pak.rs.
pub mod Widths
use rust_u4pak.Common.{
  ℕ, zero, suc, ◌+◌, ◌-◌, ◌*◌, ◌/◌, ◌%◌, ◌^◌, Bool, true, false, not, ◌&&◌, List, [], ◌∷◌, ◌++◌,
  ltb, leb, ◌==◌, if◌then◌else◌, Bytes, length, replicate, foldl,
}
use rust_u4pak.Common.Texts.{codes}
use rust_u4pak.Text.{Text}
use rust_u4pak.Record.{compr_none, compr_zlib, compr_bias_memory, compr_bias_speed}

-- `{}` of an unsigned integer: its digits, of which a `u64` has at most 20.
unfoldable pub digits : ℕ → ℕ → Text
digits zero n = []
digits (suc fuel) n =
    let front = digits fuel (n / 10) in
    if ltb n 10 then (b'0' + n) ∷ [] else front ++ (b'0' + n % 10) ∷ []

abbrev pub format_u64 : ℕ → Text
format_u64 = digits 20

-- `{:.1}` of `n as f64 / 1024.0` for `n` below 2 ^ 53, which is exact: the tenths, rounded to the
-- nearest, and to the even ones in the middle.
abbrev pub tenths : ℕ → ℕ
tenths n =
    let q = n * 10 / 1024 in
    let r = n * 10 % 1024 in
    if ltb r 512 then q else if (r == 512) && (q % 2 == 0) then q else q + 1

unfoldable pub format_tenths : ℕ → Text
unfolding digits
format_tenths t = format_u64 (t / 10) ++ b'.' ∷ (b'0' + t % 10) ∷ []

abbrev pub in_unit : ℕ → ℕ → Text
in_unit n unit = format_tenths (tenths n) ++ b' ' ∷ unit ∷ []

unfoldable pub format_size : ℕ → Text
unfolding format_tenths
format_size size =
    if leb (2 ^ 60) size
    then in_unit (size / 2 ^ 50) b'E'
    else if leb (2 ^ 50) size
    then in_unit (size / 2 ^ 40) b'P'
    else if leb (2 ^ 40) size
    then in_unit (size / 2 ^ 30) b'T'
    else if leb (2 ^ 30) size
    then in_unit (size / 2 ^ 20) b'G'
    else if leb (2 ^ 20) size
    then in_unit (size / 2 ^ 10) b'M'
    else if leb (2 ^ 10) size
    then in_unit size b'K'
    else format_u64 size ++ b' ' ∷ b'B' ∷ []

abbrev pub compression_method_name : ℕ → Text
compression_method_name method =
    if method == compr_none
    then codes "-"
    else if method == compr_zlib
    then codes "zlib"
    else if method == compr_bias_memory
    then codes "bias memory"
    else if method == compr_bias_speed
    then codes "bias speed"
    else codes "unknown"

-- `HexDisplay`: two digits for each byte.
abbrev pub hex_digit : ℕ → ℕ
hex_digit n = if ltb n 10 then b'0' + n else b'a' + (n - 10)

unfoldable pub hex_display : Bytes → Text
hex_display [] = []
hex_display (b ∷ bytes) = hex_digit (b / 16) ∷ hex_digit (b % 16) ∷ hex_display bytes

pub data Align : Type 0 where
  left right : Align

abbrev pub is_right : Align → Bool
is_right left = false
is_right right = true

-- `{:>1$}` and `{:<1$}`.
abbrev pub pad_left : ℕ → Text → Text
pad_left len cell = replicate (len - length cell) b' ' ++ cell

abbrev pub pad_right : ℕ → Text → Text
pad_right len cell = cell ++ replicate (len - length cell) b' '

-- A cell, by whether it is the last of its row.
abbrev pub format_cell : Align → Bool → ℕ → Text → Text
format_cell right last len cell = pad_left len cell
format_cell left true len cell = cell
format_cell left false len cell = pad_right len cell

abbrev pub is_last : List Text → Bool
is_last [] = true
is_last (cell ∷ cells) = false

abbrev pub spacing : Bool → Text
spacing true = []
spacing false = codes "  "

-- The loop over the cells, which ends with the shortest of the three lists.
unfoldable pub print_cells : Bool → List Text → List ℕ → List Align → Text
print_cells first (cell ∷ row) (len ∷ lens) (a ∷ align) =
    spacing first ++ (format_cell a (is_last row) len cell ++ print_cells false row lens align)
print_cells first _ _ _ = []

unfoldable pub print_row : List Text → List ℕ → List Align → Text
unfolding print_cells
print_row row lens align = print_cells true row lens align ++ b'\n' ∷ []

-- The maximum of the lengths so far and those of a row's cells.
unfoldable pub widen : List ℕ → List Text → List ℕ
widen (len ∷ lens) (cell ∷ row) =
    (if ltb len (length cell) then length cell else len) ∷ widen lens row
widen lens _ = lens

abbrev pub sum : List ℕ → ℕ
sum [] = 0
sum (n ∷ ns) = n + sum ns

abbrev pub line_len : List ℕ → ℕ
line_len [] = 0
line_len (len ∷ lens) = sum (len ∷ lens) + 2 * length lens

unfoldable pub print_rows : List (List Text) → List ℕ → List Align → Text
unfolding print_row
print_rows [] lens align = []
print_rows (row ∷ body) lens align = print_row row lens align ++ print_rows body lens align

abbrev pub table_lens : List Text → List Align → List (List Text) → List ℕ
table_lens header align body = foldl widen (widen (replicate (length align) 0) header) body

unfoldable pub print_table : List Text → List Align → List (List Text) → Text
unfolding widen print_rows
print_table header align body =
    let lens = table_lens header align body in
    print_row header lens align
    ++ (replicate (line_len lens) b'-' ++ (b'\n' ∷ print_rows body lens align))

-- `while lens.len() < row.len() { lens.push(0) }`.
unfoldable pub extend : List ℕ → List Text → List ℕ
extend lens [] = lens
extend [] (cell ∷ row) = 0 ∷ extend [] row
extend (len ∷ lens) (cell ∷ row) = len ∷ extend lens row

unfoldable pub print_headless_table : List (List Text) → List Align → Text
unfolding extend widen print_rows
print_headless_table body align =
    print_rows body (foldl (λ lens row. widen (extend lens row) row) [] body) align
