-- ===== src/Tables/Widths.antt =====
-- src/util.rs: the widths of the rows that `print_table` prints.
use rust_u4pak.Common.{
  ℕ, suc, ◌+◌, ◌-◌, ◌≤◌, ◌≡◌, ◌∙◌, refl, sym, ap, arith, Bool, true, false, List, [], ◌∷◌, ◌++◌,
  append-nil, length, length-append, length-replicate, replicate, foldl, All,
}
use rust_u4pak.Text.{Text}
use rust_u4pak.Tables.{
  Align, left, right, pad_left, pad_right, format_cell, is_last, print_cells, print_row, widen,
  line_len, table_lens,
}

-- A row with a width for each of its cells, which is large enough.
abbrev pub Fits : List Text → List ℕ → Type 0
Fits [] [] = Unit
Fits (cell ∷ row) (len ∷ lens) = (length cell ≤ len) × Fits row lens
Fits _ _ = ⊥

-- At least as wide.
abbrev Wider : List ℕ → List ℕ → Type 0
Wider [] [] = Unit
Wider (n ∷ ns) (m ∷ ms) = (n ≤ m) × Wider ns ms
Wider _ _ = ⊥

Wider-refl : (ns : List ℕ) → Wider ns ns
Wider-refl [] = tt
Wider-refl (n ∷ ns) = (omega arith, Wider-refl ns)

Wider-trans : (ns ms ks : List ℕ) → Wider ns ms → Wider ms ks → Wider ns ks
Wider-trans [] [] [] h k = tt
Wider-trans (n ∷ ns) (m ∷ ms) (l ∷ ks) h k = (omega (arith, h.0, k.0), Wider-trans ns ms ks h.1 k.1)
Wider-trans [] [] (l ∷ ks) h k = absurd k
Wider-trans [] (m ∷ ms) ks h k = absurd h
Wider-trans (n ∷ ns) [] ks h k = absurd h
Wider-trans (n ∷ ns) (m ∷ ms) [] h k = absurd k

Fits-Wider : (row : List Text) (ns ms : List ℕ) → Fits row ns → Wider ns ms → Fits row ms
Fits-Wider [] [] [] h k = tt
Fits-Wider (cell ∷ row) (n ∷ ns) (m ∷ ms) h k =
    (omega (arith, h.0, k.0), Fits-Wider row ns ms h.1 k.1)
Fits-Wider [] [] (m ∷ ms) h k = absurd k
Fits-Wider [] (n ∷ ns) ms h k = absurd h
Fits-Wider (cell ∷ row) [] ms h k = absurd h
Fits-Wider (cell ∷ row) (n ∷ ns) [] h k = absurd k

widen-Wider : (lens : List ℕ) (row : List Text) → Wider lens (widen lens row)
unfolding widen
widen-Wider [] row = tt
widen-Wider (len ∷ lens) [] = Wider-refl (len ∷ lens)
widen-Wider (len ∷ lens) (cell ∷ row) = (ground arith, widen-Wider lens row)

length-widen : (lens : List ℕ) (row : List Text) → length (widen lens row) ≡ length lens
unfolding widen
length-widen [] row = refl
length-widen (len ∷ lens) [] = refl
length-widen (len ∷ lens) (cell ∷ row) = ap suc (length-widen lens row)

widen-Fits :
    (lens : List ℕ) (row : List Text) → length row ≡ length lens → Fits row (widen lens row)
unfolding widen
widen-Fits [] [] h = tt
widen-Fits [] (cell ∷ row) h = absurd (omega (arith, h))
widen-Fits (len ∷ lens) [] h = absurd (omega (arith, h))
widen-Fits (len ∷ lens) (cell ∷ row) h = (ground arith, widen-Fits lens row (omega (arith, h)))

length-foldl :
    (body : List (List Text)) (lens : List ℕ) → length (foldl widen lens body) ≡ length lens
length-foldl [] lens = refl
length-foldl (row ∷ body) lens = length-foldl body (widen lens row) ∙ length-widen lens row

foldl-Wider : (body : List (List Text)) (lens : List ℕ) → Wider lens (foldl widen lens body)
foldl-Wider [] lens = Wider-refl lens
foldl-Wider (row ∷ body) lens =
    Wider-trans lens (widen lens row) (foldl widen (widen lens row) body) (widen-Wider lens row)
      (foldl-Wider body (widen lens row))

rows_of_length :
    (body : List (List Text)) {n m : ℕ}
    → n ≡ m
    → All (λ row. length row ≡ n) body
    → All (λ row. length row ≡ m) body
rows_of_length body same all = coe 0 1 (i. All (λ row. length row ≡ same i) body) all

foldl-Fits :
    (body : List (List Text)) (lens : List ℕ)
    → All (λ row. length row ≡ length lens) body
    → All (λ row. Fits row (foldl widen lens body)) body
foldl-Fits [] lens all = tt
foldl-Fits (row ∷ body) lens all = (
  Fits-Wider row (widen lens row) (foldl widen (widen lens row) body) (widen-Fits lens row all.0)
      (foldl-Wider body (widen lens row)),
  foldl-Fits body (widen lens row) (rows_of_length body (sym (length-widen lens row)) all.1),
)

abbrev pub ends_right : List Align → Bool
ends_right [] = false
ends_right (right ∷ []) = true
ends_right (left ∷ []) = false
ends_right (a ∷ b ∷ align) = ends_right (b ∷ align)

length-pad_left : (len : ℕ) (cell : Text) → length cell ≤ len → length (pad_left len cell) ≡ len
length-pad_left len cell h = omega (
  arith,
  length-append (replicate (len - length cell) b' ') cell,
  length-replicate {A = ℕ} (len - length cell) b' ',
)

length-pad_right : (len : ℕ) (cell : Text) → length cell ≤ len → length (pad_right len cell) ≡ len
length-pad_right len cell h = omega (
  arith,
  length-append cell (replicate (len - length cell) b' '),
  length-replicate {A = ℕ} (len - length cell) b' ',
)

-- What a row fills of `n` places: no more, and all if it ends at the right.
abbrev FillsIf : Bool → ℕ → ℕ → Type 0
FillsIf true n k = k ≡ n
FillsIf false n k = k ≤ n

abbrev pub Fills : List Align → ℕ → ℕ → Type 0
Fills align = FillsIf (ends_right align)

-- With something in front of both.
Fills-add :
    (align : List Align) (n k m n' k' : ℕ)
    → n' ≡ m + n
    → k' ≡ m + k
    → Fills align n k
    → Fills align n' k'
Fills-add align n k m n' k' e e' h = go (ends_right align) h
  where
    go : (b : Bool) → FillsIf b n k → FillsIf b n' k'
    go true h = omega arith
    go false h = omega arith

length-last_cell :
    (a : Align) (len : ℕ) (cell : Text)
    → length cell ≤ len
    → Fills (a ∷ []) len (length (format_cell a true len cell))
length-last_cell right len cell h = length-pad_left len cell h
length-last_cell left len cell h = h

length-inner_cell :
    (a : Align) (len : ℕ) (cell : Text)
    → length cell ≤ len
    → length (format_cell a false len cell) ≡ len
length-inner_cell right len cell h = length-pad_left len cell h
length-inner_cell left len cell h = length-pad_right len cell h

-- A row from one of its cells on, without the space in front.
print_cells-Fills :
    (cell : Text) (row : List Text) (len : ℕ) (lens : List ℕ) (a : Align) (align : List Align)
    → length cell ≤ len
    → Fits row lens
    → length align ≡ length lens
    → Fills
        (a ∷ align)
        (line_len (len ∷ lens))
        (length (format_cell a (is_last row) len cell ++ print_cells false row lens align))
unfolding print_cells
print_cells-Fills cell [] len [] a [] h fits same =
    Fills-add (a ∷ []) len (length (format_cell a true len cell)) 0 (line_len (len ∷ []))
      (length (format_cell a true len cell ++ [])) (omega arith)
      (ap length (append-nil (format_cell a true len cell)) ∙ omega arith)
      (length-last_cell a len cell h)
print_cells-Fills cell (d ∷ row) len (n ∷ lens) a (b ∷ align) h fits same =
    let rest = print_cells-Fills d row n lens b align fits.0 fits.1 (omega (arith, same)) in
    let more = format_cell b (is_last row) n d ++ print_cells false row lens align in
    let inner = length-inner_cell a len cell h in
    let all = length-append (format_cell a false len cell) (b' ' ∷ b' ' ∷ more) in
    Fills-add (b ∷ align) (line_len (n ∷ lens)) (length more) (len + 2) (line_len (len ∷ n ∷ lens))
      (length (format_cell a false len cell ++ b' ' ∷ b' ' ∷ more)) (omega arith)
      (omega (arith, inner, all)) rest
print_cells-Fills cell [] len [] a (b ∷ align) h fits same = absurd (omega (arith, same))
print_cells-Fills cell (d ∷ row) len (n ∷ lens) a [] h fits same = absurd (omega (arith, same))
print_cells-Fills cell [] len (n ∷ lens) a align h fits same = absurd fits
print_cells-Fills cell (d ∷ row) len [] a align h fits same = absurd fits

print_row-Fills :
    (row : List Text) (lens : List ℕ) (align : List Align)
    → Fits row lens
    → length align ≡ length lens
    → Fills align (line_len lens + 1) (length (print_row row lens align))
unfolding print_row print_cells
print_row-Fills [] [] [] fits same = omega arith
print_row-Fills (cell ∷ row) (len ∷ lens) (a ∷ align) fits same =
    let cells = print_cells-Fills cell row len lens a align fits.0 fits.1 (omega (arith, same)) in
    let all =
      length-append (format_cell a (is_last row) len cell ++ print_cells false row lens align)
        (b'\n' ∷ []) in
    Fills-add (a ∷ align) (line_len (len ∷ lens))
      (length (format_cell a (is_last row) len cell ++ print_cells false row lens align)) 1
      (line_len (len ∷ lens) + 1) _ (omega arith) (all ∙ omega arith) cells
print_row-Fills [] [] (a ∷ align) fits same = absurd (omega (arith, same))
print_row-Fills (cell ∷ row) (len ∷ lens) [] fits same = absurd (omega (arith, same))
print_row-Fills [] (len ∷ lens) align fits same = absurd fits
print_row-Fills (cell ∷ row) [] align fits same = absurd fits

rows-Fills :
    (rows : List (List Text)) (lens : List ℕ) (align : List Align)
    → length align ≡ length lens
    → All (λ row. Fits row lens) rows
    → All (λ row. Fills align (line_len lens + 1) (length (print_row row lens align))) rows
rows-Fills [] lens align same all = tt
rows-Fills (row ∷ rows) lens align same all =
    (print_row-Fills row lens align all.0 same, rows-Fills rows lens align same all.1)

-- Of a table in which the header and every row have as many cells as there are alignments,
-- print_row prints each of them, with the lengths that print_table finds, as wide as the line
-- below the header and its end of line if the last column stands at the right, and no wider
-- otherwise.
pub print_row-table_lens :
    (header : List Text) (align : List Align) (body : List (List Text))
    → All (λ row. length row ≡ length align) (header ∷ body)
    → let lens = table_lens header align body in
      All
        (λ row. Fills align (line_len lens + 1) (length (print_row row lens align)))
        (header ∷ body)
print_row-table_lens header align body rows =
    let zeros = replicate (length align) 0 in
    let size : length align ≡ length zeros = sym (length-replicate {A = ℕ} (length align) 0) in
    rows-Fills (header ∷ body) (table_lens header align body) align
      (size ∙ sym (length-foldl (header ∷ body) zeros))
      (foldl-Fits (header ∷ body) zeros (rows_of_length (header ∷ body) size rows))
