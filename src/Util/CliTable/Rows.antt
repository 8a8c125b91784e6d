-- ===== src/Util/CliTable/Rows.antt =====
-- The rows and widths that the loops of `table` in lib/util/cli_table.js compute.
use zero_archive.Prelude.{
  ◌&&◌, Bool-cases, true, false, inl, inr, ◌∙◌, sym, ap, length, ◌++◌, some, [], ◌∷◌, zero, suc,
  refl, arith, ◌≡◌, ◌≤◌, Option, List, Text, ℕ, none,
}
use mathlib.Core.List.{append-nil, append_assoc}
use zero_archive.Util.CliTable.{column_width, cells_of, append_cells, empty_rows, fill}
use zero_archive.Util.CliTable.Counted.{
  is_counted, all_counted, columns_counted, count_of, widest_of, column_width-widest_of,
}

-- The first cell of a column, and the column behind it.
abbrev first_cell : List (Option Text) → Text
first_cell (some v ∷ column) = v
first_cell _ = []

abbrev tail : List (Option Text) → List (Option Text)
tail [] = []
tail (v ∷ column) = column

abbrev tails : List (List (Option Text)) → List (List (Option Text))
tails [] = []
tails (column ∷ columns) = tail column ∷ tails columns

-- The row of the first cells, one for each title.
unfoldable pub first_row : List Text → List (List (Option Text)) → List Text
first_row (h ∷ head) (column ∷ columns) = first_cell column ∷ first_row head columns
first_row _ _ = []

-- The columns of the titles, row by row.
unfoldable pub transposed : ℕ → List Text → List (List (Option Text)) → List (List Text)
transposed zero head columns = []
transposed (suc n) head columns = first_row head columns ∷ transposed n head (tails columns)

-- Every row longer by a row of the second list, or by a cell in front.
unfoldable pub zip_append : List (List Text) → List (List Text) → List (List Text)
zip_append (row ∷ rows) (more ∷ rest) = (row ++ more) ∷ zip_append rows rest
zip_append rows _ = rows

unfoldable pub zip_cons : List Text → List (List Text) → List (List Text)
zip_cons (cell ∷ cells) (row ∷ rows) = (cell ∷ row) ∷ zip_cons cells rows
zip_cons _ _ = []

cells_of-step :
    (n : ℕ) (column : List (Option Text))
    → cells_of (suc n) column ≡ first_cell column ∷ cells_of n (tail column)
unfolding cells_of
cells_of-step n [] = refl
cells_of-step n (none ∷ column) = refl
cells_of-step n (some v ∷ column) = refl

pub transposed-cons :
    (n : ℕ) (h : Text) (head : List Text) (column : List (Option Text))
    (columns : List (List (Option Text)))
    → transposed n (h ∷ head) (column ∷ columns)
      ≡ zip_cons (cells_of n column) (transposed n head columns)
unfolding transposed first_row zip_cons cells_of
transposed-cons zero h head column columns = refl
transposed-cons (suc n) h head column columns =
    cc (cells_of-step n column, transposed-cons n h head (tail column) (tails columns))

zip_append-cells :
    (rows : List (List Text)) (cells : List Text) (more : List (List Text))
    → length rows ≡ length cells
    → length rows ≡ length more
    → zip_append (append_cells rows cells) more ≡ zip_append rows (zip_cons cells more)
unfolding zip_append append_cells zip_cons
zip_append-cells [] cells more h e = refl
zip_append-cells (row ∷ rows) [] more h e = absurd (omega arith)
zip_append-cells (row ∷ rows) (cell ∷ cells) [] h e = absurd (omega arith)
zip_append-cells (row ∷ rows) (cell ∷ cells) (r ∷ more) h e = cc (
  append_assoc row (cell ∷ []) r,
  zip_append-cells rows cells more (omega (arith, h)) (omega (arith, e)),
)

length-cells_of : (n : ℕ) (column : List (Option Text)) → length (cells_of n column) ≡ n
unfolding cells_of
length-cells_of zero column = refl
length-cells_of (suc n) [] = ap suc (length-cells_of n [])
length-cells_of (suc n) (none ∷ column) = ap suc (length-cells_of n column)
length-cells_of (suc n) (some v ∷ column) = ap suc (length-cells_of n column)

pub length-transposed :
    (n : ℕ) (head : List Text) (columns : List (List (Option Text)))
    → length (transposed n head columns) ≡ n
unfolding transposed
length-transposed zero head columns = refl
length-transposed (suc n) head columns = ap suc (length-transposed n head (tails columns))

length-append_cells :
    (rows : List (List Text)) (cells : List Text) → length (append_cells rows cells) ≡ length rows
unfolding append_cells
length-append_cells [] cells = refl
length-append_cells (row ∷ rows) [] = refl
length-append_cells (row ∷ rows) (cell ∷ cells) = ap suc (length-append_cells rows cells)

zip_append-no_head :
    (rows : List (List Text)) (n : ℕ) (columns : List (List (Option Text)))
    → zip_append rows (transposed n [] columns) ≡ rows
unfolding zip_append transposed first_row
zip_append-no_head [] n columns = refl
zip_append-no_head (row ∷ rows) zero columns = refl
zip_append-no_head (row ∷ rows) (suc n) columns =
    cc (append-nil row, zip_append-no_head rows n (tails columns))

pub zip_append-empty_rows :
    (n : ℕ) (more : List (List Text)) → length more ≡ n → zip_append (empty_rows n) more ≡ more
unfolding zip_append empty_rows
zip_append-empty_rows zero [] h = refl
zip_append-empty_rows zero (r ∷ more) h = absurd (omega arith)
zip_append-empty_rows (suc n) [] h = absurd (omega arith)
zip_append-empty_rows (suc n) (r ∷ more) h =
    ap (λ rows. r ∷ rows) (zip_append-empty_rows n more (omega (arith, h)))

abbrev with_width : ℕ → Option (List (List Text) × List ℕ) → Option (List (List Text) × List ℕ)
with_width width o = elim o [ none ↦ none | some (rows, widths) ↦ some (rows, width ∷ widths) ]

module _ (encode : Text → Option Text) where
  -- For each title the width of the widest of it and its cells.
  unfoldable pub widths_of : ℕ → List Text → List (List (Option Text)) → List ℕ
  widths_of n (h ∷ head) (column ∷ columns) =
      widest_of encode (count_of encode h) (cells_of n column) ∷ widths_of n head columns
  widths_of n _ _ = []

  column_width-wide :
      (t : Text) (cells : List Text)
      → is_counted encode t && all_counted encode cells ≡ true
      → column_width encode t cells ≡ some (widest_of encode (count_of encode t) cells)
  column_width-wide t cells h = ground (arith, column_width-widest_of encode t cells)

  column_width-none :
      (t : Text) (cells : List Text)
      → is_counted encode t && all_counted encode cells ≡ false
      → column_width encode t cells ≡ none
  column_width-none t cells h = ground (arith, column_width-widest_of encode t cells)

  fill-step :
      (n : ℕ) (t : Text) (head : List Text) (column : List (Option Text))
      (columns : List (List (Option Text))) (rows : List (List Text)) (width : ℕ)
      → column_width encode t (cells_of n column) ≡ some width
      → fill encode n (t ∷ head) (column ∷ columns) rows
        ≡ with_width width (fill encode n head columns (append_cells rows (cells_of n column)))
  unfolding fill
  fill-step n t head column columns rows width e = rw (e, fill) refl

  fill-stops :
      (n : ℕ) (t : Text) (head : List Text) (column : List (Option Text))
      (columns : List (List (Option Text))) (rows : List (List Text))
      → column_width encode t (cells_of n column) ≡ none
      → fill encode n (t ∷ head) (column ∷ columns) rows ≡ none
  unfolding fill
  fill-stops n t head column columns rows e = rw (e, fill) refl

  -- The loop has the columns row by row, and the widths, if there is a column for each title and all
  -- texts are counted.
  pub fill-transposed :
      (n : ℕ) (head : List Text) (columns : List (List (Option Text))) (rows : List (List Text))
      → length head ≤ length columns
      → length rows ≡ n
      → columns_counted encode n head columns ≡ true
      → fill encode n head columns rows
        ≡ some (zip_append rows (transposed n head columns), widths_of n head columns)
  unfolding fill widths_of columns_counted
  fill-transposed n [] columns rows h e c =
      ap (λ r. some (r, [])) (sym (zip_append-no_head rows n columns))
  fill-transposed n (t ∷ head) [] rows h e c = absurd (omega arith)
  fill-transposed n (t ∷ head) (column ∷ columns) rows h e counted =
      let cells = cells_of n column in
      let c = length-cells_of n column in
      let t' = length-transposed n head columns in
      fill-step n t head column columns rows _ (column_width-wide t cells (ground arith))
      ∙ ap (with_width (widest_of encode (count_of encode t) cells)) (
          fill-transposed n head columns (append_cells rows cells) (omega (arith, h))
            (omega (arith, length-append_cells rows cells, e)) (ground arith))
      ∙ ap (λ r. some (r, widths_of n (t ∷ head) (column ∷ columns)))
          (zip_append-cells rows cells (transposed n head columns) (omega (arith, e, c))
              (omega (arith, e, t'))
            ∙ ap (zip_append rows) (sym (transposed-cons n t head column columns)))

  -- A text that is not counted is a URIError.
  pub fill-uncounted :
      (n : ℕ) (head : List Text) (columns : List (List (Option Text))) (rows : List (List Text))
      → columns_counted encode n head columns ≡ false
      → fill encode n head columns rows ≡ none
  unfolding columns_counted
  fill-uncounted n [] columns rows c = absurd cc
  fill-uncounted n (t ∷ head) [] rows c = absurd cc
  fill-uncounted n (t ∷ head) (column ∷ columns) rows c =
      let cells = cells_of n column in
      elim (Bool-cases (is_counted encode t && all_counted encode cells)) [
        | inl h ↦
            fill-step n t head column columns rows _ (column_width-wide t cells h)
            ∙ ap (with_width (widest_of encode (count_of encode t) cells))
                (fill-uncounted n head columns (append_cells rows cells) (ground arith))
        | inr h ↦ fill-stops n t head column columns rows (column_width-none t cells h)
      ]
