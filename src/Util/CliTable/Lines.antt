-- ===== src/Util/CliTable/Lines.antt =====
-- The widths of the lines that `renderRow` and the dividers of lib/util/cli_table.js make.
use zero_archive.Prelude.{
  if◌then◌else◌, none, ◌++◌, ◌-◌, ap, length-append, ◌&&◌, ◌+◌, ◌/◌, some, [], true, false, zero,
  suc, refl, arith, ◌≡◌, ◌≤◌, Option, leb, Bool, ◌∷◌, length, Text, List, ℕ,
}
use zero_archive.Util.CliTable.{
  right, middle, left, pad, render_cells, render_row, render_rows, dividers, divider_line,
  join_with, repeat,
}
use zero_archive.Util.CliTable.Counted.{is_counted, count_of, counted-count_of}

-- The width of a line: each column has one separator and two spaces, and there is one more separator.
unfoldable pub line_width : List ℕ → ℕ
line_width [] = 1
line_width (width ∷ widths) = width + 3 + line_width widths

length-repeat : (n c : ℕ) → length (repeat n c) ≡ n
unfolding repeat
length-repeat zero c = refl
length-repeat (suc n) c = ap suc (length-repeat n c)

length-join_with :
    (between width : ℕ) (widths : List ℕ)
    → length (join_with between (dividers (width ∷ widths))) + 2 ≡ line_width (width ∷ widths)
unfolding dividers join_with line_width
length-join_with between width [] = omega (arith, length-repeat (width + 2) 0x2500)
length-join_with between width (w ∷ widths) = omega (
  arith,
  length-append (repeat (width + 2) 0x2500) (between ∷ join_with between (dividers (w ∷ widths))),
  length-repeat (width + 2) 0x2500,
  length-join_with between w widths,
)

pub length-divider_line :
    (first between last width : ℕ) (widths : List ℕ)
    → length (divider_line first between last (width ∷ widths)) ≡ line_width (width ∷ widths)
unfolding divider_line
length-divider_line first between last width widths = omega (
  arith,
  length-append (join_with between (dividers (width ∷ widths))) (last ∷ []),
  length-join_with between width widths,
)

lt_of_leb : (a b : ℕ) → leb a b ≡ true → a ≤ b
lt_of_leb a b h = ground arith

module _ (encode : Text → Option Text) where
  -- The code units of the cells, and the symbols that they are counted for.
  unfoldable pub units : List Text → ℕ
  units [] = 0
  units (cell ∷ row) = length cell + units row

  unfoldable pub symbols : List Text → ℕ
  symbols [] = 0
  symbols (cell ∷ row) = count_of encode cell + symbols row

  -- Each cell is counted, and not wider than its column.
  unfoldable pub row_fits : List Text → List ℕ → Bool
  row_fits [] [] = true
  row_fits (cell ∷ row) (width ∷ widths) =
      is_counted encode cell && leb (count_of encode cell) width && row_fits row widths
  row_fits _ _ = false

  -- The line has the width, where each cell is as wide as it is counted.
  abbrev pub IsWide : ℕ → List Text → Text → Type 0
  IsWide width row line = length line + symbols row ≡ units row + width

  -- What is rendered, with its width.
  abbrev Rendered : Option Text → ℕ → List Text → Type 0
  Rendered o width row = (line : Text) × (o ≡ some line) × IsWide width row line

  halves : (n : ℕ) → n / 2 + (n + 1) / 2 ≡ n
  halves n = omega arith

  pad-counted :
      (cell : Text) (width : ℕ)
      → is_counted encode cell ≡ true
      → pad encode cell width ≡ (
          if leb (count_of encode cell) (width + 1)
          then some (
              repeat ((width - count_of encode cell) / 2) b' '
              ++ (cell ++ repeat ((width - count_of encode cell + 1) / 2) b' '))
          else none)
  unfolding pad
  pad-counted cell width h = ground (arith, counted-count_of encode cell h)

  pad-Rendered :
      (cell : Text) (width : ℕ)
      → is_counted encode cell ≡ true
      → leb (count_of encode cell) width ≡ true
      → (line : Text) × (pad encode cell width ≡ some line)
        × (length line + count_of encode cell ≡ length cell + width)
  pad-Rendered cell width counted h =
      let n = width - count_of encode cell in
      let after = repeat ((n + 1) / 2) b' ' in
      (
        repeat (n / 2) b' ' ++ (cell ++ after),
        ground (arith, pad-counted cell width counted),
        omega (
          arith,
          length-append (repeat (n / 2) b' ') (cell ++ after),
          length-append cell after,
          length-repeat (n / 2) b' ',
          length-repeat ((n + 1) / 2) b' ',
          lt_of_leb (count_of encode cell) width h,
        ),
      )

  render_cells-next :
      (cell next : Text) (row : List Text) (width : ℕ) (widths : List ℕ) (padded out : Text)
      → pad encode cell width ≡ some padded
      → render_cells encode (next ∷ row) widths ≡ some out
      → render_cells encode (cell ∷ next ∷ row) (width ∷ widths) ≡ some (padded ++ (middle ++ out))
  unfolding render_cells
  render_cells-next cell next row width widths padded out h e = rw (h, e, render_cells) refl

  render_row-cells :
      (row : List Text) (widths : List ℕ) (out : Text)
      → render_cells encode row widths ≡ some out
      → render_row encode row widths ≡ some (left ++ (out ++ right))
  unfolding render_row
  render_row-cells row widths out h = rw (h, render_row) refl

  render_rows-row :
      (row : List Text) (rows : List (List Text)) (widths : List ℕ) (line : Text)
      (lines : List Text)
      → render_row encode row widths ≡ some line
      → render_rows encode rows widths ≡ some lines
      → render_rows encode (row ∷ rows) widths ≡ some (line ∷ lines)
  unfolding render_rows
  render_rows-row row rows widths line lines h e = rw (h, e, render_rows) refl

  -- The cells of a row with their separators, two spaces and two borders less than a line.
  render_cells-Rendered :
      (cell : Text) (row : List Text) (widths : List ℕ)
      → row_fits (cell ∷ row) widths ≡ true
      → (out : Text) × (render_cells encode (cell ∷ row) widths ≡ some out)
        × (length out + symbols (cell ∷ row) + 4 ≡ units (cell ∷ row) + line_width widths)
  unfolding render_cells row_fits symbols units line_width
  render_cells-Rendered cell row [] f = absurd cc
  render_cells-Rendered cell [] (width ∷ []) f =
      let p = pad-Rendered cell width (ground arith) (ground arith) in
      (p.0, p.1, omega (arith, p.2))
  render_cells-Rendered cell [] (width ∷ w ∷ widths) f = absurd (ground arith)
  render_cells-Rendered cell (next ∷ row) (width ∷ widths) f =
      let p = pad-Rendered cell width (ground arith) (ground arith) in
      let q = render_cells-Rendered next row widths (ground arith) in
      (
        p.0 ++ (middle ++ q.0),
        render_cells-next cell next row width widths p.0 q.0 p.1 q.1,
        omega (arith, length-append p.0 (middle ++ q.0), p.2, q.2),
      )

  pub render_row-Rendered :
      (cell : Text) (row : List Text) (widths : List ℕ)
      → row_fits (cell ∷ row) widths ≡ true
      → Rendered (render_row encode (cell ∷ row) widths) (line_width widths) (cell ∷ row)
  unfolding render_row
  render_row-Rendered cell row widths f =
      let p = render_cells-Rendered cell row widths f in
      (
        left ++ (p.0 ++ right),
        render_row-cells (cell ∷ row) widths p.0 p.1,
        omega (arith, length-append p.0 right, p.2),
      )

  -- Each line has the width for its row.
  abbrev pub AllWide : ℕ → List (List Text) → List Text → Type 0
  AllWide width [] [] = Unit
  AllWide width (row ∷ rows) (line ∷ lines) = IsWide width row line × AllWide width rows lines
  AllWide width _ _ = ⊥

  unfoldable pub all_fit : List (List Text) → List ℕ → Bool
  all_fit [] widths = true
  all_fit (row ∷ rows) widths = row_fits row widths && all_fit rows widths

  pub render_rows-Rendered :
      (rows : List (List Text)) (width : ℕ) (widths : List ℕ)
      → all_fit rows (width ∷ widths) ≡ true
      → (lines : List Text) × (render_rows encode rows (width ∷ widths) ≡ some lines)
        × AllWide (line_width (width ∷ widths)) rows lines
  unfolding render_rows all_fit row_fits
  render_rows-Rendered [] width widths f = ([], refl, tt)
  render_rows-Rendered ([] ∷ rows) width widths f = absurd (ground arith)
  render_rows-Rendered ((cell ∷ row) ∷ rows) width widths f =
      let p = render_row-Rendered cell row (width ∷ widths) (ground arith) in
      let q = render_rows-Rendered rows width widths (ground arith) in
      (p.0 ∷ q.0, render_rows-row (cell ∷ row) rows (width ∷ widths) p.0 q.0 p.1 q.1, (p.2, q.2))
