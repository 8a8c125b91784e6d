-- ===== src/Util/CliTable.antt =====
-- lib/util/cli_table.js, which `console.table` prints with.
pub mod Counted
pub mod Rows
pub mod Lines
pub mod Aligned
use zero_archive.Prelude.{
  ◌||◌, ◌&&◌, ◌/◌, leb, ◌==◌, if◌then◌else◌, ◌++◌, ◌+◌, ◌-◌, true, false, zero, refl, arith, inl,
  inr, ◌≡◌, ◌<◌, ◌≤◌, Bool, some, [], Option, length, ◌∷◌, suc, Text, List, ℕ, none,
}

-- The length of the match of `colorRegExp` at the head of the text, or 0.
unfoldable pub color_length : Text → ℕ
color_length (e ∷ b ∷ d ∷ m ∷ []) =
    if e == 0x1b && b == b'[' && (leb b'0' d && leb d b'9') && m == b'm' then 4 else 0
color_length (e ∷ b ∷ d ∷ c ∷ m ∷ rest) =
    if e == 0x1b && b == b'[' && (leb b'0' d && leb d b'9')
    then (if c == b'm' then 4 else if (leb b'0' c && leb c b'9') && m == b'm' then 5 else 0)
    else 0
color_length _ = 0

-- `string.replace(colorRegExp, '')`; the number counts the characters still to leave out.
unfoldable pub remove_colors : ℕ → Text → Text
remove_colors skipped [] = []
remove_colors (suc skipped) (c ∷ cs) = remove_colors skipped cs
remove_colors zero (c ∷ cs) =
    let kept = remove_colors 0 cs in
    let removed = remove_colors (color_length (c ∷ cs) - 1) cs in
    if color_length (c ∷ cs) == 0 then c ∷ kept else removed

-- The number of matches of `/%[89ABab]/g`.
unfoldable pub count_matches : Text → ℕ
count_matches [] = 0
count_matches (c ∷ []) = 0
count_matches (c ∷ d ∷ cs) =
    let behind = count_matches cs in
    let others = count_matches (d ∷ cs) in
    if c == b'%' && (d == b'8' || d == b'9' || d == b'A' || d == b'B' || d == b'a' || d == b'b')
    then suc behind
    else others

-- The characters of `tableChars`.
abbrev pub left : Text
left = 0x2502 ∷ b' ' ∷ []

abbrev pub right : Text
right = b' ' ∷ 0x2502 ∷ []

abbrev pub middle : Text
middle = b' ' ∷ 0x2502 ∷ b' ' ∷ []

-- `c.repeat(n)`
unfoldable pub repeat : ℕ → ℕ → Text
repeat zero c = []
repeat (suc n) c = c ∷ repeat n c

-- `parts.join(separator)`
unfoldable pub join_with : ℕ → List Text → Text
join_with separator [] = []
join_with separator (part ∷ []) = part
join_with separator (part ∷ next ∷ parts) = part ++ separator ∷ join_with separator (next ∷ parts)

-- `HasOwnProperty(column, j) ? column[j] : ''`, for each `j` below the length of the longest column.
unfoldable pub cells_of : ℕ → List (Option Text) → List Text
cells_of zero column = []
cells_of (suc longest) [] = [] ∷ cells_of longest []
cells_of (suc longest) (none ∷ column) = [] ∷ cells_of longest column
cells_of (suc longest) (some v ∷ column) = v ∷ cells_of longest column

-- `rows[j][i] = v` for the cells of a column.
unfoldable pub append_cells : List (List Text) → List Text → List (List Text)
append_cells [] cells = []
append_cells (row ∷ rows) [] = row ∷ rows
append_cells (row ∷ rows) (cell ∷ cells) = (row ++ cell ∷ []) ∷ append_cells rows cells

abbrev pub max : ℕ → ℕ → ℕ
max a b = if leb a b then b else a

-- `columns.reduce((n, a) => Math.max(n, a.length), 0)`
unfoldable pub longest_column : ℕ → List (List (Option Text)) → ℕ
longest_column n [] = n
longest_column n (column ∷ columns) = longest_column (max n (length column)) columns

unfoldable pub empty_rows : ℕ → List (List Text)
empty_rows zero = []
empty_rows (suc n) = [] ∷ empty_rows n

-- `columnWidths.map((i) => tableChars.middleMiddle.repeat(i + 2))`
unfoldable pub dividers : List ℕ → List Text
dividers [] = []
dividers (width ∷ widths) = repeat (width + 2) 0x2500 ∷ dividers widths

-- A line of dividers between two corners.
unfoldable pub divider_line : ℕ → ℕ → ℕ → List ℕ → Text
divider_line first between last widths = first ∷ (join_with between (dividers widths) ++ last ∷ [])

-- `result`, line by line.
pub record Table : Type 0 where
  pub top : Text
  pub head : Text
  pub divider : Text
  pub rows : List Text
  pub bottom : Text

abbrev pub boxed : Text → List Text → List ℕ → Table
boxed head_line lines widths = record {
  top = divider_line 0x250c 0x252c 0x2510 widths;
  head = head_line;
  divider = divider_line 0x251c 0x253c 0x2524 widths;
  rows = lines;
  bottom = divider_line 0x2514 0x2534 0x2518 widths;
}

-- `encodeURIComponent` is the engine's; none is the URIError that it throws on a lone surrogate.
module _ (encode : Text → Option Text) where
  unfoldable pub count_symbols : Text → Option ℕ
  count_symbols string =
      let shown = remove_colors 0 string in
      elim (encode shown) [
        | none ↦ none
        | some encoded ↦ some (length shown + count_matches encoded)
      ]

  -- A cell and its spaces: `needed` is half of the difference, and `repeat` leaves out its fraction.
  -- none is the URIError, or the RangeError for a number of -1 or less.
  unfoldable pub pad : Text → ℕ → Option Text
  pad cell width = elim (count_symbols cell) [
    | none ↦ none
    | some counted ↦
        if leb counted (width + 1)
        then some (
            repeat ((width - counted) / 2) b' '
            ++ (cell ++ repeat ((width - counted + 1) / 2) b' '))
        else none
  ]

  -- The loop of `renderRow`. Where `columnWidths[i]` is undefined nothing is repeated.
  unfoldable pub render_cells : List Text → List ℕ → Option Text
  render_cells [] widths = some []
  render_cells (cell ∷ []) [] = elim (count_symbols cell) [ none ↦ none | some counted ↦ some cell ]
  render_cells (cell ∷ []) (width ∷ widths) = pad cell width
  render_cells (cell ∷ next ∷ row) [] = elim (count_symbols cell) [
    | none ↦ none
    | some counted ↦ elim (render_cells (next ∷ row) []) [
      | none ↦ none
      | some out ↦ some (cell ++ (middle ++ out))
    ]
  ]
  render_cells (cell ∷ next ∷ row) (width ∷ widths) = elim (pad cell width) [
    | none ↦ none
    | some padded ↦ elim (render_cells (next ∷ row) widths) [
      | none ↦ none
      | some out ↦ some (padded ++ (middle ++ out))
    ]
  ]

  unfoldable pub render_row : List Text → List ℕ → Option Text
  render_row row widths = elim (render_cells row widths) [
    | none ↦ none
    | some out ↦ some (left ++ (out ++ right))
  ]

  -- `columnWidths[i] = Math.max(width, counted)`, down a column.
  unfoldable pub widest : ℕ → List Text → Option ℕ
  widest width [] = some width
  widest width (cell ∷ cells) = elim (count_symbols cell) [
    | none ↦ none
    | some counted ↦ widest (max width counted) cells
  ]

  -- The width of a column, from that of its title.
  unfoldable pub column_width : Text → List Text → Option ℕ
  column_width title cells = elim (count_symbols title) [
    | none ↦ none
    | some counted ↦ widest counted cells
  ]

  -- The first `columnWidths` and the loop over `i`: the rows and the widths. none is the URIError, or
  -- the TypeError for a column that is not there.
  unfoldable pub fill :
      ℕ
      → List Text
      → List (List (Option Text))
      → List (List Text)
      → Option (List (List Text) × List ℕ)
  fill longest [] columns rows = some (rows, [])
  fill longest (h ∷ head) [] rows = elim (count_symbols h) [
    | none ↦ none
    | some counted ↦ elim (fill longest head [] rows) [
      | none ↦ none
      | some (rows', widths) ↦ if longest == 0 then some (rows', counted ∷ widths) else none
    ]
  ]
  fill longest (h ∷ head) (column ∷ columns) rows =
      let cells = cells_of longest column in
      elim (column_width h cells) [
        | none ↦ none
        | some width ↦ elim (fill longest head columns (append_cells rows cells)) [
          | none ↦ none
          | some (rows', widths) ↦ some (rows', width ∷ widths)
        ]
      ]

  unfoldable pub render_rows : List (List Text) → List ℕ → Option (List Text)
  render_rows [] widths = some []
  render_rows (row ∷ rows) widths = elim (render_row row widths) [
    | none ↦ none
    | some line ↦ elim (render_rows rows widths) [ none ↦ none | some lines ↦ some (line ∷ lines) ]
  ]

  abbrev pub render : List Text → List (List Text) → List ℕ → Option Table
  render head rows widths = elim (render_row head widths) [
    | none ↦ none
    | some head_line ↦ elim (render_rows rows widths) [
      | none ↦ none
      | some lines ↦ some (boxed head_line lines widths)
    ]
  ]

  abbrev pub first_rows : List Text → ℕ → List (List Text)
  first_rows [] longest = []
  first_rows (h ∷ head) longest = empty_rows longest

  -- `table`
  unfoldable pub table : List Text → List (List (Option Text)) → Option Table
  table head columns =
      let longest = longest_column 0 columns in
      elim (fill longest head columns (first_rows head longest)) [
        | none ↦ none
        | some (rows, widths) ↦ render head rows widths
      ]
