-- ===== src/Util/CliTable/Counted.antt =====
-- The texts whose symbols `countSymbols` of lib/util/cli_table.js counts without a URIError.
use zero_archive.Prelude.{
  Bool-cases, Text, List, ◌≡◌, ◌∷◌, [], some, none, Option, true, false, refl, arith, Bool, is_some,
  ◌&&◌, ℕ, if◌then◌else◌, inl, inr, Option-cases,
}
use zero_archive.Util.CliTable.{count_symbols, widest, column_width, max, cells_of}

module _ (encode : Text → Option Text) where
  unfoldable pub is_counted : Text → Bool
  is_counted s = is_some (count_symbols encode s)

  unfoldable pub all_counted : List Text → Bool
  all_counted [] = true
  all_counted (cell ∷ cells) = is_counted cell && all_counted cells

  -- The titles and the cells below them, with the empty text for a missing cell.
  unfoldable pub columns_counted : ℕ → List Text → List (List (Option Text)) → Bool
  columns_counted n (title ∷ head) (column ∷ columns) =
      is_counted title && all_counted (cells_of n column) && columns_counted n head columns
  columns_counted n _ _ = true

  -- The symbols of a text that is counted, and 0 for another.
  unfoldable pub count_of : Text → ℕ
  count_of s = elim (count_symbols encode s) [ none ↦ 0 | some counted ↦ counted ]

  unfoldable pub widest_of : ℕ → List Text → ℕ
  widest_of width [] = width
  widest_of width (cell ∷ cells) = widest_of (max width (count_of cell)) cells

  pub counted-count_of :
      (s : Text) → is_counted s ≡ true → count_symbols encode s ≡ some (count_of s)
  unfolding is_counted count_of
  counted-count_of s h = elim (Option-cases (count_symbols encode s)) [
    | inl e ↦ absurd (ground arith)
    | inr (n, e) ↦ ground arith
  ]

  uncounted : (s : Text) → is_counted s ≡ false → count_symbols encode s ≡ none
  unfolding is_counted
  uncounted s h = elim (Option-cases (count_symbols encode s)) [
    | inl e ↦ e
    | inr (n, e) ↦ absurd (ground arith)
  ]

  widest-widest_of :
      (width : ℕ) (cells : List Text)
      → widest encode width cells
        ≡ (if all_counted cells then some (widest_of width cells) else none)
  unfolding widest widest_of all_counted
  widest-widest_of width [] = refl
  widest-widest_of width (cell ∷ cells) = elim (Bool-cases (is_counted cell)) [
    | inl h ↦
        ground (arith, counted-count_of cell h, widest-widest_of (max width (count_of cell)) cells)
    | inr h ↦ ground (arith, uncounted cell h)
  ]

  pub column_width-widest_of :
      (title : Text) (cells : List Text)
      → column_width encode title cells ≡ (
          if is_counted title && all_counted cells
          then some (widest_of (count_of title) cells)
          else none)
  unfolding column_width
  column_width-widest_of title cells = elim (Bool-cases (is_counted title)) [
    | inl h ↦ ground (arith, counted-count_of title h, widest-widest_of (count_of title) cells)
    | inr h ↦ ground (arith, uncounted title h)
  ]
