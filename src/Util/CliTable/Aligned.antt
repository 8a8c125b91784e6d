-- ===== src/Util/CliTable/Aligned.antt =====
-- The lines of a table of lib/util/cli_table.js are equally wide.
use zero_archive.Prelude.{
  none, false, ◌&&◌, some, [], true, ◌≡◌, Option, leb, Bool, ◌∷◌, length, Text, List, ℕ,
}
use zero_archive.Util.CliTable.{Table, longest_column}
use zero_archive.Util.CliTable.Rows.{transposed}
use zero_archive.Util.CliTable.Lines.{IsWide, AllWide}
use zero_archive.Util.CliTable.Counted.{is_counted, count_of}

module _ (encode : Text → Option Text) where
  unfoldable all_narrow : ℕ → List Text → Bool
  all_narrow width [] = true
  all_narrow width (cell ∷ cells) =
      is_counted encode cell && leb (count_of encode cell) width && all_narrow width cells

  -- A table of lines that all have the width, with the rows.
  pub record IsAligned (head : List Text) (rows : List (List Text)) (width : ℕ) (t : Table)
      : Type 0 where
    pub top : length t.top ≡ width
    pub titles : IsWide encode width head t.head
    pub divider : length t.divider ≡ width
    pub lines : AllWide encode width rows t.rows
    pub bottom : length t.bottom ≡ width

  -- What `table` gives: a table with the rows, if all texts are counted, or else the URIError.
  abbrev pub Prints : Bool → List Text → List (List (Option Text)) → Option Table → Type 0
  Prints false head columns none = Unit
  Prints true head columns (some t) =
      (width : ℕ) × IsAligned head (transposed (longest_column 0 columns) head columns) width t
  Prints _ head columns _ = ⊥
