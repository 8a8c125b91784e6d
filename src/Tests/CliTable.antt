-- ===== src/Tests/CliTable.antt =====
-- The theorem on lib/util/cli_table.js at a concrete input.
use zero_archive.Prelude.{true, refl, Text, List, ◌≡◌, ◌∷◌, [], some, none, Option, codes}
use zero_archive.Util.CliTable.{longest_column}
use zero_archive.Util.CliTable.Counted.{columns_counted, is_counted, all_counted}

-- An `encodeURIComponent` that changes nothing, as on letters and digits.
abbrev same_text : Text → Option Text
same_text s = some s

abbrev titles : List Text
titles = codes "b" ∷ []

abbrev two_columns : List (List (Option Text))
two_columns = (some (codes "1") ∷ none ∷ []) ∷ (some (codes "22") ∷ []) ∷ []

-- The texts of the example are counted, so it is a table.
two_columns-counted :
    columns_counted same_text (longest_column 0 two_columns) (codes "(index)" ∷ titles) two_columns
    ≡ true
unfolding columns_counted longest_column is_counted zero_archive.Util.CliTable.count_symbols
    all_counted zero_archive.Util.CliTable.cells_of
two_columns-counted = refl
