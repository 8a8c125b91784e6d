-- ===== src/Mime/Kept.antt =====
-- The loop of `parse` of lib/mime.js over the printed entries.
use zero_archive.Prelude.{
  Bool-cases, sym, ap, ◌+◌, ◌∙◌, Text, Text, Text, Text, Text, same, true, Text, Bool, length, [],
  ◌∷◌, List, ◌||◌, if◌then◌else◌, length-append, ◌&&◌, ◌++◌, false, zero, suc, refl, arith, inl,
  inr, ◌≡◌, ◌<◌, ◌≤◌, ℕ,
}
use mathlib.Core.List.{append-nil, append_assoc}
use zero_archive.Mime.{encode, is_token, Entry, print_entries, parse_entries, returns}
use zero_archive.Mime.Entries.{
  all_new-concat, apart, all_new, is_plain, entry_fits, parse_entries-entry,
}
use zero_archive.Mime.Skipped.{lacks_semicolon, parse_entries-last_mark, parse_entries-mark}

-- The entries that are read back: the one behind a quoted one is not.
unfoldable pub kept : List Entry → List Entry
kept [] = []
kept (e ∷ []) = e ∷ []
kept ((n, v) ∷ e ∷ entries) =
    let all = kept (e ∷ entries) in
    let others = kept entries in if is_plain v then (n, v) ∷ all else (n, v) ∷ others

-- The value of the first entry has no `;`.
abbrev next_fits : List Entry → Bool
next_fits [] = true
next_fits ((n, v) ∷ entries) = lacks_semicolon v

-- Names in lower case and made of token characters, no two the same; values that can be quoted; no
-- `;` in a value behind a quoted one.
unfoldable pub entries_fit : (Text → Text) → List Entry → Bool
entries_fit lower [] = true
entries_fit lower ((n, v) ∷ entries) =
    entry_fits lower n v
    && apart n entries
    && (is_plain v || next_fits entries)
    && entries_fit lower entries

length-print_entries :
    (n v : Text) (entries : List Entry)
    → length (print_entries entries) + 2 ≤ length (print_entries ((n, v) ∷ entries))
unfolding print_entries
length-print_entries n v entries = omega (
  arith,
  length-append n (b'=' ∷ (encode v ++ print_entries entries)),
  length-append (encode v) (print_entries entries),
)

parse_entries-nil :
    (lower : Text → Text) (fuel : ℕ) (entries : List Entry)
    → parse_entries lower (suc fuel) (print_entries []) entries ≡ returns entries
unfolding parse_entries print_entries
parse_entries-nil lower fuel entries = refl

fits-entry :
    (lower : Text → Text) (n v : Text) (more : List Entry)
    → entries_fit lower ((n, v) ∷ more) ≡ true
    → entry_fits lower n v ≡ true
unfolding entries_fit
fits-entry lower n v more f = ground arith

fits-rest :
    (lower : Text → Text) (n v : Text) (more : List Entry)
    → entries_fit lower ((n, v) ∷ more) ≡ true
    → entries_fit lower more ≡ true
unfolding entries_fit
fits-rest lower n v more f = ground arith

fits-behind_quoted :
    (lower : Text → Text) (n v k w : Text) (more : List Entry)
    → entries_fit lower ((n, v) ∷ (k, w) ∷ more) ≡ true
    → is_plain v ≡ false
    → (is_token k ≡ true) × (lacks_semicolon w ≡ true)
unfolding entries_fit entry_fits
fits-behind_quoted lower n v k w more f q = (ground arith, ground arith)

new-rest :
    (lower : Text → Text) (n v : Text) (more entries : List Entry)
    → entries_fit lower ((n, v) ∷ more) ≡ true
    → all_new entries ((n, v) ∷ more) ≡ true
    → all_new (entries ++ (n, v) ∷ []) more ≡ true
unfolding entries_fit all_new
new-rest lower n v more entries f a = all_new-concat entries more n v (ground arith) (ground arith)

all_new-tail :
    (entries more : List Entry) (k w : Text)
    → all_new entries ((k, w) ∷ more) ≡ true
    → all_new entries more ≡ true
unfolding all_new
all_new-tail entries more k w a = ground arith

kept_behind :
    (n v : Text) (e : Entry) (more entries : List Entry)
    → returns ((entries ++ (n, v) ∷ []) ++ (if is_plain v then kept (e ∷ more) else kept more))
      ≡ returns (entries ++ kept ((n, v) ∷ e ∷ more))
unfolding kept
kept_behind n v e more entries = by_test (is_plain v)
  where
    by_test :
        (b : Bool)
        → returns ((entries ++ (n, v) ∷ []) ++ (if b then kept (e ∷ more) else kept more))
          ≡ returns (entries ++ (if b then (n, v) ∷ kept (e ∷ more) else (n, v) ∷ kept more))
    by_test true = ap returns (append_assoc entries ((n, v) ∷ []) (kept (e ∷ more)))
    by_test false = ap returns (append_assoc entries ((n, v) ∷ []) (kept more))

kept_by :
    (n v : Text) (e : Entry) (more entries : List Entry) (b : Bool)
    → is_plain v ≡ b
    → returns ((entries ++ (n, v) ∷ []) ++ (if b then kept (e ∷ more) else kept more))
      ≡ returns (entries ++ kept ((n, v) ∷ e ∷ more))
kept_by n v e more entries b h =
    ap (λ c. returns ((entries ++ (n, v) ∷ []) ++ (if c then kept (e ∷ more) else kept more)))
      (sym h)
    ∙ kept_behind n v e more entries

module _ (lower : Text → Text) where
  first_round :
      (fuel : ℕ) (n v : Text) (more entries : List Entry) (b : Bool)
      → entries_fit lower ((n, v) ∷ more) ≡ true
      → all_new entries ((n, v) ∷ more) ≡ true
      → is_plain v ≡ b
      → parse_entries lower (suc fuel) (print_entries ((n, v) ∷ more)) entries
        ≡ parse_entries lower fuel
            (if b then print_entries more else b'"' ∷ print_entries more)
            (entries ++ (n, v) ∷ [])
  unfolding all_new
  first_round fuel n v more entries b f a e =
      parse_entries-entry lower fuel n v entries more (fits-entry lower n v more f) (ground arith)
      ∙ ap
          (λ c.
            parse_entries lower fuel (if c then print_entries more else b'"' ∷ print_entries more)
              (entries ++ (n, v) ∷ []))
          e

  one_entry :
      (fuel : ℕ) (n v : Text) (entries : List Entry) (b : Bool)
      → parse_entries lower
          (suc (suc fuel))
          (if b then print_entries [] else b'"' ∷ print_entries [])
          entries
        ≡ returns entries
  unfolding print_entries
  one_entry fuel n v entries true = parse_entries-nil lower (suc fuel) entries
  one_entry fuel n v entries false = parse_entries-last_mark lower fuel entries

  module _ (l : same (lower []) [] ≡ true) where
    pub parse_entries-print_entries :
        (fuel : ℕ) (more entries : List Entry)
        → length (print_entries more) < fuel
        → entries_fit lower more ≡ true
        → all_new entries more ≡ true
        → parse_entries lower fuel (print_entries more) entries ≡ returns (entries ++ kept more)
    unfolding entries_fit all_new kept
    parse_entries-print_entries zero more entries h f a = absurd (omega arith)
    parse_entries-print_entries (suc fuel) [] entries h f a =
        parse_entries-nil lower fuel entries ∙ ap returns (sym (append-nil entries))
    parse_entries-print_entries (suc zero) ((n, v) ∷ more) entries h f a =
        absurd (omega (arith, length-print_entries n v more))
    parse_entries-print_entries (suc (suc zero)) ((n, v) ∷ more) entries h f a =
        absurd (omega (arith, length-print_entries n v more))
    parse_entries-print_entries (suc (suc (suc fuel))) ((n, v) ∷ []) entries h f a =
        first_round (suc (suc fuel)) n v [] entries _ f a refl
        ∙ one_entry fuel n v (entries ++ (n, v) ∷ []) (is_plain v)
    parse_entries-print_entries (suc (suc (suc fuel))) ((n, v) ∷ (k, w) ∷ more) entries h f a =
        elim (Bool-cases (is_plain v)) [
          | inl p ↦
              first_round (suc (suc fuel)) n v ((k, w) ∷ more) entries true f a p
              ∙ parse_entries-print_entries (suc (suc fuel)) ((k, w) ∷ more)
                  (entries ++ (n, v) ∷ []) (omega (arith, length-print_entries n v ((k, w) ∷ more)))
                  (fits-rest lower n v ((k, w) ∷ more) f)
                  (new-rest lower n v ((k, w) ∷ more) entries f a)
              ∙ kept_by n v (k, w) more entries true p
          | inr q ↦
              first_round (suc (suc fuel)) n v ((k, w) ∷ more) entries false f a q
              ∙ parse_entries-mark lower (suc fuel) k w (entries ++ (n, v) ∷ []) more l
                  (fits-behind_quoted lower n v k w more f q).0
                  (fits-behind_quoted lower n v k w more f q).1
              ∙ parse_entries-print_entries (suc fuel) more (entries ++ (n, v) ∷ [])
                  (omega (
                    arith,
                    length-print_entries n v ((k, w) ∷ more),
                    length-print_entries k w more,
                  ))
                  (fits-rest lower k w more (fits-rest lower n v ((k, w) ∷ more) f))
                  (all_new-tail (entries ++ (n, v) ∷ []) more k w
                    (new-rest lower n v ((k, w) ∷ more) entries f a))
              ∙ kept_by n v (k, w) more entries false q
        ]
