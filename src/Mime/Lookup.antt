-- ===== src/Mime/Lookup.antt =====
-- The operations of MIMEParams in lib/mime.js, seen through `get`.
use zero_archive.Prelude.{
  ◌∙◌, same→eq, ap, if◌then◌else◌, some, [], ◌∷◌, true, refl, arith, ◌≡◌, List, same, Text, none,
}
use zero_archive.Mime.{trim_left, Entry, get_entry, delete_entry, store, set_entry}
use zero_archive.Mime.Entries.{apart}
use zero_archive.Mime.Valid.{are_valid}

same_twice : (n name m : Text) → same n name ≡ true → same n m ≡ same name m
same_twice n name m h = ap (λ t. same t m) (same→eq n name h)

same_join : (n name m : Text) → same n m ≡ true → same name m ≡ true → same n name ≡ true
same_join n name m h e = ap (λ t. same n t) (same→eq name m e) ∙ h

same_sym : (s t : Text) → same s t ≡ same t s
unfolding same
same_sym [] [] = refl
same_sym [] (d ∷ t) = refl
same_sym (c ∷ s) [] = refl
same_sym (c ∷ s) (d ∷ t) = ground (arith, same_sym s t)

get_entry-store :
    (name value m : Text) (entries : List Entry)
    → get_entry m (store name value entries)
      ≡ (if same name m then some value else get_entry m entries)
unfolding get_entry store
get_entry-store name value m [] = refl
get_entry-store name value m ((n, v) ∷ entries) =
    ground (arith, get_entry-store name value m entries, same_twice n name m, same_join n name m)

-- If `set` does not throw, the name without its leading white space has the value, and every other
-- name has what it had.
get_entry-set_entry :
    (name value m : Text) (entries entries' : List Entry)
    → set_entry name value entries ≡ some entries'
    → get_entry m entries' ≡ (if same (trim_left name) m then some value else get_entry m entries)
unfolding set_entry
get_entry-set_entry name value m entries entries' h =
    ground (arith, get_entry-store (trim_left name) value m entries)

get_entry-apart :
    (m : Text) (entries : List Entry) → apart m entries ≡ true → get_entry m entries ≡ none
unfolding get_entry apart
get_entry-apart m [] a = refl
get_entry-apart m ((n, v) ∷ entries) a = ground (arith, same_sym m n, get_entry-apart m entries)

-- In valid entries `delete` takes away the value of the name, and of no other name.
get_entry-delete_entry :
    (name m : Text) (entries : List Entry)
    → are_valid entries ≡ true
    → get_entry m (delete_entry name entries) ≡ (if same name m then none else get_entry m entries)
unfolding get_entry delete_entry are_valid
get_entry-delete_entry name m [] a = ground arith
get_entry-delete_entry name m ((n, v) ∷ entries) a = ground (
  arith,
  get_entry-delete_entry name m entries,
  same_twice n name m,
  same_join n name m,
  get_entry-apart m entries,
  same→eq n m,
)

-- If `set` does not throw on valid entries, the name without its leading white space has the value,
-- and every other name has what it had; `delete` takes away the value of the name, and of no other
-- name.
pub get_entry_changed :
    (name value m : Text) (entries entries' : List Entry)
    → are_valid entries ≡ true
    → set_entry name value entries ≡ some entries'
    → (get_entry m entries' ≡ (if same (trim_left name) m then some value else get_entry m entries))
      × (get_entry m (delete_entry name entries)
          ≡ (if same name m then none else get_entry m entries))
get_entry_changed name value m entries entries' a h =
    (get_entry-set_entry name value m entries entries' h, get_entry-delete_entry name m entries a)
