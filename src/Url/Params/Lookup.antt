-- ===== src/Url/Params/Lookup.antt =====
-- What the lookups of URLSearchParams find after `append` and `delete`.
use zero_archive.Prelude.{
  ◌≡◌, refl, true, false, Bool-cases, List, [], ◌∷◌, ◌++◌, arith, Text, same, same→eq,
  if◌then◌else◌, sym, inl, inr,
}
use zero_archive.Url.Params.{
  Pair, SearchParams, update_search_params, append, without, delete, values_of, get_all, some_named,
  has,
}

pub update-list : (p : SearchParams) → (update_search_params p).list ≡ p.list
unfolding update_search_params
update-list p = ground arith

values_of-append :
    (m : Text) (list more : List Pair)
    → values_of m (list ++ more) ≡ values_of m list ++ values_of m more
unfolding values_of
values_of-append m [] more = refl
values_of-append m ((n, v) ∷ list) more = ground (arith, values_of-append m list more)

without-some_named : (name : Text) (list : List Pair) → some_named name (without name list) ≡ false
unfolding without some_named
without-some_named name [] = refl
without-some_named name ((n, v) ∷ list) = ground (arith, without-some_named name list)

same_name : (m n k : Text) → same k m ≡ true → same k n ≡ true → same m n ≡ true
same_name m n k h e = rw (sym (same→eq k m h)) e

pub values_of-without :
    (m name : Text) (list : List Pair)
    → same m name ≡ false
    → values_of m (without name list) ≡ values_of m list
unfolding without values_of
values_of-without m name [] h = refl
values_of-without m name ((n, v) ∷ list) h =
    ground (arith, values_of-without m name list, same_name m name n)

-- `getAll` of a name finds the appended value behind the earlier ones if it was appended under that
-- name, and the earlier ones alone if not.
get_all-append :
    (p : SearchParams) (name value m : Text)
    → get_all (append p name value) m ≡ get_all p m ++ (if same name m then value ∷ [] else [])
unfolding get_all append values_of
get_all-append p name value m =
    rw
      (
        update-list (record p { list = p.list ++ (name, value) ∷ [] }),
        values_of-append m p.list ((name, value) ∷ []),
      )
      refl

same_other : (m name n : Text) → same m name ≡ true → same n m ≡ true → same n name ≡ true
same_other m name n h e = rw (same→eq n m e) h

values_of-without_name :
    (m name : Text) (list : List Pair) → same m name ≡ true → values_of m (without name list) ≡ []
unfolding without values_of
values_of-without_name m name [] h = refl
values_of-without_name m name ((n, v) ∷ list) h =
    ground (arith, values_of-without_name m name list, same_other m name n)

-- After `delete` no pair has the name, `getAll` finds nothing under it, and finds the same values as
-- before under every other name.
delete-has :
    (p : SearchParams) (name m : Text)
    → (has (delete p name) name ≡ false)
      × (get_all (delete p name) m ≡ (if same m name then [] else get_all p m))
unfolding delete has get_all
delete-has p name m = rw (update-list (record p { list = without name p.list })) (
  without-some_named name p.list,
  elim (Bool-cases (same m name)) [
    | inl h ↦ rw h (values_of-without_name m name p.list h)
    | inr h ↦ rw h (values_of-without m name p.list h)
  ],
)

-- `getAll` of a name finds the value that `append` adds behind the earlier ones if it has that name,
-- and the earlier ones alone if not. After `delete` no pair has the name, `getAll` finds nothing under
-- it, and finds the same values as before under every other name.
pub get_all_changed :
    (p : SearchParams) (name value m : Text)
    → (get_all (append p name value) m ≡ get_all p m ++ (if same name m then value ∷ [] else []))
      × (has (delete p name) name ≡ false)
      × (get_all (delete p name) m ≡ (if same m name then [] else get_all p m))
get_all_changed p name value m =
    let d = delete-has p name m in (get_all-append p name value m, d.0, d.1)
