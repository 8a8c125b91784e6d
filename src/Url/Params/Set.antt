-- ===== src/Url/Params/Set.antt =====
-- What `set` of URLSearchParams leaves.
use mathlib.Core.Path.{subst}
use zero_archive.Prelude.{
  ◌+◌, sym, take-length, same_refl, ℕ, zero, suc, ◌≤◌, ◌≡◌, refl, Bool, true, false, Bool-cases,
  Option, some, none, List, [], ◌∷◌, ◌++◌, arith, Text, same, if◌then◌else◌, Option-cases, inl, inr,
  length, get_elem?, set, take, remove_at, ◌∙◌, ap, take-suc-none, take-suc-some, take-remove_at,
  take-set, length-remove_at, length-set,
}
use zero_archive.Url.Params.{
  Pair, SearchParams, SetLoop, set_pair, set_rounds, set_list, set_param, without, find_value, get,
}
use zero_archive.Url.Params.Lookup.{update-list}

-- The part of the list in front of `i` holds the new value first under the name, or nothing.
abbrev found : Bool → Text → Option Text
found true value = some value
found false value = none

module _ (name value : Text) where
  -- The pairs of the other names, in front of `i` and in all.
  find_value-concat :
      (list : List Pair) (p : Pair)
      → find_value name (list ++ p ∷ []) ≡ elim (find_value name list) [
        | some v ↦ some v
        | none ↦ if same p.0 name then some p.1 else none
      ]
  unfolding find_value
  find_value-concat [] p = refl
  find_value-concat ((n, v) ∷ list) p = ground (arith, find_value-concat list p)

  without-concat :
      (list : List Pair) (p : Pair)
      → same p.0 name ≡ true
      → without name (list ++ p ∷ []) ≡ without name list
  unfolding without
  without-concat [] p h = ground arith
  without-concat ((n, v) ∷ list) p h = ground (arith, without-concat list p)

  without-remove_at :
      (list : List Pair) (i : ℕ) (p : Pair)
      → get_elem? list i ≡ some p
      → same p.0 name ≡ true
      → without name (remove_at list i) ≡ without name list
  unfolding without
  without-remove_at [] i p h e = refl
  without-remove_at ((n, v) ∷ list) zero p h e = ground arith
  without-remove_at ((n, v) ∷ list) (suc i) p h e = ground (arith, without-remove_at list i p)

  without-set :
      (list : List Pair) (i : ℕ) (p : Pair)
      → get_elem? list i ≡ some p
      → same p.0 name ≡ true
      → without name (set list i (p.0, value)) ≡ without name list
  unfolding without
  without-set [] i p h e = refl
  without-set ((n, v) ∷ list) zero p h e = ground arith
  without-set ((n, v) ∷ list) (suc i) p h e = ground (arith, without-set list i p)

  record Inv (whole : List Pair) (i : ℕ) (s : SetLoop) : Type 0 where
    others : without name s.list ≡ without name whole
    seen : find_value name (take i s.list) ≡ found s.remove value
    bounded : length s.list ≤ length whole

  -- A further pair does not change what was found.
  found_stays :
      (list : List Pair) (i : ℕ)
      → find_value name (take i list) ≡ some value
      → find_value name (take (suc i) list) ≡ some value
  found_stays list i h = elim (Option-cases (get_elem? list i)) [
    | inl e ↦ rw (take-suc-none list i e) h
    | inr (p, e) ↦ rw (take-suc-some list i p e, find_value-concat (take i list) p, h) refl
  ]

  passed :
      (list : List Pair) (i : ℕ) (p : Pair) (b : Bool)
      → get_elem? list i ≡ some p
      → same p.0 name ≡ false
      → find_value name (take i list) ≡ found b value
      → find_value name (take (suc i) list) ≡ found b value
  passed list i p true e h f = found_stays list i f
  passed list i p false e h f =
      rw (take-suc-some list i p e, find_value-concat (take i list) p, f, h) refl

  placed :
      (list : List Pair) (i : ℕ) (p : Pair)
      → get_elem? list i ≡ some p
      → same p.0 name ≡ true
      → find_value name (take i list) ≡ none
      → find_value name (take (suc i) (set list i (p.0, value))) ≡ some value
  placed list i p e h f =
      rw (take-set list i p (p.0, value) e, find_value-concat (take i list) (p.0, value), f, h) refl

  removed :
      (list : List Pair) (i : ℕ)
      → find_value name (take i list) ≡ some value
      → find_value name (take (suc i) (remove_at list i)) ≡ some value
  removed list i f = found_stays (remove_at list i) i (rw (take-remove_at list i) f)

  set_pair-Inv :
      (whole : List Pair) (i : ℕ) (s : SetLoop) (p : Pair)
      → get_elem? s.list i ≡ some p
      → Inv whole i s
      → Inv whole (suc i) (set_pair name value i s p)
  unfolding set_pair
  set_pair-Inv whole i s p e inv = elim (Bool-cases (same p.0 name)) [
    | inr h ↦ rw h (record {
      others = inv.others;
      seen = passed s.list i p s.remove e h inv.seen;
      bounded = inv.bounded;
    })
    | inl h ↦ elim (Bool-cases s.remove) [
      | inl r ↦
          rw (h, r)
            (record {
              others = without-remove_at s.list i p e h ∙ inv.others;
              seen = removed s.list i (inv.seen ∙ ap (λ b. found b value) r);
              bounded = omega (arith, inv.bounded, length-remove_at s.list i);
            })
      | inr r ↦
          rw (h, r)
            (record {
              others = without-set s.list i p e h ∙ inv.others;
              seen = placed s.list i p e h (inv.seen ∙ ap (λ b. found b value) r);
              bounded = omega (arith, inv.bounded, length-set s.list i (p.0, value));
            })
    ]
  ]

  round-Inv :
      (whole : List Pair) (i j : ℕ) (s : SetLoop) (o : Option Pair)
      → j ≡ suc i
      → get_elem? s.list i ≡ o
      → Inv whole i s
      → Inv whole j (elim o [ none ↦ s | some p ↦ set_pair name value i s p ])
  round-Inv whole i j s none at e inv =
      subst (λ k. Inv whole k s) (sym at)
        (record {
          others = inv.others;
          seen = rw (take-suc-none s.list i e) inv.seen;
          bounded = inv.bounded;
        })
  round-Inv whole i j s (some p) at e inv =
      subst (λ k. Inv whole k (set_pair name value i s p)) (sym at) (set_pair-Inv whole i s p e inv)

  set_rounds-Inv :
      (whole : List Pair) (rounds i n : ℕ) (s : SetLoop)
      → rounds + i ≡ n
      → Inv whole i s
      → Inv whole n (set_rounds name value rounds i s)
  unfolding set_rounds
  set_rounds-Inv whole zero i n s e inv = subst (λ k. Inv whole k s) (omega arith) inv
  set_rounds-Inv whole (suc rounds) i n s e inv =
      set_rounds-Inv whole rounds (i + 1) n _ (omega arith)
        (round-Inv whole i (i + 1) s (get_elem? s.list i) (omega arith) refl inv)

  abbrev left : List Pair → SetLoop
  left list = set_rounds name value (length list) 0 (record { list = list; remove = false })

  nothing_found : find_value name [] ≡ none
  unfolding find_value
  nothing_found = refl

  left-Inv : (list : List Pair) → Inv list (length list) (left list)
  left-Inv list =
      set_rounds-Inv list (length list) 0 (length list) _ (omega arith)
        (record { others = refl; seen = nothing_found; bounded = omega arith })

  left-found :
      (list : List Pair) → find_value name (left list).list ≡ found (left list).remove value
  left-found list =
      let inv = left-Inv list in
      rw (sym (take-length (left list).list (length list) inv.bounded)) inv.seen

  not_found :
      (s : SetLoop)
      → s.remove ≡ false
      → find_value name s.list ≡ found s.remove value
      → find_value name s.list ≡ none
  not_found s r h = h ∙ ap (λ b. found b value) r

  pushed :
      (list : List Pair)
      → find_value name list ≡ none
      → find_value name (list ++ (name, value) ∷ []) ≡ some value
  pushed list h = rw (find_value-concat list (name, value), h, same_refl name) refl

  set_list-found :
      (list : List Pair)
      → (find_value name (set_list name value list) ≡ some value)
        × (without name (set_list name value list) ≡ without name list)
  unfolding set_list
  set_list-found list = elim (Bool-cases (left list).remove) [
    | inl r ↦ rw r (left-found list ∙ ap (λ b. found b value) r, (left-Inv list).others)
    | inr r ↦ rw r (
      pushed (left list).list (not_found (left list) r (left-found list)),
      without-concat (left list).list (name, value) (same_refl name) ∙ (left-Inv list).others,
    )
  ]

-- After `set` the name has the new value, and the pairs of all other names are the same and in the
-- same order.
pub get-set_param :
    (p : SearchParams) (name value : Text)
    → (get (set_param p name value) name ≡ some value)
      × (without name (set_param p name value).list ≡ without name p.list)
unfolding get set_param
get-set_param p name value =
    rw (update-list (record p { list = set_list name value p.list }))
      (set_list-found name value p.list)
