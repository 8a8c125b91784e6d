-- ===== src/Util/Inspect.antt =====
-- `inspect` of lib/util/inspect.js. The fuel is the depth of its recursion.
pub mod Values
pub mod Unseen
pub mod Ends
pub mod Circles
use zero_archive.Prelude.{
  inl, inr, ◌<◌, ◌≤◌, Text, List, ◌≡◌, ◌++◌, ◌∷◌, [], some, none, Option, ℕ, true, false, refl,
  arith, Bool, zero, suc, same, codes, ◌||◌, ◌&&◌, ltb, leb, ◌==◌, if◌then◌else◌, length, ◌+◌, ◌-◌,
  get_elem?,
}
use zero_archive.Util.Inspect.Values.{
  new_context, Style, special, undefined, null, string, symbol, stylize, str_escape, Value,
  primitive, text, object, Descriptor, uninitialized, value_of, accessor, no_value, PropertyKey,
  symbol_key, string_key, Property, Items, values, entries, Object, text_object, proxy, pending,
  rejected, fulfilled, error, function, iterable, plain, Context, includes_object, push_seen,
  pop_seen, Inspection, and_then, join_text, has_line_feed, indent_lines, spaces, is_key,
}

-- `trim` is the engine's, `color` is `options.color !== false`.
module _ (trim : Text → Text) (color : Bool) (heap : List Object) where
  -- `items.map((v) => inspect(v, options))`
  unfoldable pub inspect_items :
      (Value → Context → Inspection Text) → List Value → Context → Inspection (List Text)
  inspect_items go [] ctx = some ([], ctx)
  inspect_items go (v ∷ vs) ctx =
      and_then (go v ctx)
        (λ t ctx'. and_then (inspect_items go vs ctx') (λ ts ctx''. some (t ∷ ts, ctx'')))

  unfoldable pub inspect_entries :
      (Value → Context → Inspection Text) → List (Value × Value) → Context → Inspection (List Text)
  inspect_entries go [] ctx = some ([], ctx)
  inspect_entries go ((k, v) ∷ rest) ctx = and_then (go k ctx) (λ t ctx'.
      and_then (go v ctx') (λ u ctx''.
        and_then (inspect_entries go rest ctx'')
          (λ ts ctx3. some ((t ++ codes " => " ++ u) ∷ ts, ctx3))))

  -- `str` in the loop over the keys.
  unfoldable pub inspect_descriptor :
      (Value → Context → Inspection Text) → Descriptor → Context → Inspection Text
  inspect_descriptor go uninitialized ctx =
      some (stylize color (codes "<uninitialized>") special, ctx)
  inspect_descriptor go (value_of v) ctx =
      and_then (go v (record ctx { indent = ctx.indent + 1 }))
        (λ t ctx'. some (t, record ctx' { indent = ctx'.indent - 1 }))
  inspect_descriptor go (accessor true true) ctx =
      some (stylize color (codes "[Getter/Setter]") special, ctx)
  inspect_descriptor go (accessor true false) ctx =
      some (stylize color (codes "[Getter]") special, ctx)
  inspect_descriptor go (accessor false true) ctx =
      some (stylize color (codes "[Setter]") special, ctx)
  inspect_descriptor go (accessor false false) ctx =
      some (stylize color (codes "undefined") undefined, ctx)
  inspect_descriptor go no_value ctx = some (stylize color (codes "undefined") undefined, ctx)

  -- `name` in the loop over the keys.
  abbrev key_text : PropertyKey → Text
  key_text (symbol_key t) = b'[' ∷ (stylize color t symbol ++ b']' ∷ [])
  key_text (string_key t) =
      if is_key t then stylize color t Style.name else stylize color (str_escape t) string

  unfoldable pub inspect_properties :
      (Value → Context → Inspection Text) → List Property → Context → Inspection (List Text)
  inspect_properties go [] ctx = some ([], ctx)
  inspect_properties go (p ∷ ps) ctx =
      and_then (inspect_descriptor go p.descriptor ctx) (λ str ctx'.
        and_then (inspect_properties go ps ctx')
          (λ out ctx''. some ((key_text p.key ++ codes ": " ++ str) ∷ out, ctx'')))

  -- `start`
  abbrev without_prefix : Text → Text → Text
  without_prefix usual prefix = if same prefix usual then [] else prefix

  abbrev open_bracket : Bool → Text
  open_bracket is_array = if is_array then codes "[" else codes "{"

  abbrev close_bracket : Bool → Text
  close_bracket is_array = if is_array then codes "]" else codes "}"

  -- `${start}${bracket[0]}${i}${bracket[1]}` for the entries of a map.
  abbrev map_text : Text → Bool → ℕ → List Text → Text
  map_text start is_array indent parts =
      if ltb 3 (length parts)
      then start
        ++ open_bracket is_array
        ++ 0x0a
          ∷ (spaces indent ++ join_text (b',' ∷ 0x0a ∷ spaces indent) parts ++ 0x0a ∷ codes "}")
      else start ++ codes "{ " ++ join_text (codes ", ") parts ++ codes " }"

  -- The objects with an iterator. Without items `pop` is not called.
  unfoldable pub inspect_iterable :
      (Value → Context → Inspection Text) → Text → Bool → Items → Context → Inspection Text
  inspect_iterable go prefix is_array (values []) ctx = some (
    without_prefix (codes "Array ") prefix ++ open_bracket is_array ++ close_bracket is_array,
    ctx,
  )
  inspect_iterable go prefix is_array (entries []) ctx = some (
    without_prefix (codes "Array ") prefix ++ open_bracket is_array ++ close_bracket is_array,
    ctx,
  )
  inspect_iterable go prefix is_array (values (v ∷ vs)) ctx =
      and_then (inspect_items go (v ∷ vs) ctx) (λ parts ctx'. some (
        without_prefix (codes "Array ") prefix
            ++ open_bracket is_array
            ++ join_text (codes ", ") parts
            ++ close_bracket is_array,
        pop_seen ctx',
      ))
  inspect_iterable go prefix is_array (entries (e ∷ es)) ctx =
      and_then (inspect_entries go (e ∷ es) ctx) (λ parts ctx'. some (
        map_text (without_prefix (codes "Array ") prefix) is_array ctx'.indent parts,
        pop_seen ctx',
      ))

  -- The end of `inspect`.
  abbrev plain_text : Text → ℕ → List Text → Text
  plain_text start indent [] = start ++ codes "{}"
  plain_text start indent (part ∷ parts) =
      let separator = if ltb 4 (length (part ∷ parts)) then 0x0a ∷ spaces indent else codes " " in
      start ++ codes "{ " ++ join_text (b',' ∷ separator) (part ∷ parts) ++ codes " }"

  -- The objects behind the test of `ctx.seen`, which has the object.
  unfoldable pub inspect_seen :
      (Value → Context → Inspection Text) → Object → Context → Inspection Text
  inspect_seen go (function prefix called) ctx =
      let trimmed = trim prefix in
      let kind = if length trimmed == 0 then codes "Function" else trimmed in
      let of_name = if length called == 0 then [] else codes ": " ++ called in
      some (stylize color (b'[' ∷ (kind ++ of_name ++ b']' ∷ [])) special, pop_seen ctx)
  inspect_seen go (iterable prefix is_array items) ctx =
      inspect_iterable go prefix is_array items ctx
  inspect_seen go (plain prefix properties) ctx =
      and_then (inspect_properties go properties ctx) (λ out ctx'.
        some (plain_text (without_prefix (codes "Object ") prefix) ctx'.indent out, pop_seen ctx'))
  inspect_seen go o ctx = none

  -- The objects in the order of the tests.
  unfoldable pub inspect_object :
      (Value → Context → Inspection Text) → ℕ → Object → Context → Inspection Text
  inspect_object go r (text_object t style) ctx = some (stylize color t style, ctx)
  inspect_object go r (proxy target handler) ctx = and_then (go target ctx) (λ t ctx'.
      and_then (go handler ctx')
        (λ h ctx''. some (codes "Proxy [ " ++ t ++ codes ", " ++ h ++ codes " ]", ctx'')))
  inspect_object go r pending ctx = some (codes "Promise { <pending> }", ctx)
  inspect_object go r (rejected v) ctx = and_then (go v ctx) (λ t ctx'. some (
    if has_line_feed t
        then codes "Promise {" ++ 0x0a ∷ codes "  <rejected> " ++ indent_lines t ++ codes " }"
        else codes "Promise { <rejected> " ++ t ++ codes " }",
    ctx',
  ))
  inspect_object go r (fulfilled v) ctx =
      and_then (go v ctx) (λ t ctx'. some (codes "Promise { " ++ t ++ codes " }", ctx'))
  inspect_object go r (error t) ctx = some (t, ctx)
  inspect_object go r o ctx =
      let inside = inspect_seen go o (push_seen r ctx) in
      if includes_object r ctx.seen
      then some (stylize color (codes "[Circular]") special, ctx)
      else inside

  unfoldable pub inspect : ℕ → Value → Context → Inspection Text
  inspect zero v ctx = none
  inspect (suc fuel) (primitive t style) ctx = some (stylize color t style, ctx)
  inspect (suc fuel) (text t) ctx = some (stylize color (str_escape t) string, ctx)
  inspect (suc fuel) (object r) ctx = elim (get_elem? heap r) [
    | none ↦ none
    | some o ↦ inspect_object (inspect fuel) r o ctx
  ]

  -- `format`, whose calls of `inspect` share the context of `options`.
  unfoldable pub format : ℕ → List Value → Inspection Text
  format fuel (text t ∷ []) = some (t, new_context)
  format fuel (text t ∷ v ∷ vs) =
      and_then (inspect_items (inspect fuel) (v ∷ vs) new_context)
        (λ parts ctx. some (join_text (codes " ") (t ∷ parts), ctx))
  format fuel vs =
      and_then (inspect_items (inspect fuel) vs new_context)
        (λ parts ctx. some (join_text (codes " ") parts, ctx))
