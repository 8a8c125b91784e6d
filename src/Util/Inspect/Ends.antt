-- ===== src/Util/Inspect/Ends.antt =====
-- `inspect` of lib/util/inspect.js ends, also on objects that refer to themselves.
use zero_archive.Prelude.{
  Text, List, ◌≡◌, ◌∷◌, [], ℕ, true, false, arith, Bool, ◌&&◌, ltb, ◌+◌, ◌-◌, ◌<◌,
}
use zero_archive.Util.Inspect.{
  inspect_items, inspect_entries, inspect_descriptor, inspect_properties,
}
use zero_archive.Util.Inspect.Values.{
  Value, object, Descriptor, uninitialized, value_of, accessor, no_value, Property, values, entries,
  Object, proxy, rejected, fulfilled, iterable, plain, Context, Inspection,
}
use zero_archive.Util.Inspect.Unseen.{unseen, Ends, Ends-done, Ends-and_then}

-- Only objects that are there are referred to.
abbrev pub is_closed : ℕ → Value → Bool
is_closed n (object r) = ltb r n
is_closed n v = true

unfoldable pub all_closed : ℕ → List Value → Bool
all_closed n [] = true
all_closed n (v ∷ vs) = is_closed n v && all_closed n vs

unfoldable pub entries_closed : ℕ → List (Value × Value) → Bool
entries_closed n [] = true
entries_closed n ((k, v) ∷ rest) = is_closed n k && is_closed n v && entries_closed n rest

abbrev descriptor_closed : ℕ → Descriptor → Bool
descriptor_closed n (value_of v) = is_closed n v
descriptor_closed n d = true

unfoldable pub properties_closed : ℕ → List Property → Bool
properties_closed n [] = true
properties_closed n (p ∷ ps) = descriptor_closed n p.descriptor && properties_closed n ps

-- No proxy and no settled promise, for which `inspect` does not look at `ctx.seen`.
abbrev pub is_sound : ℕ → Object → Bool
is_sound n (proxy target handler) = false
is_sound n (rejected v) = false
is_sound n (fulfilled v) = false
is_sound n (iterable prefix is_array (values vs)) = all_closed n vs
is_sound n (iterable prefix is_array (entries es)) = entries_closed n es
is_sound n (plain prefix properties) = properties_closed n properties
is_sound n o = true

unfoldable pub all_sound : ℕ → List Object → Bool
all_sound n [] = true
all_sound n (o ∷ heap) = is_sound n o && all_sound n heap

module _ (trim : Text → Text) (color : Bool) (heap : List Object) where
  -- A recursion that ends while fewer objects than the fuel are not seen.
  abbrev pub GoesOn : ℕ → ℕ → (Value → Context → Inspection Text) → Type 0
  GoesOn n fuel go =
      (v : Value) (ctx : Context)
      → is_closed n v ≡ true
      → unseen n ctx.seen < fuel
      → Ends ctx.seen (go v ctx)

  pub inspect_items-Ends :
      (n fuel : ℕ) (go : Value → Context → Inspection Text)
      → GoesOn n fuel go
      → (vs : List Value) (ctx : Context) → all_closed n vs ≡ true
      → unseen n ctx.seen < fuel
      → Ends ctx.seen (inspect_items trim color heap go vs ctx)
  unfolding inspect_items all_closed
  inspect_items-Ends n fuel go g [] ctx c l = Ends-done [] ctx
  inspect_items-Ends n fuel go g (v ∷ vs) ctx c l =
      Ends-and_then n ctx.seen (go v ctx) _ (g v ctx (ground arith) l) (λ t ctx' m.
        Ends-and_then n ctx'.seen (inspect_items trim color heap go vs ctx') _
          (inspect_items-Ends n fuel go g vs ctx' (ground arith) (omega (arith, l, m)))
          (λ ts ctx'' k. Ends-done (t ∷ ts) ctx''))

  pub inspect_entries-Ends :
      (n fuel : ℕ) (go : Value → Context → Inspection Text)
      → GoesOn n fuel go
      → (es : List (Value × Value)) (ctx : Context) → entries_closed n es ≡ true
      → unseen n ctx.seen < fuel
      → Ends ctx.seen (inspect_entries trim color heap go es ctx)
  unfolding inspect_entries entries_closed
  inspect_entries-Ends n fuel go g [] ctx c l = Ends-done [] ctx
  inspect_entries-Ends n fuel go g ((k, v) ∷ es) ctx c l =
      Ends-and_then n ctx.seen (go k ctx) _ (g k ctx (ground arith) l) (λ t ctx' m.
        Ends-and_then n ctx'.seen (go v ctx') _ (g v ctx' (ground arith) (omega (arith, l, m)))
          (λ u ctx'' m'.
            Ends-and_then n ctx''.seen (inspect_entries trim color heap go es ctx'') _
              (inspect_entries-Ends n fuel go g es ctx'' (ground arith) (omega (arith, l, m, m')))
              (λ ts ctx3 m''. Ends-done _ ctx3)))

  inspect_descriptor-Ends :
      (n fuel : ℕ) (go : Value → Context → Inspection Text)
      → GoesOn n fuel go
      → (d : Descriptor) (ctx : Context) → descriptor_closed n d ≡ true
      → unseen n ctx.seen < fuel
      → Ends ctx.seen (inspect_descriptor trim color heap go d ctx)
  unfolding inspect_descriptor
  inspect_descriptor-Ends n fuel go g uninitialized ctx c l = Ends-done _ ctx
  inspect_descriptor-Ends n fuel go g (value_of v) ctx c l =
      Ends-and_then n ctx.seen (go v (record ctx { indent = ctx.indent + 1 })) _
        (g v (record ctx { indent = ctx.indent + 1 }) c l)
        (λ t ctx' m. Ends-done t (record ctx' { indent = ctx'.indent - 1 }))
  inspect_descriptor-Ends n fuel go g (accessor true true) ctx c l = Ends-done _ ctx
  inspect_descriptor-Ends n fuel go g (accessor true false) ctx c l = Ends-done _ ctx
  inspect_descriptor-Ends n fuel go g (accessor false true) ctx c l = Ends-done _ ctx
  inspect_descriptor-Ends n fuel go g (accessor false false) ctx c l = Ends-done _ ctx
  inspect_descriptor-Ends n fuel go g no_value ctx c l = Ends-done _ ctx

  pub inspect_properties-Ends :
      (n fuel : ℕ) (go : Value → Context → Inspection Text)
      → GoesOn n fuel go
      → (ps : List Property) (ctx : Context) → properties_closed n ps ≡ true
      → unseen n ctx.seen < fuel
      → Ends ctx.seen (inspect_properties trim color heap go ps ctx)
  unfolding inspect_properties properties_closed
  inspect_properties-Ends n fuel go g [] ctx c l = Ends-done [] ctx
  inspect_properties-Ends n fuel go g (p ∷ ps) ctx c l =
      Ends-and_then n ctx.seen (inspect_descriptor trim color heap go p.descriptor ctx) _
        (inspect_descriptor-Ends n fuel go g p.descriptor ctx (ground arith) l)
        (λ t ctx' m.
          Ends-and_then n ctx'.seen (inspect_properties trim color heap go ps ctx') _
            (inspect_properties-Ends n fuel go g ps ctx' (ground arith) (omega (arith, l, m)))
            (λ ts ctx'' k. Ends-done _ ctx''))
