-- ===== src/Util/Inspect/Circles.antt =====
-- `inspect` of lib/util/inspect.js ends, also on objects that refer to themselves.
use zero_archive.Prelude.{
  Text, List, ◌≡◌, ◌∷◌, [], some, ℕ, true, refl, arith, Bool, zero, suc, if◌then◌else◌, length, ◌≤◌,
  ◌<◌, get_elem?, Bool-cases, inl, inr, codes,
}
use zero_archive.Util.Inspect.{
  new_context, inspect_items, format, inspect_iterable, inspect_seen, inspect_object, inspect,
}
use zero_archive.Util.Inspect.Values.{
  stylize, special, Value, primitive, text, object, Items, values, entries, Object, text_object,
  proxy, pending, rejected, fulfilled, error, function, iterable, plain, Context, includes_object,
  push_seen, Inspection,
}
use zero_archive.Util.Inspect.Unseen.{
  Ends-and_then, unseen, Ends, Ends-done, Ends-pop, Ends-stays, unseen-cons,
}
use zero_archive.Util.Inspect.Ends.{
  all_closed, is_closed, is_sound, all_sound, GoesOn, inspect_items-Ends, inspect_entries-Ends,
  inspect_properties-Ends,
}

get_elem?-sound :
    (n r : ℕ) (heap : List Object)
    → all_sound n heap ≡ true
    → r < length heap
    → (o : Object) × (get_elem? heap r ≡ some o) × (is_sound n o ≡ true)
unfolding all_sound
get_elem?-sound n r [] s h = absurd (omega arith)
get_elem?-sound n zero (o ∷ heap) s h = (o, refl, ground arith)
get_elem?-sound n (suc r) (o ∷ heap) s h = get_elem?-sound n r heap (ground arith) (omega arith)

unseen_below : (n : ℕ) (seen : List ℕ) → unseen n seen ≤ n
unfolding unseen
unseen_below zero seen = omega arith
unseen_below (suc n) seen = ground (arith, unseen_below n seen)

module _ (trim : Text → Text) (color : Bool) (heap : List Object) where
  inspect_iterable-Ends :
      (n fuel r : ℕ) (go : Value → Context → Inspection Text)
      → GoesOn trim color heap n fuel go
      → (prefix : Text) (is_array : Bool) (items : Items) (ctx : Context)
      → is_sound n (iterable prefix is_array items) ≡ true
      → unseen n (r ∷ ctx.seen) < fuel
      → Ends ctx.seen (inspect_iterable trim color heap go prefix is_array items (push_seen r ctx))
  unfolding inspect_iterable
  inspect_iterable-Ends n fuel r go g prefix is_array (values []) ctx c l =
      Ends-stays r ctx.seen _ (Ends-done _ (push_seen r ctx))
  inspect_iterable-Ends n fuel r go g prefix is_array (entries []) ctx c l =
      Ends-stays r ctx.seen _ (Ends-done _ (push_seen r ctx))
  inspect_iterable-Ends n fuel r go g prefix is_array (values (v ∷ vs)) ctx c l =
      Ends-pop r ctx.seen _ _
        (inspect_items-Ends trim color heap n fuel go g (v ∷ vs) (push_seen r ctx) c l)
  inspect_iterable-Ends n fuel r go g prefix is_array (entries (e ∷ es)) ctx c l =
      Ends-pop r ctx.seen _ _
        (inspect_entries-Ends trim color heap n fuel go g (e ∷ es) (push_seen r ctx) c l)

  -- The test of `ctx.seen`, before objects whose inspection ends when they are added to it.
  test_Ends :
      (n fuel r : ℕ) (inside : Inspection Text) (ctx : Context)
      → r < n
      → unseen n ctx.seen < suc fuel
      → (unseen n (r ∷ ctx.seen) < fuel → Ends ctx.seen inside)
      → Ends ctx.seen (
          if includes_object r ctx.seen
          then some (stylize color (codes "[Circular]") special, ctx)
          else inside)
  test_Ends n fuel r inside ctx h l p = elim (Bool-cases (includes_object r ctx.seen)) [
    | inl e ↦ rw e (Ends-done _ ctx)
    | inr e ↦ rw e (p (omega (arith, l, unseen-cons n r ctx.seen h e)))
  ]

  inspect_object-Ends :
      (n fuel r : ℕ) (go : Value → Context → Inspection Text)
      → GoesOn trim color heap n fuel go
      → (o : Object) (ctx : Context) → is_sound n o ≡ true
      → r < n
      → unseen n ctx.seen < suc fuel
      → Ends ctx.seen (inspect_object trim color heap go r o ctx)
  unfolding inspect_object inspect_seen
  inspect_object-Ends n fuel r go g (text_object t style) ctx c h l = Ends-done _ ctx
  inspect_object-Ends n fuel r go g (proxy target handler) ctx c h l = absurd cc
  inspect_object-Ends n fuel r go g pending ctx c h l = Ends-done _ ctx
  inspect_object-Ends n fuel r go g (rejected v) ctx c h l = absurd cc
  inspect_object-Ends n fuel r go g (fulfilled v) ctx c h l = absurd cc
  inspect_object-Ends n fuel r go g (error t) ctx c h l = Ends-done _ ctx
  inspect_object-Ends n fuel r go g (function prefix called) ctx c h l =
      test_Ends n fuel r _ ctx h l (λ m. Ends-done _ ctx)
  inspect_object-Ends n fuel r go g (iterable prefix is_array items) ctx c h l =
      test_Ends n fuel r _ ctx h l (inspect_iterable-Ends n fuel r go g prefix is_array items ctx c)
  inspect_object-Ends n fuel r go g (plain prefix properties) ctx c h l =
      test_Ends n fuel r _ ctx h l (λ m.
        Ends-pop r ctx.seen _ _
          (inspect_properties-Ends trim color heap n fuel go g properties (push_seen r ctx) c m))

  inspect_enough :
      (fuel : ℕ) (v : Value) (ctx : Context)
      → all_sound (length heap) heap ≡ true
      → is_closed (length heap) v ≡ true
      → unseen (length heap) ctx.seen < fuel
      → Ends ctx.seen (inspect trim color heap fuel v ctx)
  unfolding inspect
  inspect_enough zero v ctx s c l = absurd (omega arith)
  inspect_enough (suc fuel) (primitive t style) ctx s c l = Ends-done _ ctx
  inspect_enough (suc fuel) (text t) ctx s c l = Ends-done _ ctx
  inspect_enough (suc fuel) (object r) ctx s c l =
      let h : r < length heap = ground arith in
      let found = get_elem?-sound (length heap) r heap s h in
      rw (found.1, inspect)
        (inspect_object-Ends (length heap) fuel r (inspect trim color heap fuel)
          (λ v ctx' c' m. inspect_enough fuel v ctx' s c' m) found.0 ctx found.2 h l)

  inspect_all :
      (vs : List Value)
      → all_sound (length heap) heap ≡ true
      → all_closed (length heap) vs ≡ true
      → Ends [] (
          inspect_items trim color heap
            (inspect trim color heap (suc (length heap)))
            vs
            new_context)
  inspect_all vs s c =
      inspect_items-Ends trim color heap (length heap) (suc (length heap)) _
        (λ v ctx d m. inspect_enough (suc (length heap)) v ctx s d m) vs new_context c
        (omega (arith, unseen_below (length heap) []))

  format-Ends :
      (vs : List Value)
      → all_sound (length heap) heap ≡ true
      → all_closed (length heap) vs ≡ true
      → Ends [] (format trim color heap (suc (length heap)) vs)
  unfolding format all_closed
  format-Ends [] s c = Ends-and_then 0 [] _ _ (inspect_all [] s c) (λ parts ctx m. Ends-done _ ctx)
  format-Ends (text t ∷ []) s c = Ends-done t new_context
  format-Ends (text t ∷ v ∷ vs) s c =
      Ends-and_then 0 [] _ _ (inspect_all (v ∷ vs) s c) (λ parts ctx m. Ends-done _ ctx)
  format-Ends (primitive t style ∷ vs) s c =
      Ends-and_then 0 [] _ _ (inspect_all (primitive t style ∷ vs) s c)
        (λ parts ctx m. Ends-done _ ctx)
  format-Ends (object r ∷ vs) s c =
      Ends-and_then 0 [] _ _ (inspect_all (object r ∷ vs) s c) (λ parts ctx m. Ends-done _ ctx)

  -- Where there are no proxies and no settled promises, `inspect` ends on every value, however the
  -- objects refer to each other and whatever has been seen before, and `format` ends on every list
  -- of values; the recursion is no deeper than the number of objects and one more. `inspect` adds to
  -- what has been seen and takes nothing away.
  pub inspect-Ends :
      (v : Value) (ctx : Context) (vs : List Value)
      → all_sound (length heap) heap ≡ true
      → is_closed (length heap) v ≡ true
      → all_closed (length heap) vs ≡ true
      → Ends ctx.seen (inspect trim color heap (suc (length heap)) v ctx)
        × Ends [] (format trim color heap (suc (length heap)) vs)
  inspect-Ends v ctx vs s c d = (
    inspect_enough (suc (length heap)) v ctx s c
        (omega (arith, unseen_below (length heap) ctx.seen)),
    format-Ends vs s d,
  )
