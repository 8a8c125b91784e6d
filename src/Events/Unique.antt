-- ===== src/Events/Unique.antt =====
-- No two listeners of a list have the same callback and the same `capture`.
use zero_archive.Prelude.{
  ◌⊎◌, ap, Bool-cases, same→eq, ◌&&◌, same, ◌+◌, ◌==◌, Text, if◌then◌else◌, ◌++◌, none, some, [],
  ◌∷◌, true, false, refl, arith, inl, inr, ◌≡◌, ◌≤◌, Bool, Option, List, ℕ,
}
use zero_archive.Events.{
  Phase, run_program, program_step, dispatch_at_target, after_dispatch, no_world, Event, Options,
  Listener, EventTarget, no_listeners, listeners_of, with_listeners, same_flag, Callback, absent,
  callable, uncallable, has_listener, add_event_listener, remove_listener, remove_event_listener,
  splice_ref, Action, adds, removes, prevents_default, stops_propagation,
  stops_immediate_propagation, World, or_old, act, act_all, call_listener, listener_round,
  listener_rounds, invoke_event_listeners, dispatch_event, normalize_options,
}

-- How many listeners have the callback and the flag.
unfoldable pub count_listeners : ℕ → Bool → List Listener → ℕ
count_listeners f capture [] = 0
count_listeners f capture (l ∷ listeners) =
    (if l.callback == f && same_flag l.capture capture then 1 else 0)
    + count_listeners f capture listeners

abbrev list_in : Option (List Listener) → List Listener
list_in none = []
list_in (some listeners) = listeners

list_in_lem : (t : EventTarget) (name : Text) → listeners_of t name ≡ list_in (t.listeners name)
unfolding listeners_of
list_in_lem t name = ground arith

listeners_of-with :
    (t : EventTarget) (name m : Text) (listeners : List Listener)
    → listeners_of (with_listeners t name listeners) m
      ≡ (if same m name then listeners else listeners_of t m)
unfolding listeners_of with_listeners
listeners_of-with t name m listeners = ground arith

same_flag-eq : (a b : Bool) → same_flag a b ≡ true → a ≡ b
same_flag-eq a b h = ground arith

count-append :
    (f : ℕ) (c : Bool) (xs ys : List Listener)
    → count_listeners f c (xs ++ ys) ≡ count_listeners f c xs + count_listeners f c ys
unfolding count_listeners
count-append f c [] ys = omega arith
count-append f c (x ∷ xs) ys = ground (arith, count-append f c xs ys)

count-has_listener :
    (f : ℕ) (c : Bool) (xs : List Listener)
    → has_listener f c xs ≡ false
    → count_listeners f c xs ≡ 0
unfolding count_listeners has_listener
count-has_listener f c [] h = refl
count-has_listener f c (x ∷ xs) h = ground (arith, count-has_listener f c xs)

count-remove_listener :
    (f g : ℕ) (c d : Bool) (xs : List Listener)
    → count_listeners f c (remove_listener g d xs) ≤ count_listeners f c xs
unfolding count_listeners remove_listener
count-remove_listener f g c d [] = omega arith
count-remove_listener f g c d (x ∷ xs) = ground (arith, count-remove_listener f g c d xs)

count-splice_ref :
    (f : ℕ) (c : Bool) (ref : ℕ) (xs : List Listener)
    → count_listeners f c (splice_ref ref xs) ≤ count_listeners f c xs
unfolding count_listeners splice_ref
count-splice_ref f c ref [] = omega arith
count-splice_ref f c ref (x ∷ xs) = ground (arith, count-splice_ref f c ref xs)

no_world-count :
    (m : Text) (f : ℕ) (c : Bool) → count_listeners f c (listeners_of no_listeners m) ≤ 1
unfolding count_listeners listeners_of
no_world-count m f c = omega arith

module _ (m : Text) (f : ℕ) (c : Bool) where
  -- At most one listener in the list of `m` has the callback and the flag.
  abbrev pub IsUnique : EventTarget → Type 0
  IsUnique t = count_listeners f c (listeners_of t m) ≤ 1

  with_listeners-IsUnique :
      (t : EventTarget) (name : Text) (listeners : List Listener)
      → (same m name ≡ true → count_listeners f c listeners ≤ 1)
      → IsUnique t
      → IsUnique (with_listeners t name listeners)
  with_listeners-IsUnique t name listeners h u =
      rw (listeners_of-with t name m listeners)
        (elim (Bool-cases (same m name)) [ inl e ↦ rw e (h e) | inr e ↦ rw e u ])

  at_name :
      (t : EventTarget) (name : Text)
      → same m name ≡ true
      → IsUnique t
      → count_listeners f c (listeners_of t name) ≤ 1
  at_name t name e u = rw (← same→eq m name e) u

  one_more :
      (l : Listener) (listeners : List Listener)
      → has_listener l.callback l.capture listeners ≡ false
      → count_listeners f c listeners ≤ 1
      → count_listeners f c (listeners ++ l ∷ []) ≤ 1
  unfolding count_listeners
  one_more l listeners h u = ground (
    arith,
    count-append f c listeners (l ∷ []),
    count-has_listener l.callback l.capture listeners,
    same_flag-eq l.capture c,
  )

  add-IsUnique :
      (t : EventTarget) (name : Text) (callback : Callback) (options : Options)
      → IsUnique t
      → IsUnique (or_old t (add_event_listener t name callback options))
  unfolding add_event_listener
  add-IsUnique t name absent options u = u
  add-IsUnique t name uncallable options u = u
  add-IsUnique t name (callable g) options u =
      let listeners = listeners_of t name in
      let (capture, once) = normalize_options options in
      let l : Listener = record {
        ref = t.next_ref;
        callback = g;
        capture = capture;
        once = once;
      } in
      elim (Bool-cases (has_listener g capture listeners)) [
        | inl e ↦ rw e (with_listeners-IsUnique t name listeners (λ n. at_name t name n u) u)
        | inr e ↦ rw e (
            with_listeners-IsUnique (record t { next_ref = t.next_ref + 1 }) name
              (listeners ++ l ∷ []) (λ n. one_more l listeners e (at_name t name n u)) u)
      ]

  remove-IsUnique :
      (t : EventTarget) (name : Text) (callback : Callback) (options : Options)
      → IsUnique t
      → IsUnique (or_old t (remove_event_listener t name callback options))
  unfolding remove_event_listener
  remove-IsUnique t name absent options u = u
  remove-IsUnique t name uncallable options u = u
  remove-IsUnique t name (callable g) options u = from_list (t.listeners name) refl
    where
      from_list :
          (o : Option (List Listener))
          → t.listeners name ≡ o
          → IsUnique (
              or_old t (elim o [
                | none ↦ some t
                | some listeners ↦ some (
                    with_listeners t name
                      (remove_listener g (normalize_options options).0 listeners))
              ]))
      from_list none e = u
      from_list (some listeners) e =
          with_listeners-IsUnique t name _
            (λ n. omega (
              arith,
              count-remove_listener f g c (normalize_options options).0 listeners,
              at_name t name n u,
              ap (count_listeners f c) (list_in_lem t name),
              ap (λ o. count_listeners f c (list_in o)) e,
            ))
            u

  act-IsUnique : (w : World) (a : Action) → IsUnique w.target → IsUnique (act w a).target
  unfolding act
  act-IsUnique w (adds name g options) u = add-IsUnique w.target name g options u
  act-IsUnique w (removes name g options) u = remove-IsUnique w.target name g options u
  act-IsUnique w prevents_default u = u
  act-IsUnique w stops_propagation u = u
  act-IsUnique w stops_immediate_propagation u = u

  act_all-IsUnique :
      (w : World) (actions : List Action) → IsUnique w.target → IsUnique (act_all w actions).target
  unfolding act_all
  act_all-IsUnique w [] u = u
  act_all-IsUnique w (a ∷ actions) u = act_all-IsUnique (act w a) actions (act-IsUnique w a u)

  module _ (callbacks : ℕ → List Action) where
    call_listener-IsUnique :
        (w : World) (l : Listener)
        → IsUnique w.target
        → IsUnique (call_listener callbacks w l (listeners_of w.target w.event.name)).target
    unfolding call_listener
    call_listener-IsUnique w l u = act_all-IsUnique _ (callbacks l.callback) (spliced l.once)
      where
        spliced :
            (once : Bool)
            → IsUnique
                (if once
                  then record w {
                    target =
                        with_listeners w.target w.event.name
                          (splice_ref l.ref (listeners_of w.target w.event.name));
                  }
                  else w).target
        spliced false = u
        spliced true =
            with_listeners-IsUnique w.target w.event.name _
              (λ n. omega (
                arith,
                count-splice_ref f c l.ref (listeners_of w.target w.event.name),
                at_name w.target w.event.name n u,
              ))
              u

    listener_round-IsUnique :
        (w : World) (l : Listener)
        → IsUnique w.target
        → IsUnique (listener_round callbacks w l).target
    unfolding listener_round
    listener_round-IsUnique w l u = by_test _
      where
        by_test :
            (skipped : Bool)
            → IsUnique
                (if skipped
                  then w
                  else call_listener callbacks w l (listeners_of w.target w.event.name)).target
        by_test true = u
        by_test false = call_listener-IsUnique w l u

    listener_rounds-IsUnique :
        (w : World) (handlers : List Listener)
        → IsUnique w.target
        → IsUnique (listener_rounds callbacks w handlers).target
    unfolding listener_rounds
    listener_rounds-IsUnique w [] u = u
    listener_rounds-IsUnique w (l ∷ handlers) u =
        elim w.event.stop_immediate_propagation
          as (λ b.
            IsUnique
              (elim b as (λ _. World) [
                | true ↦ w
                | false ↦ listener_rounds callbacks (listener_round callbacks w l) handlers
              ]).target) [
                | true ↦ u
                | false ↦
                    listener_rounds-IsUnique (listener_round callbacks w l) handlers
                      (listener_round-IsUnique w l u)
              ]

    invoke-IsUnique :
        (w : World) → IsUnique w.target → IsUnique (invoke_event_listeners callbacks w).target
    unfolding invoke_event_listeners
    invoke-IsUnique w u = listener_rounds-IsUnique _ (listeners_of w.target w.event.name) u

    at_target-IsUnique :
        (w : World) → IsUnique w.target → IsUnique (dispatch_at_target callbacks w).target
    unfolding dispatch_at_target
    at_target-IsUnique w u =
        let e = record (w.event) {
          dispatching = true;
          has_target = true;
          phase = Phase.at_target;
        } in
        ground (arith, invoke-IsUnique (record w { event = e }) u)

    dispatch-IsUnique :
        (w : World) → IsUnique w.target → IsUnique (after_dispatch callbacks w).target
    unfolding after_dispatch dispatch_event
    dispatch-IsUnique w u = ground (arith, at_target-IsUnique w u)

    program-IsUnique :
        (w : World) (program : List (Action ⊎ Event))
        → IsUnique w.target
        → IsUnique (run_program callbacks w program).target
    unfolding run_program program_step
    program-IsUnique w [] u = u
    program-IsUnique w (inl a ∷ program) u = program-IsUnique (act w a) program (act-IsUnique w a u)
    program-IsUnique w (inr e ∷ program) u =
        program-IsUnique (after_dispatch callbacks (record w { event = e })) program
          (dispatch-IsUnique (record w { event = e }) u)

-- Whatever a program adds, removes and dispatches, and whatever the callbacks do, no two listeners of
-- an event name have the same callback and the same `capture`.
pub run_program-IsUnique :
    (callbacks : ℕ → List Action) (program : List (Action ⊎ Event)) (name : Text) (f : ℕ) (c : Bool)
    → IsUnique name f c (run_program callbacks no_world program).target
run_program-IsUnique callbacks program name f c =
    program-IsUnique name f c callbacks no_world program (no_world-count name f c)
