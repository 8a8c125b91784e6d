-- ===== src/Events/Calls.antt =====
-- The order of the calls, and the listeners that are called once.
use mathlib.Core.List.{append-nil, append_assoc}
use zero_archive.Prelude.{
  ap, sym, ◌∙◌, same_refl, ◌&&◌, ◌||◌, Text, if◌then◌else◌, not, ◌++◌, [], ◌∷◌, true, false, refl,
  arith, ◌≡◌, Bool, List, ℕ,
}
use zero_archive.Events.{
  Event, Phase, is_capturing, is_bubbling, Listener, EventTarget, listeners_of, with_listeners,
  includes, splice_ref, Action, World, act_all, call_listener, listener_round, listener_rounds,
  invoke_event_listeners,
}

abbrev silent : ℕ → List Action
silent f = []

-- No listener of the list has the identity of another.
unfoldable pub distinct_refs : List Listener → Bool
distinct_refs [] = true
distinct_refs (l ∷ listeners) = not (includes l.ref listeners) && distinct_refs listeners

unfoldable pub not_once : List Listener → List Listener
not_once [] = []
not_once (l ∷ listeners) = let rest = not_once listeners in if l.once then rest else l ∷ rest

unfoldable pub callbacks_of : List Listener → List ℕ
callbacks_of [] = []
callbacks_of (l ∷ listeners) = l.callback ∷ callbacks_of listeners

listeners_of-with_self :
    (t : EventTarget) (name : Text) (listeners : List Listener)
    → listeners_of (with_listeners t name listeners) name ≡ listeners
unfolding listeners_of with_listeners
listeners_of-with_self t name listeners = ground (arith, same_refl name)

includes-append :
    (ref : ℕ) (kept rest : List Listener)
    → includes ref (kept ++ rest) ≡ (includes ref kept || includes ref rest)
unfolding includes
includes-append ref [] rest = refl
includes-append ref (l ∷ kept) rest = ground (arith, includes-append ref kept rest)

includes_here : (l : Listener) (rest : List Listener) → includes l.ref (l ∷ rest) ≡ true
unfolding includes
includes_here l rest = ground arith

distinct_refs-not_in :
    (kept rest : List Listener) (l : Listener)
    → distinct_refs (kept ++ l ∷ rest) ≡ true
    → includes l.ref kept ≡ false
unfolding distinct_refs includes
distinct_refs-not_in [] rest l h = refl
distinct_refs-not_in (k ∷ kept) rest l h =
    ground (arith, distinct_refs-not_in kept rest l, includes-append k.ref kept (l ∷ rest))

distinct_refs-drop :
    (kept rest : List Listener) (l : Listener)
    → distinct_refs (kept ++ l ∷ rest) ≡ true
    → distinct_refs (kept ++ rest) ≡ true
unfolding distinct_refs includes
distinct_refs-drop [] rest l h = ground arith
distinct_refs-drop (k ∷ kept) rest l h = ground (
  arith,
  distinct_refs-drop kept rest l,
  includes-append k.ref kept (l ∷ rest),
  includes-append k.ref kept rest,
)

splice_ref-append :
    (kept rest : List Listener) (l : Listener)
    → includes l.ref kept ≡ false
    → splice_ref l.ref (kept ++ l ∷ rest) ≡ kept ++ rest
unfolding splice_ref includes
splice_ref-append [] rest l h = ground arith
splice_ref-append (k ∷ kept) rest l h = ground (arith, splice_ref-append kept rest l)

-- Nothing keeps the event from the listeners.
record IsQuiet (e : Event) : Type 0 where
  stop_immediate_propagation : e.stop_immediate_propagation ≡ false
  phase : e.phase ≡ Phase.at_target

-- What the loop leaves and calls.
record Leaves (name : Text) (left : List Listener) (log : List ℕ) (w : World) : Type 0 where
  listeners : listeners_of w.target name ≡ left
  called : w.called ≡ log

abbrev remaining : Bool → Listener → List Listener → List Listener
remaining true l rest = rest
remaining false l rest = l ∷ rest

-- The world behind a round that calls the listener.
record Called (name : Text) (left : List Listener) (log : List ℕ) (w : World) : Type 0 where
  leaves : Leaves name left log w
  quiet : IsQuiet w.event
  same_name : w.event.name ≡ name

module _ (w : World) (kept rest : List Listener) (l : Listener) (q : IsQuiet w.event)
    (e : listeners_of w.target w.event.name ≡ kept ++ l ∷ rest)
    (d : distinct_refs (kept ++ l ∷ rest) ≡ true) where
  not_skipped :
      (not (includes l.ref (listeners_of w.target w.event.name))
        || (is_capturing w.event.phase && not l.capture)
        || (is_bubbling w.event.phase && l.capture))
      ≡ false
  not_skipped = ground (arith, includes-append l.ref kept (l ∷ rest), includes_here l rest, q.phase)

  called_as :
      (once : Bool)
      → l.once ≡ once
      → Called w.event.name
          (kept ++ remaining once l rest)
          (w.called ++ l.callback ∷ [])
          (call_listener silent w l (kept ++ l ∷ rest))
  unfolding call_listener act_all
  called_as true o = simp o (record {
    leaves = record {
      listeners =
          listeners_of-with_self w.target w.event.name (splice_ref l.ref (kept ++ l ∷ rest))
          ∙ splice_ref-append kept rest l (distinct_refs-not_in kept rest l d);
      called = refl;
    };
    quiet = record { stop_immediate_propagation = q.stop_immediate_propagation; phase = q.phase };
    same_name = refl;
  })
  called_as false o = simp o (record {
    leaves = record { listeners = e; called = refl };
    quiet = record { stop_immediate_propagation = q.stop_immediate_propagation; phase = q.phase };
    same_name = refl;
  })

  round_calls :
      Called w.event.name
        (kept ++ remaining l.once l rest)
        (w.called ++ l.callback ∷ [])
        (listener_round silent w l)
  unfolding listener_round
  round_calls = rw (not_skipped, e) (called_as l.once refl)

not_once-cons :
    (l : Listener) (rest kept : List Listener) (once : Bool)
    → (kept ++ (if once then [] else l ∷ [])) ++ rest ≡ kept ++ remaining once l rest
not_once-cons l rest kept true = rw (append-nil kept) refl
not_once-cons l rest kept false = append_assoc kept (l ∷ []) rest

relabel :
    (w : World) {name name' : Text} {left left' : List Listener} {log log' : List ℕ}
    → name ≡ name'
    → left ≡ left'
    → log ≡ log'
    → Leaves name left log w
    → Leaves name' left' log' w
relabel w n e f h = record {
  listeners = ap (listeners_of w.target) (sym n) ∙ h.listeners ∙ e;
  called = h.called ∙ f;
}

kept_once :
    (kept rest : List Listener) (l : Listener) (once : Bool)
    → (kept ++ (if once then [] else l ∷ [])) ++ not_once rest
      ≡ kept ++ (if once then not_once rest else l ∷ not_once rest)
kept_once kept rest l true = rw (append-nil kept) refl
kept_once kept rest l false = append_assoc kept (l ∷ []) (not_once rest)

distinct_refs-remaining :
    (kept rest : List Listener) (l : Listener) (once : Bool)
    → distinct_refs (kept ++ l ∷ rest) ≡ true
    → distinct_refs ((kept ++ (if once then [] else l ∷ [])) ++ rest) ≡ true
distinct_refs-remaining kept rest l true d = rw (append-nil kept) (distinct_refs-drop kept rest l d)
distinct_refs-remaining kept rest l false d = rw (append_assoc kept (l ∷ []) rest) d

-- The loop over `rest`, behind the listeners `kept`.
walk :
    (rest kept : List Listener) (w : World)
    → IsQuiet w.event
    → listeners_of w.target w.event.name ≡ kept ++ rest
    → distinct_refs (kept ++ rest) ≡ true
    → Leaves w.event.name
        (kept ++ not_once rest)
        (w.called ++ callbacks_of rest)
        (listener_rounds silent w rest)
unfolding listener_rounds not_once callbacks_of
walk [] kept w q e d = record { listeners = e; called = sym (append-nil w.called) }
walk (l ∷ rest) kept w q e d =
    let c = round_calls w kept rest l q e d in
    let w' = listener_round silent w l in
    rw (q.stop_immediate_propagation, listener_rounds)
      (relabel _ c.same_name (kept_once kept rest l l.once)
        (ap (λ log. log ++ callbacks_of rest) c.leaves.called
          ∙ append_assoc w.called (l.callback ∷ []) (callbacks_of rest))
        (walk rest (kept ++ (if l.once then [] else l ∷ [])) w' c.quiet
          (ap (listeners_of w'.target) c.same_name
            ∙ c.leaves.listeners
            ∙ sym (not_once-cons l rest kept l.once))
          (distinct_refs-remaining kept rest l l.once d)))

-- A dispatch to listeners of different identity, at a target and with an event that is not stopped,
-- calls the callbacks of all listeners in order, when they do nothing, and leaves exactly the
-- listeners that are not `once`.
pub invoke_event_listeners-calls :
    (w : World)
    → w.event.phase ≡ Phase.at_target
    → w.event.stop_immediate_propagation ≡ false
    → distinct_refs (listeners_of w.target w.event.name) ≡ true
    → (listeners_of (invoke_event_listeners (λ _. []) w).target w.event.name
        ≡ not_once (listeners_of w.target w.event.name))
      × ((invoke_event_listeners (λ _. []) w).called
          ≡ w.called ++ callbacks_of (listeners_of w.target w.event.name))
unfolding invoke_event_listeners
invoke_event_listeners-calls w p s d =
    let left =
      walk (listeners_of w.target w.event.name) []
        (record w { event = record (w.event) { has_current_target = true } })
        (record { stop_immediate_propagation = s; phase = p }) refl d in
    (left.listeners, left.called)
