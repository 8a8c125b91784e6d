-- ===== src/Events.antt =====
-- lib/whatwg/events.js: the flags of an Event, the lists of listeners of an EventTarget, and
-- `dispatchEvent`. A function or object is a number. The path of an event is empty, as in the code,
-- and so are its loops over the path.
pub mod Unique
pub mod Dispatch
pub mod Calls
use zero_archive.Prelude.{
  ◌⊎◌, same, ◌++◌, ◌+◌, ◌||◌, Text, if◌then◌else◌, not, ◌&&◌, ◌==◌, none, some, [], ◌∷◌, true,
  false, zero, suc, refl, arith, inl, inr, ◌≡◌, ◌<◌, ◌≤◌, Bool, Option, List, ℕ,
}

pub data Phase : Type 0 where
  none_phase : Phase
  capturing_phase : Phase
  at_target : Phase
  bubbling_phase : Phase

abbrev pub is_none_phase : Phase → Bool
is_none_phase Phase.none_phase = true
is_none_phase _ = false

abbrev pub is_capturing : Phase → Bool
is_capturing Phase.capturing_phase = true
is_capturing _ = false

abbrev pub is_bubbling : Phase → Bool
is_bubbling Phase.bubbling_phase = true
is_bubbling _ = false

-- An Event; `has_target` and `has_current_target` are whether `target` and `currentTarget` are the
-- target of the model, and not null.
pub record Event : Type 0 where
  pub name : Text
  pub bubbles : Bool
  pub cancelable : Bool
  pub has_target : Bool
  pub has_current_target : Bool
  pub phase : Phase
  pub initialized : Bool
  pub stop_propagation : Bool
  pub stop_immediate_propagation : Bool
  pub canceled : Bool
  pub dispatching : Bool
  pub in_passive_listener : Bool

unfoldable pub new_event : Text → Bool → Bool → Event
new_event name bubbles cancelable = record {
  name = name;
  bubbles = bubbles;
  cancelable = cancelable;
  has_target = false;
  has_current_target = false;
  phase = Phase.none_phase;
  initialized = true;
  stop_propagation = false;
  stop_immediate_propagation = false;
  canceled = false;
  dispatching = false;
  in_passive_listener = false;
}

unfoldable pub prevent_default : Event → Event
prevent_default e =
    if e.cancelable && not e.in_passive_listener then record e { canceled = true } else e

-- The argument `options`: a boolean, null or undefined, an object with its properties as booleans, or
-- any other value, as a boolean, with its property `once`.
pub data Options : Type 0 where
  flag : Bool → Options
  nothing : Options
  fields : Bool → Bool → Options
  other : Bool → Bool → Options

-- `normalizeEventHandlerOptions(options, ['capture', 'once'])`: the properties, undefined as false.
unfoldable pub normalize_options : Options → Bool × Bool
normalize_options (flag b) = (b, false)
normalize_options nothing = (false, false)
normalize_options (fields capture once) = (capture, once)
normalize_options (other truthy once) = (truthy, once)

-- A listener object; `ref` is its identity. Its options have no `passive`, since `addEventListener`
-- does not ask for it.
pub record Listener : Type 0 where
  pub ref : ℕ
  pub callback : ℕ
  pub capture : Bool
  pub once : Bool

-- `kEventListeners`, and the identity of the next listener object.
pub record EventTarget : Type 0 where
  pub listeners : Text → Option (List Listener)
  pub next_ref : ℕ

abbrev pub no_listeners : EventTarget
no_listeners = record { listeners = λ _. none; next_ref = 0 }

-- `target[kEventListeners][name]`, with no list as the empty one: the code makes the one of the other
-- before it looks, or does nothing on either.
unfoldable pub listeners_of : EventTarget → Text → List Listener
listeners_of t name = elim (t.listeners name) [ none ↦ [] | some listeners ↦ listeners ]

unfoldable pub with_listeners : EventTarget → Text → List Listener → EventTarget
with_listeners t name listeners = record t {
  listeners = λ n. if same n name then some listeners else t.listeners n;
}

abbrev pub same_flag : Bool → Bool → Bool
same_flag true b = b
same_flag false b = not b

-- The argument `callback`: null or undefined, an object or function, or any other value.
pub data Callback : Type 0 where
  absent : Callback
  callable : ℕ → Callback
  uncallable : Callback

unfoldable pub has_listener : ℕ → Bool → List Listener → Bool
has_listener callback capture [] = false
has_listener callback capture (l ∷ listeners) =
    (same_flag l.capture capture && l.callback == callback)
    || has_listener callback capture listeners

-- `addEventListener`; `none` is its TypeError.
unfoldable pub add_event_listener : EventTarget → Text → Callback → Options → Option EventTarget
unfolding has_listener normalize_options listeners_of with_listeners
add_event_listener t name uncallable options = none
add_event_listener t name absent options = some t
add_event_listener t name (callable f) options =
    let listeners = listeners_of t name in
    let (capture, once) = normalize_options options in
    if has_listener f capture listeners
    then some (with_listeners t name listeners)
    else some (
        with_listeners (record t { next_ref = t.next_ref + 1 }) name
          (listeners
            ++ record { ref = t.next_ref; callback = f; capture = capture; once = once } ∷ []))

-- The loop of `removeEventListener`: the first listener that fits is spliced.
unfoldable pub remove_listener : ℕ → Bool → List Listener → List Listener
remove_listener callback capture [] = []
remove_listener callback capture (l ∷ listeners) =
    let rest = remove_listener callback capture listeners in
    if l.callback == callback && same_flag l.capture capture then listeners else l ∷ rest

unfoldable pub remove_event_listener : EventTarget → Text → Callback → Options → Option EventTarget
unfolding remove_listener normalize_options
remove_event_listener t name uncallable options = none
remove_event_listener t name absent options = some t
remove_event_listener t name (callable f) options = elim (t.listeners name) [
  | none ↦ some t
  | some listeners ↦
      some (with_listeners t name (remove_listener f (normalize_options options).0 listeners))
]

-- `listeners.indexOf(listener) === -1` is the negation of this.
unfoldable pub includes : ℕ → List Listener → Bool
includes ref [] = false
includes ref (l ∷ listeners) = l.ref == ref || includes ref listeners

-- `listeners.splice(listeners.indexOf(listener), 1)`, for a listener that is there.
unfoldable pub splice_ref : ℕ → List Listener → List Listener
splice_ref ref [] = []
splice_ref ref (l ∷ listeners) =
    let rest = splice_ref ref listeners in if l.ref == ref then listeners else l ∷ rest

-- What a callback may do while it is called. What it throws is caught.
pub data Action : Type 0 where
  adds : Text → Callback → Options → Action
  removes : Text → Callback → Options → Action
  prevents_default : Action
  stops_propagation : Action
  stops_immediate_propagation : Action

-- The target, the event that is dispatched, and the callbacks called so far.
pub record World : Type 0 where
  pub target : EventTarget
  pub event : Event
  pub called : List ℕ

-- The target that a call returns, or the old one if it throws.
abbrev pub or_old : EventTarget → Option EventTarget → EventTarget
or_old t none = t
or_old t (some t') = t'

unfoldable pub act : World → Action → World
unfolding prevent_default
act w (adds name f options) = record w {
  target = or_old w.target (add_event_listener w.target name f options);
}
act w (removes name f options) = record w {
  target = or_old w.target (remove_event_listener w.target name f options);
}
act w prevents_default = record w { event = prevent_default w.event }
act w stops_propagation = record w { event = record (w.event) { stop_propagation = true } }
act w stops_immediate_propagation = record w {
  event = record (w.event) { stop_propagation = true; stop_immediate_propagation = true };
}

unfoldable pub act_all : World → List Action → World
unfolding act
act_all w [] = w
act_all w (a ∷ actions) = act_all (act w a) actions

abbrev set_listeners : World → List Listener → World
set_listeners w listeners = record w { target = with_listeners w.target w.event.name listeners }

abbrev pub no_world : World
no_world = record { target = no_listeners; event = new_event [] false false; called = [] }

-- The end of `dispatchEvent`.
abbrev pub clear_flags : Event → Event
clear_flags e = record e {
  dispatching = false;
  stop_propagation = false;
  stop_immediate_propagation = false;
  phase = Phase.none_phase;
  has_current_target = false;
}

module _ (callbacks : ℕ → List Action) where
  -- From `if (once)` on; `listeners` is the list of the target.
  unfoldable pub call_listener : World → Listener → List Listener → World
  unfolding act_all splice_ref
  call_listener w l listeners =
      let spliced = if l.once then set_listeners w (splice_ref l.ref listeners) else w in
      let done =
        act_all (record spliced { called = spliced.called ++ l.callback ∷ [] })
          (callbacks l.callback) in
      record done { event = record (done.event) { in_passive_listener = false } }

  -- One round of the loop, behind its first test.
  unfoldable pub listener_round : World → Listener → World
  unfolding call_listener includes
  listener_round w l =
      let listeners = listeners_of w.target w.event.name in
      if not (includes l.ref listeners)
        || (is_capturing w.event.phase && not l.capture)
        || (is_bubbling w.event.phase && l.capture)
      then w
      else call_listener w l listeners

  -- The loop of `invokeEventListeners` over the handlers.
  unfoldable pub listener_rounds : World → List Listener → World
  unfolding listener_round
  listener_rounds w [] = w
  listener_rounds w (l ∷ handlers) = elim w.event.stop_immediate_propagation [
    | true ↦ w
    | false ↦ listener_rounds (listener_round w l) handlers
  ]

  unfoldable pub invoke_event_listeners : World → World
  unfolding listener_rounds
  invoke_event_listeners w =
      listener_rounds (record w { event = record (w.event) { has_current_target = true } })
        (listeners_of w.target w.event.name)

  -- The part of `dispatchEvent` for the phase AT_TARGET, with what comes before it.
  unfoldable pub dispatch_at_target : World → World
  unfolding invoke_event_listeners
  dispatch_at_target w =
      let begun = record w {
        event = record (w.event) { dispatching = true; has_target = true; phase = Phase.at_target };
      } in
      if begun.event.stop_propagation
      then begun
      else elim (begun.target.listeners begun.event.name) [
        | none ↦ begun
        | some listeners ↦ invoke_event_listeners begun
      ]

  -- `dispatchEvent`: the world behind it and its result, or none where it throws.
  unfoldable pub dispatch_event : World → Option (World × Bool)
  unfolding dispatch_at_target
  dispatch_event w =
      if w.event.dispatching || not w.event.initialized || not (is_none_phase w.event.phase)
      then none
      else (let invoked = dispatch_at_target w in
          some (record invoked { event = clear_flags invoked.event }, not invoked.event.canceled))

  -- The world behind a dispatch; where it throws, the one before it.
  unfoldable pub after_dispatch : World → World
  after_dispatch w = elim (dispatch_event w) [ none ↦ w | some (w', _) ↦ w' ]

  -- What a program does: it adds or removes listeners, or dispatches a new event.
  unfoldable pub program_step : World → Action ⊎ Event → World
  unfolding after_dispatch act
  program_step w (inl a) = act w a
  program_step w (inr e) = after_dispatch (record w { event = e })

  unfoldable pub run_program : World → List (Action ⊎ Event) → World
  unfolding program_step
  run_program w [] = w
  run_program w (p ∷ program) = run_program (program_step w p) program
