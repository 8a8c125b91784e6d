-- ===== src/Tests/Events.antt =====
-- The theorems on lib/whatwg/events.js at concrete inputs.
use zero_archive.Prelude.{
  ◌==◌, if◌then◌else◌, ◌++◌, some, [], ◌∷◌, true, false, refl, inl, inr, ◌≡◌, List, ℕ, codes, ◌⊎◌,
}
use zero_archive.Events.{
  Phase, Event, new_event, flag, fields, Listener, listeners_of, callable, Action, adds,
  prevents_default, World, includes, no_world, run_program, invoke_event_listeners,
}
use zero_archive.Events.Unique.{IsUnique, run_program-IsUnique}
use zero_archive.Events.Calls.{distinct_refs, not_once, callbacks_of, invoke_event_listeners-calls}

-- Callback 1 prevents the default and adds callback 2.
abbrev sample_callbacks : ℕ → List Action
sample_callbacks f =
    if f == 1 then prevents_default ∷ adds (codes "a") (callable 2) (flag false) ∷ [] else []

abbrev sample_program : List (Action ⊎ Event)
sample_program =
    inl (adds (codes "a") (callable 1) (fields false true))
    ∷ inr (new_event (codes "a") false true)
    ∷ []

run_program-IsUnique_example :
    IsUnique (codes "a") 2 false (run_program sample_callbacks no_world sample_program).target
run_program-IsUnique_example =
    run_program-IsUnique sample_callbacks sample_program (codes "a") 2 false

abbrev two_listeners : List Listener
two_listeners =
    record { ref = 0; callback = 1; capture = false; once = true }
    ∷ record { ref = 1; callback = 2; capture = false; once = false }
    ∷ []

abbrev sample_world : World
sample_world = record {
  target = record { listeners = λ _. some two_listeners; next_ref = 2 };
  event = new_event (codes "a") false false;
  called = [];
}

abbrev at_target_world : World
at_target_world = record sample_world {
  event = record (sample_world.event) { phase = Phase.at_target };
}

at_target_world-distinct :
    (at_target_world.event.stop_immediate_propagation ≡ false)
    × (distinct_refs (listeners_of at_target_world.target at_target_world.event.name) ≡ true)
unfolding distinct_refs listeners_of new_event includes
at_target_world-distinct = (refl, refl)

invoke_event_listeners-calls_example :
    (listeners_of
        (invoke_event_listeners (λ _. []) at_target_world).target
        at_target_world.event.name
      ≡ not_once (listeners_of at_target_world.target at_target_world.event.name))
    × ((invoke_event_listeners (λ _. []) at_target_world).called
        ≡ at_target_world.called
          ++ callbacks_of (listeners_of at_target_world.target at_target_world.event.name))
invoke_event_listeners-calls_example =
    invoke_event_listeners-calls at_target_world refl at_target_world-distinct.0
      at_target_world-distinct.1
