-- ===== src/Tests/Timers.antt =====
-- The theorems on lib/whatwg/timers.js at concrete inputs.
use zero_archive.Prelude.{
  ◌==◌, if◌then◌else◌, ◌++◌, some, [], ◌∷◌, true, false, refl, ◌≡◌, ◌≤◌, List, ℕ,
}
use zero_archive.Timers.{
  Timer, Timers, no_timers, Call, set_call, clear_call, tick, clear_timer, timeout_for, timeout_max,
}
use zero_archive.Timers.Orderly.{IsOrderly, Event, called, ticked, run_events, run_events-IsOrderly}
use zero_archive.Timers.Clear.{Clears, clear_timer-count_id, timeout_in_range, timeout_for-level}
use zero_archive.Timers.Skips.{alternate, tail, all_due, handlers_of, tick-alternate}

-- Handler 1 sets handler 2 and clears the timer with the id 0.
abbrev sample_handlers : ℕ → List Call
sample_handlers handler =
    if handler == 1 then set_call 50 2 (some 5) false ∷ clear_call 0 ∷ [] else []

abbrev sample_events : List Event
sample_events =
    called (set_call 0 3 (some 90) true) ∷ called (set_call 1 1 (some 20) false) ∷ ticked 30 31 ∷ []

run_events-IsOrderly_example : IsOrderly 1 (run_events sample_handlers no_timers sample_events)
run_events-IsOrderly_example = run_events-IsOrderly sample_handlers sample_events 1

clear_timer-count_id_example :
    Clears 2 2
      (run_events sample_handlers no_timers sample_events)
      (clear_timer (run_events sample_handlers no_timers sample_events) 2)
clear_timer-count_id_example = clear_timer-count_id sample_handlers sample_events 2 2

timeout_for-level_example :
    (timeout_for 9 (some 0) ≡ timeout_in_range (some 0))
    × (1 ≤ timeout_for 9 (some 0))
    × (timeout_for 9 (some 0) ≤ timeout_max)
timeout_for-level_example = timeout_for-level 9 (some 0)

abbrev due_timer : ℕ → Timer
due_timer id = record {
  id = id;
  handler = id;
  nesting_level = 1;
  expiry = 10;
  repeat = false;
  timeout = 1;
}

abbrev three_due : Timers
three_due = record no_timers { queue = due_timer 0 ∷ due_timer 1 ∷ due_timer 2 ∷ [] }

three_due-all_due : all_due 10 three_due.queue ≡ true
unfolding all_due
three_due-all_due = refl

tick-alternate_example :
    ((tick (λ _. []) 10 11 three_due).queue ≡ alternate (tail three_due.queue))
    × ((tick (λ _. []) 10 11 three_due).called
        ≡ three_due.called ++ handlers_of (alternate three_due.queue))
tick-alternate_example = tick-alternate 10 11 three_due three_due-all_due
