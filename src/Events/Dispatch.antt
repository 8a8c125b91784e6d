-- ===== src/Events/Dispatch.antt =====
-- What a dispatch calls, what it leaves, and what it returns.
use zero_archive.Prelude.{◌&&◌, not, none, some, true, false, ◌≡◌, Bool, Option}
use zero_archive.Events.{Event, is_none_phase, World}

-- An event whose default cannot be prevented, and has not been.
record IsFirm (e : Event) : Type 0 where
  cancelable : e.cancelable ≡ false
  canceled : e.canceled ≡ false
  initialized : e.initialized ≡ true

-- The event may be dispatched.
unfoldable pub is_dispatchable : Event → Bool
is_dispatchable e = not e.dispatching && e.initialized && is_none_phase e.phase

-- The outcome for an event that may be dispatched, and for one that may not; none is the error.
abbrev pub Dispatches : Bool → Option (World × Bool) → Type 0
Dispatches false none = Unit
Dispatches true (some (w, result)) =
    (result ≡ true) × (is_dispatchable w.event ≡ true) × (w.event.stop_propagation ≡ false)
Dispatches _ _ = ⊥
