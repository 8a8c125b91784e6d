-- ===== src/Timers/Clear.antt =====
-- `clearTimeout`, and the timeout that a timer gets.
use zero_archive.Prelude.{
  ◌&&◌, leb, if◌then◌else◌, Bool-cases, get_elem?, ltb, remove_at, ◌==◌, none, some, [], ◌∷◌, true,
  false, suc, refl, arith, inl, inr, ◌≡◌, ◌<◌, ◌≤◌, Bool, Option, List, ℕ,
}
use zero_archive.Timers.{
  no_timers, Timer, Timers, find_index, clear_timer, timeout_for, timeout_max, Call,
}
use zero_archive.Timers.Order.{count_id, count_id-remove_at}
use zero_archive.Timers.Orderly.{Event, run_events, run_events-IsOrderly}

-- What `findIndex` found.
abbrev pub Finds : ℕ → List Timer → Option ℕ → Type 0
Finds handle queue none = count_id handle queue ≡ 0
Finds handle queue (some i) =
    (t : Timer) × (get_elem? queue i ≡ some t) × (t.id ≡ handle) × (0 < count_id handle queue)

Finds-suc :
    (handle : ℕ) (t : Timer) (queue : List Timer) (o : Option ℕ)
    → (t.id == handle) ≡ false
    → Finds handle queue o
    → Finds handle (t ∷ queue) (elim o [ none ↦ none | some i ↦ some (suc i) ])
unfolding count_id
Finds-suc handle t queue none e f = ground arith
Finds-suc handle t queue (some i) e (u, at, id, pos) = (u, at, id, ground arith)

find_index-Finds : (handle : ℕ) (queue : List Timer) → Finds handle queue (find_index handle queue)
unfolding find_index count_id
find_index-Finds handle [] = refl
find_index-Finds handle (t ∷ queue) = elim (Bool-cases (t.id == handle)) [
  | inl e ↦ rw (e, find_index) (t, refl, ground arith, ground arith)
  | inr e ↦
      rw (e, find_index)
        (Finds-suc handle t queue (find_index handle queue) e (find_index-Finds handle queue))
]

-- What clearing a handle in `s` returns and leaves, seen at an id.
abbrev pub Clears : ℕ → ℕ → Timers → Timers × Bool → Type 0
Clears handle id s (s', found) =
    (found ≡ ltb 0 (count_id handle s.queue))
    × (count_id id s'.queue ≡ (if id == handle then 0 else count_id id s.queue))

cleared :
    (handle id : ℕ) (s : Timers) (o : Option ℕ)
    → Finds handle s.queue o
    → count_id handle s.queue ≤ 1
    → Clears handle id s
        (elim o [ none ↦ (s, false) | some i ↦ (record s { queue = remove_at s.queue i }, true) ])
cleared handle id s none f once = ground arith
cleared handle id s (some i) (t, at, e, pos) once =
    (ground arith, ground (arith, count_id-remove_at id s.queue i t at))

-- In every state that calls and ticks bring about, `clearTimeout` returns whether a timer has the id,
-- afterwards no timer has it, and every other id is there as often as before.
pub clear_timer-count_id :
    (handlers : ℕ → List Call) (es : List Event) (handle id : ℕ)
    → Clears handle id
        (run_events handlers no_timers es)
        (clear_timer (run_events handlers no_timers es) handle)
unfolding clear_timer
clear_timer-count_id handlers es handle id =
    let s = run_events handlers no_timers es in
    cleared handle id s (find_index handle s.queue) (find_index-Finds handle s.queue)
      (ground (arith, (run_events-IsOrderly handlers es handle).once))

-- The timeout asked for, if it is in the range, and else 1.
abbrev pub timeout_in_range : Option ℕ → ℕ
timeout_in_range none = 1
timeout_in_range (some n) = if leb 1 n && leb n timeout_max then n else 1

-- A timeout is the one asked for if that is from 1 to 2 ** 31 - 1, and else 1, at every nesting
-- level: the clamp to 4 of deeply nested timers never applies.
pub timeout_for-level :
    (level : ℕ) (timeout : Option ℕ)
    → (timeout_for level timeout ≡ timeout_in_range timeout)
      × (1 ≤ timeout_for level timeout)
      × (timeout_for level timeout ≤ timeout_max)
unfolding timeout_for
timeout_for-level level none = ground arith
timeout_for-level level (some n) = ground arith
