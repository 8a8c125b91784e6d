-- ===== src/Timers/Orderly.antt =====
-- The order and the ids of the queue in every state that calls of the API and ticks bring about.
use mathlib.Core.Path.{subst}
use zero_archive.Prelude.{
  remove_at-none, length, sym, ltb, remove_at, ◌==◌, get_elem?, if◌then◌else◌, ◌++◌, ◌+◌, none,
  some, [], ◌∷◌, true, false, zero, suc, refl, arith, ◌≡◌, ◌≤◌, Bool, Option, List, ℕ,
}
use zero_archive.Timers.{
  Timer, Timers, no_timers, push_timer, insert, new_timer, set_timer, find_index, clear_timer, Call,
  set_call, clear_call, call, calls, fire, fire_rounds, update_delay, tick,
}
use zero_archive.Timers.Order.{
  is_sorted, count_id, before_all, sort-is_sorted, count_id-sort, count_id-append,
  count_id-remove_at, is_sorted-remove_at,
}

-- The queue is sorted, and at most one timer has the id, none if the id was not given yet.
pub record IsOrderly (id : ℕ) (s : Timers) : Type 0 where
  pub sorted : is_sorted s.queue ≡ true
  pub once : count_id id s.queue ≤ (if ltb id s.timer_id then 1 else 0)

-- How `insert` changes the queue.
record Inserts (id : ℕ) (t : Timer) (s s' : Timers) : Type 0 where
  sorted : is_sorted s'.queue ≡ true
  count : count_id id s'.queue ≡ count_id id s.queue + (if t.id == id then 1 else 0)
  timer_id : s'.timer_id ≡ s.timer_id

push_timer-Inserts :
    (id : ℕ) (s : Timers) (t : Timer) (queue : List Timer)
    → queue ≡ s.queue
    → Inserts id t s (push_timer s t queue)
unfolding push_timer count_id is_sorted before_all
push_timer-Inserts id s t [] e = ground arith
push_timer-Inserts id s t (next ∷ queue) e = record {
  sorted = sort-is_sorted ((next ∷ queue) ++ t ∷ []);
  count = ground (
    arith,
    count_id-sort id ((next ∷ queue) ++ t ∷ []),
    count_id-append id (next ∷ queue) (t ∷ []),
  );
  timer_id = refl;
}

insert-Inserts : (id now : ℕ) (s : Timers) (t : Timer) → Inserts id t s (insert now s t)
unfolding insert
insert-Inserts id now s t =
    let p =
      push_timer-Inserts id s
        (record t { expiry = if t.expiry == 0 then now + t.timeout else t.expiry + t.timeout })
        s.queue refl in
    record { sorted = p.sorted; count = p.count; timer_id = p.timer_id }

set_timer-IsOrderly :
    (id now : ℕ) (s : Timers) (handler : ℕ) (timeout : Option ℕ) (repeat : Bool)
    → IsOrderly id s
    → IsOrderly id (set_timer now s handler timeout repeat).0
unfolding set_timer new_timer
set_timer-IsOrderly id now s handler timeout repeat o = ground (
  arith,
  insert-Inserts id now (record s { timer_id = s.timer_id + 1 })
      (new_timer s handler timeout repeat),
)

remove_at-IsOrderly :
    (id : ℕ) (s : Timers) (i : ℕ) (o : Option Timer)
    → get_elem? s.queue i ≡ o
    → IsOrderly id s
    → IsOrderly id (record s { queue = remove_at s.queue i })
remove_at-IsOrderly id s i none e o =
    subst (λ q. IsOrderly id (record s { queue = q })) (sym (remove_at-none s.queue i e)) o
remove_at-IsOrderly id s i (some t) e o =
    ground (arith, is_sorted-remove_at s.queue i, count_id-remove_at id s.queue i t)

clear_timer-IsOrderly :
    (id : ℕ) (s : Timers) (handle : ℕ) → IsOrderly id s → IsOrderly id (clear_timer s handle).0
unfolding clear_timer
clear_timer-IsOrderly id s handle o = by_index (find_index handle s.queue)
  where
    by_index :
        (found : Option ℕ)
        → IsOrderly id
            (elim found as (λ _. Timers × Bool) [
              | none ↦ (s, false)
              | some i ↦ (record s { queue = remove_at s.queue i }, true)
            ]).0
    by_index none = o
    by_index (some i) = remove_at-IsOrderly id s i (get_elem? s.queue i) refl o

call-IsOrderly : (id : ℕ) (s : Timers) (c : Call) → IsOrderly id s → IsOrderly id (call s c)
unfolding call
call-IsOrderly id s (set_call now handler timeout repeat) o =
    set_timer-IsOrderly id now s handler timeout repeat o
call-IsOrderly id s (clear_call handle) o = clear_timer-IsOrderly id s handle o

calls-IsOrderly :
    (id : ℕ) (s : Timers) (cs : List Call) → IsOrderly id s → IsOrderly id (calls s cs)
unfolding calls
calls-IsOrderly id s [] o = o
calls-IsOrderly id s (c ∷ cs) o = calls-IsOrderly id (call s c) cs (call-IsOrderly id s c o)

-- A state differs from an orderly one in what the order is not about.
like :
    (id : ℕ) (s s' : Timers)
    → s'.queue ≡ s.queue
    → s'.timer_id ≡ s.timer_id
    → IsOrderly id s
    → IsOrderly id s'
like id s s' e f o = ground (arith, o.sorted, o.once)

repeated-IsOrderly :
    (id now : ℕ) (s : Timers) (i : ℕ) (t : Timer)
    → get_elem? s.queue i ≡ some t
    → IsOrderly id s
    → IsOrderly id (insert now (record s { queue = remove_at s.queue i }) t)
repeated-IsOrderly id now s i t e o = ground (
  arith,
  insert-Inserts id now (record s { queue = remove_at s.queue i }) t,
  count_id-remove_at id s.queue i t,
)

module _ (handlers : ℕ → List Call) where
  fire-IsOrderly :
      (id now : ℕ) (s : Timers) (i : ℕ) (t : Timer)
      → get_elem? s.queue i ≡ some t
      → IsOrderly id s
      → IsOrderly id (fire handlers now s i t)
  unfolding fire
  fire-IsOrderly id now s i t e o = like id _ _ refl refl (
      calls-IsOrderly id _ (handlers t.handler) (
        like id
          (if t.repeat
            then insert now (record s { queue = remove_at s.queue i }) t
            else record s { queue = remove_at s.queue i })
          _ refl refl (inserted t.repeat)))
    where
      inserted :
          (repeat : Bool)
          → IsOrderly id (
              if repeat
              then insert now (record s { queue = remove_at s.queue i }) t
              else record s { queue = remove_at s.queue i })
      inserted true = repeated-IsOrderly id now s i t e o
      inserted false = remove_at-IsOrderly id s i (some t) e o

  round-IsOrderly :
      (id now index : ℕ) (s : Timers) (o : Option Timer)
      → get_elem? s.queue index ≡ o
      → IsOrderly id s
      → IsOrderly id (elim o [
        | none ↦ s
        | some item ↦ if ltb now item.expiry then s else fire handlers now s index item
      ])
  round-IsOrderly id now index s none e o = o
  round-IsOrderly id now index s (some t) e o = by_time (ltb now t.expiry)
    where
      by_time : (late : Bool) → IsOrderly id (if late then s else fire handlers now s index t)
      by_time true = o
      by_time false = fire-IsOrderly id now s index t e o

  fire_rounds-IsOrderly :
      (id now rounds index : ℕ) (s : Timers)
      → IsOrderly id s
      → IsOrderly id (fire_rounds handlers now rounds index s)
  unfolding fire_rounds
  fire_rounds-IsOrderly id now zero index s o = o
  fire_rounds-IsOrderly id now (suc rounds) index s o =
      fire_rounds-IsOrderly id now rounds (index + 1) _
        (round-IsOrderly id now index s (get_elem? s.queue index) refl o)

update_delay-IsOrderly :
    (id later : ℕ) (s : Timers) (queue : List Timer)
    → IsOrderly id s
    → IsOrderly id (update_delay later s queue)
unfolding update_delay
update_delay-IsOrderly id later s [] o = o
update_delay-IsOrderly id later s (next ∷ queue) o = like id s _ refl refl o

no_timers-IsOrderly : (id : ℕ) → IsOrderly id no_timers
unfolding is_sorted count_id
no_timers-IsOrderly id = ground arith

-- What a program brings about: a call of the API, or a callback of the native timer at one time that
-- looks at the clock again at a later one.
pub data Event : Type 0 where
  called : Call → Event
  ticked : ℕ → ℕ → Event

module _ (handlers : ℕ → List Call) where
  unfoldable pub happen : Timers → Event → Timers
  happen s (called c) = call s c
  happen s (ticked now later) = tick handlers now later s

  unfoldable pub run_events : Timers → List Event → Timers
  unfolding happen
  run_events s [] = s
  run_events s (e ∷ es) = run_events (happen s e) es

  happen-IsOrderly : (id : ℕ) (s : Timers) (e : Event) → IsOrderly id s → IsOrderly id (happen s e)
  unfolding happen tick
  happen-IsOrderly id s (called c) o = call-IsOrderly id s c o
  happen-IsOrderly id s (ticked now later) o =
      update_delay-IsOrderly id later _ _
        (fire_rounds-IsOrderly handlers id now (length s.queue) 0 s o)

  events-IsOrderly :
      (id : ℕ) (s : Timers) (es : List Event) → IsOrderly id s → IsOrderly id (run_events s es)
  unfolding run_events
  events-IsOrderly id s [] o = o
  events-IsOrderly id s (e ∷ es) o = events-IsOrderly id (happen s e) es (happen-IsOrderly id s e o)

  -- Whatever calls are made and whatever the handlers call, the queue is sorted by expiry and id, and
  -- no id is in it twice, or before it was given.
  pub run_events-IsOrderly : (es : List Event) (id : ℕ) → IsOrderly id (run_events no_timers es)
  run_events-IsOrderly es id = events-IsOrderly id no_timers es (no_timers-IsOrderly id)
