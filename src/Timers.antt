-- ===== src/Timers.antt =====
-- lib/whatwg/timers.js. A time is a natural number, and the wrapped timer of the native layer is the
-- delay that it was last given.
pub mod Order
pub mod Orderly
pub mod Clear
pub mod Skips
use zero_archive.Prelude.{
  zero, refl, arith, inl, inr, ◌≡◌, ◌<◌, ◌≤◌, get_elem?, leb, suc, true, some, ◌&&◌, ◌++◌, ◌||◌,
  false, length, ltb, remove_at, ◌+◌, ◌-◌, ◌==◌, ◌∷◌, Bool, List, Option, [], if◌then◌else◌, ◌^◌, ℕ,
  none,
}

-- A Timer. `expiry` is 0 while the code has undefined there: its test does not tell the two apart.
-- A handler stands for a function and its arguments, or for a script.
pub record Timer : Type 0 where
  pub id : ℕ
  pub handler : ℕ
  pub nesting_level : ℕ
  pub expiry : ℕ
  pub repeat : Bool
  pub timeout : ℕ

-- The variables of the module, the delay of the native timer, and the handlers called so far.
pub record Timers : Type 0 where
  pub queue : List Timer
  pub nesting_level : ℕ
  pub timer_id : ℕ
  pub delay : Option ℕ
  pub called : List ℕ

abbrev pub no_timers : Timers
no_timers = record { queue = []; nesting_level = 0; timer_id = 0; delay = none; called = [] }

-- `a.expiry - b.expiry || a.id - b.id` is not positive.
unfoldable pub before : Timer → Timer → Bool
before a b = ltb a.expiry b.expiry || (a.expiry == b.expiry && leb a.id b.id)

-- `queue.sort`
unfoldable pub insert_sorted : Timer → List Timer → List Timer
insert_sorted t [] = t ∷ []
insert_sorted t (u ∷ queue) =
    let rest = insert_sorted t queue in if before t u then t ∷ u ∷ queue else u ∷ rest

unfoldable pub sort : List Timer → List Timer
unfolding insert_sorted before
sort [] = []
sort (t ∷ queue) = insert_sorted t (sort queue)

-- The branches of `insert` on the length of the queue; `t` has its new expiry.
unfoldable pub push_timer : Timers → Timer → List Timer → Timers
unfolding sort
push_timer s t [] = record s { queue = t ∷ []; delay = some t.timeout }
push_timer s t (next ∷ queue) = record s {
  queue = sort ((next ∷ queue) ++ t ∷ []);
  delay = if ltb t.expiry next.expiry then some t.timeout else s.delay;
}

-- `insert`, at the time `now`. A timeout is a number and not negative: Timer sees to that.
unfoldable pub insert : ℕ → Timers → Timer → Timers
unfolding push_timer
insert now s t =
    push_timer s
      (record t { expiry = if t.expiry == 0 then now + t.timeout else t.expiry + t.timeout })
      s.queue

abbrev pub timeout_max : ℕ
timeout_max = 2 ^ 31 - 1

-- `a < b` for an `a` that may be undefined.
abbrev less_than : Option ℕ → ℕ → Bool
less_than none b = false
less_than (some a) b = ltb a b

-- `timeout || 1`
abbrev or_one : Option ℕ → ℕ
or_one none = 1
or_one (some n) = if n == 0 then 1 else n

-- The timeout that the constructor sets. Its test reads `this.timeout`, which is not set yet.
unfoldable pub timeout_for : ℕ → Option ℕ → ℕ
timeout_for nesting_level timeout =
    if ltb 5 nesting_level && less_than none 4
    then 4
    else if ltb timeout_max (or_one timeout) || ltb (or_one timeout) 1
    then 1
    else or_one timeout

-- The constructor of Timer, which counts `timerId` on.
unfoldable pub new_timer : Timers → ℕ → Option ℕ → Bool → Timer
new_timer s handler timeout repeat = record {
  id = s.timer_id;
  handler = handler;
  nesting_level = s.nesting_level + 1;
  expiry = 0;
  repeat = repeat;
  timeout = timeout_for (s.nesting_level + 1) timeout;
}

-- `setTimeout`, and with `repeat` `setInterval`; the number returned is the id.
unfoldable pub set_timer : ℕ → Timers → ℕ → Option ℕ → Bool → Timers × ℕ
unfolding insert new_timer
set_timer now s handler timeout repeat = (
  insert now (record s { timer_id = s.timer_id + 1 }) (new_timer s handler timeout repeat),
  s.timer_id,
)

-- `queue.findIndex((item) => item.id === handle)`, with none for -1.
unfoldable pub find_index : ℕ → List Timer → Option ℕ
find_index handle [] = none
find_index handle (t ∷ queue) =
    let rest = find_index handle queue in
    if t.id == handle then some 0 else elim rest [ none ↦ none | some i ↦ some (suc i) ]

unfoldable pub clear_timer : Timers → ℕ → Timers × Bool
unfolding find_index
clear_timer s handle = elim (find_index handle s.queue) [
  | none ↦ (s, false)
  | some i ↦ (record s { queue = remove_at s.queue i }, true)
]

-- The calls of the API, with the time at which they are made.
pub data Call : Type 0 where
  set_call : ℕ → ℕ → Option ℕ → Bool → Call
  clear_call : ℕ → Call

unfoldable pub call : Timers → Call → Timers
unfolding set_timer clear_timer
call s (set_call now handler timeout repeat) = (set_timer now s handler timeout repeat).0
call s (clear_call handle) = (clear_timer s handle).0

unfoldable pub calls : Timers → List Call → Timers
unfolding call
calls s [] = s
calls s (c ∷ cs) = calls (call s c) cs

-- `wrap.update(Math.max(next.expiry - performance.now(), 1))`, at the time `later`.
unfoldable pub update_delay : ℕ → Timers → List Timer → Timers
update_delay later s [] = s
update_delay later s (next ∷ queue) = record s {
  delay = some (if ltb (next.expiry - later) 1 then 1 else next.expiry - later);
}

-- What a handler does is the calls it makes; what it throws is caught.
module _ (handlers : ℕ → List Call) where
  unfoldable pub fire : ℕ → Timers → ℕ → Timer → Timers
  unfolding insert calls
  fire now s index item =
      let spliced = record s { queue = remove_at s.queue index } in
      let inserted = if item.repeat then insert now spliced item else spliced in
      record (calls
        (record inserted {
          nesting_level = item.nesting_level;
          called = inserted.called ++ item.handler ∷ [];
        })
        (handlers item.handler)) { nesting_level = inserted.nesting_level }

  -- The rounds of `queue.forEach` from `index` on: their number is the length at the start.
  unfoldable pub fire_rounds : ℕ → ℕ → ℕ → Timers → Timers
  unfolding fire
  fire_rounds now zero index s = s
  fire_rounds now (suc rounds) index s =
      fire_rounds now rounds (index + 1) (elim (get_elem? s.queue index) [
        | none ↦ s
        | some item ↦ if ltb now item.expiry then s else fire now s index item
      ])

  -- The callback of the native timer, at the time `now`.
  unfoldable pub tick : ℕ → ℕ → Timers → Timers
  unfolding fire_rounds update_delay
  tick now later s =
      let fired = fire_rounds now (length s.queue) 0 s in update_delay later fired fired.queue
