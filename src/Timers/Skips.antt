-- ===== src/Timers/Skips.antt =====
-- `tick` splices the queue that its `forEach` walks: of the timers that are due it fires every other
-- one.
use mathlib.Core.List.{append-nil, append_assoc}
use zero_archive.Prelude.{
  length-append, sym, remove_at-append_self, get_elem?-append_self, if◌then◌else◌, ap, ◌∙◌,
  get_elem?-beyond, ◌+◌, get_elem?, length, remove_at, ◌&&◌, ltb, not, ◌++◌, none, some, [], ◌∷◌,
  true, false, zero, suc, refl, arith, ◌≡◌, ◌≤◌, Bool, Option, List, ℕ,
}
use zero_archive.Timers.{Timer, Timers, Call, calls, fire, fire_rounds, update_delay, tick}

-- The elements at the even places.
abbrev pub alternate {ℓ} : {A : Type ℓ} → List A → List A
alternate [] = []
alternate (x ∷ []) = x ∷ []
alternate (x ∷ y ∷ xs) = x ∷ alternate xs

abbrev pub tail {ℓ} : {A : Type ℓ} → List A → List A
tail [] = []
tail (x ∷ xs) = xs

-- Every timer of the queue is due and is not repeated.
unfoldable pub all_due : ℕ → List Timer → Bool
all_due now [] = true
all_due now (t ∷ queue) = not (ltb now t.expiry) && not t.repeat && all_due now queue

abbrev pub handlers_of : List Timer → List ℕ
handlers_of [] = []
handlers_of (t ∷ queue) = t.handler ∷ handlers_of queue

abbrev silent : ℕ → List Call
silent handler = []

idle :
    (now rounds index : ℕ) (s : Timers)
    → length s.queue ≤ index
    → fire_rounds silent now rounds index s ≡ s
unfolding fire_rounds
idle now zero index s h = refl
idle now (suc rounds) index s h =
    rw (get_elem?-beyond s.queue index h, fire_rounds) (idle now rounds (index + 1) s (omega arith))

abbrev without : ℕ → Timer → Timers → Timers
without index t s = record s {
  queue = remove_at s.queue index;
  called = s.called ++ t.handler ∷ [];
}

one_round :
    (now rounds index : ℕ) (s : Timers) (t : Timer)
    → get_elem? s.queue index ≡ some t
    → ltb now t.expiry ≡ false
    → t.repeat ≡ false
    → fire_rounds silent now (suc rounds) index s
      ≡ fire_rounds silent now rounds (index + 1) (without index t s)
unfolding fire_rounds fire calls
one_round now rounds index s t at due once = cong (silent_round (get_elem? s.queue index) at)
  where
    cong :
        {s' s'' : Timers}
        → s' ≡ s''
        → fire_rounds silent now rounds (index + 1) s'
          ≡ fire_rounds silent now rounds (index + 1) s''
    cong e = ap (fire_rounds silent now rounds (index + 1)) e

    silent_round :
        (o : Option Timer)
        → o ≡ some t
        → elim o as (λ _. Timers) [
          | none ↦ s
          | some item ↦ if ltb now item.expiry then s else fire silent now s index item
        ]
          ≡ without index t s
    silent_round o e = rw (e, due, once) refl

-- What the rounds leave and call.
record Leaves (left : List Timer) (log : List ℕ) (s : Timers) : Type 0 where
  queue : s.queue ≡ left
  called : s.called ≡ log

ended :
    (now : ℕ) (pre : List Timer) (rounds index : ℕ) (s : Timers)
    → s.queue ≡ pre
    → length pre ≤ index
    → Leaves pre s.called (fire_rounds silent now rounds index s)
ended now pre rounds index s e l =
    rw (idle now rounds index s (rw e l)) (record { queue = e; called = refl })

alternate-cons : (t : Timer) (rest : List Timer) → alternate (t ∷ rest) ≡ t ∷ alternate (tail rest)
alternate-cons t [] = refl
alternate-cons t (u ∷ rest) = refl

-- The walk from `rest` on, behind the timers `pre`.
walk :
    (now : ℕ) (rest pre : List Timer) (rounds index : ℕ) (s : Timers)
    → s.queue ≡ pre ++ rest
    → index ≡ length pre
    → length rest ≤ rounds
    → all_due now rest ≡ true
    → Leaves
        (pre ++ alternate (tail rest))
        (s.called ++ handlers_of (alternate rest))
        (fire_rounds silent now rounds index s)
unfolding all_due
walk now [] pre rounds index s e f l d =
    rw (append-nil pre, append-nil s.called)
      (ended now pre rounds index s (e ∙ append-nil pre) (omega arith))
walk now (t ∷ rest) pre zero index s e f l d = absurd (omega arith)
walk now (t ∷ []) pre (suc rounds) index s e f l d =
    rw
      (one_round now rounds index s t (rw e (get_elem?-append_self pre [] t index f)) (ground arith)
        (ground arith))
      (rw (append-nil pre) (
        ended now pre rounds (index + 1) (without index t s)
          (rw e (remove_at-append_self pre [] t index f ∙ append-nil pre)) (omega arith)))
walk now (t ∷ u ∷ rest) pre (suc rounds) index s e f l d =
    rw
      (one_round now rounds index s t (rw e (get_elem?-append_self pre (u ∷ rest) t index f))
        (ground arith) (ground arith))
      (moved (
        walk now rest (pre ++ u ∷ []) rounds (index + 1) (without index t s)
          (rw e (remove_at-append_self pre (u ∷ rest) t index f)
            ∙ sym (append_assoc pre (u ∷ []) rest))
          (omega (arith, length-append pre (u ∷ []))) (omega arith) (ground arith)))
  where
    moved :
        {s' : Timers}
        → Leaves
            ((pre ++ u ∷ []) ++ alternate (tail rest))
            ((s.called ++ t.handler ∷ []) ++ handlers_of (alternate rest))
            s'
        → Leaves
            (pre ++ alternate (u ∷ rest))
            (s.called ++ t.handler ∷ handlers_of (alternate rest))
            s'
    moved w = record {
      queue =
          w.queue
          ∙ append_assoc pre (u ∷ []) (alternate (tail rest))
          ∙ ap (λ q. pre ++ q) (sym (alternate-cons u rest));
      called = w.called ∙ append_assoc s.called (t.handler ∷ []) (handlers_of (alternate rest));
    }

update_delay-Leaves :
    (later : ℕ) (queue : List Timer) (called : List ℕ) (s : Timers) (q : List Timer)
    → Leaves queue called s
    → Leaves queue called (update_delay later s q)
unfolding update_delay
update_delay-Leaves later queue called s [] w = w
update_delay-Leaves later queue called s (next ∷ q) w = record {
  queue = w.queue;
  called = w.called;
}

-- With handlers that make no calls, a tick at which every timer in the queue is due and none is
-- repeated calls the first, the third, and so on, and leaves the others in the queue.
pub tick-alternate :
    (now later : ℕ) (s : Timers)
    → all_due now s.queue ≡ true
    → ((tick (λ _. []) now later s).queue ≡ alternate (tail s.queue))
      × ((tick (λ _. []) now later s).called ≡ s.called ++ handlers_of (alternate s.queue))
unfolding tick
tick-alternate now later s h =
    let w =
      update_delay-Leaves later _ _ _ _
        (walk now s.queue [] (length s.queue) 0 s refl refl (omega arith) h) in
    (w.queue, w.called)
