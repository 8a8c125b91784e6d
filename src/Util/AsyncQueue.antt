-- ===== src/Util/AsyncQueue.antt =====
-- The class AsyncQueue of lib/util.js. `run` is an async function: it goes on synchronously up to
-- `await job()`, and from there when the promise of the job is settled. Each such stretch is a step.
pub mod Invariant
pub mod Drain
use zero_archive.Prelude.{
  ℕ, ◌+◌, ◌-◌, ◌<◌, ◌≡◌, refl, List, [], ◌∷◌, ◌++◌, leb, if◌then◌else◌, length, remove_at,
}

-- `queue`, `concurrency` and `current`; the jobs whose promises the calls of `run` await, and the
-- jobs that were called so far, in order.
pub record AsyncQueue (Job : Type 0) : Type 0 where
  pub queue : List Job
  pub concurrency : ℕ
  pub current : ℕ
  pub running : List Job
  pub called : List Job

module _ {Job : Type 0} where
  unfoldable pub new_queue : ℕ → AsyncQueue Job
  new_queue concurrency = record {
    queue = [];
    concurrency = concurrency;
    current = 0;
    running = [];
    called = [];
  }

  -- `const item = this.queue.shift(); if (item) { … await job() … } this.current -= 1;`
  unfoldable pub run_item : AsyncQueue Job → List Job → AsyncQueue Job
  run_item q [] = record q { current = q.current - 1 }
  run_item q (item ∷ rest) = record q {
    queue = rest;
    running = q.running ++ item ∷ [];
    called = q.called ++ item ∷ [];
  }

  -- `run` up to its first `await`.
  unfoldable pub run : AsyncQueue Job → AsyncQueue Job
  unfolding run_item
  run q =
      if leb q.concurrency q.current
      then q
      else run_item (record q { current = q.current + 1 }) q.queue

  unfoldable pub add : AsyncQueue Job → Job → AsyncQueue Job
  unfolding run
  add q job = run (record q { queue = q.queue ++ job ∷ [] })

  -- The promise of a running job is settled, or the call of the job throws: from
  -- `this.current -= 1` on.
  unfoldable pub settle : AsyncQueue Job → ℕ → AsyncQueue Job
  unfolding run
  settle q i = run (record q { current = q.current - 1; running = remove_at q.running i })

  -- The queues that a client and its jobs can bring about, with the jobs that were added.
  pub data Reach (concurrency : ℕ) : List Job → AsyncQueue Job → Type 0 where
    created : Reach concurrency [] (new_queue concurrency)
    added :
        {jobs : List Job} {q : AsyncQueue Job} (job : Job)
        → Reach concurrency jobs q
        → Reach concurrency (jobs ++ job ∷ []) (add q job)
    settled :
        {jobs : List Job} {q : AsyncQueue Job} (i : ℕ)
        → i < length q.running
        → Reach concurrency jobs q
        → Reach concurrency jobs (settle q i)

abbrev two_slots : AsyncQueue ℕ
two_slots = add (add (add (new_queue 2) 1) 2) 3

-- With room for two, the third job waits for the first to be settled.
third_waits : (two_slots.running ≡ 1 ∷ 2 ∷ []) × ((settle two_slots 0).running ≡ 2 ∷ 3 ∷ [])
unfolding add settle new_queue
third_waits = (refl, refl)
