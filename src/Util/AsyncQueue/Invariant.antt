-- ===== src/Util/AsyncQueue/Invariant.antt =====
-- What holds of every reachable queue of jobs.
use mathlib.Core.List.{append_assoc}
use zero_archive.Prelude.{
  ℕ, ◌+◌, ◌-◌, ◌≤◌, ◌<◌, ◌≡◌, refl, true, ◌||◌, List, [], ◌∷◌, ◌++◌, ◌==◌, arith, length, leb,
  remove_at, length-append, length-remove_at_self,
}
use zero_archive.Util.AsyncQueue.{
  AsyncQueue, new_queue, run, run_item, add, settle, Reach, created, added, settled,
}

module _ {Job : Type 0} where
  -- The counter counts the running jobs, there are never more than `concurrency`, no job waits while
  -- there is room, and the jobs are called in the order in which they were added.
  pub record IsServed (concurrency : ℕ) (jobs : List Job) (q : AsyncQueue Job) : Type 0 where
    pub limit : q.concurrency ≡ concurrency
    pub counted : q.current ≡ length q.running
    pub bounded : q.current ≤ concurrency
    pub busy : (length q.queue == 0 || q.current == concurrency) ≡ true
    pub in_order : q.called ++ q.queue ≡ jobs

  -- The state in which `run` is called: at most the first job in the queue may start.
  record IsRunnable (concurrency : ℕ) (jobs : List Job) (q : AsyncQueue Job) : Type 0 where
    limit : q.concurrency ≡ concurrency
    counted : q.current ≡ length q.running
    bounded : q.current ≤ concurrency
    almost : (leb (length q.queue) 1 || leb concurrency (q.current + 1)) ≡ true
    in_order : q.called ++ q.queue ≡ jobs

  run_item-IsServed :
      (concurrency : ℕ) (jobs : List Job) (q : AsyncQueue Job) (queue : List Job)
      → queue ≡ q.queue
      → q.current < concurrency
      → IsRunnable concurrency jobs q
      → IsServed concurrency jobs (run_item (record q { current = q.current + 1 }) queue)
  unfolding run_item
  run_item-IsServed n jobs q [] e l r = ground arith
  run_item-IsServed n jobs q (item ∷ rest) e l r =
      ground (arith, length-append q.running (item ∷ []), append_assoc q.called (item ∷ []) rest)

  run-IsServed :
      (concurrency : ℕ) (jobs : List Job) (q : AsyncQueue Job)
      → IsRunnable concurrency jobs q
      → IsServed concurrency jobs (run q)
  unfolding run
  run-IsServed n jobs q r = ground (arith, run_item-IsServed n jobs q q.queue refl)

  add-IsRunnable :
      (n : ℕ) (jobs : List Job) (q : AsyncQueue Job) (job : Job)
      → IsServed n jobs q
      → IsRunnable n (jobs ++ job ∷ []) (record q { queue = q.queue ++ job ∷ [] })
  add-IsRunnable n jobs q job s =
      ground (arith, length-append q.queue (job ∷ []), append_assoc q.called q.queue (job ∷ []))

  settle-IsRunnable :
      (n : ℕ) (jobs : List Job) (q : AsyncQueue Job) (i : ℕ)
      → i < length q.running
      → IsServed n jobs q
      → IsRunnable n jobs (record q { current = q.current - 1; running = remove_at q.running i })
  settle-IsRunnable n jobs q i h s = ground (arith, length-remove_at_self q.running i)

  new_queue-IsServed : (n : ℕ) → IsServed n [] (new_queue {Job = Job} n)
  unfolding new_queue
  new_queue-IsServed n = ground arith

  -- In every queue that additions and settled jobs bring about, `current` is the number of running
  -- jobs and at most `concurrency`, no job waits while there is room, and the jobs called so far and
  -- then the waiting ones are the jobs added, in order.
  pub Reach-IsServed :
      {concurrency : ℕ} {jobs : List Job} {q : AsyncQueue Job}
      → Reach concurrency jobs q
      → IsServed concurrency jobs q
  unfolding add settle
  Reach-IsServed {concurrency} created = new_queue-IsServed concurrency
  Reach-IsServed (added job r) = run-IsServed _ _ _ (add-IsRunnable _ _ _ job (Reach-IsServed r))
  Reach-IsServed (settled i h r) =
      run-IsServed _ _ _ (settle-IsRunnable _ _ _ i h (Reach-IsServed r))
