-- ===== src/Util/AsyncQueue/Drain.antt =====
-- A queue that gets no more jobs is emptied by the settling of its jobs.
use mathlib.Core.List.{append-nil}
use zero_archive.Prelude.{
  ℕ, suc, ◌+◌, ◌-◌, ◌<◌, ◌≡◌, refl, ltb, true, ◌||◌, List, [], ◌∷◌, ◌++◌, ◌==◌, arith, length,
  remove_at, length-append, length-remove_at_self, ap, sym, ◌∙◌,
}
use zero_archive.Util.AsyncQueue.{AsyncQueue, run, run_item, settle, Reach, settled}
use zero_archive.Util.AsyncQueue.Invariant.{IsServed, Reach-IsServed}

module _ {Job : Type 0} where
  -- As many running jobs are settled one after the other.
  pub data Settles : ℕ → AsyncQueue Job → AsyncQueue Job → Type 0 where
    done : {q : AsyncQueue Job} → Settles 0 q q
    more :
        {n : ℕ} {q q' : AsyncQueue Job} (i : ℕ)
        → i < length q.running
        → Settles n (settle q i) q'
        → Settles (suc n) q q'

  abbrev pub unfinished : AsyncQueue Job → ℕ
  unfinished q = length q.queue + length q.running

  run_item-unfinished :
      (q : AsyncQueue Job) (queue : List Job)
      → queue ≡ q.queue
      → unfinished (run_item (record q { current = q.current + 1 }) queue) ≡ unfinished q
  unfolding run_item
  run_item-unfinished q [] e = ground arith
  run_item-unfinished q (item ∷ rest) e = ground (arith, length-append q.running (item ∷ []))

  run-unfinished : (q : AsyncQueue Job) → unfinished (run q) ≡ unfinished q
  unfolding run
  run-unfinished q = ground (arith, run_item-unfinished q q.queue refl)

  settle-unfinished :
      (q : AsyncQueue Job) (i : ℕ)
      → i < length q.running
      → unfinished q ≡ suc (unfinished (settle q i))
  unfolding settle
  settle-unfinished q i h = omega (
    arith,
    run-unfinished (record q { current = q.current - 1; running = remove_at q.running i }),
    length-remove_at_self q.running i h,
  )

  Settles-unfinished :
      {n : ℕ} {q q' : AsyncQueue Job} → Settles n q q' → unfinished q ≡ n + unfinished q'
  Settles-unfinished done = omega arith
  Settles-unfinished {q = q} (more i h s) =
      omega (arith, settle-unfinished q i h, Settles-unfinished s)

  Settles-Reach :
      {concurrency n : ℕ} {jobs : List Job} {q q' : AsyncQueue Job}
      → Settles n q q'
      → Reach concurrency jobs q
      → Reach concurrency jobs q'
  Settles-Reach done r = r
  Settles-Reach (more i h s) r = Settles-Reach s (settled i h r)

  nothing_left : (xs : List Job) → length xs ≡ 0 → xs ≡ []
  nothing_left xs e = ground arith

  all_called :
      {n : ℕ} {jobs : List Job} (q : AsyncQueue Job)
      → IsServed n jobs q
      → unfinished q ≡ 0
      → (q.called ≡ jobs) × (q.running ≡ [])
  all_called q s e =
      let none_waits = nothing_left q.queue (omega arith) in
      (
        sym (append-nil q.called) ∙ ap (λ rest. q.called ++ rest) (sym none_waits) ∙ s.in_order,
        nothing_left q.running (omega arith),
      )

  -- With a positive `concurrency`, a reachable queue with an unfinished job has a running one, and
  -- when as many jobs were settled as were unfinished, all jobs added have been called, in order, and
  -- none is running.
  pub Settles-all :
      {concurrency : ℕ} {jobs : List Job} {q q' : AsyncQueue Job}
      → Reach concurrency jobs q
      → 0 < concurrency
      → Settles (unfinished q) q q'
      → ((unfinished q == 0 || ltb 0 (length q.running)) ≡ true)
        × (q'.called ≡ jobs)
        × (q'.running ≡ [])
  Settles-all {q = q} {q' = q'} r pos s =
      let served = Reach-IsServed r in
      let ends =
        all_called q' (Reach-IsServed (Settles-Reach s r)) (omega (arith, Settles-unfinished s)) in
      (ground (arith, served.busy, served.counted), ends.0, ends.1)
