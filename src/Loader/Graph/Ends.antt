-- ===== src/Loader/Graph/Ends.antt =====
-- The search of `_instantiate` of lib/loader/module_job.js ends.
use zero_archive.Prelude.{
  sym, length-remove_at_self, ap, remove_at, get_elem?, if◌then◌else◌, length-append, ◌&&◌, ◌++◌,
  ◌+◌, ◌∙◌, some, [], false, zero, refl, arith, ◌≡◌, ◌<◌, ◌≤◌, ltb, ◌∷◌, true, Bool, suc, length,
  List, ℕ,
}
use zero_archive.Loader.Graph.{
  GraphSearch, has_job, add_job, add_jobs, go_on, Reach, started, linked, no_graph_search,
}
use zero_archive.Loader.Graph.Closed.{has_job-concat}

-- How many of the jobs below `n` are not in the list.
unfoldable missing : ℕ → List ℕ → ℕ
missing zero jobs = 0
missing (suc n) jobs = (if has_job n jobs then 0 else 1) + missing n jobs

missing-concat_same :
    (n j : ℕ) (jobs : List ℕ) → n ≤ j → missing n (jobs ++ j ∷ []) ≡ missing n jobs
unfolding missing
missing-concat_same zero j jobs h = refl
missing-concat_same (suc n) j jobs h =
    ground (arith, has_job-concat n j jobs, missing-concat_same n j jobs)

missing-concat :
    (n j : ℕ) (jobs : List ℕ)
    → j < n
    → has_job j jobs ≡ false
    → missing n jobs ≡ suc (missing n (jobs ++ j ∷ []))
unfolding missing
missing-concat zero j jobs h e = absurd (omega arith)
missing-concat (suc n) j jobs h e =
    ground (arith, has_job-concat n j jobs, missing-concat_same n j jobs, missing-concat n j jobs)

-- The awaited jobs and those that are still missing.
unfoldable left_over : ℕ → GraphSearch → ℕ
left_over n s = length s.awaited + missing n s.jobs_in_graph

left_over-add_job :
    (n : ℕ) (s : GraphSearch) (j : ℕ) → j < n → left_over n (add_job s j) ≡ left_over n s
unfolding left_over add_job
left_over-add_job n s j h =
    ground (arith, missing-concat n j s.jobs_in_graph, length-append s.awaited (j ∷ []))

unfoldable pub all_below : ℕ → List ℕ → Bool
all_below n [] = true
all_below n (j ∷ jobs) = ltb j n && all_below n jobs

left_over-add_jobs :
    (n : ℕ) (s : GraphSearch) (jobs : List ℕ)
    → all_below n jobs ≡ true
    → left_over n (add_jobs s jobs) ≡ left_over n s
unfolding add_jobs all_below
left_over-add_jobs n s [] h = refl
left_over-add_jobs n s (j ∷ jobs) h =
    left_over-add_jobs n (add_job s j) jobs (ground arith) ∙ left_over-add_job n s j (ground arith)

missing-nil : (n : ℕ) → missing n [] ≡ n
unfolding missing has_job
missing-nil zero = refl
missing-nil (suc n) = ground (arith, missing-nil n)

left_over-no_graph_search : (n : ℕ) → left_over n no_graph_search ≡ n
unfolding left_over
left_over-no_graph_search n = ground (arith, missing-nil n)

left_over-remove_at :
    (n : ℕ) (s : GraphSearch) (i : ℕ)
    → i < length s.awaited
    → left_over n s ≡ suc (left_over n (record s { awaited = remove_at s.awaited i }))
unfolding left_over
left_over-remove_at n s i h = omega (arith, length-remove_at_self s.awaited i)

get_elem?-lt : (jobs : List ℕ) (i j : ℕ) → get_elem? jobs i ≡ some j → i < length jobs
get_elem?-lt [] i j g = absurd cc
get_elem?-lt (k ∷ jobs) zero j g = omega arith
get_elem?-lt (k ∷ jobs) (suc i) j g = omega (arith, get_elem?-lt jobs i j g)

module _ (deps : ℕ → List ℕ) (root n : ℕ) where
  left_over-go_on :
      (s : GraphSearch) (i j : ℕ)
      → ((k : ℕ) → all_below n (deps k) ≡ true)
      → get_elem? s.awaited i ≡ some j
      → left_over n s ≡ suc (left_over n (go_on deps s i j))
  unfolding go_on
  left_over-go_on s i j b g =
      let s' = record s { awaited = remove_at s.awaited i } in
      left_over-remove_at n s i (get_elem?-lt s.awaited i j g)
      ∙ ap suc (sym (left_over-add_jobs n s' (deps j) (b j)))

  Reach-left_over :
      {awaits : ℕ} {s : GraphSearch}
      → root < n
      → ((k : ℕ) → all_below n (deps k) ≡ true)
      → Reach deps root awaits s
      → awaits + left_over n s ≡ n
  Reach-left_over h b started =
      omega (arith, left_over-add_job n no_graph_search root h, left_over-no_graph_search n)
  Reach-left_over h b (linked {awaits} {s} i j g r) =
      omega (arith, left_over-go_on s i j b g, Reach-left_over h b r)

  -- Where the jobs are the numbers below `n`, the search goes on behind at most `n` awaits, and those
  -- that it is still waiting for count.
  pub Reach-bounded :
      (awaits : ℕ) (s : GraphSearch)
      → root < n
      → ((k : ℕ) → all_below n (deps k) ≡ true)
      → Reach deps root awaits s
      → awaits + length s.awaited ≤ n
  unfolding left_over
  Reach-bounded awaits s h b r = omega (arith, Reach-left_over h b r)
