-- ===== src/Tests/Graph.antt =====
-- The theorems on lib/loader/module_job.js for three jobs.
use zero_archive.Prelude.{
  length, ◌==◌, if◌then◌else◌, ◌+◌, [], ◌∷◌, true, refl, arith, ◌≡◌, ◌≤◌, List, ℕ,
}
use zero_archive.Loader.Graph.{
  GraphSearch, has_job, add_job, add_jobs, go_on, Reach, started, linked,
}
use zero_archive.Loader.Graph.Closed.{IsGraph, Reach-IsGraph}
use zero_archive.Loader.Graph.Ends.{all_below, Reach-bounded}

abbrev sample_dependencies : ℕ → List ℕ
sample_dependencies k = if k == 0 then 1 ∷ 2 ∷ [] else if k == 1 then 2 ∷ [] else []

abbrev sample_search : GraphSearch
sample_search = record { jobs_in_graph = 0 ∷ 1 ∷ 2 ∷ []; awaited = [] }

-- Job 2 is linked before job 1.
sample-Reach : Reach sample_dependencies 0 3 sample_search
unfolding add_job add_jobs go_on has_job
sample-Reach = linked 0 1 refl (linked 1 2 refl (linked 0 0 refl started))

sample-all_below : (k : ℕ) → all_below 3 (sample_dependencies k) ≡ true
unfolding all_below
sample-all_below k = ground arith

Reach-IsGraph_example : IsGraph sample_dependencies 0 (0 ∷ 1 ∷ 2 ∷ [])
Reach-IsGraph_example = Reach-IsGraph sample_dependencies 0 3 sample_search sample-Reach refl

Reach-bounded_example : 3 + length sample_search.awaited ≤ 3
Reach-bounded_example =
    Reach-bounded sample_dependencies 0 3 3 sample_search (omega arith) sample-all_below
      sample-Reach
