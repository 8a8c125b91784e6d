-- ===== src/Loader/Graph.antt =====
-- `_instantiate` of lib/loader/module_job.js: the search for the jobs in the graph of a job. A call of
-- `addJobsToDependencyGraph` goes on behind its await when the job is linked, in any order.
pub mod Closed
pub mod Ends
use zero_archive.Prelude.{
  ◌++◌, ◌||◌, if◌then◌else◌, ◌==◌, some, true, zero, suc, refl, arith, inl, inr, ◌≡◌, ◌<◌, ◌≤◌,
  Option, false, get_elem?, ◌∷◌, Bool, remove_at, List, [], ℕ, none,
}

unfoldable pub has_job : ℕ → List ℕ → Bool
has_job job [] = false
has_job job (j ∷ jobs) = j == job || has_job job jobs

-- `jobsInGraph`, and the jobs whose `linked` the calls wait for.
pub record GraphSearch : Type 0 where
  pub jobs_in_graph : List ℕ
  pub awaited : List ℕ

abbrev pub no_graph_search : GraphSearch
no_graph_search = record { jobs_in_graph = []; awaited = [] }

-- `addJobsToDependencyGraph` up to its await.
unfoldable pub add_job : GraphSearch → ℕ → GraphSearch
add_job s job =
    if has_job job s.jobs_in_graph
    then s
    else record { jobs_in_graph = s.jobs_in_graph ++ job ∷ []; awaited = s.awaited ++ job ∷ [] }

-- `dependencyJobs.map(addJobsToDependencyGraph)`
unfoldable pub add_jobs : GraphSearch → List ℕ → GraphSearch
unfolding add_job
add_jobs s [] = s
add_jobs s (job ∷ jobs) = add_jobs (add_job s job) jobs

-- The jobs that `linked` gives for a job are a parameter.
module _ (dependency_jobs : ℕ → List ℕ) where
  -- From the await on, for the awaited job at `i`.
  unfoldable pub go_on : GraphSearch → ℕ → ℕ → GraphSearch
  unfolding add_jobs
  go_on s i job = add_jobs (record s { awaited = remove_at s.awaited i }) (dependency_jobs job)

  -- The searches that start at a job, with the number of awaits behind which they went on.
  pub data Reach (job : ℕ) : ℕ → GraphSearch → Type 0 where
    started : Reach job 0 (add_job no_graph_search job)
    linked :
        {awaits : ℕ} {s : GraphSearch} (i j : ℕ)
        → get_elem? s.awaited i ≡ some j
        → Reach job awaits s
        → Reach job (suc awaits) (go_on s i j)

  -- A job is the first one or a dependency of one that depends on it.
  pub data Depends (job : ℕ) : ℕ → Type 0 where
    itself : Depends job job
    further : {j : ℕ} (k : ℕ) → Depends job j → has_job k (dependency_jobs j) ≡ true → Depends job k
