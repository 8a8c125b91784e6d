-- ===== src/Tests/Loader.antt =====
-- The theorems on lib/loader.js at concrete inputs.
use zero_archive.Prelude.{◌||◌, is_some, some, ◌∷◌, refl, ◌≡◌, Text, [], codes, List}
use zero_archive.Loader.{
  Loader, Format, get_job, set_job, get_module_job, get_module_jobs, has_translator,
}
use zero_archive.Loader.Jobs.{get_module_job_returns, get_module_jobs_once}

abbrev no_jobs : Loader
no_jobs = record { parent_url = codes "file:///"; module_map = []; next_job = 0 }

get_module_job_returns_example :
    let (l, job) = get_module_job no_jobs (codes "https://a/", Format.https) in
    (job ≡ get_job l.module_map (codes "https://a/"))
    × (is_some job ≡ (
        is_some (get_job no_jobs.module_map (codes "https://a/")) || has_translator Format.https))
get_module_job_returns_example = get_module_job_returns no_jobs (codes "https://a/") Format.https

first_job : (get_module_job no_jobs (codes "file:///a.js", Format.esm)).1 ≡ some 0
unfolding get_module_job get_job set_job has_translator
first_job = refl

abbrev later_calls : List (Text × Format)
later_calls = (codes "file:///b.js", Format.esm) ∷ (codes "https://a/", Format.https) ∷ []

get_module_jobs_once_example :
    let l' =
      get_module_jobs (get_module_job no_jobs (codes "file:///a.js", Format.esm)).0 later_calls in
    get_module_job l' (codes "file:///a.js", Format.esm) ≡ (l', some 0)
get_module_jobs_once_example =
    get_module_jobs_once no_jobs (codes "file:///a.js") Format.esm Format.esm 0 later_calls
      first_job
