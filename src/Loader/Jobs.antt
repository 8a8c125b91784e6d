-- ===== src/Loader/Jobs.antt =====
-- The jobs of the loader of lib/loader.js.
use zero_archive.Prelude.{
  ◌∙◌, same_refl, sym, ◌||◌, List, is_some, same, if◌then◌else◌, ◌++◌, some, [], ◌∷◌, refl, arith,
  ◌≡◌, Text, ℕ, none,
}
use zero_archive.Loader.{
  get_module_jobs, has_translator, Format, Loader, set_job, get_module_job, ModuleMap, get_job,
}

get_job-concat :
    (jobs : ModuleMap) (url u : Text) (job : ℕ)
    → get_job (jobs ++ (url, job) ∷ []) u
      ≡ (elim (get_job jobs u) [ none ↦ if same url u then some job else none | some j ↦ some j ])
unfolding get_job
get_job-concat [] url u job = refl
get_job-concat ((v, j) ∷ jobs) url u job = ground (arith, get_job-concat jobs url u job)

-- A call throws only where there is neither a job nor a translator, so the RangeError of `set` is
-- never met; otherwise it returns the job that the map has for the URL from then on.
pub get_module_job_returns :
    (l : Loader) (url : Text) (format : Format)
    → let (l', job) = get_module_job l (url, format) in
      (job ≡ get_job l'.module_map url)
      × (is_some job ≡ (is_some (get_job l.module_map url) || has_translator format))
unfolding get_module_job set_job
get_module_job_returns l url format = (
  ground (arith, get_job-concat l.module_map url url l.next_job, same_refl url),
  ground (arith, get_job-concat l.module_map url url l.next_job, same_refl url),
)

get_module_job_keeps :
    (l : Loader) (resolved : Text × Format) (url : Text) (job : ℕ)
    → get_job l.module_map url ≡ some job
    → get_job (get_module_job l resolved).0.module_map url ≡ some job
unfolding get_module_job set_job
get_module_job_keeps l (u, f) url job h =
    ground (arith, get_job-concat l.module_map u url l.next_job)

get_module_jobs_keeps :
    (l : Loader) (calls : List (Text × Format)) (url : Text) (job : ℕ)
    → get_job l.module_map url ≡ some job
    → get_job (get_module_jobs l calls).module_map url ≡ some job
unfolding get_module_jobs
get_module_jobs_keeps l [] url job h = h
get_module_jobs_keeps l (r ∷ calls) url job h =
    get_module_jobs_keeps (get_module_job l r).0 calls url job (get_module_job_keeps l r url job h)

get_module_job_again :
    (l : Loader) (url : Text) (format : Format) (job : ℕ)
    → get_job l.module_map url ≡ some job
    → get_module_job l (url, format) ≡ (l, some job)
unfolding get_module_job
get_module_job_again l url format job h = rw (h, get_module_job) refl

-- If a call returns a job for a URL, then whatever other calls come in behind it, a call for the URL
-- returns the same job and leaves the map as it is: a module is translated once.
pub get_module_jobs_once :
    (l : Loader) (url : Text) (format again : Format) (job : ℕ) (calls : List (Text × Format))
    → (get_module_job l (url, format)).1 ≡ some job
    → let l' = get_module_jobs (get_module_job l (url, format)).0 calls in
      get_module_job l' (url, again) ≡ (l', some job)
get_module_jobs_once l url format again job calls h =
    get_module_job_again _ url again job
      (get_module_jobs_keeps _ calls url job (sym (get_module_job_returns l url format).0 ∙ h))
