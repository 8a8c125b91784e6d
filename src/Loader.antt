-- ===== src/Loader.antt =====
-- The classes ModuleMap and Loader of lib/loader.js, with the table of lib/loader/translators.js. A
-- job is a number. `getModuleJob` waits once, for `resolve`; what it does behind that is one step.
pub mod Jobs
pub mod Graph
use zero_archive.Prelude.{
  ◌||◌, is_some, same, ◌&&◌, ◌++◌, ◌+◌, if◌then◌else◌, ◌==◌, [], zero, suc, refl, arith, inl, inr,
  ◌≡◌, ◌<◌, ◌≤◌, some, false, codes, Option, ◌∷◌, true, Text, List, Bool, ℕ, none,
}
use zero_archive.Url.Record.{Url, file_scheme}
use zero_archive.Url.Object.{UrlObject, Completion, new_url, get_href}

-- The formats that `resolve` returns.
pub data Format : Type 0 where
  esm : Format
  https : Format

-- A ModuleMap: the jobs by their URLs, in the order of `set`.
abbrev pub ModuleMap : Type 0
ModuleMap = List (Text × ℕ)

unfoldable pub get_job : ModuleMap → Text → Option ℕ
get_job [] url = none
get_job ((u, job) ∷ jobs) url = let rest = get_job jobs url in if same u url then some job else rest

-- `set`; none is its RangeError.
unfoldable pub set_job : ModuleMap → Text → ℕ → Option ModuleMap
unfolding get_job
set_job jobs url job = if is_some (get_job jobs url) then none else some (jobs ++ (url, job) ∷ [])

pub record Loader : Type 0 where
  pub parent_url : Text
  pub module_map : ModuleMap
  pub next_job : ℕ

-- The Map `translators` has a function for `esm` and for `builtin`.
unfoldable pub has_translator : Format → Bool
has_translator Format.esm = true
has_translator Format.https = false

-- `getModuleJob` behind `await this.resolve(…)`: the job, or none where it throws.
unfoldable pub get_module_job : Loader → Text × Format → Loader × Option ℕ
unfolding set_job
get_module_job l (url, format) = elim (get_job l.module_map url) [
  | some job ↦ (l, some job)
  | none ↦
      if has_translator format
      then (elim (set_job l.module_map url l.next_job) [
        | none ↦ (record l { next_job = l.next_job + 1 }, none)
        | some jobs ↦ (record l { module_map = jobs; next_job = l.next_job + 1 }, some l.next_job)
      ])
      else (l, none)
]

-- The calls of `getModuleJob` in the order in which what they resolve to comes in.
unfoldable pub get_module_jobs : Loader → List (Text × Format) → Loader
unfolding get_module_job
get_module_jobs l [] = l
get_module_jobs l (resolved ∷ calls) = get_module_jobs (get_module_job l resolved).0 calls

-- `startsWith`, for the pattern `^data:`.
unfoldable pub starts_with : Text → Text → Bool
starts_with [] t = true
starts_with (c ∷ cs) [] = false
starts_with (c ∷ cs) (d ∷ ds) = c == d && starts_with cs ds

abbrev pub eval_specifier : Text
eval_specifier = codes "[eval]"

-- `fileSystem.exists` belongs to the native layer, and `cwd` is `process.cwd`.
module _ (upper : ℕ → Text) (decode : Text → Option Text) (exists : Text → Bool) (cwd : Text) where
  -- The first of the three results that is not null.
  unfoldable pub find_file : Text → Option (Text × Format)
  find_file href =
      if exists href
      then some (href, Format.esm)
      else if exists (href ++ codes ".js")
      then some (href ++ codes ".js", Format.esm)
      else if exists (href ++ codes ".mjs")
      then some (href ++ codes ".mjs", Format.esm)
      else none

  unfoldable pub referrer_url : Text → Text
  referrer_url referrer =
      if same referrer eval_specifier || same referrer (codes "[repl]")
      then codes "file://" ++ (cwd ++ codes "/")
      else referrer

  -- `resolve`; none where it throws.
  unfoldable pub resolve : Text → Text → Option (Text × Format)
  unfolding find_file referrer_url starts_with
  resolve specifier referrer =
      if same specifier eval_specifier || starts_with (codes "data:") specifier
      then some (specifier, Format.esm)
      else elim (new_url upper decode specifier (some (referrer_url referrer))).0 [
        | none ↦ none
        | some url ↦
            if same url.url.scheme file_scheme
            then find_file (get_href url)
            else some (get_href url, Format.https)
      ]
