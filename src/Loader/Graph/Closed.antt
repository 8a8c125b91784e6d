-- ===== src/Loader/Graph/Closed.antt =====
-- The jobs that `_instantiate` of lib/loader/module_job.js finds.
use zero_archive.Prelude.{
  ◌∙◌, ap, sym, none, Bool, Option, remove_at, ◌||◌, Bool-cases, ◌++◌, ◌==◌, some, [], ◌∷◌, true,
  false, zero, suc, refl, arith, inl, inr, ◌≡◌, get_elem?, List, ℕ,
}
use zero_archive.Loader.Graph.{
  started, linked, linked, further, itself, Reach, go_on, no_graph_search, Depends, GraphSearch,
  has_job, add_job, add_jobs,
}

pub has_job-concat :
    (x j : ℕ) (jobs : List ℕ) → has_job x (jobs ++ j ∷ []) ≡ (has_job x jobs || j == x)
unfolding has_job
has_job-concat x j [] = ground arith
has_job-concat x j (k ∷ jobs) = ground (arith, has_job-concat x j jobs)

has_job-remove_at :
    (x : ℕ) (jobs : List ℕ) (i j : ℕ)
    → get_elem? jobs i ≡ some j
    → (j == x) ≡ false
    → has_job x (remove_at jobs i) ≡ has_job x jobs
unfolding has_job
has_job-remove_at x [] i j g e = refl
has_job-remove_at x (k ∷ jobs) zero j g e = ground arith
has_job-remove_at x (k ∷ jobs) (suc i) j g e = ground (arith, has_job-remove_at x jobs i j)

has_job-remove_at-true :
    (x : ℕ) (jobs : List ℕ) (i : ℕ) → has_job x (remove_at jobs i) ≡ true → has_job x jobs ≡ true
unfolding has_job
has_job-remove_at-true x [] i h = h
has_job-remove_at-true x (k ∷ jobs) zero h = ground arith
has_job-remove_at-true x (k ∷ jobs) (suc i) h = ground (arith, has_job-remove_at-true x jobs i)

pub has_job-get_elem? :
    (jobs : List ℕ) (i j : ℕ) → get_elem? jobs i ≡ some j → has_job j jobs ≡ true
unfolding has_job
has_job-get_elem? [] i j g = absurd cc
has_job-get_elem? (k ∷ jobs) zero j g = ground arith
has_job-get_elem? (k ∷ jobs) (suc i) j g = ground (arith, has_job-get_elem? jobs i j)

add_job-has : (s : GraphSearch) (j : ℕ) → has_job j (add_job s j).jobs_in_graph ≡ true
unfolding add_job
add_job-has s j = ground (arith, has_job-concat j j s.jobs_in_graph)

add_job-keeps :
    (s : GraphSearch) (j x : ℕ)
    → has_job x s.jobs_in_graph ≡ true
    → has_job x (add_job s j).jobs_in_graph ≡ true
unfolding add_job
add_job-keeps s j x h = ground (arith, has_job-concat x j s.jobs_in_graph)

add_jobs-keeps :
    (s : GraphSearch) (jobs : List ℕ) (x : ℕ)
    → has_job x s.jobs_in_graph ≡ true
    → has_job x (add_jobs s jobs).jobs_in_graph ≡ true
unfolding add_jobs
add_jobs-keeps s [] x h = h
add_jobs-keeps s (j ∷ jobs) x h = add_jobs-keeps (add_job s j) jobs x (add_job-keeps s j x h)

same_job :
    (s : GraphSearch) (j x : ℕ) → (j == x) ≡ true → has_job x (add_job s j).jobs_in_graph ≡ true
same_job s j x e = ground (arith, add_job-has s j)

add_jobs-has :
    (s : GraphSearch) (jobs : List ℕ) (x : ℕ)
    → has_job x jobs ≡ true
    → has_job x (add_jobs s jobs).jobs_in_graph ≡ true
unfolding add_jobs has_job
add_jobs-has s [] x h = absurd cc
add_jobs-has s (j ∷ jobs) x h = elim (Bool-cases (j == x)) [
  | inl e ↦ add_jobs-keeps (add_job s j) jobs x (same_job s j x e)
  | inr e ↦ add_jobs-has (add_job s j) jobs x (ground arith)
]

added :
    (s : GraphSearch) (j x : ℕ)
    → has_job x (add_job s j).jobs_in_graph ≡ true
    → has_job x s.jobs_in_graph ≡ false
    → x ≡ j
unfolding add_job
added s j x h e = ground (arith, has_job-concat x j s.jobs_in_graph)

-- The job is the one that is named, if one is.
abbrev is_it : Option ℕ → ℕ → Bool
is_it none x = false
is_it (some j) x = j == x

pub record IsGraph (deps : ℕ → List ℕ) (root : ℕ) (jobs : List ℕ) : Type 0 where
  has_root : has_job root jobs ≡ true
  closed : (j k : ℕ) → has_job j jobs ≡ true → has_job k (deps j) ≡ true → has_job k jobs ≡ true
  only : (j : ℕ) → has_job j jobs ≡ true → Depends deps root j

module _ (deps : ℕ → List ℕ) (root : ℕ) where
  -- The search holds the first job and only jobs that it depends on; the dependencies of a job that
  -- is not awaited, and is not `except`, are in it.
  record Open (except : Option ℕ) (s : GraphSearch) : Type 0 where
    has_root : has_job root s.jobs_in_graph ≡ true
    only : (j : ℕ) → has_job j s.jobs_in_graph ≡ true → Depends deps root j
    awaited : (j : ℕ) → has_job j s.awaited ≡ true → has_job j s.jobs_in_graph ≡ true
    closed :
        (j k : ℕ)
        → has_job j s.jobs_in_graph ≡ true
        → has_job j s.awaited ≡ false
        → is_it except j ≡ false
        → has_job k (deps j) ≡ true
        → has_job k s.jobs_in_graph ≡ true

  only-add_job :
      (s : GraphSearch) (j x : ℕ)
      → ((y : ℕ) → has_job y s.jobs_in_graph ≡ true → Depends deps root y)
      → Depends deps root j
      → has_job x (add_job s j).jobs_in_graph ≡ true
      → Depends deps root x
  only-add_job s j x o d h = elim (Bool-cases (has_job x s.jobs_in_graph)) [
    | inl e ↦ o x e
    | inr e ↦ rw (added s j x h e) d
  ]

  awaited-add_job :
      (s : GraphSearch) (j x : ℕ)
      → ((y : ℕ) → has_job y s.awaited ≡ true → has_job y s.jobs_in_graph ≡ true)
      → has_job x (add_job s j).awaited ≡ true
      → has_job x (add_job s j).jobs_in_graph ≡ true
  unfolding add_job
  awaited-add_job s j x a h =
      ground (arith, a x, has_job-concat x j s.jobs_in_graph, has_job-concat x j s.awaited)

  closed-add_job :
      (e : Option ℕ) (s : GraphSearch) (j x k : ℕ)
      → Open e s
      → has_job x (add_job s j).jobs_in_graph ≡ true
      → has_job x (add_job s j).awaited ≡ false
      → is_it e x ≡ false
      → has_job k (deps x) ≡ true
      → has_job k (add_job s j).jobs_in_graph ≡ true
  unfolding add_job
  closed-add_job e s j x k o h a n d = ground (
    arith,
    o.closed x k,
    has_job-concat x j s.jobs_in_graph,
    has_job-concat x j s.awaited,
    has_job-concat k j s.jobs_in_graph,
  )

  Open-add_job :
      (e : Option ℕ) (s : GraphSearch) (j : ℕ)
      → Open e s
      → Depends deps root j
      → Open e (add_job s j)
  Open-add_job e s j o d = record {
    has_root = add_job-keeps s j root o.has_root;
    only = λ x h. only-add_job s j x o.only d h;
    awaited = λ x h. awaited-add_job s j x o.awaited h;
    closed = λ x k h a n h'. closed-add_job e s j x k o h a n h';
  }

  Open-add_jobs :
      (e : Option ℕ) (s : GraphSearch) (jobs : List ℕ)
      → Open e s
      → ((k : ℕ) → has_job k jobs ≡ true → Depends deps root k)
      → Open e (add_jobs s jobs)
  unfolding add_jobs has_job
  Open-add_jobs e s [] o d = o
  Open-add_jobs e s (j ∷ jobs) o d =
      Open-add_jobs e (add_job s j) jobs (Open-add_job e s j o (d j (ground arith)))
        (λ k h. d k (ground arith))

  Open-started : Open none (add_job no_graph_search root)
  unfolding add_job has_job
  Open-started = record {
    has_root = ground arith;
    only = λ j h. rw (root_only j h) itself;
    awaited = λ j h. h;
    closed = λ j k h a n h'. absurd cc;
  }
    where
      root_only : (j : ℕ) → (root == j || false) ≡ true → j ≡ root
      root_only j h = ground arith

  Open-resumed :
      (s : GraphSearch) (i j : ℕ)
      → get_elem? s.awaited i ≡ some j
      → Open none s
      → Open (some j) (record s { awaited = remove_at s.awaited i })
  Open-resumed s i j g o = record {
    has_root = o.has_root;
    only = o.only;
    awaited = λ x h. o.awaited x (has_job-remove_at-true x s.awaited i h);
    closed =
        λ x k h a n h'. o.closed x k h (sym (has_job-remove_at x s.awaited i j g n) ∙ a) refl h';
  }

  closed-named :
      (s : GraphSearch) (j x k : ℕ)
      → has_job k (deps x) ≡ true
      → (j == x) ≡ true
      → has_job k (add_jobs s (deps j)).jobs_in_graph ≡ true
  closed-named s j x k h e = add_jobs-has s (deps j) k (rw (equal j x e) h)
    where
      equal : (j x : ℕ) → (j == x) ≡ true → j ≡ x
      equal j x e = ground arith

  Open-go_on :
      (s : GraphSearch) (i j : ℕ)
      → get_elem? s.awaited i ≡ some j
      → Open none s
      → Open none (go_on deps s i j)
  unfolding go_on
  Open-go_on s i j g o =
      let s' = record s { awaited = remove_at s.awaited i } in
      let in_graph = o.awaited j (has_job-get_elem? s.awaited i j g) in
      let o' =
        Open-add_jobs (some j) s' (deps j) (Open-resumed s i j g o)
          (λ k h. further k (o.only j in_graph) h) in
      record {
        has_root = o'.has_root;
        only = o'.only;
        awaited = o'.awaited;
        closed = λ x k h a n h'. elim (Bool-cases (j == x)) [
          | inl e ↦ closed-named s' j x k h' e
          | inr e ↦ o'.closed x k h a e h'
        ];
      }

  Reach-Open : {awaits : ℕ} {s : GraphSearch} → Reach deps root awaits s → Open none s
  Reach-Open started = Open-started
  Reach-Open (linked i j g r) = Open-go_on _ i j g (Reach-Open r)

  -- When nothing is awaited any more, in whatever order the jobs were linked, the graph has the first
  -- job, the dependencies of every job in it, and only jobs that the first one depends on, directly
  -- or through others.
  pub Reach-IsGraph :
      (awaits : ℕ) (s : GraphSearch)
      → Reach deps root awaits s
      → s.awaited ≡ []
      → IsGraph deps root s.jobs_in_graph
  unfolding has_job
  Reach-IsGraph awaits s r e =
      let o = Reach-Open r in
      record {
        has_root = o.has_root;
        closed = λ j k h h'. o.closed j k h (ap (has_job j) e) refl h';
        only = o.only;
      }
