-- ===== src/Tests/Util.antt =====
-- The theorems on lib/util.js at concrete inputs.
use zero_archive.Prelude.{[], ◌∷◌, true, arith, ◌≡◌, ℕ, ltb, length, ◌==◌, ◌||◌, codes}
use zero_archive.Util.AsyncQueue.{AsyncQueue, new_queue, add, settle, Reach, created, added}
use zero_archive.Util.AsyncQueue.Invariant.{IsServed, Reach-IsServed}
use zero_archive.Util.AsyncQueue.Drain.{Settles, done, more, unfinished, Settles-all}
use zero_archive.Util.Base64.{base64decode}
use zero_archive.Util.Base64.Decoded.{Encodes, base64decode-Encodes}

-- Two jobs with room for one.
abbrev two_jobs : AsyncQueue ℕ
two_jobs = add (add (new_queue 1) 7) 8

two_jobs-Reach : Reach 1 (7 ∷ 8 ∷ []) two_jobs
two_jobs-Reach = added 8 (added 7 created)

Reach-IsServed_example : IsServed 1 (7 ∷ 8 ∷ []) two_jobs
Reach-IsServed_example = Reach-IsServed two_jobs-Reach

two_jobs-Settles : Settles (unfinished two_jobs) two_jobs (settle (settle two_jobs 0) 0)
unfolding add settle new_queue
two_jobs-Settles = more 0 (omega arith) (more 0 (omega arith) done)

Settles-all_example :
    ((unfinished two_jobs == 0 || ltb 0 (length two_jobs.running)) ≡ true)
    × ((settle (settle two_jobs 0) 0).called ≡ 7 ∷ 8 ∷ [])
    × ((settle (settle two_jobs 0) 0).running ≡ [])
Settles-all_example = Settles-all two_jobs-Reach (omega arith) two_jobs-Settles

base64decode-Encodes_example : Encodes (codes "abcd") (base64decode (codes "abcd"))
base64decode-Encodes_example = base64decode-Encodes (codes "abcd")
