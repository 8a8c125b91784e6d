-- ===== src/Timers/Order.antt =====
-- The queue stays in order, and no id is in it twice.
use zero_archive.Prelude.{
  [], zero, suc, refl, ◌==◌, arith, if◌then◌else◌, remove_at, some, ◌&&◌, ◌+◌, Bool, false,
  get_elem?, true, ◌++◌, ◌∷◌, List, ◌≡◌, ℕ,
}
use zero_archive.Timers.{Timer, before, insert_sorted, sort}

-- `t` may stand in front of each timer of the queue.
unfoldable pub before_all : Timer → List Timer → Bool
before_all t [] = true
before_all t (u ∷ queue) = before t u && before_all t queue

unfoldable pub is_sorted : List Timer → Bool
is_sorted [] = true
is_sorted (t ∷ queue) = before_all t queue && is_sorted queue

-- How many timers have the id.
unfoldable pub count_id : ℕ → List Timer → ℕ
count_id id [] = 0
count_id id (t ∷ queue) = (if t.id == id then 1 else 0) + count_id id queue

before_trans : (t u v : Timer) → before t u ≡ true → before u v ≡ true → before t v ≡ true
unfolding before
before_trans t u v h k = ground arith

before-total : (t u : Timer) → before t u ≡ false → before u t ≡ true
unfolding before
before-total t u h = ground arith

before_all_trans :
    (t u : Timer) (queue : List Timer)
    → before t u ≡ true
    → before_all u queue ≡ true
    → before_all t queue ≡ true
unfolding before_all
before_all_trans t u [] h k = refl
before_all_trans t u (v ∷ queue) h k =
    ground (arith, before_trans t u v, before_all_trans t u queue)

before_all-insert_sorted :
    (t u : Timer) (queue : List Timer)
    → before t u ≡ true
    → before_all t queue ≡ true
    → before_all t (insert_sorted u queue) ≡ true
unfolding before_all insert_sorted
before_all-insert_sorted t u [] h k = ground arith
before_all-insert_sorted t u (v ∷ queue) h k = ground (arith, before_all-insert_sorted t u queue)

insert_sorted-is_sorted :
    (t : Timer) (queue : List Timer)
    → is_sorted queue ≡ true
    → is_sorted (insert_sorted t queue) ≡ true
unfolding is_sorted before_all insert_sorted
insert_sorted-is_sorted t [] h = refl
insert_sorted-is_sorted t (u ∷ queue) h = ground (
  arith,
  before_all_trans t u queue,
  before-total t u,
  before_all-insert_sorted u t queue,
  insert_sorted-is_sorted t queue,
)

pub is_sorted_nil : is_sorted [] ≡ true
unfolding is_sorted
is_sorted_nil = refl

pub sort-is_sorted : (queue : List Timer) → is_sorted (sort queue) ≡ true
unfolding sort
sort-is_sorted [] = is_sorted_nil
sort-is_sorted (t ∷ queue) = insert_sorted-is_sorted t (sort queue) (sort-is_sorted queue)

count_id-insert_sorted :
    (id : ℕ) (t : Timer) (queue : List Timer)
    → count_id id (insert_sorted t queue) ≡ count_id id (t ∷ queue)
unfolding count_id insert_sorted
count_id-insert_sorted id t [] = refl
count_id-insert_sorted id t (u ∷ queue) = ground (arith, count_id-insert_sorted id t queue)

pub count_id-sort : (id : ℕ) (queue : List Timer) → count_id id (sort queue) ≡ count_id id queue
unfolding sort count_id
count_id-sort id [] = refl
count_id-sort id (t ∷ queue) =
    ground (arith, count_id-insert_sorted id t (sort queue), count_id-sort id queue)

pub count_id-append :
    (id : ℕ) (xs ys : List Timer) → count_id id (xs ++ ys) ≡ count_id id xs + count_id id ys
unfolding count_id
count_id-append id [] ys = omega arith
count_id-append id (t ∷ xs) ys = ground (arith, count_id-append id xs ys)

pub count_id-remove_at :
    (id : ℕ) (queue : List Timer) (i : ℕ) (t : Timer)
    → get_elem? queue i ≡ some t
    → count_id id queue ≡ count_id id (remove_at queue i) + (if t.id == id then 1 else 0)
unfolding count_id
count_id-remove_at id [] i t h = absurd cc
count_id-remove_at id (u ∷ queue) zero t h = ground arith
count_id-remove_at id (u ∷ queue) (suc i) t h = ground (arith, count_id-remove_at id queue i t)

before_all-remove_at :
    (t : Timer) (queue : List Timer) (i : ℕ)
    → before_all t queue ≡ true
    → before_all t (remove_at queue i) ≡ true
unfolding before_all
before_all-remove_at t [] i h = refl
before_all-remove_at t (u ∷ queue) zero h = ground arith
before_all-remove_at t (u ∷ queue) (suc i) h = ground (arith, before_all-remove_at t queue i)

pub is_sorted-remove_at :
    (queue : List Timer) (i : ℕ) → is_sorted queue ≡ true → is_sorted (remove_at queue i) ≡ true
unfolding is_sorted
is_sorted-remove_at [] i h = h
is_sorted-remove_at (u ∷ queue) zero h = ground arith
is_sorted-remove_at (u ∷ queue) (suc i) h =
    ground (arith, is_sorted-remove_at queue i, before_all-remove_at u queue i)
