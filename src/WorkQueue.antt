-- ===== src/WorkQueue.antt =====
-- workqueue.c: the list of jobs, and the workers that take them, as a step relation. Jobs and workers
-- are numbers; what `pthread_cond_wait` and the scheduler do is any order of the steps, with spurious
-- wake-ups allowed.
pub mod Locked
pub mod Jobs
mod Examples
use robot_server.Common.{
  ℕ, zero, suc, ◌+◌, ◌≡◌, Bool, true, false, ◌||◌, Option, none, some, List, [], ◌∷◌, ◌++◌, ltb,
  ◌==◌, if◌then◌else◌,
}

-- `a[i] = v`
abbrev pub update {ℓ} : {A : Type ℓ} → (ℕ → A) → ℕ → A → ℕ → A
update f i v j = if i == j then v else f j

-- The links of the jobs, and `waiting_jobs`.
pub record Links : Type 0 where
  pub prev : ℕ → Option ℕ
  pub next : ℕ → Option ℕ
  pub list : Option ℕ

-- `LL_ADD`
unfoldable pub ll_add : ℕ → Links → Links
ll_add item l = record {
  prev = update l.prev item none;
  next = update l.next item l.list;
  list = some item;
}

-- The four statements of `LL_REMOVE`.
unfoldable pub skip_forward : ℕ → Option ℕ → Links → Links
skip_forward item none l = l
skip_forward item (some p) l = record l { next = update l.next p (l.next item) }

unfoldable pub skip_back : ℕ → Option ℕ → Links → Links
skip_back item none l = l
skip_back item (some n) l = record l { prev = update l.prev n (l.prev item) }

unfoldable pub drop_head : ℕ → Option ℕ → Links → Links
drop_head item none l = l
drop_head item (some j) l = if j == item then record l { list = l.next item } else l

unfoldable pub ll_remove : ℕ → Links → Links
ll_remove item l =
    let l₁ = skip_forward item (l.prev item) l in
    let l₂ = skip_back item (l₁.next item) l₁ in
    let l₃ = drop_head item l₂.list l₂ in
    record l₃ { prev = update l₃.prev item none; next = update l₃.next item none }

-- Where a worker is in `worker_function`: before the lock; behind it, at the tests; in the wait; in a
-- job; behind the loop.
pub data Place : Type 0 where
  locking : Place
  testing : Place
  waiting : Place
  running : ℕ → Place
  gone : Place

-- `workqueue_t`: the jobs, the owner of the mutex, and the workers of the queue, with the place and
-- the flag `terminate` of each.
pub record Workqueue : Type 0 where
  pub jobs : Links
  pub owner : Option ℕ
  pub workers : List ℕ
  pub place : ℕ → Place
  pub terminate : ℕ → Bool

-- `numWorkers` threads are started; a smaller number than 1 is 1.
unfoldable pub start_workers : ℕ → List ℕ
start_workers zero = []
start_workers (suc n) = n ∷ start_workers n

unfoldable pub workqueue_init : ℕ → Workqueue
workqueue_init num_workers = record {
  jobs = record { prev = λ j. none; next = λ j. none; list = none };
  owner = none;
  workers = start_workers (if ltb num_workers 1 then 1 else num_workers);
  place = λ i. locking;
  terminate = λ i. false;
}

-- The whole loop: `terminate = 1` for every worker of the list.
unfoldable pub set_terminate : List ℕ → (ℕ → Bool) → ℕ → Bool
set_terminate [] t = t
set_terminate (i ∷ workers) t = set_terminate workers (update t i true)

-- Whether the worker is one of the list.
unfoldable pub is_worker : ℕ → List ℕ → Bool
is_worker i [] = false
is_worker i (k ∷ workers) = i == k || is_worker i workers

-- One step of a worker, or of a thread that calls `workqueue_add_job` or `workqueue_shutdown`, whose
-- locked parts are one step each; `workqueue_shutdown` sets the flags before, without the lock, one by
-- one.
pub data Step : Workqueue → Workqueue → Type 0 where
  lock :
      (q : Workqueue) (i : ℕ)
      → q.place i ≡ locking
      → q.owner ≡ none
      → Step q (record q { owner = some i; place = update q.place i testing })
  leave :
      (q : Workqueue) (i : ℕ)
      → q.place i ≡ testing
      → q.terminate i ≡ true
      → Step q (record q { place = update q.place i gone })
  wait :
      (q : Workqueue) (i : ℕ)
      → q.place i ≡ testing
      → q.terminate i ≡ false
      → q.jobs.list ≡ none
      → Step q (record q { owner = none; place = update q.place i waiting })
  wake :
      (q : Workqueue) (i : ℕ)
      → q.place i ≡ waiting
      → Step q (record q { place = update q.place i locking })
  take :
      (q : Workqueue) (i j : ℕ)
      → q.place i ≡ testing
      → q.terminate i ≡ false
      → q.jobs.list ≡ some j
      → Step q (record q {
        jobs = ll_remove j q.jobs;
        owner = none;
        place = update q.place i (running j);
      })
  finish :
      (q : Workqueue) (i j : ℕ)
      → q.place i ≡ running j
      → Step q (record q { place = update q.place i locking })
  add_job : (q : Workqueue) (j : ℕ) → q.owner ≡ none → Step q (record q { jobs = ll_add j q.jobs })
  set_flag :
      (q : Workqueue) (i : ℕ)
      → is_worker i q.workers ≡ true
      → Step q (record q { terminate = update q.terminate i true })
  clear :
      (q : Workqueue)
      → q.owner ≡ none
      → Step q (record q { workers = []; jobs = record q.jobs { list = none } })

-- The states that are reached from one.
pub data Reach : Workqueue → Workqueue → Type 0 where
  here : (q : Workqueue) → Reach q q
  then_step : (q r s : Workqueue) → Reach q r → Step r s → Reach q s
