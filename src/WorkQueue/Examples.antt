-- ===== src/WorkQueue/Examples.antt =====
-- A queue with two workers, one of which leaves.
use robot_server.Common.{ℕ, ◌≡◌, refl, true, none, some, [], ◌∷◌, arith}
use robot_server.WorkQueue.{
  Links, testing, gone, Workqueue, workqueue_init, start_workers, update, is_worker, ll_add,
  ll_remove, lock, leave, set_flag, Reach, here, then_step,
}
use robot_server.WorkQueue.Locked.{workers_exclude, jobs_stuck}
use robot_server.WorkQueue.Jobs.{IsJobs, jobs_lem}

abbrev started : Workqueue
started = workqueue_init 2

abbrev locked : Workqueue
locked = record started { owner = some 1; place = update started.place 1 testing }

abbrev flagged : Workqueue
flagged = record locked { terminate = update locked.terminate 1 true }

abbrev left : Workqueue
left = record flagged { place = update flagged.place 1 gone }

locked-Reach : Reach started locked
unfolding workqueue_init
locked-Reach = then_step started started locked (here started) (lock started 1 refl refl)

left-Reach : Reach started left
unfolding workqueue_init is_worker start_workers
left-Reach =
    then_step started flagged left
      (then_step started locked flagged locked-Reach (set_flag locked 1 refl))
      (leave flagged 1 refl refl)

workers_exclude_example : (locked.owner ≡ some 1) × (◌≡◌ {A = ℕ} 1 1)
workers_exclude_example = workers_exclude 2 locked 1 1 locked-Reach refl refl

jobs_stuck_example : left.jobs ≡ left.jobs
jobs_stuck_example = jobs_stuck 2 left left 1 left-Reach refl (here left)

abbrev links : Links
links = record { prev = λ j. none; next = λ j. none; list = some 5 }

jobs_lem_example :
    (IsJobs links (5 ∷ []) → IsJobs (ll_add 7 links) (7 ∷ 5 ∷ []))
    × (IsJobs links (7 ∷ 5 ∷ []) → IsJobs (ll_remove 7 links) (5 ∷ []))
jobs_lem_example = jobs_lem links (5 ∷ []) 7 (omega arith)
