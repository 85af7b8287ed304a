-- ===== src/WorkQueue/Locked.antt =====
-- Who holds the mutex of the queue.
use robot_server.Common.{
  ℕ, ◌≡◌, ◌≢◌, ◌⊎◌, inl, inr, refl, sym, ap, ◌∙◌, Bool, true, false, none, some, arith, ◌==◌,
  ==_iff, Bool-cases,
}
use robot_server.WorkQueue.{
  Place, locking, testing, waiting, running, gone, Workqueue, workqueue_init, update, Step, lock,
  leave, wait, wake, take, finish, add_job, set_flag, clear, Reach, here, then_step,
}

some-injective : {i k : ℕ} → some i ≡ some k → i ≡ k
some-injective e = cc

-- A worker at the tests, or behind the loop, holds the mutex.
abbrev pub needs_lock : Place → Bool
needs_lock locking = false
needs_lock testing = true
needs_lock waiting = false
needs_lock (running j) = false
needs_lock gone = true

abbrev pub IsLocked : Workqueue → Type 0
IsLocked q = (i : ℕ) → needs_lock (q.place i) ≡ true → q.owner ≡ some i

update_cases :
    (p : ℕ → Place) (i k : ℕ) (v : Place)
    → ((i ≡ k) × (update p i v k ≡ v)) ⊎ ((i ≢ k) × (update p i v k ≡ p k))
update_cases p i k v = elim (Bool-cases (i == k)) [
  | inl e ↦ inl ((==_iff i k).0 e, rw e refl)
  | inr e ↦ inr (ground arith, rw e refl)
]

module _ (q : Workqueue) (inv : IsLocked q) (i k : ℕ) (v : Place) where
  -- A worker that comes to a place without the lock, and leaves the owner as it is.
  keep_lock : needs_lock v ≡ false → needs_lock (update q.place i v k) ≡ true → q.owner ≡ some k
  keep_lock free held = elim (update_cases q.place i k v) [
    | inl (e, at) ↦ absurd (let f : needs_lock v ≡ true = ap needs_lock (sym at) ∙ held in cc)
    | inr (ne, at) ↦ inv k (ap needs_lock (sym at) ∙ held)
  ]

  -- A worker that gives up the mutex: no other one needs it.
  give_up :
      q.place i ≡ testing
      → needs_lock v ≡ false
      → needs_lock (update q.place i v k) ≡ true
      → none ≡ some k
  give_up here_now free held =
      let mine : q.owner ≡ some i = inv i (ap needs_lock here_now) in
      elim (update_cases q.place i k v) [
        | inl (e, at) ↦ absurd (let f : needs_lock v ≡ true = ap needs_lock (sym at) ∙ held in cc)
        | inr (ne, at) ↦
            let other : q.owner ≡ some k = inv k (ap needs_lock (sym at) ∙ held) in
            absurd (ne (some-injective (sym mine ∙ other)))
      ]

  -- A worker that takes the mutex.
  take_lock : q.owner ≡ none → needs_lock (update q.place i v k) ≡ true → some i ≡ some k
  take_lock free held = elim (update_cases q.place i k v) [
    | inl (e, at) ↦ ap some e
    | inr (ne, at) ↦
        absurd (let f : none ≡ some k = sym free ∙ inv k (ap needs_lock (sym at) ∙ held) in cc)
  ]

  -- A worker that keeps the mutex.
  hold_lock : q.place i ≡ testing → needs_lock (update q.place i v k) ≡ true → q.owner ≡ some k
  hold_lock here_now held = elim (update_cases q.place i k v) [
    | inl (e, at) ↦ inv i (ap needs_lock here_now) ∙ ap some e
    | inr (ne, at) ↦ inv k (ap needs_lock (sym at) ∙ held)
  ]

Step-IsLocked : (q r : Workqueue) → Step q r → IsLocked q → IsLocked r
Step-IsLocked _ _ (lock q i at free) inv k held = take_lock q inv i k testing free held
Step-IsLocked _ _ (leave q i at stop) inv k held = hold_lock q inv i k gone at held
Step-IsLocked _ _ (wait q i at go empty) inv k held = give_up q inv i k waiting at refl held
Step-IsLocked _ _ (wake q i at) inv k held = keep_lock q inv i k locking refl held
Step-IsLocked _ _ (take q i j at go some_job) inv k held =
    give_up q inv i k (running j) at refl held
Step-IsLocked _ _ (finish q i j at) inv k held = keep_lock q inv i k locking refl held
Step-IsLocked _ _ (add_job q j free) inv k held = inv k held
Step-IsLocked _ _ (set_flag q i among) inv k held = inv k held
Step-IsLocked _ _ (clear q free) inv k held = inv k held

Reach-IsLocked : (q r : Workqueue) → Reach q r → IsLocked q → IsLocked r
Reach-IsLocked _ _ (here q) inv = inv
Reach-IsLocked _ _ (then_step q r s run step) inv =
    Step-IsLocked r s step (Reach-IsLocked q r run inv)

init-IsLocked : (n : ℕ) → IsLocked (workqueue_init n)
unfolding workqueue_init
init-IsLocked n k held = cc

-- From the start of the queue, whatever its workers and its callers do: a worker that is at the tests
-- holds the mutex, so that no two are there together; and a worker that has left the loop still holds
-- it, so that no second one ever leaves.
pub workers_exclude :
    (n : ℕ) (q : Workqueue) (i k : ℕ)
    → Reach (workqueue_init n) q
    → needs_lock (q.place i) ≡ true
    → needs_lock (q.place k) ≡ true
    → (q.owner ≡ some i) × (i ≡ k)
workers_exclude n q i k run hi hk =
    let inv = Reach-IsLocked (workqueue_init n) q run (init-IsLocked n) in
    (inv i hi, some-injective (sym (inv i hi) ∙ inv k hk))

module _ (q : Workqueue) (inv : IsLocked q) (i : ℕ) (left : q.place i ≡ gone) where
  owned : q.owner ≡ some i
  owned = inv i (ap needs_lock left)

  not_free : q.owner ≢ none
  not_free free = let e : some i ≡ none = sym owned ∙ free in cc

  -- No one else is at the tests.
  not_testing : (j : ℕ) → q.place j ≢ testing
  not_testing j at =
      let same : j ≡ i = some-injective (sym (inv j (ap needs_lock at)) ∙ owned) in
      let e : testing ≡ gone = sym at ∙ ap q.place same ∙ left in cc

  -- The place of another worker changes.
  still_gone : (j : ℕ) (v : Place) → q.place j ≢ gone → update q.place j v i ≡ gone
  still_gone j v other = elim (update_cases q.place j i v) [
    | inl (e, at) ↦ absurd (other (ap q.place e ∙ left))
    | inr (ne, at) ↦ at ∙ left
  ]

  leave_gone : (j : ℕ) → update q.place j gone i ≡ gone
  leave_gone j = elim (update_cases q.place j i gone) [
    | inl (e, at) ↦ at
    | inr (ne, at) ↦ at ∙ left
  ]

Step-gone :
    (q r : Workqueue) (i : ℕ)
    → Step q r
    → IsLocked q
    → q.place i ≡ gone
    → (r.jobs ≡ q.jobs) × (r.place i ≡ gone)
Step-gone _ _ i (lock q j at free) inv left = absurd (not_free q inv i left free)
Step-gone _ _ i (leave q j at stop) inv left = (refl, leave_gone q inv i left j)
Step-gone _ _ i (wait q j at go empty) inv left = absurd (not_testing q inv i left j at)
Step-gone _ _ i (wake q j at) inv left =
    (refl, still_gone q inv i left j locking (λ e. (let f : waiting ≡ gone = sym at ∙ e in cc)))
Step-gone _ _ i (take q j k at go some_job) inv left = absurd (not_testing q inv i left j at)
Step-gone _ _ i (finish q j k at) inv left =
    (refl, still_gone q inv i left j locking (λ e. (let f : running k ≡ gone = sym at ∙ e in cc)))
Step-gone _ _ i (add_job q j free) inv left = absurd (not_free q inv i left free)
Step-gone _ _ i (set_flag q j among) inv left = (refl, left)
Step-gone _ _ i (clear q free) inv left = absurd (not_free q inv i left free)

Reach-gone :
    (q r : Workqueue) (i : ℕ)
    → Reach q r
    → IsLocked q
    → q.place i ≡ gone
    → (r.jobs ≡ q.jobs) × (r.place i ≡ gone)
Reach-gone _ _ i (here q) inv left = (refl, left)
Reach-gone _ _ i (then_step q r s run step) inv left =
    let (same, still) = Reach-gone q r i run inv left in
    let (next, last) = Step-gone r s i step (Reach-IsLocked q r run inv) still in
    (next ∙ same, last)

-- Once a worker has left the loop, which it does with the mutex held, the jobs of the queue never
-- change again: none is taken and none can be added.
pub jobs_stuck :
    (n : ℕ) (q r : Workqueue) (i : ℕ)
    → Reach (workqueue_init n) q
    → q.place i ≡ gone
    → Reach q r
    → r.jobs ≡ q.jobs
jobs_stuck n q r i start left run =
    (Reach-gone q r i run (Reach-IsLocked (workqueue_init n) q start (init-IsLocked n)) left).0
