-- ===== src/WorkQueue/Jobs.antt =====
-- The list of jobs that the links stand for.
use robot_server.Common.{
  ℕ, ◌≡◌, ◌≢◌, refl, sym, ap, ◌∙◌, Option, none, some, List, [], ◌∷◌, inl, inr, Bool-cases, ◌==◌,
  ==_refl, ne→==, All,
}
use mathlib.Core.Path.{subst}
use robot_server.WorkQueue.{Links, update, ll_add, ll_remove, skip_forward, skip_back, drop_head}

-- `next` leads from `list` through the jobs, each of which has no `prev`.
abbrev pub IsChain : (ℕ → Option ℕ) → (ℕ → Option ℕ) → Option ℕ → List ℕ → Type 0
IsChain prev next list [] = list ≡ none
IsChain prev next list (j ∷ jobs) =
    (list ≡ some j) × (prev j ≡ none) × IsChain prev next (next j) jobs

abbrev pub IsJobs : Links → List ℕ → Type 0
IsJobs l jobs = IsChain l.prev l.next l.list jobs

abbrev pub Fresh : ℕ → List ℕ → Type 0
Fresh j = All (λ k. j ≢ k)

update_other : {A : Type 0} (f : ℕ → A) (i : ℕ) (v : A) (k : ℕ) → i ≢ k → update f i v k ≡ f k
update_other f i v k ne = rw (ne→== i k ne) refl

update_same : {A : Type 0} (f : ℕ → A) (i : ℕ) (v : A) → update f i v i ≡ v
update_same f i v = rw (==_refl i) refl

-- The links of a job that is not in the list may change.
IsChain-update :
    (prev next : ℕ → Option ℕ) (list : Option ℕ) (jobs : List ℕ) (i : ℕ) (v w : Option ℕ)
    → Fresh i jobs
    → IsChain prev next list jobs
    → IsChain (update prev i v) (update next i w) list jobs
IsChain-update prev next list [] i v w fresh chain = chain
IsChain-update prev next list (j ∷ jobs) i v w (ne, fresh) (at, free, chain) = (
  at,
  update_other prev i v j ne ∙ free,
  rw (update_other next i w j ne) (IsChain-update prev next (next j) jobs i v w fresh chain),
)

-- `LL_ADD` puts a new job before the others.
ll_add-IsJobs :
    (l : Links) (jobs : List ℕ) (j : ℕ)
    → Fresh j jobs
    → IsJobs l jobs
    → IsJobs (ll_add j l) (j ∷ jobs)
unfolding ll_add
ll_add-IsJobs l jobs j fresh chain = (
  refl,
  update_same l.prev j none,
  rw (update_same l.next j l.list)
      (IsChain-update l.prev l.next l.list jobs j none l.list fresh chain),
)

update-none : (f : ℕ → Option ℕ) (i k : ℕ) → f k ≡ none → update f i none k ≡ none
update-none f i k e = elim (Bool-cases (i == k)) [ inl h ↦ rw h refl | inr h ↦ rw h e ]

-- A job may lose its `prev`.
IsChain-none :
    (prev next : ℕ → Option ℕ) (list : Option ℕ) (jobs : List ℕ) (i : ℕ)
    → IsChain prev next list jobs
    → IsChain (update prev i none) next list jobs
IsChain-none prev next list [] i chain = chain
IsChain-none prev next list (j ∷ jobs) i (at, free, chain) =
    (at, update-none prev i j free, IsChain-none prev next (next j) jobs i chain)

-- What `LL_REMOVE` does to the first of several jobs.
ll_remove_first :
    (l : Links) (j k : ℕ)
    → l.list ≡ some j
    → l.prev j ≡ none
    → l.next j ≡ some k
    → ll_remove j l ≡ record {
      prev = update (update l.prev k none) j none;
      next = update l.next j none;
      list = l.next j;
    }
unfolding ll_remove skip_forward skip_back drop_head
ll_remove_first l j k at free second =
    let ends : Option ℕ → Links = λ x. record {
      prev = update (update l.prev k none) j none;
      next = update l.next j none;
      list = x;
    } in
    rw (free, second, at, ==_refl j, free) (ap ends second)

ll_remove_only :
    (l : Links) (j : ℕ)
    → l.list ≡ some j
    → l.prev j ≡ none
    → l.next j ≡ none
    → IsJobs (ll_remove j l) []
unfolding ll_remove skip_forward skip_back drop_head
ll_remove_only l j at free end = rw (free, end, at, ==_refl j) end

-- The queue is a stack: `LL_ADD` puts the job first, and `LL_REMOVE` of the first job leaves the others, in order.
-- The job does not stand among the others.
pub jobs_lem :
    (l : Links) (jobs : List ℕ) (j : ℕ)
    → Fresh j jobs
    → (IsJobs l jobs → IsJobs (ll_add j l) (j ∷ jobs))
      × (IsJobs l (j ∷ jobs) → IsJobs (ll_remove j l) jobs)
jobs_lem l [] j fresh =
    (ll_add-IsJobs l [] j fresh, λ (at, free, chain). ll_remove_only l j at free chain)
jobs_lem l (k ∷ jobs) j (ne, fresh) = (
  ll_add-IsJobs l (k ∷ jobs) j (ne, fresh),
  λ (at, free, (second, free', chain)).
      subst (λ l'. IsJobs l' (k ∷ jobs)) (sym (ll_remove_first l j k at free second))
        (IsChain-update (update l.prev k none) l.next (l.next j) (k ∷ jobs) j none none (ne, fresh)
          (IsChain-none l.prev l.next (l.next j) (k ∷ jobs) k (second, free', chain))),
)
