-- ===== src/Server/Interleaved.antt =====
-- Several clients of server.c at once: their callbacks and jobs, and new connections, in any order.
use robot_server.Common.{ℕ, ◌≡◌, refl, sym, ap, ◌∙◌, Bool, true, false, List, [], ◌∷◌, All}
use mathlib.Core.Path.{subst}
use robot_server.Common.Outcome.{ok, OnOk-inv}
use robot_server.Server.{
  Resources, Server, Calls, on_accept, ServerEvent, accepts, closes, ends, server_event,
  server_events,
}
use robot_server.Server.Release.{IsUnused, update_same}
use robot_server.Server.Accept.{on_accept_lem}
use robot_server.Server.Acquire.{IsNew, Ends, all_succeed}
use robot_server.Server.Sessions.{Session, hold_job, hold_all, IsFresh}
use robot_server.Server.Untouched.{on_accept-Untouched}
use robot_server.Server.Several.{
  IsThere, IsRunning, IsOther-clients, IsOther-jobs, keep-IsThere, All-both, find_session,
  front-IsRunning, closes_front, ends_front,
}

-- A sequence of events that can happen from `s` on: the descriptors and addresses that the calls give
-- are not in use, and a job that is closed or ends was not freed.
abbrev pub IsEnabled : ServerEvent → Server → Type 0
IsEnabled (accepts e) s = IsNew e s.held
IsEnabled (closes j) s = s.held.jobs j ≡ true
IsEnabled (ends j) s = s.held.jobs j ≡ true

abbrev pub IsSchedule : List ServerEvent → Server → Type 0
IsSchedule [] s = Unit
IsSchedule (v ∷ vs) s =
    IsEnabled v s × ((s' : Server) → server_event v s ≡ ok s' → IsSchedule vs s')

-- One event that comes to the server `t`, and what can happen from there on.
pub IsSchedule-cons :
    (v : ServerEvent) (vs : List ServerEvent) (s t : Server)
    → server_event v s ≡ ok t
    → IsEnabled v s
    → IsSchedule vs t
    → IsSchedule (v ∷ vs) s
IsSchedule-cons v vs s t runs enabled rest =
    (enabled, λ s' e. subst (IsSchedule vs) (let same : ok t ≡ ok s' = sym runs ∙ e in cc) rest)

module _ (base : Resources) where
  abbrev Continues : Server → ServerEvent → Type 0
  Continues s v =
      (s' : Server) × (xs : List Session) × (server_event v s ≡ ok s') × IsRunning base xs s'

  -- A connection that comes leaves the others there.
  accept-IsThere :
      (e : Calls) (s s' : Server) (ys : List Session)
      → IsNew e s.held
      → IsRunning base ys s
      → on_accept e s ≡ ok s'
      → All (IsThere s') ys
  accept-IsThere e s s' ys new i runs =
      let clients = subst (λ r. IsUnused e.malloc_client r.clients) i.held new.client in
      let jobs = subst (λ r. IsUnused e.malloc_job r.jobs) i.held new.job in
      keep-IsThere s s' ys
        (All-both ys
          (λ y client job. OnOk-inv (on_accept-Untouched y.c y.j e job s e.accept refl client) runs)
          (IsOther-clients base e.malloc_client ys clients)
          (IsOther-jobs base e.malloc_job ys jobs))
        i.there

  accepted :
      (e : Calls) (s : Server) (ys : List Session)
      → IsNew e s.held
      → IsRunning base ys s
      → (b : Bool) → Ends b s.held s.queue (on_accept e s)
      → Continues s (accepts e)
  unfolding server_event
  accepted e s ys new i false (s', runs, refused) = (
    s',
    ys,
    runs,
    record {
      held = refused.held ∙ i.held;
      fresh = i.fresh;
      there = accept-IsThere e s s' ys new i runs;
    },
  )
  accepted e s ys new i true (s', runs, served) =
      let x : Session = record { c = served.c; j = served.j; k = served.k } in
      let fresh : IsFresh x s.held = record { apart = served.apart; unused = served.unused } in
      (
        s',
        x ∷ ys,
        runs,
        record {
          held = served.held ∙ ap (hold_job x) i.held;
          fresh = (subst (IsFresh x) i.held fresh, i.fresh);
          there = ((served.content, served.user_data), accept-IsThere e s s' ys new i runs);
        },
      )

  server_event_lem :
      (v : ServerEvent) (s : Server) (ys : List Session)
      → ((j : ℕ) → base.jobs j ≡ false)
      → IsRunning base ys s
      → IsEnabled v s
      → Continues s v
  server_event_lem (accepts e) s ys no_jobs i new =
      accepted e s ys new i (all_succeed e) (on_accept_lem e s new)
  server_event_lem (closes j) s ys no_jobs i live =
      let f =
        find_session base s j ys (no_jobs j) (subst (λ r. r.jobs j ≡ true) i.held live) i.fresh
          i.there in
      let (s', runs, running) = closes_front base s f.x f.xs (front-IsRunning base s j ys i f) in
      (s', _, subst (λ k. server_event (closes k) s ≡ ok s') f.job runs, running)
  server_event_lem (ends j) s ys no_jobs i live =
      let f =
        find_session base s j ys (no_jobs j) (subst (λ r. r.jobs j ≡ true) i.held live) i.fresh
          i.there in
      let (s', runs, running) = ends_front base s f.x f.xs (front-IsRunning base s j ys i f) in
      (s', _, subst (λ k. server_event (ends k) s ≡ ok s') f.job runs, running)

  -- Where no job is left, everything was given back.
  nothing_left :
      (s : Server) (xs : List Session)
      → IsRunning base xs s
      → ((j : ℕ) → s.held.jobs j ≡ false)
      → s.held ≡ base
  nothing_left s [] i none_left = i.held
  nothing_left s (x ∷ xs) i none_left =
      let live : s.held.jobs x.j ≡ true =
        ap (λ r. r.jobs x.j) i.held ∙ update_same (hold_all base xs).jobs x.j true in
      absurd (let e : true ≡ false = sym live ∙ none_left x.j in cc)

  server_events-IsRunning :
      (vs : List ServerEvent) (s : Server) (ys : List Session)
      → ((j : ℕ) → base.jobs j ≡ false)
      → IsRunning base ys s
      → IsSchedule vs s
      → (s' : Server) × (xs : List Session) × (server_events vs s ≡ ok s') × IsRunning base xs s'
  unfolding server_events
  server_events-IsRunning [] s ys no_jobs i schedule = (s, ys, refl, i)
  server_events-IsRunning (v ∷ vs) s ys no_jobs i (enabled, rest) =
      let (s₁, xs₁, first, running) = server_event_lem v s ys no_jobs i enabled in
      let (s', xs, runs, still) =
        server_events-IsRunning vs s₁ xs₁ no_jobs running (rest s₁ first) in
      (s', xs, rw first runs, still)

-- Any number of clients at once, in any order: whatever the sequence of connections, of closes by the
-- callbacks and of jobs that end, the server comes through it without a fault, so that nothing is closed
-- or freed twice and no client is used behind its end; and where no job is left, what is open and
-- allocated is what there was before. The server starts without a job; the descriptors and addresses
-- that the calls of a connection give are not in use, and the jobs that are closed and that end were
-- not freed.
pub server_events_lem :
    (vs : List ServerEvent) (s : Server)
    → ((j : ℕ) → s.held.jobs j ≡ false)
    → IsSchedule vs s
    → (s' : Server) × (server_events vs s ≡ ok s')
      × (((j : ℕ) → s'.held.jobs j ≡ false) → s'.held ≡ s.held)
server_events_lem vs s no_jobs schedule =
    let start : IsRunning s.held [] s = record { held = refl; fresh = tt; there = tt } in
    let (s', xs, runs, running) = server_events-IsRunning s.held vs s [] no_jobs start schedule in
    (s', runs, nothing_left s.held s' xs running)
