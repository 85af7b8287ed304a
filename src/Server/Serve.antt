-- ===== src/Server/Serve.antt =====
-- The job of a connection of server.c: its events, and that it gives back what `on_accept` took.
use robot_server.Common.{
  ℕ, ◌≡◌, refl, ◌∙◌, ap, Bool, true, false, List, [], ◌∷◌, ◌++◌, if◌then◌else◌, some,
}
use mathlib.Core.Path.{subst}
use robot_server.Common.Outcome.{Outcome, ok, fault, ◌>>=◌}
use robot_server.WorkQueue.{Links, ll_add}
use robot_server.Host.{Host, World}
use robot_server.Protocol.Parse.{apollo_parse_packet}
use robot_server.Server.{
  ClientT, Resources, Server, Calls, Event, on_read, on_write, on_error, own, close_client,
  buffered_on_read, buffered_on_error, callback, event_base_dispatch, server_job_function,
  finish_job, on_accept,
}
use robot_server.Server.Release.{
  IsHeld, closed, close_client_lem, close_and_free_client_lem, release-own,
}
use robot_server.Server.Accept.{on_accept_lem}
use robot_server.Server.Acquire.{IsServed, IsNew, Ends, all_succeed}

ok-injective : {A : Type 0} {a b : A} → ok a ≡ ok b → a ≡ b
ok-injective e = cc

module _ (h : Host) where
  -- What the packets alone come to: the bytes that are left, and the world.
  abbrev pub parse_events : List Event → List ℕ → World h → Outcome (List ℕ × World h)
  parse_events [] input w = ok (input, w)
  parse_events (on_read bytes ∷ vs) input w =
      apollo_parse_packet h (input ++ bytes) w >>= λ p. parse_events vs p.0 p.1
  parse_events (on_write ∷ vs) input w = parse_events vs input w
  parse_events (on_error ∷ vs) input w = parse_events vs input w

  -- The client at `c` still holds what is its own, open or closed.
  record IsKept (c : ℕ) (r : Resources) (s s' : Server) : Type 0 where
    k : ClientT
    held : IsHeld c k r s'
    jobs : s'.held.jobs ≡ s.held.jobs
    user_data : s'.user_data ≡ s.user_data
    queue : s'.queue ≡ s.queue

  module _ {c : ℕ} {k : ClientT} {r : Resources} {s : Server} (i : IsHeld c k r s) where
    close-IsKept : (s' : Server) × (close_client (some c) s ≡ ok s') × IsKept c r s s'
    close-IsKept =
        let (s', runs, held, jobs, data_same, queue) = close_client_lem i in
        (
          s',
          runs,
          record { k = closed k; held = held; jobs = jobs; user_data = data_same; queue = queue },
        )

    close_if :
        (b : Bool)
        → (s' : Server) × ((if b then ok s else close_client (some c) s) ≡ ok s') × IsKept c r s s'
    close_if true =
        (s, refl, record { k = k; held = i; jobs = refl; user_data = refl; queue = refl })
    close_if false = close-IsKept

    on_read_lem :
        (bytes input rest : List ℕ) (w w' : World h)
        → apollo_parse_packet h (input ++ bytes) w ≡ ok (rest, w')
        → (s' : Server) × (callback h c
              (on_read bytes)
              (record { input = input; world = w; server = s })
            ≡ ok (record { input = rest; world = w'; server = s' }))
          × IsKept c r s s'
    unfolding callback buffered_on_read
    on_read_lem bytes input rest w w' parsed =
        let (s', runs, kept) = close_if w'.client.fd_open in (s', rw (parsed, runs) refl, kept)

    on_error_lem :
        (input : List ℕ) (w : World h)
        → (s' : Server) × (callback h c on_error (record { input = input; world = w; server = s })
            ≡ ok (record { input = input; world = w; server = s' }))
          × IsKept c r s s'
    unfolding callback buffered_on_error
    on_error_lem input w = let (s', runs, kept) = close-IsKept in (s', rw runs refl, kept)

  IsKept-trans :
      {c : ℕ} {r : Resources} {s t u : Server} → IsKept c r s t → IsKept c r t u → IsKept c r s u
  IsKept-trans a b = record {
    k = b.k;
    held = b.held;
    jobs = b.jobs ∙ a.jobs;
    user_data = b.user_data ∙ a.user_data;
    queue = b.queue ∙ a.queue;
  }

  abbrev IsServing :
      ℕ → Resources → List Event → List ℕ → World h → Server → List ℕ → World h → Type 0
  IsServing c r vs input w s rest w' =
      (s' : Server) × (event_base_dispatch h c vs (record { input = input; world = w; server = s })
        ≡ ok (record { input = rest; world = w'; server = s' }))
      × IsKept c r s s'

  -- One event, then the others.
  serve_next :
      {c : ℕ} {r : Resources} {s t : Server} (v : Event) (vs : List Event) (input mid rest : List ℕ)
      (w w₁ w' : World h)
      → callback h c v (record { input = input; world = w; server = s })
        ≡ ok (record { input = mid; world = w₁; server = t })
      → IsKept c r s t
      → IsServing c r vs mid w₁ t rest w'
      → IsServing c r (v ∷ vs) input w s rest w'
  unfolding event_base_dispatch
  serve_next v vs input mid rest w w₁ w' one kept (s', runs, then_kept) =
      (s', rw (event_base_dispatch, one) runs, IsKept-trans kept then_kept)

  event_base_dispatch_lem :
      (vs : List Event) {c : ℕ} {k : ClientT} {r : Resources} {s : Server} (i : IsHeld c k r s)
      (input rest : List ℕ) (w w' : World h)
      → parse_events vs input w ≡ ok (rest, w')
      → IsServing c r vs input w s rest w'
  unfolding event_base_dispatch callback
  event_base_dispatch_lem [] {k} {s} i input rest w w' e =
      let p = ok-injective e in
      (
        s,
        rw (ap (λ p. p.0) p, ap (λ p. p.1) p) refl,
        record { k = k; held = i; jobs = refl; user_data = refl; queue = refl },
      )
  event_base_dispatch_lem (on_read bytes ∷ vs) {c} {r} {s} i input rest w w' e =
      elim (apollo_parse_packet h (input ++ bytes) w)
          as (λ x.
            apollo_parse_packet h (input ++ bytes) w ≡ x
            → (x >>= λ p. parse_events vs p.0 p.1) ≡ ok (rest, w')
            → IsServing c r (on_read bytes ∷ vs) input w s rest w') [
              | ok (mid, w₁) ↦ λ parsed more.
                  let (t, one, kept) = on_read_lem i bytes input mid w w₁ parsed in
                  serve_next (on_read bytes) vs input mid rest w w₁ w' one kept
                    (event_base_dispatch_lem vs kept.held mid rest w₁ w' more)
              | fault ↦ λ parsed more. absurd (let f : fault ≡ ok (rest, w') = more in cc)
            ]
        refl e
  event_base_dispatch_lem (on_write ∷ vs) i input rest w w' e =
      event_base_dispatch_lem vs i input rest w w' e
  event_base_dispatch_lem (on_error ∷ vs) i input rest w w' e =
      let (t, one, kept) = on_error_lem i input w in
      serve_next on_error vs input input rest w w w' one kept
        (event_base_dispatch_lem vs kept.held input rest w w' e)

  -- The job of a client: whatever it held is given back.
  job_lem :
      (vs : List Event) {r : Resources} {q : Links} {s : Server} (i : IsServed r q s)
      (w w' : World h) (rest : List ℕ)
      → parse_events vs [] w ≡ ok (rest, w')
      → (s' : Server) × (server_job_function h i.j vs (record { input = []; world = w; server = s })
          ≡ ok (record { input = rest; world = w'; server = s' }))
        × (s'.held ≡ r)
        × (s'.queue ≡ s.queue)
  unfolding server_job_function finish_job
  job_lem vs {r} {q} {s} i w w' rest e =
      let mine = record r { jobs = own i.j r.jobs } in
      let held : IsHeld i.c i.k mine s = record {
        apart = record {
          fd = i.apart.fd;
          client = i.apart.client;
          buffer = i.apart.buffer;
          base = i.apart.base;
          block = i.apart.block;
          event = i.apart.event;
        };
        content = i.content;
        resources = i.held;
      } in
      let (t, serves, kept) = event_base_dispatch_lem vs held [] rest w w' e in
      let (u, frees, freed, data_same, queue) = close_and_free_client_lem kept.held in
      (
        record u { held = r },
        rw (i.user_data, serves, frees, freed, release-own r.jobs i.j i.unused) refl,
        refl,
        queue ∙ kept.queue,
      )

  -- A connection that on_accept takes gives everything back, once: where every call succeeds, a job is
  -- put on the work queue; whatever the events of the client are, closing it any number of times among
  -- them, the job returns and leaves what was open and allocated before the connection came. The
  -- descriptors and addresses that the calls give are not in use; no packet is a fault; and no other
  -- connection changes the server in between.
  pub on_accept-server_job_function :
      (e : Calls) (s : Server) (vs : List Event) (w w' : World h) (rest : List ℕ)
      → IsNew e s.held
      → all_succeed e ≡ true
      → parse_events vs [] w ≡ ok (rest, w')
      → (s₁ : Server) × (s₂ : Server) × (j : ℕ) × (on_accept e s ≡ ok s₁)
        × (s₁.queue ≡ ll_add j s.queue)
        × (server_job_function h j vs (record { input = []; world = w; server = s₁ })
            ≡ ok (record { input = rest; world = w'; server = s₂ }))
        × (s₂.held ≡ s.held)
        × (s₂.queue ≡ s₁.queue)
  on_accept-server_job_function e s vs w w' rest new all parsed =
      let (s₁, accepts, served) =
        subst (λ b. Ends b s.held s.queue (on_accept e s)) all (on_accept_lem e s new) in
      let (s₂, runs, held, queue) = job_lem vs served w w' rest parsed in
      (s₁, s₂, served.j, accepts, served.queue, runs, held, queue)
