-- ===== src/Server/Several.antt =====
-- The state of server.c with several clients, and what becomes of it where one of them is closed or ends.
use robot_server.Common.{
  ℕ, ◌≡◌, refl, sym, ap, ◌∙◌, inl, inr, Bool, true, false, Option, none, some, List, [], ◌∷◌, All,
  All-imp, ◌==◌, Bool-cases, ==_iff, arith,
}
use mathlib.Core.Path.{subst}
use robot_server.Common.Outcome.{Outcome, ok, OnOk-inv}
use robot_server.Server.{
  Resources, Server, own, close_client, finish_job, closes, ends, server_event,
}
use robot_server.Server.Release.{
  IsUnused, IsHeld, closed, release-own, close_client_lem, close_and_free_client_lem,
}
use robot_server.Server.Sessions.{
  Session, hold_job, hold_all, IsFresh, AllFresh, hold_job_comm, IsFresh-swap,
}
use robot_server.Server.Untouched.{
  IsSame, IsOther, Untouched, close_client-Untouched, finish_job-Untouched,
}

-- The memory of a session holds its client.
abbrev pub IsThere : Server → Session → Type 0
IsThere s x = (s.client_at x.c ≡ x.k) × (s.user_data x.j ≡ x.c)

-- The clients `xs` hold their resources beside `base`, and nothing else is open or allocated.
pub record IsRunning (base : Resources) (xs : List Session) (s : Server) : Type 0 where
  pub held : s.held ≡ hold_all base xs
  pub fresh : AllFresh base xs
  pub there : All (IsThere s) xs

other_address : (y c : ℕ) (f : ℕ → Bool) → own y f c ≡ false → ((c == y) ≡ false) × (f c ≡ false)
other_address y c f h = ground arith

module _ (base : Resources) where
  other_clients :
      (c : ℕ) (xs : List Session)
      → (hold_all base xs).clients c ≡ false
      → All (λ y. (c == y.c) ≡ false) xs
  other_clients c [] h = tt
  other_clients c (y ∷ xs) h =
      let (ne, rest) = other_address y.c c (hold_all base xs).clients h in
      (ne, other_clients c xs rest)

  other_jobs :
      (j : ℕ) (xs : List Session)
      → (hold_all base xs).jobs j ≡ false
      → All (λ y. (j == y.j) ≡ false) xs
  other_jobs j [] h = tt
  other_jobs j (y ∷ xs) h =
      let (ne, rest) = other_address y.j j (hold_all base xs).jobs h in (ne, other_jobs j xs rest)

  pub IsOther-clients :
      (o : Option ℕ) (xs : List Session)
      → IsUnused o (hold_all base xs).clients
      → All (λ y. IsOther o y.c) xs
  IsOther-clients none [] u = tt
  IsOther-clients none (y ∷ xs) u = (tt, IsOther-clients none xs tt)
  IsOther-clients (some c) xs u = other_clients c xs u

  pub IsOther-jobs :
      (o : Option ℕ) (xs : List Session)
      → IsUnused o (hold_all base xs).jobs
      → All (λ y. IsOther o y.j) xs
  IsOther-jobs none [] u = tt
  IsOther-jobs none (y ∷ xs) u = (tt, IsOther-jobs none xs tt)
  IsOther-jobs (some j) xs u = other_jobs j xs u

-- What is as it was is there.
pub keep-IsThere :
    (s s' : Server) (xs : List Session)
    → All (λ y. IsSame y.c y.j s s') xs
    → All (IsThere s) xs
    → All (IsThere s') xs
keep-IsThere s s' [] same there = tt
keep-IsThere s s' (y ∷ xs) (same, rest) ((content, job), there) =
    ((same.client_at ∙ content, same.user_data ∙ job), keep-IsThere s s' xs rest there)

pub All-both :
    {P Q R : Session → Type 0} (xs : List Session)
    → ((y : Session) → P y → Q y → R y)
    → All P xs
    → All Q xs
    → All R xs
All-both [] f p q = tt
All-both (y ∷ xs) f (p, ps) (q, qs) = (f y p q, All-both xs f ps qs)

-- The session of a job `j`, brought to the front of the others.
pub record IsFront (base : Resources) (s : Server) (j : ℕ) (ys : List Session) : Type 0 where
  pub x : Session
  pub xs : List Session
  pub job : x.j ≡ j
  pub same : hold_all base ys ≡ hold_all base (x ∷ xs)
  pub fresh : AllFresh base (x ∷ xs)
  pub there : All (IsThere s) (x ∷ xs)

module _ (base : Resources) (s : Server) where
  IsFront-cons :
      (j : ℕ) (y : Session) (ys : List Session)
      → IsFresh y (hold_all base ys)
      → IsThere s y
      → IsFront base s j ys
      → IsFront base s j (y ∷ ys)
  IsFront-cons j y ys fresh there f =
      let r = hold_all base f.xs in
      let (fresh_y, front) = IsFresh-swap y f.x r (subst (IsFresh y) f.same fresh) f.fresh.0 in
      record {
        x = f.x;
        xs = y ∷ f.xs;
        job = f.job;
        same = ap (hold_job y) f.same ∙ hold_job_comm y f.x r;
        fresh = (front, (fresh_y, f.fresh.1));
        there = (f.there.0, (there, f.there.1));
      }

  -- A job whose memory is allocated is that of a session.
  pub find_session :
      (j : ℕ) (ys : List Session)
      → base.jobs j ≡ false
      → (hold_all base ys).jobs j ≡ true
      → AllFresh base ys
      → All (IsThere s) ys
      → IsFront base s j ys
  find_session j [] unused live fresh there =
      absurd (let e : true ≡ false = sym live ∙ unused in cc)
  find_session j (y ∷ ys) unused live (fresh_y, fresh) (there_y, there) =
      elim (Bool-cases (y.j == j)) [
        | inl e ↦ record {
          x = y;
          xs = ys;
          job = (==_iff y.j j).0 e;
          same = refl;
          fresh = (fresh_y, fresh);
          there = (there_y, there);
        }
        | inr e ↦
            let live_behind : (hold_all base ys).jobs j ≡ true = rw e at live in
            IsFront-cons j y ys fresh_y there_y (find_session j ys unused live_behind fresh there)
      ]

  pub front-IsRunning :
      (j : ℕ) (ys : List Session)
      → IsRunning base ys s
      → (f : IsFront base s j ys) → IsRunning base (f.x ∷ f.xs) s
  front-IsRunning j ys i f = record { held = i.held ∙ f.same; fresh = f.fresh; there = f.there }

  module _ (x : Session) (xs : List Session) (i : IsRunning base (x ∷ xs) s) where
    abbrev pub others : Resources
    others = record (hold_all base xs) { jobs = own x.j (hold_all base xs).jobs }

    front-IsHeld : IsHeld x.c x.k others s
    front-IsHeld =
        let a = i.fresh.0.apart in
        record {
          apart = record {
            fd = a.fd;
            client = a.client;
            buffer = a.buffer;
            base = a.base;
            block = a.block;
            event = a.event;
          };
          content = i.there.0.0;
          resources = i.held;
        }

    -- What leaves the other clients alone leaves them there.
    others-IsThere :
        (s' : Server) (o : Outcome Server)
        → ((a j : ℕ) → (x.c == a) ≡ false → Untouched a j s o)
        → o ≡ ok s'
        → All (IsThere s') xs
    others-IsThere s' o same runs =
        keep-IsThere s s' xs
          (All-imp (λ y. (x.c == y.c) ≡ false) (λ y. IsSame y.c y.j s s') xs
            (λ y ne. OnOk-inv (same y.c y.j ne) runs)
            (other_clients base x.c xs i.fresh.0.apart.client))
          i.there.1

    -- The callbacks close the client of a job.
    pub closes_front :
        (s' : Server) × (server_event (closes x.j) s ≡ ok s')
        × IsRunning base (record x { k = closed x.k } ∷ xs) s'
    unfolding server_event
    closes_front =
        let (s', runs, held, jobs, data_same, queue) = close_client_lem front-IsHeld in
        let a = held.apart in
        (
          s',
          rw i.there.0.1 runs,
          record {
            held = held.resources;
            fresh = (
              record {
                apart = record {
                  fd = a.fd;
                  client = a.client;
                  buffer = a.buffer;
                  base = a.base;
                  block = a.block;
                  event = a.event;
                };
                unused = i.fresh.0.unused;
              },
              i.fresh.1,
            );
            there = (
              (held.content, ap (λ f. f x.j) data_same ∙ i.there.0.1),
              others-IsThere s' (close_client (some x.c) s)
                  (λ a j ne. close_client-Untouched a j x.c ne s) runs,
            );
          },
        )

    -- The event loop of a client ends.
    pub ends_front : (s' : Server) × (server_event (ends x.j) s ≡ ok s') × IsRunning base xs s'
    unfolding server_event finish_job
    ends_front =
        let (t, frees, freed, data_same, queue) = close_and_free_client_lem front-IsHeld in
        let s' = record t { held = hold_all base xs } in
        let runs : finish_job x.c x.j s ≡ ok s' =
          rw (frees, freed, release-own (hold_all base xs).jobs x.j i.fresh.0.unused) refl in
        (
          s',
          rw i.there.0.1 runs,
          record {
            held = refl;
            fresh = i.fresh.1;
            there =
                others-IsThere s' (finish_job x.c x.j s)
                  (λ a j ne. finish_job-Untouched a j x.c ne x.j s) runs;
          },
        )
