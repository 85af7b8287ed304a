-- ===== src/Server/Release.antt =====
-- What a client holds, and that `closeClient` and `closeAndFreeClient` give back exactly that.
use std.Path.{fun_ext}
use robot_server.Common.{
  ℕ, ◌≡◌, refl, sym, ◌∙◌, inl, inr, Bool, true, false, Option, none, some, ◌==◌, ==_iff, ==_refl,
  ap, Bool-cases,
}
use robot_server.Common.Int.{ℤ, pos, negsuc}
use robot_server.Common.Outcome.{ok}
use robot_server.WorkQueue.{update}
use robot_server.Server.{
  ClientT, Resources, Server, own, release, release_pointer, release_fd, client_of, closed_fd,
  close_client, close_and_free_client,
}

pub update_same {ℓ} : {A : Type ℓ} (f : ℕ → A) (a : ℕ) (v : A) → update f a v a ≡ v
update_same f a v = rw (==_refl a)

pub release-own : (f : ℕ → Bool) (a : ℕ) → f a ≡ false → release a (own a f) ≡ ok f
unfolding release
release-own f a unused =
    let back : update (own a f) a false ≡ f = fun_ext (λ j. elim (Bool-cases (a == j)) [
      | inl e ↦ rw e (sym unused ∙ ap f ((==_iff a j).0 e))
      | inr e ↦ rw e refl
    ]) in
    rw (update_same f a true) (ap ok back)

abbrev pub own_pointer : Option ℕ → (ℕ → Bool) → ℕ → Bool
own_pointer none f = f
own_pointer (some a) f = own a f

abbrev pub own_fd : ℤ → (ℕ → Bool) → ℕ → Bool
own_fd (negsuc n) f = f
own_fd (pos n) f = own n f

-- A pointer that is not in use.
abbrev pub IsUnused : Option ℕ → (ℕ → Bool) → Type 0
IsUnused none f = Unit
IsUnused (some a) f = f a ≡ false

abbrev pub IsUnusedFd : ℤ → (ℕ → Bool) → Type 0
IsUnusedFd (negsuc n) f = Unit
IsUnusedFd (pos n) f = f n ≡ false

release_pointer-own :
    (o : Option ℕ) (f : ℕ → Bool) → IsUnused o f → release_pointer o (own_pointer o f) ≡ ok f
unfolding release_pointer
release_pointer-own none f u = refl
release_pointer-own (some a) f u = release-own f a u

release_fd-own : (d : ℤ) (f : ℕ → Bool) → IsUnusedFd d f → release_fd d (own_fd d f) ≡ ok f
unfolding release_fd
release_fd-own (negsuc n) f u = refl
release_fd-own (pos n) f u = release-own f n u

-- The resources `r`, and those of the client `k` at `c`.
abbrev pub hold : ℕ → ClientT → Resources → Resources
hold c k r = record {
  sockets = own_fd k.fd r.sockets;
  clients = own c r.clients;
  buffers = own_pointer k.output_buffer r.buffers;
  bases = own_pointer k.evbase r.bases;
  blocks = own_pointer k.p_block r.blocks;
  events = own_pointer k.buf_ev r.events;
  jobs = r.jobs;
}

-- The client `k` at `c` and its resources are apart from `r`.
pub record IsApart (c : ℕ) (k : ClientT) (r : Resources) : Type 0 where
  pub fd : IsUnusedFd k.fd r.sockets
  pub client : r.clients c ≡ false
  pub buffer : IsUnused k.output_buffer r.buffers
  pub base : IsUnused k.evbase r.bases
  pub block : IsUnused k.p_block r.blocks
  pub event : IsUnused k.buf_ev r.events

-- The client at `c` is `k`, and holds its resources beside `r`.
pub record IsHeld (c : ℕ) (k : ClientT) (r : Resources) (s : Server) : Type 0 where
  pub apart : IsApart c k r
  pub content : s.client_at c ≡ k
  pub resources : s.held ≡ hold c k r

abbrev pub closed : ClientT → ClientT
closed k = record k { fd = closed_fd k.fd }

unused_closed : (d : ℤ) (f : ℕ → Bool) → IsUnusedFd (closed_fd d) f
unused_closed (pos n) f = tt
unused_closed (negsuc n) f = tt

own_closed : (d : ℤ) (f : ℕ → Bool) → f ≡ own_fd (closed_fd d) f
own_closed (pos n) f = refl
own_closed (negsuc n) f = refl

module _ {c : ℕ} {k : ClientT} {r : Resources} {s : Server} (i : IsHeld c k r s) where
  client_of-held : client_of c s ≡ ok k
  unfolding client_of
  client_of-held = rw (i.resources, update_same r.clients c true, i.content) refl

  after_close : Server
  after_close = record s {
    held = record (hold c k r) { sockets = r.sockets };
    client_at = update s.client_at c (closed k);
  }

  close_client-held : close_client (some c) s ≡ ok after_close
  unfolding close_client after_close
  close_client-held =
      rw (client_of-held, i.resources, release_fd-own k.fd r.sockets i.apart.fd) refl

  close_client-IsHeld : IsHeld c (closed k) r after_close
  unfolding after_close
  close_client-IsHeld = record {
    apart = record {
      fd = unused_closed k.fd r.sockets;
      client = i.apart.client;
      buffer = i.apart.buffer;
      base = i.apart.base;
      block = i.apart.block;
      event = i.apart.event;
    };
    content = update_same s.client_at c (closed k);
    resources = ap (λ f. record (hold c k r) { sockets = f }) (own_closed k.fd r.sockets);
  }

module _ {c : ℕ} {k : ClientT} {r : Resources} {s : Server} (i : IsHeld c k r s) where
  after_free : Server
  after_free = record (after_close i) {
    held = r;
    client_at =
        update (after_close i).client_at c (record (closed k) {
          buf_ev = none;
          evbase = none;
          output_buffer = none;
          p_block = none;
        });
  }

  close_and_free_client-held : close_and_free_client (some c) s ≡ ok after_free
  unfolding close_and_free_client after_free
  close_and_free_client-held =
      let j = close_client-IsHeld i in
      rw
        (
          close_client-held i,
          client_of-held j,
          j.resources,
          release_pointer-own k.buf_ev r.events i.apart.event,
          release_pointer-own k.evbase r.bases i.apart.base,
          release_pointer-own k.output_buffer r.buffers i.apart.buffer,
          release_pointer-own k.p_block r.blocks i.apart.block,
          release-own r.clients c i.apart.client,
        )
        (ap (λ f. ok (record after_free { held = record r { sockets = f } }))
          (sym (own_closed k.fd r.sockets)))

-- A client that is closed still holds the rest, and can be closed or freed again.
pub close_client_lem :
    {c : ℕ} {k : ClientT} {r : Resources} {s : Server}
    → IsHeld c k r s
    → (s' : Server) × (close_client (some c) s ≡ ok s')
      × IsHeld c (closed k) r s'
      × (s'.held.jobs ≡ s.held.jobs)
      × (s'.user_data ≡ s.user_data)
      × (s'.queue ≡ s.queue)
unfolding after_close
close_client_lem {k} {r} i = (
  after_close i,
  close_client-held i,
  close_client-IsHeld i,
  sym (ap (λ h. h.jobs) i.resources),
  refl,
  refl,
)

-- A client that is freed leaves the resources that were there without it.
pub close_and_free_client_lem :
    {c : ℕ} {k : ClientT} {r : Resources} {s : Server}
    → IsHeld c k r s
    → (s' : Server) × (close_and_free_client (some c) s ≡ ok s')
      × (s'.held ≡ r)
      × (s'.user_data ≡ s.user_data)
      × (s'.queue ≡ s.queue)
unfolding after_free after_close
close_and_free_client_lem i = (after_free i, close_and_free_client-held i, refl, refl, refl)
