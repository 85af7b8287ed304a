-- ===== src/Server/Acquire.antt =====
-- The steps of `on_accept` of server.c that acquire what a client holds.
use robot_server.Common.{ℕ, ◌≡◌, refl, ◌∙◌, ap, Bool, true, false, ◌&&◌, Option, none, some}
use robot_server.Common.Int.{ℤ, pos, negsuc}
use robot_server.Common.Outcome.{Outcome, ok}
use robot_server.WorkQueue.{Links, ll_add, update}
use robot_server.Server.{
  ClientT, Resources, Server, Calls, own, close_and_free_client, setnonblock, queue_job, new_event,
  new_block, new_base, new_buffer,
}
use robot_server.Server.Release.{
  IsUnused, IsUnusedFd, IsApart, IsHeld, hold, update_same, close_and_free_client_lem,
}

-- Everything is given back, and the queue is as it was.
pub record IsRefused (r : Resources) (q : Links) (s : Server) : Type 0 where
  pub held : s.held ≡ r
  pub queue : s.queue ≡ q

-- A job for the client `k` at `c` is queued, and holds its resources and its own memory beside `r`.
pub record IsServed (r : Resources) (q : Links) (s : Server) : Type 0 where
  pub c : ℕ
  pub j : ℕ
  pub k : ClientT
  pub apart : IsApart c k r
  pub unused : r.jobs j ≡ false
  pub content : s.client_at c ≡ k
  pub held : s.held ≡ record (hold c k r) { jobs = own j r.jobs }
  pub user_data : s.user_data j ≡ c
  pub queue : s.queue ≡ ll_add j q

abbrev pub Ends : Bool → Resources → Links → Outcome Server → Type 0
Ends true r q x = (s : Server) × (x ≡ ok s) × IsServed r q s
Ends false r q x = (s : Server) × (x ≡ ok s) × IsRefused r q s

abbrev pub is_some : Option ℕ → Bool
is_some none = false
is_some (some a) = true

abbrev pub is_pos : ℤ → Bool
is_pos (pos n) = true
is_pos (negsuc n) = false

-- The calls that are left at each step succeed.
abbrev from_event : Calls → Bool
from_event e = is_some e.bufferevent_new && is_some e.malloc_job

abbrev from_block : Calls → Bool
from_block e = is_some e.malloc_block && from_event e

abbrev from_base : Calls → Bool
from_base e = is_some e.event_base_new && from_block e

abbrev pub from_buffer : Calls → Bool
from_buffer e = is_some e.evbuffer_new && from_base e

-- Every call of `on_accept` succeeds.
abbrev pub all_succeed : Calls → Bool
all_succeed e =
    is_pos e.accept && (is_pos (setnonblock e) && (is_some e.malloc_client && from_buffer e))

-- The descriptors and addresses that the calls give are not in use.
pub record IsNew (e : Calls) (r : Resources) : Type 0 where
  pub accept : IsUnusedFd e.accept r.sockets
  pub client : IsUnused e.malloc_client r.clients
  pub buffer : IsUnused e.evbuffer_new r.buffers
  pub base : IsUnused e.event_base_new r.bases
  pub block : IsUnused e.malloc_block r.blocks
  pub event : IsUnused e.bufferevent_new r.events
  pub job : IsUnused e.malloc_job r.jobs

-- A client at `c` that comes to hold one more resource.
module _ {c : ℕ} {k : ClientT} {r : Resources} {s : Server} (i : IsHeld c k r s) where
  with_buffer :
      (v : ℕ)
      → r.buffers v ≡ false
      → k.output_buffer ≡ none
      → IsHeld c
          (record k { output_buffer = some v })
          r
          (record s {
            held = record s.held { buffers = own v s.held.buffers };
            client_at = update s.client_at c (record (s.client_at c) { output_buffer = some v });
          })
  with_buffer v u blank = record {
    apart = record {
      fd = i.apart.fd;
      client = i.apart.client;
      buffer = u;
      base = i.apart.base;
      block = i.apart.block;
      event = i.apart.event;
    };
    content =
        update_same s.client_at c _
        ∙ ap {A = ClientT} (λ k. record k { output_buffer = some v }) i.content;
    resources = rw (i.resources, blank) refl;
  }

  with_base :
      (v : ℕ)
      → r.bases v ≡ false
      → k.evbase ≡ none
      → IsHeld c
          (record k { evbase = some v })
          r
          (record s {
            held = record s.held { bases = own v s.held.bases };
            client_at = update s.client_at c (record (s.client_at c) { evbase = some v });
          })
  with_base v u blank = record {
    apart = record {
      fd = i.apart.fd;
      client = i.apart.client;
      buffer = i.apart.buffer;
      base = u;
      block = i.apart.block;
      event = i.apart.event;
    };
    content =
        update_same s.client_at c _
        ∙ ap {A = ClientT} (λ k. record k { evbase = some v }) i.content;
    resources = rw (i.resources, blank) refl;
  }

  with_block :
      (v : ℕ)
      → r.blocks v ≡ false
      → k.p_block ≡ none
      → IsHeld c
          (record k { p_block = some v })
          r
          (record s {
            held = record s.held { blocks = own v s.held.blocks };
            client_at = update s.client_at c (record (s.client_at c) { p_block = some v });
          })
  with_block v u blank = record {
    apart = record {
      fd = i.apart.fd;
      client = i.apart.client;
      buffer = i.apart.buffer;
      base = i.apart.base;
      block = u;
      event = i.apart.event;
    };
    content =
        update_same s.client_at c _
        ∙ ap {A = ClientT} (λ k. record k { p_block = some v }) i.content;
    resources = rw (i.resources, blank) refl;
  }

  with_event :
      (v : ℕ)
      → r.events v ≡ false
      → k.buf_ev ≡ none
      → IsHeld c
          (record k { buf_ev = some v })
          r
          (record s {
            held = record s.held { events = own v s.held.events };
            client_at = update s.client_at c (record (s.client_at c) { buf_ev = some v });
          })
  with_event v u blank = record {
    apart = record {
      fd = i.apart.fd;
      client = i.apart.client;
      buffer = i.apart.buffer;
      base = i.apart.base;
      block = i.apart.block;
      event = u;
    };
    content =
        update_same s.client_at c _
        ∙ ap {A = ClientT} (λ k. record k { buf_ev = some v }) i.content;
    resources = rw (i.resources, blank) refl;
  }

module _ {c : ℕ} {k : ClientT} {r : Resources} {s : Server} (i : IsHeld c k r s) where
  free_client_lem : Ends false r s.queue (close_and_free_client (some c) s)
  free_client_lem =
      let (s', runs, held, data_same, queue) = close_and_free_client_lem i in
      (s', runs, record { held = held; queue = queue })

  queue_job_lem :
      (e : Calls) (o : Option ℕ)
      → e.malloc_job ≡ o
      → IsUnused o r.jobs
      → Ends (is_some o) r s.queue (queue_job e c s)
  unfolding queue_job
  queue_job_lem e none eq u = rw eq free_client_lem
  queue_job_lem e (some j) eq u = rw eq (
    _,
    refl,
    record {
      c = c;
      j = j;
      k = k;
      apart = i.apart;
      unused = u;
      content = i.content;
      held = rw i.resources refl;
      user_data = update_same s.user_data j c;
      queue = refl;
    },
  )

module _ {c : ℕ} {k : ClientT} {r : Resources} {s : Server} (i : IsHeld c k r s) where
  new_event_lem :
      (e : Calls) (o : Option ℕ)
      → e.bufferevent_new ≡ o
      → IsUnused o r.events
      → IsNew e r
      → k.buf_ev ≡ none
      → Ends (is_some o && is_some e.malloc_job) r s.queue (new_event e c s)
  unfolding new_event queue_job
  new_event_lem e none eq u n b_buf_ev = rw eq (free_client_lem i)
  new_event_lem e (some v) eq u n b_buf_ev =
      rw eq (queue_job_lem (with_event i v u b_buf_ev) e e.malloc_job refl n.job)

module _ {c : ℕ} {k : ClientT} {r : Resources} {s : Server} (i : IsHeld c k r s) where
  new_block_lem :
      (e : Calls) (o : Option ℕ)
      → e.malloc_block ≡ o
      → IsUnused o r.blocks
      → IsNew e r
      → k.p_block ≡ none
      → k.buf_ev ≡ none
      → Ends (is_some o && from_event e) r s.queue (new_block e c s)
  unfolding new_block new_event queue_job
  new_block_lem e none eq u n b_p_block b_buf_ev = rw eq (free_client_lem i)
  new_block_lem e (some v) eq u n b_p_block b_buf_ev =
      rw eq (new_event_lem (with_block i v u b_p_block) e e.bufferevent_new refl n.event n b_buf_ev)

module _ {c : ℕ} {k : ClientT} {r : Resources} {s : Server} (i : IsHeld c k r s) where
  new_base_lem :
      (e : Calls) (o : Option ℕ)
      → e.event_base_new ≡ o
      → IsUnused o r.bases
      → IsNew e r
      → k.evbase ≡ none
      → k.p_block ≡ none
      → k.buf_ev ≡ none
      → Ends (is_some o && from_block e) r s.queue (new_base e c s)
  unfolding new_base new_block new_event queue_job
  new_base_lem e none eq u n b_evbase b_p_block b_buf_ev = rw eq (free_client_lem i)
  new_base_lem e (some v) eq u n b_evbase b_p_block b_buf_ev =
      rw eq (
        new_block_lem (with_base i v u b_evbase) e e.malloc_block refl n.block n b_p_block b_buf_ev)

module _ {c : ℕ} {k : ClientT} {r : Resources} {s : Server} (i : IsHeld c k r s) where
  pub new_buffer_lem :
      (e : Calls) (o : Option ℕ)
      → e.evbuffer_new ≡ o
      → IsUnused o r.buffers
      → IsNew e r
      → k.output_buffer ≡ none
      → k.evbase ≡ none
      → k.p_block ≡ none
      → k.buf_ev ≡ none
      → Ends (is_some o && from_base e) r s.queue (new_buffer e c s)
  unfolding new_buffer new_base new_block new_event queue_job
  new_buffer_lem e none eq u n b_output_buffer b_evbase b_p_block b_buf_ev =
      rw eq (free_client_lem i)
  new_buffer_lem e (some v) eq u n b_output_buffer b_evbase b_p_block b_buf_ev = rw eq (
      new_base_lem (with_buffer i v u b_output_buffer) e e.event_base_new refl n.base n b_evbase
        b_p_block b_buf_ev)
