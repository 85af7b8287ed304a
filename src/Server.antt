-- ===== src/Server.antt =====
-- server.c: the life of a connection. What libevent, the sockets and `malloc` answer is an argument;
-- what is open or allocated is written down kind by kind, so that a second `close` or `free` is a
-- fault, as is the use of a client that was freed.
pub mod Release
pub mod Accept
pub mod Serve
pub mod Start
pub mod Run
pub mod Acquire
pub mod Several
pub mod Sessions
pub mod Untouched
pub mod Interleaved
mod Examples
use robot_server.Common.{
  ℕ, ◌+◌, ◌/◌, ◌%◌, Bool, true, false, ◌||◌, Option, none, some, List, [], ◌∷◌, ◌++◌, ◌==◌,
  if◌then◌else◌,
}
use robot_server.Common.Int.{ℤ, pos, negsuc}
use robot_server.Common.Outcome.{Outcome, ok, fault, ◌>>=◌}
use robot_server.WorkQueue.{Links, ll_add, update, Workqueue, set_terminate}
use robot_server.Host.{Host, World}
use robot_server.Protocol.Parse.{apollo_parse_packet}

-- `client_t`, with its pointers; the null pointer is none.
pub record ClientT : Type 0 where
  pub fd : ℤ
  pub evbase : Option ℕ
  pub buf_ev : Option ℕ
  pub output_buffer : Option ℕ
  pub p_block : Option ℕ

-- What is open or allocated.
pub record Resources : Type 0 where
  pub sockets : ℕ → Bool
  pub clients : ℕ → Bool
  pub buffers : ℕ → Bool
  pub bases : ℕ → Bool
  pub blocks : ℕ → Bool
  pub events : ℕ → Bool
  pub jobs : ℕ → Bool

-- The resources, the contents of the clients and of the jobs (`user_data`), and the work queue.
pub record Server : Type 0 where
  pub held : Resources
  pub client_at : ℕ → ClientT
  pub user_data : ℕ → ℕ
  pub queue : Links

-- `close` and the functions that free.
unfoldable pub release : ℕ → (ℕ → Bool) → Outcome (ℕ → Bool)
release a live = if live a then ok (update live a false) else fault

-- `if (p != NULL) free(p)`
unfoldable pub release_pointer : Option ℕ → (ℕ → Bool) → Outcome (ℕ → Bool)
release_pointer none live = ok live
release_pointer (some a) live = release a live

-- `if (fd >= 0) close(fd)`
unfoldable pub release_fd : ℤ → (ℕ → Bool) → Outcome (ℕ → Bool)
release_fd (negsuc n) live = ok live
release_fd (pos n) live = release n live

-- `*client`
unfoldable pub client_of : ℕ → Server → Outcome ClientT
client_of c s = if s.held.clients c then ok (s.client_at c) else fault

-- The descriptor of a client behind `closeClient`.
abbrev pub closed_fd : ℤ → ℤ
closed_fd (pos n) = negsuc 0
closed_fd (negsuc n) = negsuc n

unfoldable pub close_client : Option ℕ → Server → Outcome Server
close_client none s = ok s
close_client (some c) s = do
  client ← client_of c s
  sockets ← release_fd client.fd s.held.sockets
  ok (record s {
    held = record s.held { sockets = sockets };
    client_at = update s.client_at c (record client { fd = closed_fd client.fd });
  })

unfoldable pub close_and_free_client : Option ℕ → Server → Outcome Server
close_and_free_client none s = ok s
close_and_free_client (some c) s = do
  s' ← close_client (some c) s
  client ← client_of c s'
  events ← release_pointer client.buf_ev s'.held.events
  bases ← release_pointer client.evbase s'.held.bases
  buffers ← release_pointer client.output_buffer s'.held.buffers
  blocks ← release_pointer client.p_block s'.held.blocks
  clients ← release c s'.held.clients
  ok (record s' {
    held = record s'.held {
      events = events;
      bases = bases;
      buffers = buffers;
      blocks = blocks;
      clients = clients;
    };
    client_at =
        update s'.client_at c
          (record client { buf_ev = none; evbase = none; output_buffer = none; p_block = none });
  })

abbrev pub is_neg : ℤ → Bool
is_neg (pos n) = false
is_neg (negsuc n) = true

-- What the calls of `on_accept` answer; none is the null pointer.
pub record Calls : Type 0 where
  pub accept : ℤ
  pub fcntl_getfl : ℤ
  pub fcntl_setfl : ℕ → ℤ
  pub malloc_client : Option ℕ
  pub evbuffer_new : Option ℕ
  pub event_base_new : Option ℕ
  pub malloc_block : Option ℕ
  pub bufferevent_new : Option ℕ
  pub malloc_job : Option ℕ

abbrev pub o_nonblock : ℕ
o_nonblock = 2048

unfoldable pub add_nonblock : (ℕ → ℤ) → ℤ → ℤ
add_nonblock setfl (negsuc n) = negsuc n
add_nonblock setfl (pos flags) =
    elim (setfl (if flags / o_nonblock % 2 == 1 then flags else flags + o_nonblock)) [
      | pos n ↦ pos 0
      | negsuc n ↦ negsuc 0
    ]

unfoldable pub setnonblock : Calls → ℤ
setnonblock e = add_nonblock e.fcntl_setfl e.fcntl_getfl

abbrev pub own : ℕ → (ℕ → Bool) → ℕ → Bool
own a live = update live a true

-- The rest of `on_accept`, from its last step backwards, for the client at `c`.
unfoldable pub queue_job : Calls → ℕ → Server → Outcome Server
queue_job e c s = elim e.malloc_job [
  | none ↦ close_and_free_client (some c) s
  | some j ↦ ok (record s {
    held = record s.held { jobs = own j s.held.jobs };
    user_data = update s.user_data j c;
    queue = ll_add j s.queue;
  })
]

unfoldable pub new_event : Calls → ℕ → Server → Outcome Server
new_event e c s = elim e.bufferevent_new [
  | none ↦ close_and_free_client (some c) s
  | some v ↦ queue_job e c (record s {
    held = record s.held { events = own v s.held.events };
    client_at = update s.client_at c (record (s.client_at c) { buf_ev = some v });
  })
]

unfoldable pub new_block : Calls → ℕ → Server → Outcome Server
new_block e c s = elim e.malloc_block [
  | none ↦ close_and_free_client (some c) s
  | some v ↦ new_event e c (record s {
    held = record s.held { blocks = own v s.held.blocks };
    client_at = update s.client_at c (record (s.client_at c) { p_block = some v });
  })
]

unfoldable pub new_base : Calls → ℕ → Server → Outcome Server
new_base e c s = elim e.event_base_new [
  | none ↦ close_and_free_client (some c) s
  | some v ↦ new_block e c (record s {
    held = record s.held { bases = own v s.held.bases };
    client_at = update s.client_at c (record (s.client_at c) { evbase = some v });
  })
]

unfoldable pub new_buffer : Calls → ℕ → Server → Outcome Server
new_buffer e c s = elim e.evbuffer_new [
  | none ↦ close_and_free_client (some c) s
  | some v ↦ new_base e c (record s {
    held = record s.held { buffers = own v s.held.buffers };
    client_at = update s.client_at c (record (s.client_at c) { output_buffer = some v });
  })
]

-- `close(client_fd)`
unfoldable pub close_socket : ℕ → Server → Outcome Server
close_socket n s = do
  sockets ← release n s.held.sockets
  ok (record s { held = record s.held { sockets = sockets } })

unfoldable pub new_client : Calls → ℕ → Server → Outcome Server
new_client e n s = elim e.malloc_client [
  | none ↦ close_socket n s
  | some c ↦ new_buffer e c (record s {
    held = record s.held { clients = own c s.held.clients };
    client_at =
        update s.client_at c (record {
          fd = pos n;
          evbase = none;
          buf_ev = none;
          output_buffer = none;
          p_block = none;
        });
  })
]

unfoldable pub set_client_nonblock : Calls → ℕ → Server → Outcome Server
set_client_nonblock e n s = elim (setnonblock e) [
  | negsuc m ↦ close_socket n s
  | pos m ↦ new_client e n s
]

unfoldable pub on_accept : Calls → Server → Outcome Server
on_accept e s = elim e.accept [
  | negsuc m ↦ ok s
  | pos n ↦
      set_client_nonblock e n (record s { held = record s.held { sockets = own n s.held.sockets } })
]

-- The end of `server_job_function`.
unfoldable pub finish_job : (c j : ℕ) → Server → Outcome Server
finish_job c j s = do
  s' ← close_and_free_client (some c) s
  jobs ← release j s'.held.jobs
  ok (record s' { held = record s'.held { jobs = jobs } })

-- What the event loop of a client reports: bytes that arrived, an empty output buffer, an error.
pub data Event : Type 0 where
  on_read : List ℕ → Event
  on_write : Event
  on_error : Event

-- The input buffer of the connection, what the handlers work on, and the server.
pub record Running (h : Host) : Type 0 where
  pub input : List ℕ
  pub world : World h
  pub server : Server

module _ (h : Host) where
  -- `apolloParsePacket` closes the client where a write fails.
  unfoldable pub buffered_on_read : ℕ → List ℕ → Running h → Outcome (Running h)
  buffered_on_read c bytes r = do
    (rest, w) ← apollo_parse_packet h (r.input ++ bytes) r.world
    s ← if w.client.fd_open then ok r.server else close_client (some c) r.server
    ok (record { input = rest; world = w; server = s })

  unfoldable pub buffered_on_error : ℕ → Running h → Outcome (Running h)
  buffered_on_error c r = do s ← close_client (some c) r.server; ok (record r { server = s })

  unfoldable pub callback : ℕ → Event → Running h → Outcome (Running h)
  callback c (on_read bytes) r = buffered_on_read c bytes r
  callback c on_write r = ok r
  callback c on_error r = buffered_on_error c r

  unfoldable pub event_base_dispatch : ℕ → List Event → Running h → Outcome (Running h)
  event_base_dispatch c [] r = ok r
  event_base_dispatch c (v ∷ vs) r = do r' ← callback c v r; event_base_dispatch c vs r'

  unfoldable pub server_job_function : ℕ → List Event → Running h → Outcome (Running h)
  server_job_function j events r = do
    let c = r.server.user_data j
    r' ← event_base_dispatch c events r
    s ← finish_job c j r'.server
    ok (record r' { server = s })

-- What happens while the server runs: a connection comes, the connection of the job `j` is closed by
-- its callbacks, or its event loop ends.
pub data ServerEvent : Type 0 where
  accepts : Calls → ServerEvent
  closes : ℕ → ServerEvent
  ends : ℕ → ServerEvent

unfoldable pub server_event : ServerEvent → Server → Outcome Server
server_event (accepts e) s = on_accept e s
server_event (closes j) s = close_client (some (s.user_data j)) s
server_event (ends j) s = finish_job (s.user_data j) j s

unfoldable pub server_events : List ServerEvent → Server → Outcome Server
server_events [] s = ok s
server_events (v ∷ vs) s = do s' ← server_event v s; server_events vs s'
