-- ===== src/Server/Examples.antt =====
-- Connections that come and go, and the theorems of server.c applied to them.
use robot_server.Common.{ℕ, ◌≡◌, refl, true, false, none, some, List, [], ◌∷◌, ltb}
use robot_server.Common.Int.{pos, negsuc}
use robot_server.Common.Outcome.{ok, fault}
use robot_server.WorkQueue.{ll_add}
use robot_server.Protocol.Examples.{host, world}
use robot_server.Server.{
  Calls, on_write, on_error, Server, setnonblock, add_nonblock, on_accept, server_job_function,
  set_client_nonblock, new_client, new_buffer, new_base, new_block, new_event, queue_job,
  close_client, close_and_free_client, client_of, release_fd, release_pointer, release, finish_job,
  ServerEvent, accepts, closes, ends, server_event, server_events,
}
use robot_server.Server.Accept.{on_accept_lem}
use robot_server.Server.Acquire.{IsNew, all_succeed, Ends}
use robot_server.Server.Interleaved.{IsSchedule, IsSchedule-cons, server_events_lem}
use robot_server.Server.Serve.{on_accept-server_job_function}

-- Descriptors and addresses below 10 are in use.
abbrev server : Server
server = record {
  held = record {
    sockets = λ a. ltb a 10;
    clients = λ a. ltb a 10;
    buffers = λ a. ltb a 10;
    bases = λ a. ltb a 10;
    blocks = λ a. ltb a 10;
    events = λ a. ltb a 10;
    jobs = λ a. ltb a 10;
  };
  client_at = λ a. record {
    fd = negsuc 0;
    evbase = none;
    buf_ev = none;
    output_buffer = none;
    p_block = none;
  };
  user_data = λ a. a;
  queue = record { prev = λ a. none; next = λ a. none; list = none };
}

abbrev calls : Calls
calls = record {
  accept = pos 10;
  fcntl_getfl = pos 2;
  fcntl_setfl = λ flags. pos 0;
  malloc_client = some 11;
  evbuffer_new = some 12;
  event_base_new = some 13;
  malloc_block = some 14;
  bufferevent_new = some 15;
  malloc_job = some 16;
}

calls-IsNew : IsNew calls server.held
calls-IsNew = record {
  accept = refl;
  client = refl;
  buffer = refl;
  base = refl;
  block = refl;
  event = refl;
  job = refl;
}

on_accept_lem_example : Ends (all_succeed calls) server.held server.queue (on_accept calls server)
on_accept_lem_example = on_accept_lem calls server calls-IsNew

all_succeed-calls : all_succeed calls ≡ true
unfolding setnonblock add_nonblock
all_succeed-calls = refl

-- Two errors, each of which closes the client.
on_accept-server_job_function_example :
    (s₁ : Server) × (s₂ : Server) × (j : ℕ) × (on_accept calls server ≡ ok s₁)
    × (s₁.queue ≡ ll_add j server.queue)
    × (server_job_function host j
          (on_error ∷ on_write ∷ on_error ∷ [])
          (record { input = []; world = world; server = s₁ })
        ≡ ok (record { input = []; world = world; server = s₂ }))
    × (s₂.held ≡ server.held)
    × (s₂.queue ≡ s₁.queue)
on_accept-server_job_function_example =
    on_accept-server_job_function host calls server (on_error ∷ on_write ∷ on_error ∷ []) world
      world [] calls-IsNew all_succeed-calls refl

-- Two clients on a server that holds nothing.
abbrev quiet : Server
quiet = record server {
  held = record {
    sockets = λ a. false;
    clients = λ a. false;
    buffers = λ a. false;
    bases = λ a. false;
    blocks = λ a. false;
    events = λ a. false;
    jobs = λ a. false;
  };
}

abbrev other_calls : Calls
other_calls = record {
  accept = pos 20;
  fcntl_getfl = pos 2;
  fcntl_setfl = λ flags. pos 0;
  malloc_client = some 21;
  evbuffer_new = some 22;
  event_base_new = some 23;
  malloc_block = some 24;
  bufferevent_new = some 25;
  malloc_job = some 26;
}

abbrev after : ServerEvent → Server → Server
after v s = elim (server_event v s) [ ok s' ↦ s' | fault ↦ s ]

abbrev two_clients : List ServerEvent
two_clients = accepts calls ∷ accepts other_calls ∷ closes 16 ∷ ends 16 ∷ ends 26 ∷ []

two_clients-IsSchedule : IsSchedule two_clients quiet
unfolding server_event on_accept set_client_nonblock setnonblock add_nonblock new_client new_buffer
    new_base new_block new_event queue_job close_client close_and_free_client client_of release_fd
    release_pointer release finish_job
two_clients-IsSchedule =
    let s₁ = after (accepts calls) quiet in
    let s₂ = after (accepts other_calls) s₁ in
    let s₃ = after (closes 16) s₂ in
    let s₄ = after (ends 16) s₃ in
    let s₅ = after (ends 26) s₄ in
    IsSchedule-cons (accepts calls) (accepts other_calls ∷ closes 16 ∷ ends 16 ∷ ends 26 ∷ []) quiet
      s₁ refl
      (record {
        accept = refl;
        client = refl;
        buffer = refl;
        base = refl;
        block = refl;
        event = refl;
        job = refl;
      })
      (IsSchedule-cons (accepts other_calls) (closes 16 ∷ ends 16 ∷ ends 26 ∷ []) s₁ s₂ refl
        (record {
          accept = refl;
          client = refl;
          buffer = refl;
          base = refl;
          block = refl;
          event = refl;
          job = refl;
        })
        (IsSchedule-cons (closes 16) (ends 16 ∷ ends 26 ∷ []) s₂ s₃ refl refl (
          IsSchedule-cons (ends 16) (ends 26 ∷ []) s₃ s₄ refl refl
            (IsSchedule-cons (ends 26) [] s₄ s₅ refl refl tt))))

server_events_lem_example :
    (s' : Server) × (server_events two_clients quiet ≡ ok s')
    × (((j : ℕ) → s'.held.jobs j ≡ false) → s'.held ≡ quiet.held)
server_events_lem_example = server_events_lem two_clients quiet (λ j. refl) two_clients-IsSchedule
