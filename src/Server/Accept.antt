-- ===== src/Server/Accept.antt =====
-- `on_accept` of server.c, whichever of its calls fails.
use robot_server.Common.{ℕ, ◌≡◌, refl, false, ◌&&◌, Option, none, some}
use robot_server.Common.Int.{ℤ, pos, negsuc}
use robot_server.WorkQueue.{update}
use robot_server.Server.{
  ClientT, Server, Calls, own, setnonblock, queue_job, new_event, new_block, new_base, new_buffer,
  close_socket, new_client, set_client_nonblock, on_accept,
}
use robot_server.Server.Release.{IsUnused, IsUnusedFd, IsHeld, update_same, release-own}
use robot_server.Server.Acquire.{
  Ends, is_some, is_pos, from_buffer, all_succeed, IsNew, new_buffer_lem,
}

-- The new client, zeroed but for its descriptor.
abbrev pub blank_client : ℕ → ClientT
blank_client n = record {
  fd = pos n;
  evbase = none;
  buf_ev = none;
  output_buffer = none;
  p_block = none;
}

module _ {e : Calls} (s : Server) (new : IsNew e s.held) (n : ℕ)
    (at : s.held.sockets n ≡ false) where
  abbrev accepted : Server
  accepted = record s { held = record s.held { sockets = own n s.held.sockets } }

  close_socket_lem : Ends false s.held s.queue (close_socket n accepted)
  unfolding close_socket
  close_socket_lem =
      rw (release-own s.held.sockets n at) (_, refl, record { held = refl; queue = refl })

  blank-IsHeld :
      (c : ℕ)
      → s.held.clients c ≡ false
      → IsHeld c (blank_client n) s.held (record accepted {
        held = record accepted.held { clients = own c s.held.clients };
        client_at = update s.client_at c (blank_client n);
      })
  blank-IsHeld c u = record {
    apart = record { fd = at; client = u; buffer = tt; base = tt; block = tt; event = tt };
    content = update_same s.client_at c (blank_client n);
    resources = refl;
  }

  new_client_lem :
      (o : Option ℕ)
      → e.malloc_client ≡ o
      → IsUnused o s.held.clients
      → Ends (is_some o && from_buffer e) s.held s.queue (new_client e n accepted)
  unfolding new_client new_buffer new_base new_block new_event queue_job
  new_client_lem none eq u = rw eq close_socket_lem
  new_client_lem (some c) eq u =
      rw eq
        (new_buffer_lem (blank-IsHeld c u) e e.evbuffer_new refl new.buffer new refl refl refl refl)

  set_client_nonblock_lem :
      (d : ℤ)
      → setnonblock e ≡ d
      → Ends
          (is_pos d && (is_some e.malloc_client && from_buffer e))
          s.held
          s.queue
          (set_client_nonblock e n accepted)
  unfolding set_client_nonblock
  set_client_nonblock_lem (negsuc m) eq = rw (eq, set_client_nonblock) close_socket_lem
  set_client_nonblock_lem (pos m) eq =
      rw (eq, set_client_nonblock) (new_client_lem e.malloc_client refl new.client)

module _ (e : Calls) (s : Server) (new : IsNew e s.held) where
  from_accept :
      (d : ℤ)
      → e.accept ≡ d
      → IsUnusedFd d s.held.sockets
      → Ends
          (is_pos d && (is_pos (setnonblock e) && (is_some e.malloc_client && from_buffer e)))
          s.held
          s.queue
          (on_accept e s)
  unfolding on_accept set_client_nonblock setnonblock new_client new_buffer new_base new_block
      new_event queue_job
  from_accept (negsuc m) eq u = rw eq (_, refl, record { held = refl; queue = refl })
  from_accept (pos n) eq u = rw eq (set_client_nonblock_lem s new n u (setnonblock e) refl)

  -- A connection is accepted or refused, never in between: where every call of on_accept succeeds, a
  -- job for a client that holds its resources is put on the work queue; whichever call fails, everything
  -- that was opened or allocated is given back and the queue is as it was. The descriptors and
  -- addresses that the calls give are not in use.
  pub on_accept_lem : Ends (all_succeed e) s.held s.queue (on_accept e s)
  on_accept_lem = from_accept e.accept refl new.accept
