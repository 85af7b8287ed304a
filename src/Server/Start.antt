-- ===== src/Server/Start.antt =====
-- `runServer` of server.c, where it fails before its loop.
use robot_server.Common.{
  ℕ, ◌≡◌, refl, Bool, true, false, not, ◌&&◌, ◌||◌, Option, none, some, List, if◌then◌else◌,
}
use robot_server.Common.Int.{ℤ, pos, negsuc}
use robot_server.Common.Outcome.{Outcome, ok}
use robot_server.Server.{Calls, Server, own, is_neg, add_nonblock, close_socket}
use robot_server.Server.Run.{
  exits, returns, StartCalls, RunEnd, close_listener, start_queue, run_server,
}
use robot_server.Server.Release.{IsUnusedFd, release-own}
use robot_server.Server.Acquire.{is_some, is_pos}

abbrev starts : StartCalls → Bool
starts e =
    is_pos e.socket
    && not (is_neg e.bind || is_neg e.listen || is_neg (add_nonblock e.fcntl_setfl e.fcntl_getfl))
    && is_some e.event_base_new
    && not e.workqueue_fails

-- How `runServer` ends where it does not come to its loop, from the server `s`.
data IsFailure (s : Server) : RunEnd → Server → Type 0 where
  on_exit : (s' : Server) → IsFailure s exits s'
  no_base : (s' : Server) → s'.held ≡ s.held → IsFailure s (returns 1 none) s'
  no_workers :
      (s' : Server) (base : ℕ)
      → s'.held ≡ record s.held { bases = own base s.held.bases }
      → s'.queue.list ≡ none
      → IsFailure s (returns 1 (some base)) s'

abbrev Fails : Server → Outcome (RunEnd × Server) → Type 0
Fails s x = (end : RunEnd) × (s' : Server) × (x ≡ ok (end, s')) × IsFailure s end s'

module _ (e : StartCalls) (es : List Calls) (s : Server) (n : ℕ)
    (unused : s.held.sockets n ≡ false) where
  abbrev listening : Server
  listening = record s { held = record s.held { sockets = own n s.held.sockets } }

  start_queue_lem :
      (o : Option ℕ) (b : Bool)
      → e.event_base_new ≡ o
      → e.workqueue_fails ≡ b
      → (is_some o && not b) ≡ false
      → Fails s (start_queue e n es listening)
  unfolding start_queue close_listener close_socket
  start_queue_lem none b eq fails bad =
      rw (eq, start_queue, release-own s.held.sockets n unused)
        (returns 1 none, s, refl, no_base s refl)
  start_queue_lem (some base) true eq fails bad =
      rw (eq, start_queue, fails, release-own s.held.sockets n unused)
        (
          returns 1 (some base),
          _,
          refl,
          no_workers
              (record s {
                held = record s.held { bases = own base s.held.bases };
                queue = record s.queue { list = none };
              })
              base refl refl,
        )
  start_queue_lem (some base) false eq fails bad = absurd cc

  listen_lem :
      (b : Bool)
      → (is_neg e.bind || is_neg e.listen || is_neg (add_nonblock e.fcntl_setfl e.fcntl_getfl)) ≡ b
      → (not b && is_some e.event_base_new && not e.workqueue_fails) ≡ false
      → Fails s (if b then ok (exits, listening) else start_queue e n es listening)
  listen_lem true eq bad = (exits, listening, refl, on_exit listening)
  listen_lem false eq bad = start_queue_lem e.event_base_new e.workqueue_fails refl refl bad

module _ (e : StartCalls) (es : List Calls) (s : Server) where
  socket_lem :
      (d : ℤ)
      → e.socket ≡ d
      → IsUnusedFd d s.held.sockets
      → (is_pos d
          && not (
              is_neg e.bind || is_neg e.listen || is_neg (add_nonblock e.fcntl_setfl e.fcntl_getfl))
          && is_some e.event_base_new
          && not e.workqueue_fails)
        ≡ false
      → Fails s (run_server e es s)
  unfolding run_server
  socket_lem (negsuc m) eq u bad = rw (eq, run_server) (exits, s, refl, on_exit s)
  socket_lem (pos n) eq u bad = rw (eq, run_server) (listen_lem e es s n u _ refl bad)

-- Where a call before its loop fails, runServer ends without a fault: it ends the process, for the
-- socket, its address, its backlog and its mode; it returns 1 and leaves nothing open, where there is
-- no event base; and it returns 1, with an empty queue, and leaves that base, where the workers do not
-- start. The descriptor that `socket` gives is not in use.
run_server_fails :
    (e : StartCalls) (es : List Calls) (s : Server)
    → IsUnusedFd e.socket s.held.sockets
    → starts e ≡ false
    → (end : RunEnd) × (s' : Server) × (run_server e es s ≡ ok (end, s')) × IsFailure s end s'
run_server_fails e es s unused bad = socket_lem e es s e.socket refl unused bad
