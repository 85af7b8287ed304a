-- ===== src/Server/Run.antt =====
-- `runServer` and `killServer` of server.c.
use robot_server.Common.{ℕ, Bool, ◌||◌, Option, none, some, List, [], ◌∷◌, if◌then◌else◌}
use robot_server.Common.Int.{ℤ, pos, negsuc}
use robot_server.Common.Outcome.{Outcome, ok, ◌>>=◌}
use robot_server.WorkQueue.{Workqueue, set_terminate}
use robot_server.Server.{Server, release, is_neg, Calls, add_nonblock, own, close_socket, on_accept}

-- What the calls of `runServer` answer; `workqueue_fails` is the result of `workqueue_init`.
pub record StartCalls : Type 0 where
  pub socket : ℤ
  pub bind : ℤ
  pub listen : ℤ
  pub fcntl_getfl : ℤ
  pub fcntl_setfl : ℕ → ℤ
  pub event_base_new : Option ℕ
  pub workqueue_fails : Bool

-- How `runServer` ends: by `err(1, ...)`, which ends the process, or with a result and
-- `evbase_accept`.
pub data RunEnd : Type 0 where
  exits : RunEnd
  returns : ℕ → Option ℕ → RunEnd

-- `event_base_dispatch(evbase_accept)`: one round for each connection that comes.
unfoldable pub accept_loop : List Calls → Server → Outcome Server
accept_loop [] s = ok s
accept_loop (e ∷ es) s = do s' ← on_accept e s; accept_loop es s'

unfoldable pub close_listener : ℕ → RunEnd → Server → Outcome (RunEnd × Server)
close_listener n end s = do s' ← close_socket n s; ok (end, s')

-- The rest of `runServer`, from its last step backwards, with the listening socket `n`; where the
-- workers do not start, `workqueue_shutdown` empties the queue.
unfoldable pub run_loop : ℕ → ℕ → List Calls → Server → Outcome (RunEnd × Server)
run_loop n base es s = do
  s₁ ← accept_loop es s
  bases ← release base s₁.held.bases
  close_listener n (returns 0 none) (record s₁ { held = record s₁.held { bases = bases } })

unfoldable pub start_queue : StartCalls → ℕ → List Calls → Server → Outcome (RunEnd × Server)
start_queue e n es s = elim e.event_base_new [
  | none ↦ close_listener n (returns 1 none) s
  | some base ↦
      let s' = record s { held = record s.held { bases = own base s.held.bases } } in
      if e.workqueue_fails
      then close_listener n (returns 1 (some base))
          (record s' { queue = record s'.queue { list = none } })
      else run_loop n base es s'
]

unfoldable pub run_server : StartCalls → List Calls → Server → Outcome (RunEnd × Server)
run_server e es s = elim e.socket [
  | negsuc m ↦ ok (exits, s)
  | pos n ↦
      let s' = record s { held = record s.held { sockets = own n s.held.sockets } } in
      if is_neg e.bind || is_neg e.listen || is_neg (add_nonblock e.fcntl_setfl e.fcntl_getfl)
      then ok (exits, s')
      else start_queue e n es s'
]

-- `killServer`, which the signal handler calls: the accept loop is told to end, with a result that is
-- only printed, and `workqueue_shutdown` sets the flags of the workers and empties the two lists.
unfoldable pub kill_server : Workqueue → Workqueue
kill_server q = record q {
  terminate = set_terminate q.workers q.terminate;
  workers = [];
  jobs = record q.jobs { list = none };
}
