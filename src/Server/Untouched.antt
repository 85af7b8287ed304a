-- ===== src/Server/Untouched.antt =====
-- What `on_accept`, `closeClient` and the end of a job leave alone: the other clients and jobs.
use robot_server.Common.{ℕ, ◌≡◌, refl, ◌∙◌, false, Option, none, some, ◌==◌}
use robot_server.Common.Int.{ℤ, pos, negsuc}
use robot_server.Common.Outcome.{Outcome, OnOk, on_ok, OnOk-bind, OnOk-all, OnOk-elim, OnOk-weaken}
use robot_server.WorkQueue.{update}
use robot_server.Server.{
  ClientT, Server, Calls, client_of, release_fd, release_pointer, release, close_client,
  close_and_free_client, finish_job, close_socket, queue_job, new_event, new_block, new_base,
  new_buffer, new_client, set_client_nonblock, setnonblock, on_accept,
}

-- The client at `a` and the job at `j` are as they were.
pub record IsSame (a j : ℕ) (s s' : Server) : Type 0 where
  pub client_at : s'.client_at a ≡ s.client_at a
  pub user_data : s'.user_data j ≡ s.user_data j

-- The address is not the one that a call gave.
abbrev pub IsOther : Option ℕ → ℕ → Type 0
IsOther none a = Unit
IsOther (some b) a = (b == a) ≡ false

module _ (a j : ℕ) where
  abbrev pub Untouched : Server → Outcome Server → Type 0
  Untouched s = OnOk (IsSame a j s)

  IsSame-refl : (s : Server) → IsSame a j s s
  IsSame-refl s = record { client_at = refl; user_data = refl }

  IsSame-trans : {s t u : Server} → IsSame a j s t → IsSame a j t u → IsSame a j s u
  IsSame-trans p q = record {
    client_at = q.client_at ∙ p.client_at;
    user_data = q.user_data ∙ p.user_data;
  }

  behind : {s t : Server} (x : Outcome Server) → IsSame a j s t → Untouched t x → Untouched s x
  behind x p q = OnOk-weaken x (λ u r. IsSame-trans p r) q

  module _ (c : ℕ) (ne : (c == a) ≡ false) where
    update_other {ℓ} : {A : Type ℓ} (f : ℕ → A) (v : A) → update f c v a ≡ f a
    update_other f v = rw ne refl

    pub close_client-Untouched : (s : Server) → Untouched s (close_client (some c) s)
    unfolding close_client
    close_client-Untouched s = OnOk-all (client_of c s) _ (λ client.
        OnOk-all (release_fd client.fd s.held.sockets) _ (λ sockets.
          on_ok _ (record { client_at = update_other s.client_at _; user_data = refl })))

    pub close_and_free_client-Untouched :
        (s : Server) → Untouched s (close_and_free_client (some c) s)
    unfolding close_and_free_client
    close_and_free_client-Untouched s =
        OnOk-bind (close_client (some c) s) _ (close_client-Untouched s) (λ s' p.
          OnOk-all (client_of c s') _ (λ client.
            OnOk-all (release_pointer client.buf_ev s'.held.events) _ (λ events.
              OnOk-all (release_pointer client.evbase s'.held.bases) _ (λ bases.
                OnOk-all (release_pointer client.output_buffer s'.held.buffers) _ (λ buffers.
                  OnOk-all (release_pointer client.p_block s'.held.blocks) _ (λ blocks.
                    OnOk-all (release c s'.held.clients) _ (λ clients. on_ok _ (record {
                      client_at = update_other s'.client_at _ ∙ p.client_at;
                      user_data = p.user_data;
                    }))))))))

    pub finish_job-Untouched : (i : ℕ) (s : Server) → Untouched s (finish_job c i s)
    unfolding finish_job
    finish_job-Untouched i s =
        OnOk-bind (close_and_free_client (some c) s) _ (close_and_free_client-Untouched s) (λ s' p.
          OnOk-all (release i s'.held.jobs) _
            (λ jobs. on_ok _ (record { client_at = p.client_at; user_data = p.user_data })))

    module _ (e : Calls) (job : IsOther e.malloc_job j) where
      -- A pointer of the client is set.
      set_client :
          (s t : Server) (k : ClientT)
          → t.client_at ≡ update s.client_at c k
          → t.user_data ≡ s.user_data
          → IsSame a j s t
      set_client s t k p q = record {
        client_at = rw p (update_other s.client_at k);
        user_data = rw q refl;
      }

      queue_job-Untouched :
          (s : Server) (o : Option ℕ)
          → e.malloc_job ≡ o
          → IsOther o j
          → Untouched s (queue_job e c s)
      unfolding queue_job
      queue_job-Untouched s none eq other = rw eq (close_and_free_client-Untouched s)
      queue_job-Untouched s (some i) eq other =
          rw eq (on_ok _ (record { client_at = refl; user_data = rw other refl }))

      new_event-Untouched : (s : Server) → Untouched s (new_event e c s)
      unfolding new_event
      new_event-Untouched s =
          OnOk-elim e.bufferevent_new _ _ (close_and_free_client-Untouched s) (λ v.
            behind _ (set_client s _ _ refl refl) (queue_job-Untouched _ e.malloc_job refl job))

      new_block-Untouched : (s : Server) → Untouched s (new_block e c s)
      unfolding new_block
      new_block-Untouched s =
          OnOk-elim e.malloc_block _ _ (close_and_free_client-Untouched s)
            (λ v. behind _ (set_client s _ _ refl refl) (new_event-Untouched _))

      new_base-Untouched : (s : Server) → Untouched s (new_base e c s)
      unfolding new_base
      new_base-Untouched s =
          OnOk-elim e.event_base_new _ _ (close_and_free_client-Untouched s)
            (λ v. behind _ (set_client s _ _ refl refl) (new_block-Untouched _))

      new_buffer-Untouched : (s : Server) → Untouched s (new_buffer e c s)
      unfolding new_buffer
      new_buffer-Untouched s =
          OnOk-elim e.evbuffer_new _ _ (close_and_free_client-Untouched s)
            (λ v. behind _ (set_client s _ _ refl refl) (new_base-Untouched _))

  close_socket-Untouched : (n : ℕ) (s : Server) → Untouched s (close_socket n s)
  unfolding close_socket
  close_socket-Untouched n s =
      OnOk-all (release n s.held.sockets) _
        (λ sockets. on_ok _ (record { client_at = refl; user_data = refl }))

  module _ (e : Calls) (job : IsOther e.malloc_job j) where
    new_client-Untouched :
        (n : ℕ) (s : Server) (o : Option ℕ)
        → e.malloc_client ≡ o
        → IsOther o a
        → Untouched s (new_client e n s)
    unfolding new_client
    new_client-Untouched n s none eq other = rw (new_client, eq) (close_socket-Untouched n s)
    new_client-Untouched n s (some c) eq other =
        simp (new_client, eq)
          (behind _ (set_client c other e job s _ _ refl refl)
            (new_buffer-Untouched c other e job _))

    set_client_nonblock-Untouched :
        (n : ℕ) (s : Server) (d : ℤ)
        → setnonblock e ≡ d
        → IsOther e.malloc_client a
        → Untouched s (set_client_nonblock e n s)
    unfolding set_client_nonblock
    set_client_nonblock-Untouched n s (negsuc m) eq other =
        rw (set_client_nonblock, eq) (close_socket-Untouched n s)
    set_client_nonblock-Untouched n s (pos m) eq other =
        rw (set_client_nonblock, eq) (new_client-Untouched n s e.malloc_client refl other)

    pub on_accept-Untouched :
        (s : Server) (d : ℤ)
        → e.accept ≡ d
        → IsOther e.malloc_client a
        → Untouched s (on_accept e s)
    unfolding on_accept
    on_accept-Untouched s (negsuc m) eq other = rw eq (on_ok _ (IsSame-refl s))
    on_accept-Untouched s (pos n) eq other =
        simp (on_accept, eq)
          (behind _ (record { client_at = refl; user_data = refl })
            (set_client_nonblock-Untouched n _ (setnonblock e) refl other))
