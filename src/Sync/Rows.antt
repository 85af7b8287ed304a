-- ===== src/Sync/Rows.antt =====
-- The worker against the lists that the server loads when it starts.
use robot_server.Common.{ℕ, ◌≡◌, refl, sym, ap, ◌∙◌, Bool, true, false, some, List, [], ◌∷◌, ◌++◌}
use robot_server.Common.Outcome.{Outcome, ok, fault, ◌>>=◌, bind_assoc}
use robot_server.Util.Paths.{codes, store_text}
use robot_server.Redis.{set_key_toredis}
use robot_server.Host.{Host}
use robot_server.Sql.Load.{two_columns, set_prefixed, load_relationships, load_users}
use robot_server.Sql.Bindings.{columns}
use robot_server.Sync.{
  Json, copy_workload, parser_json_tokener, sync_device, eagle_device_id, eagle_user_name,
  sync_user_info, sync_user_and_device_relation_ship,
}

-- The state alone.
abbrev pub state {ℓ} : {S : Type ℓ} → Outcome (Bool × S) → Outcome S
state (ok p) = ok p.1
state fault = fault

ends_same :
    {S : Type 0} (x : Outcome (Bool × S))
    → (x >>= λ p. elim p.0 [ true ↦ ok p.1 | false ↦ ok p.1 ]) ≡ state x
ends_same (ok (true, s)) = refl
ends_same (ok (false, s)) = refl
ends_same fault = refl

module _ (j : Json) (h : Host) (w id name : List ℕ) where
  -- The second key, as the loop over the rows sets it.
  second_key : Bool × h.redis.State → Outcome h.redis.State
  second_key p = elim p.0 [
    | true ↦
        (set_prefixed h (codes "R_") name id p.1 >>= λ q. elim q.0 [
          | true ↦ ok q.1
          | false ↦ ok q.1
        ])
    | false ↦ ok p.1
  ]

  second_same :
      (x : Outcome (Bool × h.redis.State))
      → state (x >>= sync_device j h.redis id name) ≡ (x >>= second_key)
  unfolding sync_device set_prefixed second_key
  second_same fault = refl
  second_same (ok (false, s)) = refl
  second_same (ok (true, s)) = sym (ends_same (set_prefixed h (codes "R_") name id s))

  relationship_same :
      (s : h.redis.State)
      → state (set_prefixed h (codes "RP_") id name s >>= sync_device j h.redis id name)
        ≡ load_relationships h (columns ((id, name) ∷ [])) s
  unfolding load_relationships two_columns second_key
  relationship_same s = second_same (set_prefixed h (codes "RP_") id name s)

  -- The worker does for one workload what the server does for one row when it starts: its effect on
  -- Redis is that of the loop of initUserAndDeviceRelationshipList over the one row of the id and the
  -- name which the workload holds, a fault or a key that Redis does not take included. The workload is
  -- shorter than 128 bytes, and parserJsonTokener reads the two from it.
  pub sync_user_and_device_relation_ship-load_relationships :
      (s : h.redis.State) (json_buffer : List ℕ)
      → copy_workload w ≡ ok json_buffer
      → parser_json_tokener j eagle_device_id json_buffer ≡ ok (some (id, name))
      → state (sync_user_and_device_relation_ship j h.redis w s)
        ≡ load_relationships h (columns ((id, name) ∷ [])) s
  unfolding sync_user_and_device_relation_ship set_prefixed
  sync_user_and_device_relation_ship-load_relationships s json_buffer copied read =
      rw (copied, read)
        (sym (
            ap state (
              bind_assoc (store_text 20 (codes "RP_" ++ id))
                (λ key. set_key_toredis h.redis key name s) (sync_device j h.redis id name)))
          ∙ relationship_same s)

  user_same :
      (s : h.redis.State)
      → state (set_prefixed h (codes "U_") name id s) ≡ load_users h (columns ((id, name) ∷ [])) s
  unfolding load_users two_columns
  user_same s = sym (ends_same (set_prefixed h (codes "U_") name id s))

  -- The same of a user: the effect of the worker is that of the loop of initUserInfoList over one row.
  pub sync_user_info-load_users :
      (s : h.redis.State) (json_buffer : List ℕ)
      → copy_workload w ≡ ok json_buffer
      → parser_json_tokener j eagle_user_name json_buffer ≡ ok (some (id, name))
      → state (sync_user_info j h.redis w s) ≡ load_users h (columns ((id, name) ∷ [])) s
  unfolding sync_user_info set_prefixed
  sync_user_info-load_users s json_buffer copied read = rw (copied, read) (user_same s)
