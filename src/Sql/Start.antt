-- ===== src/Sql/Start.antt =====
-- From the start of the server to a phone's command at its device.
use robot_server.Common.{
  ℕ, ◌^◌, ◌<◌, ◌≡◌, refl, ap, ◌∙◌, true, false, Option, some, List, [], ◌∷◌, ◌++◌, arith, length,
  All,
}
use robot_server.Common.Int.{pos}
use robot_server.Common.Bytes.{Mem, IsByte, slice}
use robot_server.Common.Outcome.{Outcome, ok}
use robot_server.Decimal.{print_nat, atoi}
use robot_server.Decimal.Laws.{length-print_int}
use robot_server.Util.Hex.{hextostring}
use robot_server.Util.Hex.RoundTrip.{hextostring_lem}
use robot_server.Util.Paths.{codes}
use robot_server.Block.{eq_text}
use robot_server.Redis.Service.{IsStore}
use robot_server.Redis.Words.{eq_text_refl, IsWord-print_nat}
use robot_server.Host.{rows, Host, World}
use robot_server.Protocol.Device.{device_heart_packet}
use robot_server.Protocol.Phone.{phone_command_packet}
use robot_server.Protocol.Mailbox.{IsBound, device_text}
use robot_server.Protocol.Delivery.{IsOwner, is_single, command_delivered}
use robot_server.Sql.Load.{
  load_users, load_relationships, sql_select_userinfo_list, sql_select_relationship_list, load_list,
  init_user_info_list, init_user_and_device_relationship_list, main_lists,
}
use robot_server.Sql.Bindings.{
  AreRows, columns, put, bindings_of, load_relationships_lem, load_users_lem,
}

-- No row is about the user or about the device.
abbrev pub IsSilent : List ℕ → List ℕ → List (List ℕ × List ℕ) → Type 0
IsSilent user device = All (λ r. (eq_text r.0 user ≡ false) × (eq_text r.1 device ≡ false))

bindings-silent :
    (user device : List ℕ) (rs : List (List ℕ × List ℕ)) (f : List ℕ → Option (List ℕ))
    → IsSilent user device rs
    → (bindings_of rs f (codes "RP_" ++ user) ≡ f (codes "RP_" ++ user))
      × (bindings_of rs f (codes "R_" ++ device) ≡ f (codes "R_" ++ device))
bindings-silent user device [] f silent = (refl, refl)
bindings-silent user device ((u, d) ∷ rs) f ((no_user, no_device), silent) =
    let g = put (codes "R_" ++ d) u (put (codes "RP_" ++ u) d f) in
    let (a, b) = bindings-silent user device rs g silent in
    (a ∙ rw no_user refl, b ∙ rw no_device refl)

bindings-append :
    (rs ts : List (List ℕ × List ℕ)) (f : List ℕ → Option (List ℕ))
    → bindings_of (rs ++ ts) f ≡ bindings_of ts (bindings_of rs f)
bindings-append [] ts f = refl
bindings-append ((u, d) ∷ rs) ts f =
    bindings-append rs ts (put (codes "R_" ++ d) u (put (codes "RP_" ++ u) d f))

-- A row that no later row contradicts binds the user and the device to one another.
pub bindings_lem :
    (user device : List ℕ) (before after : List (List ℕ × List ℕ)) (f : List ℕ → Option (List ℕ))
    → IsSilent user device after
    → (bindings_of (before ++ ((user, device) ∷ after)) f (codes "RP_" ++ user) ≡ some device)
      × (bindings_of (before ++ ((user, device) ∷ after)) f (codes "R_" ++ device) ≡ some user)
bindings_lem user device before after f silent =
    let g = bindings_of before f in
    let (a, b) =
      bindings-silent user device after
        (put (codes "R_" ++ device) user (put (codes "RP_" ++ user) device g)) silent in
    (
      ap (λ t. t (codes "RP_" ++ user)) (bindings-append before ((user, device) ∷ after) f)
          ∙ a
          ∙ rw (eq_text_refl user) refl,
      ap (λ t. t (codes "R_" ++ device)) (bindings-append before ((user, device) ∷ after) f)
          ∙ b
          ∙ rw (eq_text_refl device) refl,
    )

-- The tables of the database.
pub record IsTables (h : Host) (w : World h) (users relations : List (List ℕ × List ℕ))
    : Type 0 where
  pub users_query : h.database.execute_query sql_select_userinfo_list [] w.db ≡ rows (columns users)
  pub relations_query :
      h.database.execute_query sql_select_relationship_list [] w.db ≡ rows (columns relations)
  pub users_fit : AreRows users
  pub relations_fit : AreRows relations

module _ (h : Host) (st : IsStore h.redis) where
  load_list_lem :
      (sql : List ℕ) (rs : List (List (Option (List ℕ))))
      (loop : List (List (Option (List ℕ))) → h.redis.State → Outcome h.redis.State) (w : World h)
      (s : h.redis.State)
      → h.database.execute_query sql [] w.db ≡ rows rs
      → loop rs w.redis_state ≡ ok s
      → load_list h sql loop w ≡ ok (record w { redis_state = s })
  unfolding load_list
  load_list_lem sql rs loop w s q e = rw (q, load_list, e) refl

  main_lists_lem :
      (w : World h) (users relations : List (List ℕ × List ℕ))
      → IsTables h w users relations
      → (s : h.redis.State) × (s₁ : h.redis.State) × (main_lists h w
          ≡ ok (record w { redis_state = s }))
        × ((j : List ℕ) → st.value_of s j ≡ bindings_of relations (st.value_of s₁) j)
  unfolding main_lists init_user_info_list init_user_and_device_relationship_list
  main_lists_lem w users relations t =
      let (s₁, one, ignored) = load_users_lem h st users w.redis_state t.users_fit in
      let (s, two, value) = load_relationships_lem h st relations s₁ t.relations_fit in
      (
        s,
        s₁,
        rw
            (
              load_list_lem sql_select_userinfo_list (columns users) (load_users h) w s₁
                  t.users_query one,
              load_list_lem sql_select_relationship_list (columns relations) (load_relationships h)
                  (record w { redis_state = s₁ }) s t.relations_query two,
            )
            refl,
        value,
      )

  -- From the start of the server to the device: main copies the two tables of the database to Redis;
  -- then a single command, below 255, from the phone of a user in the table of relationships reaches
  -- the device of that row: the command packet is accepted, the next heartbeat of the device returns
  -- the number of the command, and the same heartbeat behind it finds no command. The tables have rows
  -- of words that fit the keys, and no row behind this one is about its user or its device; the Redis
  -- server stores strings.
  pub main_lists-command_delivered :
      (w : World h) (users before after : List (List ℕ × List ℕ)) (p d info : Mem) (uid : ℕ)
      → IsTables h w users (before ++ ((print_nat uid, device_text h st d) ∷ after))
      → IsSilent (print_nat uid) (device_text h st d) after
      → atoi (hextostring (slice p 1 4)) ≡ ok (pos uid)
      → uid < 2 ^ 31
      → ((a : ℕ) → IsByte (d a))
      → is_single (p 5) ≡ true
      → p 5 < 255
      → (w₀ : World h) × (w₁ : World h) × (w₂ : World h) × (w₃ : World h) × (main_lists h w ≡ ok w₀)
        × (phone_command_packet h p 16 w₀ ≡ ok (pos 0, w₁))
        × (device_heart_packet h d 32 info w₁ ≡ ok (pos (p 5), info, w₂))
        × (device_heart_packet h d 32 info w₂ ≡ ok (pos 0, info, w₃))
  main_lists-command_delivered w users before after p d info uid t silent id small bytes single
        below =
      let user = print_nat uid in
      let device = device_text h st d in
      let (s, s₁, runs, value) = main_lists_lem w users (before ++ ((user, device) ∷ after)) t in
      let (owns, bound) = bindings_lem user device before after (st.value_of s₁) silent in
      let digits = length-print_int uid (omega arith) in
      let device_bytes : All IsByte (slice d 1 8) = (
        bytes 1,
        (bytes 2, (bytes 3, (bytes 4, (bytes 5, (bytes 6, (bytes 7, (bytes 8, tt))))))),
      ) in
      let len = (hextostring_lem (slice d 1 8) device_bytes).1 in
      let o : IsOwner h st s p d uid = record {
        user_id = id;
        small = small;
        owns = value (codes "RP_" ++ user) ∙ owns;
      } in
      let b : IsBound h st s d user = record {
        byte = bytes;
        bound = value (codes "R_" ++ device) ∙ bound;
        word = IsWord-print_nat uid (omega arith);
        short = omega arith;
        other = λ e. (let l : length user ≡ length device = ap length e in omega arith);
        other_key =
            λ e. (let l : length user ≡ length (codes "R_" ++ device) = ap length e in omega arith);
      } in
      let (w₁, w₂, w₃, sends, takes, is_empty) =
        command_delivered h st (record w { redis_state = s }) p d info uid user o b single below in
      (record w { redis_state = s }, w₁, w₂, w₃, runs, sends, takes, is_empty)
