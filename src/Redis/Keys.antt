-- ===== src/Redis/Keys.antt =====
-- The three functions of ApolloRedis.c on a server that stores strings.
use robot_server.Common.{
  ℕ, suc, ◌+◌, ◌≤◌, ◌≡◌, refl, ◌∙◌, true, Option, none, some, List, ◌++◌, arith, length,
  length-append, take, take_all, le→leb,
}
use robot_server.Common.Outcome.{ok}
use robot_server.Util.Paths.{codes}
use robot_server.Redis
use robot_server.Redis.{
  RedisServer, strcasecmp_eq, set_reply, get_reply, fits, set_key_toredis, get_value_fromredis,
  del_redis_key,
}
use robot_server.Redis.Service.{IsStore, IsWord, get_result}

abbrev copied : Option (List ℕ) → Option (List ℕ)
copied none = none
copied (some v) = some (take 254 v)

module _ (r : RedisServer) (st : IsStore r) where
  -- The state after a SET or a DEL.
  unfoldable pub after_set : List ℕ → List ℕ → r.State → r.State
  after_set k v s = (r.redis_command (codes "set " ++ (k ++ (codes " " ++ v))) s).1

  unfoldable pub after_del : List ℕ → r.State → r.State
  after_del k s = (r.redis_command (codes "del " ++ k) s).1

  set_reply_lem :
      (p : Redis.Reply × r.State) → p.0 ≡ Redis.status (codes "OK") → set_reply r p ≡ ok (true, p.1)
  unfolding set_reply strcasecmp_eq
  set_reply_lem p e = rw e

  pub set_key_toredis_lem :
      (k v : List ℕ) (s : r.State)
      → IsWord k
      → IsWord v
      → length k + length v ≤ 250
      → set_key_toredis r k v s ≡ ok (true, after_set k v s)
  unfolding set_key_toredis after_set
  set_key_toredis_lem k v s hk hv h =
      let text = codes "set " ++ (k ++ (codes " " ++ v)) in
      rw (le→leb (suc (length text)) 256 (omega (arith, length-append k (codes " " ++ v))))
        (set_reply_lem (r.redis_command text s) (st.set_status k v s hk hv))

  get_reply_lem :
      (o : Option (List ℕ)) (s : r.State) → get_reply r (get_result o, s) ≡ ok (copied o, s)
  unfolding get_reply
  get_reply_lem none s = refl
  get_reply_lem (some v) s = refl

  pub get_value_fromredis_lem :
      (cap : ℕ) (k : List ℕ) (s : r.State)
      → IsWord k
      → length k ≤ 250
      → get_value_fromredis r cap k s ≡ fits r cap (copied (st.value_of s k), s)
  unfolding get_value_fromredis
  get_value_fromredis_lem cap k s hk h = rw (
    le→leb (suc (length (codes "get " ++ k))) 256 (omega arith),
    st.get_lem k s hk,
    get_reply_lem (st.value_of s k) s,
  )

  -- A key that is not set.
  pub get_value_none :
      (cap : ℕ) (k : List ℕ) (s : r.State)
      → IsWord k
      → length k ≤ 250
      → st.value_of s k ≡ none
      → get_value_fromredis r cap k s ≡ ok (none, s)
  unfolding fits
  get_value_none cap k s hk h e = get_value_fromredis_lem cap k s hk h ∙ rw e

  -- A key that is set to a text which the array holds.
  pub get_value_some :
      (cap : ℕ) (k v : List ℕ) (s : r.State)
      → IsWord k
      → length k ≤ 250
      → st.value_of s k ≡ some v
      → suc (length v) ≤ cap
      → length v ≤ 254
      → get_value_fromredis r cap k s ≡ ok (some v, s)
  unfolding fits
  get_value_some cap k v s hk h e small short =
      get_value_fromredis_lem cap k s hk h
      ∙ rw (e, take_all 254 v short, le→leb (suc (length v)) cap small)

  pub del_redis_key_lem :
      (k : List ℕ) (s : r.State) → length k ≤ 250 → del_redis_key r k s ≡ ok (after_del k s)
  unfolding del_redis_key after_del
  del_redis_key_lem k s h = rw (le→leb (suc (length (codes "del " ++ k))) 256 (omega arith))
