-- ===== src/Redis.antt =====
-- ApolloRedis.c: one command each to the Redis server, through hiredis. The server is a parameter:
-- its state, and what it replies to a command.
pub mod Service
pub mod Keys
pub mod Words
pub mod Examples
use robot_server.Common.{
  ℕ, suc, ◌+◌, ◌-◌, Bool, true, false, ◌&&◌, Option, none, some, List, [], ◌∷◌, ◌++◌, ltb, leb,
  ◌==◌, if◌then◌else◌, length, take,
}
use robot_server.Common.Outcome.{Outcome, ok, fault, ◌>>=◌, ◌>>◌, check}
use robot_server.Util.Paths.{codes, store_text}

-- `redisReply`: its type and, for a string or a status, the C string `str`. `null_reply` is the null
-- pointer that `redisCommand` returns when there is no connection.
pub data Reply : Type 0 where
  string : List ℕ → Reply
  status : List ℕ → Reply
  other : Reply
  null_reply : Reply

-- The server behind `redisCommand`.
pub record RedisServer : Type 1 where
  pub State : Type 0
  pub redis_command : List ℕ → State → Reply × State

abbrev pub redis_command_length : ℕ
redis_command_length = 256

abbrev to_lower : ℕ → ℕ
to_lower c = if leb b'A' c && leb c b'Z' then c + 32 else c

-- `strcasecmp(s, t) == 0`
unfoldable pub strcasecmp_eq : List ℕ → List ℕ → Bool
strcasecmp_eq [] [] = true
strcasecmp_eq [] (y ∷ t) = false
strcasecmp_eq (x ∷ s) [] = false
strcasecmp_eq (x ∷ s) (y ∷ t) = to_lower x == to_lower y && strcasecmp_eq s t

module _ (r : RedisServer) where
  open r use {State, redis_command}

  -- Whether `set_key_toredis` returns 0 (`true`) or -1, from the reply.
  unfoldable pub set_reply : Reply × State → Outcome (Bool × State)
  set_reply (string str, s) = ok (false, s)
  set_reply (status str, s) = ok (strcasecmp_eq str (codes "OK"), s)
  set_reply (other, s) = ok (false, s)
  set_reply (null_reply, s) = fault

  unfoldable pub set_key_toredis : List ℕ → List ℕ → State → Outcome (Bool × State)
  set_key_toredis key value s = do
    command ← store_text redis_command_length (codes "set " ++ (key ++ (codes " " ++ value)))
    set_reply (redis_command command s)

  -- The text that `get_value_fromredis` copies, or none where it returns -1.
  unfoldable pub get_reply : Reply × State → Outcome (Option (List ℕ) × State)
  get_reply (string str, s) = ok (some (take (redis_command_length - 2) str), s)
  get_reply (status str, s) = ok (none, s)
  get_reply (other, s) = ok (none, s)
  get_reply (null_reply, s) = fault

  -- The text is copied into a zeroed array of `cap` bytes, from which the callers read a C string.
  unfoldable pub fits : ℕ → Option (List ℕ) × State → Outcome (Option (List ℕ) × State)
  fits cap (none, s) = ok (none, s)
  fits cap (some value, s) = do check (leb (suc (length value)) cap); ok (some value, s)

  unfoldable pub get_value_fromredis : ℕ → List ℕ → State → Outcome (Option (List ℕ) × State)
  get_value_fromredis cap key s = do
    command ← store_text redis_command_length (codes "get " ++ key)
    reply ← get_reply (redis_command command s)
    fits cap reply

  unfoldable pub del_redis_key : List ℕ → State → Outcome State
  del_redis_key key s = do
    command ← store_text redis_command_length (codes "del " ++ key)
    ok (redis_command command s).1
