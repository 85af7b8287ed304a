-- ===== src/Sync.antt =====
-- SyncDataToRedis.c: the worker that takes users and relationships as JSON texts from a Gearman server
-- and copies them to Redis. The JSON library is a parameter.
pub mod Quotes
pub mod Rows
mod Examples
use robot_server.Common.{
  ℕ, suc, ◌+◌, ◌-◌, Bool, true, false, Option, none, some, List, [], ◌∷◌, ◌++◌, ltb, leb, ◌==◌,
  if◌then◌else◌, length, drop, replicate,
}
use robot_server.Common.Outcome.{Outcome, ok, fault, ◌>>=◌, ◌>>◌, check}
use robot_server.Util.Paths.{codes, store_text, until_zero}
use robot_server.Redis.{RedisServer, set_key_toredis}

-- `json_tokener_parse`, none for an error, and `json_object_to_json_string` of the member with a key.
pub record Json : Type 1 where
  pub Object : Type 0
  pub json_tokener_parse : List ℕ → Option Object
  pub member_text : Object → List ℕ → List ℕ

abbrev pub eagle_user_id : List ℕ
eagle_user_id = codes "UserId"

abbrev pub eagle_user_name : List ℕ
eagle_user_name = codes "UserName"

abbrev pub eagle_device_id : List ℕ
eagle_device_id = codes "DeviceId"

abbrev pub cmd_length : ℕ
cmd_length = 128

-- The characters before the first quote.
unfoldable pub until_quote : List ℕ → List ℕ
until_quote [] = []
until_quote (c ∷ s) = let rest = until_quote s in if c == b'"' then [] else c ∷ rest

-- `valueName`, an array of 20 bytes, is moved down by one up to a quote; two zeros behind it are
-- written, the second of them out of the array where there is no quote.
unfoldable pub strip_quotes : List ℕ → Outcome (List ℕ)
strip_quotes text = do
  value_name ← store_text 20 text
  let moved = until_quote (drop 1 (value_name ++ replicate (20 - length value_name) 0))
  check (ltb (suc (length moved)) 20)
  ok moved

-- `parserJsonTokener`: the id and the name, none for -1.
unfoldable pub parser_json_tokener :
    (j : Json) → List ℕ → List ℕ → Outcome (Option (List ℕ × List ℕ))
parser_json_tokener j name_key json = elim (j.json_tokener_parse json) [
  | none ↦ ok none
  | some object ↦ (do
    value_id ← store_text 20 (j.member_text object eagle_user_id)
    value_name ← strip_quotes (j.member_text object name_key)
    ok (some (value_id, value_name)))
]

-- The workload as the text in `json_buffer`; without a zero it is read past its end.
unfoldable pub copy_workload : List ℕ → Outcome (List ℕ)
copy_workload workload = do
  check (leb (length workload) cmd_length)
  check (ltb (length (until_zero workload)) cmd_length)
  ok (until_zero workload)

-- The arrays are empty where the JSON text is not parsed; the result is not looked at.
abbrev pub parsed : Option (List ℕ × List ℕ) → List ℕ × List ℕ
parsed none = ([], [])
parsed (some p) = p

module _ (j : Json) (r : RedisServer) where
  open r use {State}

  -- Whether `*ret_ptr` is set to `GEARMAN_SUCCESS`, and the state of the Redis server.
  unfoldable pub sync_user_info : List ℕ → State → Outcome (Bool × State)
  sync_user_info workload s = do
    json_buffer ← copy_workload workload
    values ← parser_json_tokener j eagle_user_name json_buffer
    let (user_id, user_name) = parsed values
    key ← store_text 20 (codes "U_" ++ user_name)
    set_key_toredis r key user_id s

  -- The second key, behind the first.
  unfoldable pub sync_device : (user_id device_id : List ℕ) → Bool × State → Outcome (Bool × State)
  sync_device user_id device_id (false, s) = ok (false, s)
  sync_device user_id device_id (true, s) = do
    key ← store_text 20 (codes "R_" ++ device_id)
    set_key_toredis r key user_id s

  unfoldable pub sync_user_and_device_relation_ship : List ℕ → State → Outcome (Bool × State)
  sync_user_and_device_relation_ship workload s = do
    json_buffer ← copy_workload workload
    values ← parser_json_tokener j eagle_device_id json_buffer
    let (user_id, device_id) = parsed values
    key ← store_text 20 (codes "RP_" ++ user_id)
    stored ← set_key_toredis r key device_id s
    sync_device user_id device_id stored
