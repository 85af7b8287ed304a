-- ===== src/Redis/Service.antt =====
-- What the program relies on in the Redis server: GET, SET and DEL of keys and values without
-- blanks.
use robot_server.Common.{
  ℕ, ◌<◌, ◌≡◌, Bool, true, ◌||◌, not, Option, none, some, List, ◌++◌, leb, ◌==◌, if◌then◌else◌,
  length, All,
}
use robot_server.Util.Paths.{codes}
use robot_server.Block.{eq_text}
use robot_server.Redis.{Reply, string, status, other, RedisServer}

-- One word of a command, as hiredis splits it: not empty, and no blank or `%` in it.
abbrev pub is_plain : ℕ → Bool
is_plain c = not (c == b' ' || (c == b'%' || leb c 13))

abbrev pub IsWord : List ℕ → Type 0
IsWord w = (0 < length w) × All (λ c. is_plain c ≡ true) w

abbrev pub get_result : Option (List ℕ) → Reply
get_result none = other
get_result (some v) = string v

-- A server that is up and stores strings.
pub record IsStore (r : RedisServer) : Type 0 where
  pub value_of : r.State → List ℕ → Option (List ℕ)
  pub get_lem :
      (k : List ℕ) (s : r.State)
      → IsWord k
      → r.redis_command (codes "get " ++ k) s ≡ (get_result (value_of s k), s)
  pub set_status :
      (k v : List ℕ) (s : r.State)
      → IsWord k
      → IsWord v
      → (r.redis_command (codes "set " ++ (k ++ (codes " " ++ v))) s).0 ≡ status (codes "OK")
  pub set_value :
      (k v : List ℕ) (s : r.State) (j : List ℕ)
      → IsWord k
      → IsWord v
      → value_of (r.redis_command (codes "set " ++ (k ++ (codes " " ++ v))) s).1 j
        ≡ (if eq_text k j then some v else value_of s j)
  pub del_value :
      (k : List ℕ) (s : r.State) (j : List ℕ)
      → IsWord k
      → value_of (r.redis_command (codes "del " ++ k) s).1 j
        ≡ (if eq_text k j then none else value_of s j)
