-- ===== src/Host.antt =====
-- What the packet handlers of ApolloProtocol.c work on: the Redis server and the database, which are
-- parameters, the disk, the connection of the client, and the threads that were started.
use robot_server.Common.{ℕ, ◌+◌, ◌%◌, Bool, Option, List, [], ◌∷◌, ◌++◌, if◌then◌else◌}
use robot_server.Common.Bytes.{Mem}
use robot_server.Block.{Disk}
use robot_server.Syner.{MulticastSynerPacket}
use robot_server.Redis.{RedisServer}

-- What `Connection_executeQuery` comes to: `raised` where there is no connection or libzdb throws an
-- exception, which nothing catches; the null pointer; or the rows, each with the texts of its
-- columns, none for a null.
pub data QueryResult : Type 0 where
  raised : QueryResult
  null_result : QueryResult
  rows : List (List (Option (List ℕ))) → QueryResult

-- The database behind libzdb. A statement is its format and the arguments.
pub record Database : Type 1 where
  pub State : Type 0
  -- None where there is no connection or an exception is thrown.
  pub execute : List ℕ → List (List ℕ) → State → Option State
  pub execute_query : List ℕ → List (List ℕ) → State → QueryResult

-- The fields of `struct tm` that the header of an answer holds.
pub record Tm : Type 0 where
  pub tm_year : ℕ
  pub tm_mon : ℕ
  pub tm_wday : ℕ
  pub tm_mday : ℕ
  pub tm_hour : ℕ
  pub tm_min : ℕ
  pub tm_sec : ℕ

-- `(char)(tm_year - 100)`, and the others.
abbrev pub write_time_header : Tm → List ℕ
write_time_header t =
    (t.tm_year + 156) % 256
    ∷ t.tm_mon % 256
    ∷ t.tm_wday % 256
    ∷ t.tm_mday % 256
    ∷ t.tm_hour % 256
    ∷ t.tm_min % 256
    ∷ t.tm_sec % 256
    ∷ []

pub record Host : Type 1 where
  pub redis : RedisServer
  pub database : Database
  -- Whether `bufferevent_write_buffer` fails, from what was sent before and the bytes.
  pub write_fails : List (List ℕ) → List ℕ → Bool
  -- The local time, after what was sent.
  pub localtime : List (List ℕ) → Tm

-- The texts that `deviceLocationPacket` stores in a `LocationInfo`.
pub record LocationInfo : Type 0 where
  pub u8_device_id : List ℕ
  pub u8_longitude : List ℕ
  pub u8_latitude : List ℕ

-- The threads that the handlers start, with their argument.
pub data Thread : Type 0 where
  http_device_falldown : Mem → Thread
  http_post : Mem → Thread
  ublox_download_apgs : LocationInfo → Thread
  syner_action : MulticastSynerPacket → Thread

-- `client_t`: whether its descriptor is open, its output buffer, and the writes that succeeded; and
-- its `BlockBuffer`.
pub record Client : Type 0 where
  pub fd_open : Bool
  pub output_buffer : List ℕ
  pub sent : List (List ℕ)
  pub buffer : Mem
  pub packet : Mem
  pub index : ℕ

pub record World (h : Host) : Type 0 where
  pub redis_state : h.redis.State
  pub db : h.database.State
  pub disk : Disk
  pub started : List Thread
  pub client : Client

module _ (h : Host) where
  abbrev pub start_thread : Thread → World h → World h
  start_thread t w = record w { started = w.started ++ (t ∷ []) }

  -- `evbuffer_add(client->output_buffer, buffer, length)`, then `bufferevent_write_buffer`, which
  -- empties the buffer unless it fails; then `closeClient`.
  unfoldable pub apollo_return_packet : List ℕ → World h → World h
  apollo_return_packet buffer w =
      let out = w.client.output_buffer ++ buffer in
      if h.write_fails w.client.sent out
      then record w { client = record w.client { fd_open = Bool.false; output_buffer = out } }
      else record w {
        client = record w.client { output_buffer = []; sent = w.client.sent ++ (out ∷ []) };
      }
