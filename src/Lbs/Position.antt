-- ===== src/Lbs/Position.antt =====
-- What the handler of the answer of the position service stores.
use robot_server.Common.{
  ℕ, ◌≤◌, ◌≡◌, Bool, not, some, List, [], ◌∷◌, ◌++◌, length, bit_and, ◌==◌, if◌then◌else◌,
}
use robot_server.Common.Bytes.{Mem, IsByte}
use robot_server.Util.Paths.{codes}
use robot_server.Redis.Service.{IsStore, IsWord}
use robot_server.Host.{Host, World, ublox_download_apgs, start_thread}
use robot_server.Redis.Keys.{after_set}
use robot_server.Sql.{sql_insert_device_gps}
use robot_server.Lbs.Location.{IsPosition, longitude_of, latitude_of, position_text, id_of}

module _ {answer log lat : List ℕ} (p : IsPosition answer log lat) (packet : Mem) (behind : ℕ)
    (byte : (a : ℕ) → IsByte (packet a)) (small : IsByte behind) where
  module _ (h : Host) (st : IsStore h.redis) (w : World h) (user : List ℕ) (db : h.database.State)
      (bound : st.value_of w.redis_state (codes "R_" ++ id_of packet) ≡ some user)
      (user_word : IsWord user) (short : length user ≤ 198)
      (inserted : h.database.execute sql_insert_device_gps
          (longitude_of log ∷ latitude_of lat ∷ codes "0" ∷ id_of packet ∷ [])
          w.db
        ≡ some db) where
    -- The world behind the handler: a thread for the satellite data, if the packet asks for them, a row,
    -- and the text for the user.
    abbrev pub position_stored : World h
    position_stored =
        let w' =
          if not (bit_and (packet 9) 0xF0 == 0)
          then start_thread h
              (ublox_download_apgs (record {
                u8_device_id = id_of packet;
                u8_longitude = longitude_of log;
                u8_latitude = latitude_of lat;
              }))
              w
          else w in
        record w' {
          db = db;
          redis_state =
              after_set h.redis st user (position_text log lat packet behind) w.redis_state;
        }

    -- The world with the thread, if it is started.
    abbrev thread_if : Bool → World h
    thread_if b =
        if b
        then start_thread h
            (ublox_download_apgs (record {
              u8_device_id = id_of packet;
              u8_longitude = longitude_of log;
              u8_latitude = latitude_of lat;
            }))
            w
        else w
