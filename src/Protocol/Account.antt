-- ===== src/Protocol/Account.antt =====
-- What the packets on accounts are answered with.
use robot_server.Common.{
  ℕ, ◌≡◌, ◌⊎◌, inl, inr, refl, List, [], ◌∷◌, ◌++◌, replicate, ◌==◌, Option-cases,
}
use robot_server.Common.Bytes.{Mem, slice}
use robot_server.Common.Outcome.{ok, ◌>>=◌, OnOk, on_ok, on_fault, OnOk-if}
use robot_server.Util.Paths.{codes, until_zero}
use robot_server.Sql.{
  connection_execute, insert_user, update_password, select_user_id, sql_insert_user,
  sql_select_userid, sql_select_update_password,
}
use robot_server.Wire.{ret_phone_success, ret_phone_update_pwd_failed}
use robot_server.Host.{Host, World, QueryResult, raised, null_result, rows, apollo_return_packet}
use robot_server.Protocol.User.{
  return_no, answer, answer_user_id, register_user, phone_operator_user_info,
}

module _ (h : Host) where
  -- One of three texts was sent: "RETOK:" with the id 0, and the refusals with the reasons 2 and 3.
  abbrev pub IsAnswer : List ℕ → Type 0
  IsAnswer text =
      (text ≡ codes "RETOK:" ++ replicate 6 0)
      ⊎ ((text ≡ codes "RETNO:" ++ (2 ∷ replicate 5 0))
          ⊎ (text ≡ codes "RETNO:" ++ (3 ∷ replicate 5 0)))

  abbrev pub IsAnswered : World h → World h → Type 0
  IsAnswered w w' =
      (w' ≡ w)
      ⊎ ((text : List ℕ) × (db : h.database.State) × IsAnswer text
          × (w' ≡ apollo_return_packet h text (record w { db = db })))

  module _ (name password : List ℕ) (w : World h) where
    found-IsAnswered :
        (reason : ℕ) (db : h.database.State) (result : QueryResult)
        → IsAnswer (return_no reason)
        → h.database.execute_query sql_select_userid (name ∷ password ∷ []) db ≡ result
        → OnOk (IsAnswered w) (answer_user_id h name password reason (record w { db = db }))
    unfolding answer_user_id select_user_id
    found-IsAnswered reason db raised known e = rw (answer_user_id, select_user_id, e) on_fault
    found-IsAnswered reason db null_result known e =
        rw (answer_user_id, select_user_id, e) (on_ok _ (inr (return_no reason, db, known, refl)))
    found-IsAnswered reason db (rows rs) known e =
        rw (answer_user_id, select_user_id, e)
          (on_ok _ (inr (codes "RETOK:" ++ replicate 6 0, db, inl refl, refl)))

    register-IsAnswered :
        OnOk (IsAnswered w) (insert_user h name password w >>= λ x. register_user h name password x)
    unfolding insert_user connection_execute register_user
    register-IsAnswered =
        elim (Option-cases (h.database.execute sql_insert_user (name ∷ password ∷ []) w.db)) [
          | inl e ↦ rw (insert_user, connection_execute, e) on_fault
          | inr (db, e) ↦
              rw (insert_user, connection_execute, e)
                (found-IsAnswered 2 db _ (inr (inl refl)) refl)
        ]

    update-IsAnswered : OnOk (IsAnswered w) (
        update_password h password name w >>= λ x. ok (
          apollo_return_packet h
            (answer x.0 (ret_phone_success ∷ []) ret_phone_update_pwd_failed)
            x.1))
    unfolding update_password connection_execute
    update-IsAnswered =
        elim (Option-cases
          (h.database.execute sql_select_update_password (name ∷ password ∷ []) w.db)) [
            | inl e ↦ rw (update_password, connection_execute, e) on_fault
            | inr (db, e) ↦
                rw (update_password, connection_execute, e)
                  (on_ok _ (inr (codes "RETOK:" ++ replicate 6 0, db, inl refl, refl)))
          ]

  -- A packet on an account is never answered with a user id: whatever the packet and the database, the
  -- client is sent "RETOK:" with six zeroes, or the refusal with the reason 2 or 3, each of 12 bytes,
  -- and beside the database nothing else changes; or nothing happens; or the database throws. No packet
  -- is refused for a name that is taken or a password that cannot be changed.
  pub phone_operator_user_info-IsAnswered :
      (packet : Mem) (len : ℕ) (w : World h)
      → OnOk (IsAnswered w) (phone_operator_user_info h packet len w)
  unfolding phone_operator_user_info
  phone_operator_user_info-IsAnswered packet len w =
      let name = until_zero (slice packet 6 16) in
      let password = until_zero (slice packet 23 8) in
      OnOk-if (packet 5 == 0x71) _ _ (register-IsAnswered name password w) (
        OnOk-if (packet 5 == 0x72) _ _
          (found-IsAnswered name password w 3 w.db _ (inr (inr refl)) refl)
          (OnOk-if (packet 5 == 0x73) _ _ (update-IsAnswered name password w) (on_ok w (inl refl))))
