-- ===== src/Protocol/User.antt =====
-- `phoneOperatorUserInfo` of ApolloProtocol.c: accounts. `phoneAddDevice` and `deviceBaseStation` do
-- nothing.
use robot_server.Common.{
  ℕ, ◌-◌, ◌/◌, ◌%◌, length, List, [], ◌∷◌, ◌++◌, ◌==◌, replicate, if◌then◌else◌,
}
use robot_server.Common.Bytes.{Mem, slice}
use robot_server.Common.Outcome.{Outcome, ok, ◌>>=◌}
use robot_server.Wire.{
  idx_phone_command, idx_phone_username, idx_phone_password, len_phone_username, len_phone_password,
  cmd_phone_register_user, cmd_phone_signin_user, cmd_phone_update_pwd, ret_phone_success,
  ret_phone_getuserid_failed, ret_phone_signin_failed, ret_phone_userid_noexist,
  ret_phone_update_pwd_failed,
}
use robot_server.Util.Paths.{codes, until_zero}
use robot_server.Host.{Host, World, apollo_return_packet}
use robot_server.Sql.{
  ConnectionpoolResult, result_ok, noexist, noinsert, noupdate, insert_user, select_user_id,
  update_password,
}

-- The four bytes of a user id, the low one first.
abbrev pub id_bytes : ℕ → List ℕ
id_bytes n = n % 256 ∷ n / 256 % 256 ∷ n / 65536 % 256 ∷ n / 16777216 % 256 ∷ []

-- `retBuf`, of 12 bytes: "RETOK:", and what is copied to the offset 6.
abbrev pub return_ok : List ℕ → List ℕ
return_ok value = codes "RETOK:" ++ (value ++ replicate (6 - length value) 0)

-- "RETNO:" where there are 'N' and 'O' at offsets 3 and 4, and the reason.
abbrev pub return_no : ℕ → List ℕ
return_no reason = codes "RETNO:" ++ (reason ∷ replicate 5 0)

-- The answer with `value`, or with the reason of the failure.
abbrev pub answer : ConnectionpoolResult → List ℕ → ℕ → List ℕ
answer result_ok value reason = return_ok value
answer noexist value reason = return_no reason
answer noinsert value reason = return_no reason
answer noupdate value reason = return_no reason

module _ (h : Host) where
  -- `selectUserId` into `u32UserId`, which is 0, and the answer with it.
  unfoldable pub answer_user_id :
      (u8_user_name u8_password : List ℕ) → ℕ → World h → Outcome (World h)
  answer_user_id u8_user_name u8_password reason w = do
    (found, u32_user_id) ← select_user_id h u8_user_name u8_password 0 w
    ok (apollo_return_packet h (answer found (id_bytes u32_user_id) reason) w)

  unfoldable pub register_user :
      (u8_user_name u8_password : List ℕ) → ConnectionpoolResult × World h → Outcome (World h)
  register_user u8_user_name u8_password (result_ok, w) =
      answer_user_id u8_user_name u8_password ret_phone_getuserid_failed w
  register_user u8_user_name u8_password (_, w) =
      ok (apollo_return_packet h (return_no ret_phone_signin_failed) w)

  unfoldable pub phone_operator_user_info : Mem → ℕ → World h → Outcome (World h)
  phone_operator_user_info packet len w =
      let u8_user_name = until_zero (slice packet idx_phone_username len_phone_username) in
      let u8_password = until_zero (slice packet idx_phone_password len_phone_password) in
      let cmd = packet idx_phone_command in
      if cmd == cmd_phone_register_user
      then (do
        inserted ← insert_user h u8_user_name u8_password w
        register_user u8_user_name u8_password inserted)
      else if cmd == cmd_phone_signin_user
      then answer_user_id u8_user_name u8_password ret_phone_userid_noexist w
      else if cmd == cmd_phone_update_pwd
      then (do
        (updated, w') ← update_password h u8_password u8_user_name w
        ok (
            apollo_return_packet h
              (answer updated (ret_phone_success ∷ []) ret_phone_update_pwd_failed) w'))
      else ok w

  unfoldable pub phone_add_device : Mem → ℕ → World h → World h
  phone_add_device packet len w = w

  unfoldable pub device_base_station : Mem → ℕ → World h → World h
  device_base_station packet len w = w
