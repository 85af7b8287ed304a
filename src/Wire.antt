-- ===== src/Wire.antt =====
-- The constants of ApolloProtocol.h: packet headers, field positions, lengths and command codes.
use robot_server.Common.{ℕ, ◌*◌, ◌-◌}

abbrev pub idx_phone_id : ℕ
idx_phone_id = 1

abbrev pub idx_phone_command : ℕ
idx_phone_command = 5

abbrev pub idx_device_id : ℕ
idx_device_id = 1

abbrev pub idx_phone_cmd_index : ℕ
idx_phone_cmd_index = 6

abbrev pub idx_phone_cmd_number : ℕ
idx_phone_cmd_number = 7

abbrev pub len_device_id : ℕ
len_device_id = 8

abbrev pub len_phone_id : ℕ
len_phone_id = 4

abbrev pub len_phone_number : ℕ
len_phone_number = 8

abbrev pub len_block_buffer : ℕ
len_block_buffer = 32 * 1024

abbrev pub len_block_packet : ℕ
len_block_packet = 1024

abbrev pub len_header_length : ℕ
len_header_length = 32

abbrev pub len_block_data : ℕ
len_block_data = len_block_packet - len_header_length

-- `MULTICAST_DATA_TYPE`
abbrev pub multicast_type_block : ℕ
multicast_type_block = 0x31

abbrev pub multicast_type_agps : ℕ
multicast_type_agps = 0x32

abbrev pub hdr_heart_packet_device : ℕ
hdr_heart_packet_device = 0x48

abbrev pub hdr_heart_packet_phone : ℕ
hdr_heart_packet_phone = 0x50

abbrev pub hdr_command_packet : ℕ
hdr_command_packet = 0x43

abbrev pub hdr_location_data : ℕ
hdr_location_data = 0x47

abbrev pub hdr_info_return : ℕ
hdr_info_return = 0x52

abbrev pub hdr_add_device : ℕ
hdr_add_device = 0x41

abbrev pub hdr_operator_user_info : ℕ
hdr_operator_user_info = 0x55

abbrev pub hdr_base_station_device : ℕ
hdr_base_station_device = 0x42

abbrev pub hdr_block_data_recv : ℕ
hdr_block_data_recv = 0x56

abbrev pub hdr_block_data_send : ℕ
hdr_block_data_send = 0x44

abbrev pub idx_device_power : ℕ
idx_device_power = 9

abbrev pub idx_device_heartpacket_timestamp : ℕ
idx_device_heartpacket_timestamp = 24

abbrev pub idx_device_locationtype : ℕ
idx_device_locationtype = 9

abbrev pub idx_device_gps_longitude : ℕ
idx_device_gps_longitude = 10

abbrev pub idx_device_gps_latitude : ℕ
idx_device_gps_latitude = 15

abbrev pub idx_device_gps_timestamp : ℕ
idx_device_gps_timestamp = 20

abbrev pub idx_device_gps_high : ℕ
idx_device_gps_high = 24

abbrev pub idx_device_return_command : ℕ
idx_device_return_command = 3

abbrev pub idx_device_return_index : ℕ
idx_device_return_index = 4

abbrev pub idx_device_return_phnum : ℕ
idx_device_return_phnum = 5

abbrev pub idx_phone_username : ℕ
idx_phone_username = 6

abbrev pub idx_phone_password : ℕ
idx_phone_password = 23

abbrev pub idx_phone_return_userid : ℕ
idx_phone_return_userid = 6

abbrev pub len_heart_packet_device : ℕ
len_heart_packet_device = 32

abbrev pub len_heart_packet_phone : ℕ
len_heart_packet_phone = 8

abbrev pub len_gps_location_data : ℕ
len_gps_location_data = 32

abbrev pub len_lab_location_data : ℕ
len_lab_location_data = 48

abbrev pub len_command_packet : ℕ
len_command_packet = 16

abbrev pub len_device_download : ℕ
len_device_download = 16

abbrev pub len_device_info : ℕ
len_device_info = 12

abbrev pub len_longitude_data : ℕ
len_longitude_data = 5

abbrev pub len_latitude_data : ℕ
len_latitude_data = 5

abbrev pub len_phone_username : ℕ
len_phone_username = 16

abbrev pub len_phone_password : ℕ
len_phone_password = 8

abbrev pub len_device_return_buffer : ℕ
len_device_return_buffer = 6

abbrev pub len_device_heartpacket_return_buffer : ℕ
len_device_heartpacket_return_buffer = 20

abbrev pub cmd_phone_device_reset : ℕ
cmd_phone_device_reset = 0x1A

abbrev pub cmd_phone_register_user : ℕ
cmd_phone_register_user = 0x71

abbrev pub cmd_phone_signin_user : ℕ
cmd_phone_signin_user = 0x72

abbrev pub cmd_phone_update_pwd : ℕ
cmd_phone_update_pwd = 0x73

abbrev pub cmd_phone_bind_device : ℕ
cmd_phone_bind_device = 0x31

abbrev pub cmd_phone_unbind_device : ℕ
cmd_phone_unbind_device = 0x32

abbrev pub cmd_phone_device_realtime_location : ℕ
cmd_phone_device_realtime_location = 0x01

abbrev pub cmd_phone_device_download : ℕ
cmd_phone_device_download = 0x02

abbrev pub cmd_phone_device_countstep_open : ℕ
cmd_phone_device_countstep_open = 0x03

abbrev pub cmd_phone_device_countstep_close : ℕ
cmd_phone_device_countstep_close = 0x04

abbrev pub cmd_phone_device_sleepquilty_open : ℕ
cmd_phone_device_sleepquilty_open = 0x05

abbrev pub cmd_phone_device_sleepquilty_close : ℕ
cmd_phone_device_sleepquilty_close = 0x06

abbrev pub cmd_phone_device_alarm : ℕ
cmd_phone_device_alarm = 0x08

abbrev pub cmd_phone_device_safezone_alarm : ℕ
cmd_phone_device_safezone_alarm = 0x09

abbrev pub cmd_phone_device_longsat_alarm : ℕ
cmd_phone_device_longsat_alarm = 0x0A

abbrev pub cmd_phone_device_lowpower_alarm : ℕ
cmd_phone_device_lowpower_alarm = 0x0B

abbrev pub cmd_phone_device_familynumber_set : ℕ
cmd_phone_device_familynumber_set = 0x41

abbrev pub cmd_phone_device_contract_set : ℕ
cmd_phone_device_contract_set = 0x42

abbrev pub cmd_phone_device_phonebook_set : ℕ
cmd_phone_device_phonebook_set = 0x43

abbrev pub cmd_phone_device_freq_set : ℕ
cmd_phone_device_freq_set = 0x44

abbrev pub cmd_phone_device_sos_msgremainer_open : ℕ
cmd_phone_device_sos_msgremainer_open = 0x51

abbrev pub cmd_phone_device_sos_msgremainer_close : ℕ
cmd_phone_device_sos_msgremainer_close = 0x52

abbrev pub cmd_phone_device_power_msgremainder_open : ℕ
cmd_phone_device_power_msgremainder_open = 0x53

abbrev pub cmd_phone_device_power_msgremainder_close : ℕ
cmd_phone_device_power_msgremainder_close = 0x54

abbrev pub cmd_phone_device_alarmmusic_open : ℕ
cmd_phone_device_alarmmusic_open = 0x61

abbrev pub cmd_phone_device_alarmmusic_close : ℕ
cmd_phone_device_alarmmusic_close = 0x62

abbrev pub cmd_phone_device_safezonemusic_open : ℕ
cmd_phone_device_safezonemusic_open = 0x63

abbrev pub cmd_phone_device_safezonemusic_close : ℕ
cmd_phone_device_safezonemusic_close = 0x64

abbrev pub cmd_phone_device_sos_clear : ℕ
cmd_phone_device_sos_clear = 0x21

abbrev pub cmd_phone_device_agps_download : ℕ
cmd_phone_device_agps_download = 0x2B

abbrev pub cmd_phone_buzzer_device_open : ℕ
cmd_phone_buzzer_device_open = 0x81

abbrev pub cmd_phone_buzzer_device_close : ℕ
cmd_phone_buzzer_device_close = 0x82

abbrev pub cmd_phone_light1_device_open : ℕ
cmd_phone_light1_device_open = 0x83

abbrev pub cmd_phone_light1_device_close : ℕ
cmd_phone_light1_device_close = 0x84

abbrev pub cmd_phone_light2_device_open : ℕ
cmd_phone_light2_device_open = 0x85

abbrev pub cmd_phone_light2_device_close : ℕ
cmd_phone_light2_device_close = 0x86

abbrev pub ret_phone_success : ℕ
ret_phone_success = 0x00

abbrev pub ret_phone_getuserid_failed : ℕ
ret_phone_getuserid_failed = 0x02

abbrev pub ret_phone_signin_failed : ℕ
ret_phone_signin_failed = 0x11

abbrev pub ret_phone_userid_noexist : ℕ
ret_phone_userid_noexist = 0x03

abbrev pub ret_phone_update_pwd_failed : ℕ
ret_phone_update_pwd_failed = 0x04
