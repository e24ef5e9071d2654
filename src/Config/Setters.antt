-- ===== src/Config/Setters.antt =====
-- ne_common/neconfig.cpp: the setters. A pointer argument is not null.
use neshare.Base.{
  ℕ, ◌+◌, ◌-◌, min, Bool, false, ◌||◌, ◌==◌, nat_key, if◌then◌else◌, Bytes, Option, none, some, [],
  ◌∷◌, ◌++◌, length, get_elem?,
}
use neshare.Config.{Config, max_data_len, buffer}
use neshare.Config.Text.{ℤ, strncpy, put}

-- `setMaxNumUsers`
unfoldable pub set_max_num_users : ℤ → Config → Config
set_max_num_users v c = record c { max_num_users = v }

-- `setUserTTL`
unfoldable pub set_user_ttl : ℤ → Config → Config
set_user_ttl v c = record c { user_ttl = v }

-- `setUserPingDelay`
unfoldable pub set_user_ping_delay : ℤ → Config → Config
set_user_ping_delay v c = record c { user_ping_delay = v }

-- `setUserStatusDelay`
unfoldable pub set_user_status_delay : ℤ → Config → Config
set_user_status_delay v c = record c { user_status_delay = v }

-- `setMaxResults`
unfoldable pub set_max_results : ℤ → Config → Config
set_max_results v c = record c { max_results = v }

-- `setMinUserSharedFileLimit`
unfoldable pub set_min_user_shared_file_limit : ℤ → Config → Config
set_min_user_shared_file_limit v c = record c { min_user_shared_file_limit = v }

-- `setNumThreadedHandlers`
unfoldable pub set_num_threaded_handlers : ℤ → Config → Config
set_num_threaded_handlers v c = record c { num_threaded_handlers = v }

-- `setNumUserManagers`
unfoldable pub set_num_user_managers : ℤ → Config → Config
set_num_user_managers v c = record c { num_user_managers = v }

-- `setMaxMessagesToHandle`
unfoldable pub set_max_messages_to_handle : ℤ → Config → Config
set_max_messages_to_handle v c = record c { max_messages_to_handle = v }

-- `setNumReservedUserFiles`
unfoldable pub set_num_reserved_user_files : ℤ → Config → Config
set_num_reserved_user_files v c = record c { num_reserved_user_files = v }

-- `setUserMsgThrottle`
unfoldable pub set_user_msg_throttle : ℤ → Config → Config
set_user_msg_throttle v c = record c { user_msg_throttle = v }

-- `setClientMaxNumSends`
unfoldable pub set_client_max_num_sends : ℤ → Config → Config
set_client_max_num_sends v c = record c { client_max_num_sends = v }

-- `setClientMaxNumRecvs`
unfoldable pub set_client_max_num_recvs : ℤ → Config → Config
set_client_max_num_recvs v c = record c { client_max_num_recvs = v }

-- `setServerAcceptPort`
unfoldable pub set_server_accept_port : ℤ → Config → Config
set_server_accept_port v c = record c { server_accept_port = v }

-- `setClientControlPort`
unfoldable pub set_client_control_port : ℤ → Config → Config
set_client_control_port v c = record c { client_control_port = v }

-- `setClientForwardingPort`
unfoldable pub set_client_forwarding_port : ℤ → Config → Config
set_client_forwarding_port v c = record c { client_forwarding_port = v }

-- `setClientFirewallStatus`
unfoldable pub set_client_firewall_status : ℤ → Config → Config
set_client_firewall_status v c = record c { client_firewall_status = v }

-- `setClientConnectionSpeed`
unfoldable pub set_client_connection_speed : ℤ → Config → Config
set_client_connection_speed v c = record c { client_connection_speed = v }

-- `setMaxNumPeers`
unfoldable pub set_max_num_peers : ℤ → Config → Config
set_max_num_peers v c = record c { max_num_peers = v }

-- `setShowFilePath`
unfoldable pub set_show_file_path : ℤ → Config → Config
set_show_file_path v c = record c { show_file_path = v }

-- `setGoodbyeMessageFile`
unfoldable pub set_goodbye_message_file : Bytes → Config → Config
set_goodbye_message_file msg c = record c { goodbye_message_file = msg }

-- `setGreetingMessageFile`
unfoldable pub set_greeting_message_file : Bytes → Config → Config
set_greeting_message_file msg c = record c { greeting_message_file = msg }

-- `setLoginFailedMessageFile`
unfoldable pub set_login_failed_message_file : Bytes → Config → Config
set_login_failed_message_file msg c = record c { login_failed_message_file = msg }

-- `setInvalidMessageTypeFile`
unfoldable pub set_invalid_message_type_file : Bytes → Config → Config
set_invalid_message_type_file msg c = record c { invalid_message_type_file = msg }

-- `setServerAddress`
unfoldable pub set_server_address : Bytes → Config → Config
set_server_address s c = record c { server_address = strncpy c.server_address s max_data_len }

-- `setServerLog`
unfoldable pub set_server_log : Bytes → Config → Config
set_server_log s c = record c { server_log = strncpy c.server_log s max_data_len }

-- `setUserFilePageFile`, on a text that fits
unfoldable pub set_user_file_page_file : Bytes → Config → Config
set_user_file_page_file s c = record c { user_file_page_file = buffer s }

-- Is this the last character a slash or a backslash?
unfoldable pub ends_path : Option ℕ → Bool
ends_path (some b) = b == b'/' || b == 92
ends_path none = false

-- `setSavePath`: no end of string is written after a path that ends with a slash.
unfoldable pub set_save_path : Bytes → Config → Config
set_save_path s c =
    let len = min (length s) (max_data_len - 1) in
    let copied = strncpy c.save_path s len in
    if len == 0
    then c
    else if ends_path (get_elem? s (len - 1))
    then record c { save_path = copied }
    else record c { save_path = put (put copied len b'/') (len + 1) 0 }

-- `addDirectory`
unfoldable pub add_directory : Bytes → Config → Config
add_directory s c = record c { directories = c.directories ++ s ∷ [] }
