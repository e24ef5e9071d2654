-- ===== src/Config.antt =====
-- ne_common/neconfig.h and neconfig.cpp: the settings and their defaults. An `int` is
-- a whole number; the four messages are never null.
pub mod Text
pub mod Setters
pub mod SavePath
pub mod Reading
pub mod Writing
pub mod Lines
pub mod Printed
pub mod Written
pub mod ServerFile
pub mod ClientFile
mod Tests
use neshare.Base.{
  ℕ, ◌+◌, ◌-◌, min, Bool, not, ◌&&◌, ◌==◌, nat_key, if◌then◌else◌, Bytes, Option, none, some, List,
  [], ◌∷◌, ◌++◌, length, get_elem?, take, drop, replicate,
}
use neshare.Config.Text.{ℤ, pos, codes, strncpy, put}

-- `NE_MSG_MAX_DATA_LEN` and `NESERVER_MAX_NAME_LEN`
abbrev pub max_data_len : ℕ
max_data_len = 256

pub record Config : Type 0 where
  pub max_num_users : ℤ
  pub user_ttl : ℤ
  pub user_ping_delay : ℤ
  pub user_status_delay : ℤ
  pub max_results : ℤ
  pub min_user_shared_file_limit : ℤ
  pub num_threaded_handlers : ℤ
  pub num_user_managers : ℤ
  pub max_messages_to_handle : ℤ
  pub num_reserved_user_files : ℤ
  pub user_msg_throttle : ℤ
  pub client_max_num_sends : ℤ
  pub client_max_num_recvs : ℤ
  pub server_accept_port : ℤ
  pub client_control_port : ℤ
  pub client_forwarding_port : ℤ
  pub client_firewall_status : ℤ
  pub client_connection_speed : ℤ
  pub max_num_peers : ℤ
  pub show_file_path : ℤ
  pub goodbye_message_file : Bytes
  pub greeting_message_file : Bytes
  pub login_failed_message_file : Bytes
  pub invalid_message_type_file : Bytes
  pub server_address : Bytes
  pub save_path : Bytes
  pub server_log : Bytes
  pub user_file_page_file : Bytes
  pub directories : List Bytes

-- An array that holds this text and zeros
abbrev pub buffer : Bytes → Bytes
buffer s = strncpy (replicate max_data_len 0) s max_data_len

-- `reset`, which leaves the messages
unfoldable pub reset : Config → Config
reset c = record c {
  max_num_users = pos 128;
  user_ttl = pos 180;
  user_ping_delay = pos 180;
  user_status_delay = pos 30;
  max_results = pos 1000;
  min_user_shared_file_limit = pos 0;
  num_threaded_handlers = pos 4;
  num_user_managers = pos 4;
  max_messages_to_handle = pos 1;
  num_reserved_user_files = pos 100000;
  user_msg_throttle = pos 10000;
  client_max_num_sends = pos 4;
  client_max_num_recvs = pos 4;
  server_accept_port = pos 12414;
  client_control_port = pos 12415;
  client_forwarding_port = pos 0;
  client_firewall_status = pos 0;
  client_connection_speed = pos 0;
  max_num_peers = pos 5;
  show_file_path = pos 0;
  server_address = buffer (codes "localhost");
  save_path = buffer (codes "/tmp");
  server_log = buffer (codes "neshare.log");
  user_file_page_file = buffer (codes "/tmp/ufpage");
  directories = [];
}

-- The members before the constructor runs: the C++ object starts without values
abbrev blank : Config
blank = record {
  max_num_users = pos 0;
  user_ttl = pos 0;
  user_ping_delay = pos 0;
  user_status_delay = pos 0;
  max_results = pos 0;
  min_user_shared_file_limit = pos 0;
  num_threaded_handlers = pos 0;
  num_user_managers = pos 0;
  max_messages_to_handle = pos 0;
  num_reserved_user_files = pos 0;
  user_msg_throttle = pos 0;
  client_max_num_sends = pos 0;
  client_max_num_recvs = pos 0;
  server_accept_port = pos 0;
  client_control_port = pos 0;
  client_forwarding_port = pos 0;
  client_firewall_status = pos 0;
  client_connection_speed = pos 0;
  max_num_peers = pos 0;
  show_file_path = pos 0;
  goodbye_message_file = [];
  greeting_message_file = [];
  login_failed_message_file = [];
  invalid_message_type_file = [];
  server_address = replicate max_data_len 0;
  save_path = replicate max_data_len 0;
  server_log = replicate max_data_len 0;
  user_file_page_file = replicate max_data_len 0;
  directories = [];
}

-- The constructor
unfoldable pub new : Config
new = reset (record blank {
  goodbye_message_file = codes "Thanks for visiting.  Please come again.\n\n";
  greeting_message_file = codes "Welcome to our NEshare Server!\n\n";
  login_failed_message_file = codes "Too many users connected. Please try again later.\n\n";
  invalid_message_type_file = codes "Invalid message type.  Protocol violation.\n\n";
})
