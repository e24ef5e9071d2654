-- ===== src/Config/Tests.antt =====
-- Runs of ne_common/neconfig.cpp on the default settings.
use neshare.Base.{
  ℕ, ◌≡◌, refl, Bool, true, not, ◌&&◌, ◌==◌, nat_key, bytes_key, Bytes, [], ◌∷◌, arith,
}
use neshare.Config.{Config, new, reset}
use neshare.Config.Writing.{write_config_file, writable}
use neshare.Config.Lines.{IsWord, IsInt}
use neshare.Config.ServerFile.{IsServerConfig, server_settings, read_config_file-write_server}
use neshare.Config.ClientFile.{IsClientConfig, client_settings, read_config_file-write_client}
use neshare.Config.SavePath.{set_save_path-c_str}
use neshare.Config.Text.{
  pos, negsuc, codes, c_str, print_int, atoi, strncpy, is_space, skip_space, token, scan_value,
  scan, starts_with, is_digit, atoi_digits, negated, atoi_signed, digits, begin_line, fgets_lines,
}
use neshare.Config.Setters.{set_save_path, ends_path, set_server_address}
use neshare.Config.Reading.{
  Disk, read_config_file, read_result, read_lines, read_line, read_row, can_ignore_line,
  find_option, perform, set_message, file_to_str, options,
}

atoi-print : atoi (print_int (negsuc 41)) ≡ negsuc 41
unfolding atoi print_int digits atoi_signed skip_space is_space atoi_digits is_digit negated
atoi-print = refl

abbrev disk : Disk
disk =
    (codes "config", codes "# comment\r\nUSERTTL = 77\r\nMAXRESULTS=5\nUSERTTLX = 3\nSERVER = h")
    ∷ []

unfoldable result : ℕ × Config
result = read_config_file disk (codes "config") new

lines_read :
    (result.0 ≡ 0)
    × (result.1.user_ttl ≡ pos 77)
    × (result.1.max_results ≡ pos 5)
    × (c_str result.1.server_address ≡ codes "h")
unfolding read_result result read_config_file read_lines read_line read_row can_ignore_line
    find_option perform options file_to_str set_message new reset strncpy scan scan_value skip_space
    is_space token starts_with atoi atoi_signed atoi_digits is_digit negated fgets_lines begin_line
    c_str set_server_address
lines_read = (refl, refl, refl, refl)

is_word : Bytes → Bool
is_word [] = true
is_word (b ∷ bs) = not (is_space b) && (not (b == 0) && is_word bs)

is_word-IsWord : (v : Bytes) → is_word v ≡ true → IsWord v
unfolding is_word
is_word-IsWord [] h = tt
is_word-IsWord (b ∷ bs) h =
    (ground (arith, h), ground (arith, h), is_word-IsWord bs (ground (arith, h)))

abbrev saved : ℕ → Disk
saved type = (codes "config", (write_config_file writable type new).1) ∷ []

new-IsServerConfig : IsServerConfig new
unfolding IsInt new reset c_str strncpy is_word is_space
new-IsServerConfig = record {
  max_num_users = omega arith;
  user_ttl = omega arith;
  user_ping_delay = omega arith;
  user_status_delay = omega arith;
  max_results = omega arith;
  show_file_path = omega arith;
  server_accept_port = omega arith;
  num_threaded_handlers = omega arith;
  num_user_managers = omega arith;
  max_messages_to_handle = omega arith;
  server_log = (is_word-IsWord (codes "neshare.log") refl, omega arith);
  user_file_page_file = (is_word-IsWord (codes "/tmp/ufpage") refl, omega arith);
  num_reserved_user_files = omega arith;
  user_msg_throttle = omega arith;
}

new-IsClientConfig : IsClientConfig new
unfolding IsInt new reset c_str strncpy is_word is_space
new-IsClientConfig = record {
  server_address = (is_word-IsWord (codes "localhost") refl, omega arith);
  server_accept_port = omega arith;
  max_num_peers = omega arith;
  client_control_port = omega arith;
  client_firewall_status = omega arith;
  client_connection_speed = omega arith;
  show_file_path = omega arith;
  save_path = (is_word-IsWord (codes "/tmp") refl, omega arith);
  client_max_num_sends = omega arith;
  client_max_num_recvs = omega arith;
  directories = tt;
}

abbrev changed : Config
changed = record new {
  show_file_path = pos 1;
  min_user_shared_file_limit = pos 7;
  client_forwarding_port = pos 99;
}

read_config_file-write_server_example :
    let r = read_config_file (saved 2) (codes "config") changed in
    (r ≡ (0, server_settings new changed))
    × (c_str r.1.server_log ≡ c_str new.server_log)
    × (c_str r.1.user_file_page_file ≡ c_str new.user_file_page_file)
    × (r.1.goodbye_message_file ≡ changed.goodbye_message_file)
    × (r.1.greeting_message_file ≡ changed.greeting_message_file)
    × (r.1.login_failed_message_file ≡ changed.login_failed_message_file)
    × (r.1.invalid_message_type_file ≡ changed.invalid_message_type_file)
read_config_file-write_server_example =
    read_config_file-write_server (saved 2) (codes "config") new changed new-IsServerConfig refl

read_config_file-write_client_example :
    let r = read_config_file (saved 1) (codes "config") changed in
    (r ≡ (0, client_settings new changed))
    × (c_str r.1.server_address ≡ c_str new.server_address)
    × (c_str r.1.save_path ≡ c_str new.save_path)
    × (r.1.client_forwarding_port ≡ pos 99)
read_config_file-write_client_example =
    read_config_file-write_client (saved 1) (codes "config") new changed new-IsClientConfig refl

set_save_path-c_str_example : c_str (set_save_path (codes "/a/") new).save_path ≡ codes "/a/p"
unfolding ends_path new reset strncpy c_str
set_save_path-c_str_example =
    set_save_path-c_str (codes "/a/") new (omega arith) (omega arith) refl refl
