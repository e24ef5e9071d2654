-- ===== src/Config/ServerFile.antt =====
-- ne_common/neconfig.cpp: what `readConfigFile` finds in a file that `writeConfigFile` wrote with
-- `NECFG_SERVER_FIELDS`.
use neshare.Base.{
  bytes_key, nat_key, ℕ, ◌≡◌, refl, ap, ◌∙◌, ◌++◌, some, Bytes, lookup, append-nil, arith,
}
use neshare.Config.{Config, max_data_len}
use neshare.Config.Text.{starts_with, codes, c_str, strncpy, strcpy}
use neshare.Config.Setters.{set_server_log}
use neshare.Config.Reading.{
  Disk, options, find_option, can_ignore_line, read_lines, perform, read_config_file, text, row,
}
use neshare.Config.Writing.{
  text_line, print_text, concat, server_lines, file_header, write_config_file, writable,
  has_server_fields, has_client_fields,
}
use neshare.Config.Lines.{IsInt, c_str-strncpy, c_str-strcpy}
use neshare.Config.Written.{IsValue, comment-IsLine, read_config_file-written}
use neshare.Config.Printed.{
  AreLines, ◌◂◌, no_lines, read_comment, read_nothing, print_number-IsLine, read_text, read_number,
  print_text-IsLine,
}

-- The settings of a server fit in their lines.
pub record IsServerConfig (c : Config) : Type 0 where
  pub max_num_users : IsInt c.max_num_users
  pub user_ttl : IsInt c.user_ttl
  pub user_ping_delay : IsInt c.user_ping_delay
  pub user_status_delay : IsInt c.user_status_delay
  pub max_results : IsInt c.max_results
  pub show_file_path : IsInt c.show_file_path
  pub server_accept_port : IsInt c.server_accept_port
  pub num_threaded_handlers : IsInt c.num_threaded_handlers
  pub num_user_managers : IsInt c.num_user_managers
  pub max_messages_to_handle : IsInt c.max_messages_to_handle
  pub server_log : IsValue (c_str c.server_log)
  pub user_file_page_file : IsValue (c_str c.user_file_page_file)
  pub num_reserved_user_files : IsInt c.num_reserved_user_files
  pub user_msg_throttle : IsInt c.user_msg_throttle

-- The settings `d` after those of a server are read from the file of `c`.
abbrev pub server_settings : Config → Config → Config
server_settings c d = record d {
  max_num_users = c.max_num_users;
  user_ttl = c.user_ttl;
  user_ping_delay = c.user_ping_delay;
  user_status_delay = c.user_status_delay;
  max_results = c.max_results;
  min_user_shared_file_limit = c.show_file_path;
  server_accept_port = c.server_accept_port;
  num_threaded_handlers = c.num_threaded_handlers;
  num_user_managers = c.num_user_managers;
  max_messages_to_handle = c.max_messages_to_handle;
  server_log = strncpy d.server_log (c_str c.server_log) max_data_len;
  user_file_page_file = strcpy d.user_file_page_file (c_str c.user_file_page_file);
  num_reserved_user_files = c.num_reserved_user_files;
  user_msg_throttle = c.user_msg_throttle;
}

abbrev set_page_file : Bytes → Config → Config
set_page_file v e = record e { user_file_page_file = strcpy e.user_file_page_file v }

server_lines-read :
    (disk : Disk) (c d : Config)
    → IsServerConfig c
    → read_lines disk (server_lines c) (d, 0) ≡ (server_settings c d, 14)
unfolding server_lines can_ignore_line find_option options text_line print_text starts_with perform
    set_server_log
server_lines-read disk c d h =
    read_number disk (codes "MAXNUMUSERS") c.max_num_users (λ v e. record e { max_num_users = v }) _
      d 0 (omega arith) h.max_num_users refl refl
    ∙ read_number disk (codes "USERTTL") c.user_ttl (λ v e. record e { user_ttl = v }) _ _ 1
        (omega arith) h.user_ttl refl refl
    ∙ read_number disk (codes "USERPINGDELAY") c.user_ping_delay
        (λ v e. record e { user_ping_delay = v }) _ _ 2 (omega arith) h.user_ping_delay refl refl
    ∙ read_number disk (codes "USERSTATUSDELAY") c.user_status_delay
        (λ v e. record e { user_status_delay = v }) _ _ 3 (omega arith) h.user_status_delay refl
        refl
    ∙ read_number disk (codes "MAXRESULTS") c.max_results (λ v e. record e { max_results = v }) _ _
        4 (omega arith) h.max_results refl refl
    ∙ read_number disk (codes "MINUSERSHAREDFILELIMIT") c.show_file_path
        (λ v e. record e { min_user_shared_file_limit = v }) _ _ 5 (omega arith) h.show_file_path
        refl refl
    ∙ read_number disk (codes "SERVERACCEPTPORT") c.server_accept_port
        (λ v e. record e { server_accept_port = v }) _ _ 6 (omega arith) h.server_accept_port refl
        refl
    ∙ read_number disk (codes "NUMTHREADEDHANDLERS") c.num_threaded_handlers
        (λ v e. record e { num_threaded_handlers = v }) _ _ 7 (omega arith) h.num_threaded_handlers
        refl refl
    ∙ read_number disk (codes "NUMUSERMANAGERS") c.num_user_managers
        (λ v e. record e { num_user_managers = v }) _ _ 8 (omega arith) h.num_user_managers refl
        refl
    ∙ read_number disk (codes "MAXNUMMESSAGESTOHANDLE") c.max_messages_to_handle
        (λ v e. record e { max_messages_to_handle = v }) _ _ 9 (omega arith)
        h.max_messages_to_handle refl refl
    ∙ read_text disk (codes "SERVERLOG") (c_str c.server_log)
        (row (codes "SERVERLOG") (text set_server_log)) _ _ 10 (omega arith) h.server_log.0
        h.server_log.1 refl refl refl
    ∙ read_comment disk _ _ (_, 11) refl
    ∙ read_comment disk _ _ (_, 11) refl
    ∙ read_comment disk _ _ (_, 11) refl
    ∙ read_comment disk _ _ (_, 11) refl
    ∙ read_text disk (codes "USERFILEPAGEFILE") (c_str c.user_file_page_file)
        (row (codes "USERFILEPAGEFILE") (text set_page_file)) _ _ 11 (omega arith)
        h.user_file_page_file.0 h.user_file_page_file.1 refl refl refl
    ∙ read_number disk (codes "NUMRESERVEDUSERFILES") c.num_reserved_user_files
        (λ v e. record e { num_reserved_user_files = v }) _ _ 12 (omega arith)
        h.num_reserved_user_files refl refl
    ∙ read_number disk (codes "USERMSGTHROTTLE") c.user_msg_throttle
        (λ v e. record e { user_msg_throttle = v }) _ _ 13 (omega arith) h.user_msg_throttle refl
        refl
    ∙ read_nothing disk _

server_lines-AreLines : (c : Config) → IsServerConfig c → AreLines (server_lines c)
unfolding server_lines print_text text_line
server_lines-AreLines c h =
    print_number-IsLine (codes "MAXNUMUSERS") c.max_num_users (refl, omega arith)
    ◂ print_number-IsLine (codes "USERTTL") c.user_ttl (refl, omega arith)
    ◂ print_number-IsLine (codes "USERPINGDELAY") c.user_ping_delay (refl, omega arith)
    ◂ print_number-IsLine (codes "USERSTATUSDELAY") c.user_status_delay (refl, omega arith)
    ◂ print_number-IsLine (codes "MAXRESULTS") c.max_results (refl, omega arith)
    ◂ print_number-IsLine (codes "MINUSERSHAREDFILELIMIT") c.show_file_path (refl, omega arith)
    ◂ print_number-IsLine (codes "SERVERACCEPTPORT") c.server_accept_port (refl, omega arith)
    ◂ print_number-IsLine (codes "NUMTHREADEDHANDLERS") c.num_threaded_handlers (refl, omega arith)
    ◂ print_number-IsLine (codes "NUMUSERMANAGERS") c.num_user_managers (refl, omega arith)
    ◂ print_number-IsLine (codes "MAXNUMMESSAGESTOHANDLE") c.max_messages_to_handle
        (refl, omega arith)
    ◂ print_text-IsLine (codes "SERVERLOG") (c_str c.server_log) (refl, omega arith) h.server_log.0
        h.server_log.1
    ◂ comment-IsLine (codes "# GOODBYEMESSAGEFILE = goodbye.txt\r") refl (omega arith)
    ◂ comment-IsLine (codes "# GREETINGMESSAGEFILE = greeting.txt\r") refl (omega arith)
    ◂ comment-IsLine (codes "# LOGINFAILEDMESSAGEFILE = loginfailed.txt\r") refl (omega arith)
    ◂ comment-IsLine (codes "# INVALIDMESSAGETYPEFILE = invalidmessage.txt\r") refl (omega arith)
    ◂ print_text-IsLine (codes "USERFILEPAGEFILE") (c_str c.user_file_page_file) (refl, omega arith)
        h.user_file_page_file.0 h.user_file_page_file.1
    ◂ print_number-IsLine (codes "NUMRESERVEDUSERFILES") c.num_reserved_user_files
        (refl, omega arith)
    ◂ print_number-IsLine (codes "USERMSGTHROTTLE") c.user_msg_throttle (refl, omega arith)
    ◂ no_lines

write_server :
    (c : Config) → (write_config_file writable 2 c).1 ≡ file_header ++ concat (server_lines c)
unfolding write_config_file has_server_fields has_client_fields
write_server c = ap (◌++◌ file_header) (append-nil (concat (server_lines c)))

-- A file that was written for a server is read with success, whatever the settings were before. It
-- gives the numbers and the names of the log and of the page file as they were, but for the limit on
-- shared files: that one becomes the flag that says whether paths are shown. The messages of the
-- server are not in the file: the four of them stay what they were before the reading. The numbers
-- fit in an int; the two file names are words of at most 200 characters.
pub read_config_file-write_server :
    (disk : Disk) (name : Bytes) (c d : Config)
    → IsServerConfig c
    → lookup name disk ≡ some (write_config_file writable 2 c).1
    → let r = read_config_file disk name d in
      (r ≡ (0, server_settings c d))
      × (c_str r.1.server_log ≡ c_str c.server_log)
      × (c_str r.1.user_file_page_file ≡ c_str c.user_file_page_file)
      × (r.1.goodbye_message_file ≡ d.goodbye_message_file)
      × (r.1.greeting_message_file ≡ d.greeting_message_file)
      × (r.1.login_failed_message_file ≡ d.login_failed_message_file)
      × (r.1.invalid_message_type_file ≡ d.invalid_message_type_file)
read_config_file-write_server disk name c d h there =
    let read : read_config_file disk name d ≡ (0, server_settings c d) =
      read_config_file-written disk name (write_config_file writable 2 c).1 (server_lines c) d
        (server_settings c d) 14 there (write_server c) (server_lines-AreLines c h)
        (server_lines-read disk c d h) (omega arith) in
    (
      read,
      ap (λ (r : ℕ × Config). c_str r.1.server_log) read
          ∙ c_str-strncpy d.server_log (c_str c.server_log) max_data_len h.server_log.0
              (omega (arith, h.server_log.1)),
      ap (λ (r : ℕ × Config). c_str r.1.user_file_page_file) read
          ∙ c_str-strcpy d.user_file_page_file (c_str c.user_file_page_file)
              h.user_file_page_file.0,
      ap (λ (r : ℕ × Config). r.1.goodbye_message_file) read,
      ap (λ (r : ℕ × Config). r.1.greeting_message_file) read,
      ap (λ (r : ℕ × Config). r.1.login_failed_message_file) read,
      ap (λ (r : ℕ × Config). r.1.invalid_message_type_file) read,
    )
