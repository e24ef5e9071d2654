-- ===== src/Config/Reading.antt =====
-- ne_common/neconfig.cpp: `readConfigFile`. The tests of a line are the rows of a table, in the order
-- of the source; a file is its text, and the files that it names are a map.
use neshare.Base.{
  ℕ, ◌+◌, Bool, false, ◌||◌, ltb, ◌==◌, nat_key, bytes_key, if◌then◌else◌, Bytes, Option, none,
  some, List, [], ◌∷◌, ◌++◌, Dict, lookup,
}
use neshare.Config.{Config, max_data_len}
use neshare.Config.Setters.{
  set_goodbye_message_file, set_greeting_message_file, set_login_failed_message_file,
  set_invalid_message_type_file, set_server_address, set_server_log,
}
use neshare.Config.Text.{ℤ, codes, strncpy, strcpy, c_str, scan, starts_with, atoi, fgets_lines}

-- What is done with the value of an option
pub data Action : Type 0 where
  number : (ℤ → Config → Config) → Action
  text : (Bytes → Config → Config) → Action
  message : (Bytes → Config → Config) → Action

-- An option: what `memcmp` looks for, the name in the format of `sscanf`, and what is done
pub record Row : Type 0 where
  pub prefix : Bytes
  pub name : Bytes
  pub action : Action

abbrev pub row : Bytes → Action → Row
row name action = record { prefix = name; name = name; action = action }

-- Places and ports
abbrev place_options : List Row
place_options =
    row (codes "DIRECTORY") (text (λ v c. record c { directories = c.directories ++ v ∷ [] }))
    ∷ record { prefix = codes "SERVER "; name = codes "SERVER"; action = text set_server_address }
    ∷ row (codes "SAVEPATH")
        (text (λ v c. record c { save_path = strncpy c.save_path v max_data_len }))
    ∷ row (codes "SERVERLOG") (text set_server_log)
    ∷ row (codes "SERVERACCEPTPORT") (number (λ v c. record c { server_accept_port = v }))
    ∷ row (codes "CLIENTCONTROLPORT") (number (λ v c. record c { client_control_port = v }))
    ∷ []

-- Limits and flags
abbrev limit_options : List Row
limit_options =
    row (codes "MAXNUMUSERS") (number (λ v c. record c { max_num_users = v }))
    ∷ row (codes "MAXNUMPEERS") (number (λ v c. record c { max_num_peers = v }))
    ∷ row (codes "USERTTL") (number (λ v c. record c { user_ttl = v }))
    ∷ row (codes "CLIENTCONNECTIONSPEED") (number (λ v c. record c { client_connection_speed = v }))
    ∷ row (codes "USERPINGDELAY") (number (λ v c. record c { user_ping_delay = v }))
    ∷ row (codes "USERSTATUSDELAY") (number (λ v c. record c { user_status_delay = v }))
    ∷ row (codes "MAXRESULTS") (number (λ v c. record c { max_results = v }))
    ∷ row (codes "SHOWFILEPATH") (number (λ v c. record c { show_file_path = v }))
    ∷ row (codes "CLIENTFIREWALLSTATUS") (number (λ v c. record c { client_firewall_status = v }))
    ∷ row (codes "MINUSERSHAREDFILELIMIT")
        (number (λ v c. record c { min_user_shared_file_limit = v }))
    ∷ []

-- Messages
abbrev message_options : List Row
message_options =
    row (codes "GOODBYEMESSAGEFILE") (message set_goodbye_message_file)
    ∷ row (codes "GREETINGMESSAGEFILE") (message set_greeting_message_file)
    ∷ row (codes "LOGINFAILEDMESSAGEFILE") (message set_login_failed_message_file)
    ∷ row (codes "INVALIDMESSAGETYPEFILE") (message set_invalid_message_type_file)
    ∷ []

-- Handlers, pages and throttles
abbrev handler_options : List Row
handler_options =
    row (codes "NUMTHREADEDHANDLERS") (number (λ v c. record c { num_threaded_handlers = v }))
    ∷ row (codes "NUMUSERMANAGERS") (number (λ v c. record c { num_user_managers = v }))
    ∷ row (codes "MAXNUMMESSAGESTOHANDLE") (number (λ v c. record c { max_messages_to_handle = v }))
    ∷ row (codes "USERFILEPAGEFILE")
        (text (λ v c. record c { user_file_page_file = strcpy c.user_file_page_file v }))
    ∷ row (codes "NUMRESERVEDUSERFILES") (number (λ v c. record c { num_reserved_user_files = v }))
    ∷ row (codes "USERMSGTHROTTLE") (number (λ v c. record c { user_msg_throttle = v }))
    ∷ row (codes "MAXNUMSENDS") (number (λ v c. record c { client_max_num_sends = v }))
    ∷ row (codes "MAXNUMRECVS") (number (λ v c. record c { client_max_num_recvs = v }))
    ∷ []

-- The options, in the order in which a line is tested for them
unfoldable pub options : List Row
options = place_options ++ (limit_options ++ (message_options ++ handler_options))

-- The contents of the files by their names
abbrev pub Disk : Type 0
Disk = Dict Bytes Bytes

-- `neUtils::fileToStr`: the empty text for a file that cannot be opened
unfoldable pub file_to_str : Disk → Bytes → Bytes
file_to_str disk name = elim (lookup name disk) [ none ↦ [] | some bytes ↦ c_str bytes ]

-- A message is taken from the file unless that is empty.
unfoldable pub set_message : (Bytes → Config → Config) → Bytes → Config → Config
set_message set [] c = c
set_message set (b ∷ bs) c = set (b ∷ bs) c

unfoldable pub perform : Disk → Action → Bytes → Config → Config
perform disk (number set) v c = set (atoi v) c
perform disk (text set) v c = set v c
perform disk (message set) v c = set_message set (file_to_str disk v) c

-- The row whose prefix a line starts with, if any
unfoldable pub find_option : List Row → Bytes → Option Row
find_option [] line = none
find_option (r ∷ rs) line = if starts_with r.prefix line then some r else find_option rs line

-- `CAN_IGNORE_LINE`
unfoldable pub can_ignore_line : Bytes → Bool
can_ignore_line [] = false
can_ignore_line (b ∷ bs) = b == b'#' || b == 32 || b == 13 || b == 10

-- The settings and `ret`, the number of options read, after the row of a line
unfoldable pub read_row : Disk → Row → Bytes → Config × ℕ → Config × ℕ
read_row disk r line (c, ret) = elim (scan r.name line) [
  | none ↦ (c, ret)
  | some v ↦ (perform disk r.action v c, ret + 1)
]

-- The body of the loop
unfoldable pub read_line : Disk → Bytes → Config × ℕ → Config × ℕ
read_line disk line (c, ret) =
    if can_ignore_line line then (c, ret) else elim (find_option options line) [
      | none ↦ (c, ret)
      | some r ↦ read_row disk r line (c, ret)
    ]

-- The loop
unfoldable pub read_lines : Disk → List Bytes → Config × ℕ → Config × ℕ
read_lines disk [] state = state
read_lines disk (line ∷ lines) state = read_lines disk lines (read_line disk line state)

-- `GENERIC_BUF_LEN`, less the end of the string
abbrev pub max_line : ℕ
max_line = 254

-- What `readConfigFile` returns: success with two options or more
unfoldable pub read_result : Config × ℕ → ℕ × Config
read_result (c, ret) = (if ltb 1 ret then 0 else 1, c)

-- `readConfigFile`
unfoldable pub read_config_file : Disk → Bytes → Config → ℕ × Config
read_config_file disk name c = elim (lookup name disk) [
  | none ↦ (1, c)
  | some bytes ↦ read_result (read_lines disk (fgets_lines max_line max_line bytes) (c, 0))
]
