-- ===== src/Config/Writing.antt =====
-- ne_common/neconfig.cpp: `writeConfigFile`. What becomes of opening the file and of the first
-- `fwrite` is an argument; the source does not look at the later ones, which succeed here.
use neshare.Base.{ℕ, ◌/◌, ◌%◌, Bool, ◌==◌, nat_key, if◌then◌else◌, Bytes, List, [], ◌∷◌, ◌++◌, take}
use neshare.Config.{Config}
use neshare.Config.Text.{ℤ, codes, c_str, print_int}
use neshare.Config.Reading.{max_line}

-- "NAME = %s\r\n"
unfoldable pub text_line : Bytes → Bytes → Bytes
text_line name value = (name ++ (codes " = " ++ value)) ++ (13 ∷ 10 ∷ [])

-- `snprintf(line, GENERIC_BUF_LEN, "NAME = %s\r\n", value)`
unfoldable pub print_text : Bytes → Bytes → Bytes
print_text name value = take max_line (text_line name value)

-- The same with "%d"
unfoldable pub print_number : Bytes → ℤ → Bytes
print_number name v = print_text name (print_int v)

unfoldable pub file_header : Bytes
file_header =
    codes "# Generated by neConfig (a part of NEshare)\r\n"
    ++ codes "# (C) 2001,2002 Neill Miller\r\n"
    ++ codes "# Contact Author: neillm@thecodefactory.org\r\n#\r\n"
    ++ codes "# Write out all user configurable settings.\r\n"

-- One after the other
unfoldable pub concat : List Bytes → Bytes
concat [] = []
concat (line ∷ lines) = line ++ concat lines

-- The lines of `NECFG_SERVER_FIELDS`
unfoldable pub server_lines : Config → List Bytes
server_lines c =
    print_number (codes "MAXNUMUSERS") c.max_num_users
    ∷ print_number (codes "USERTTL") c.user_ttl
    ∷ print_number (codes "USERPINGDELAY") c.user_ping_delay
    ∷ print_number (codes "USERSTATUSDELAY") c.user_status_delay
    ∷ print_number (codes "MAXRESULTS") c.max_results
    ∷ print_number (codes "MINUSERSHAREDFILELIMIT") c.show_file_path
    ∷ print_number (codes "SERVERACCEPTPORT") c.server_accept_port
    ∷ print_number (codes "NUMTHREADEDHANDLERS") c.num_threaded_handlers
    ∷ print_number (codes "NUMUSERMANAGERS") c.num_user_managers
    ∷ print_number (codes "MAXNUMMESSAGESTOHANDLE") c.max_messages_to_handle
    ∷ print_text (codes "SERVERLOG") (c_str c.server_log)
    ∷ print_text (codes "# GOODBYEMESSAGEFILE") (codes "goodbye.txt")
    ∷ print_text (codes "# GREETINGMESSAGEFILE") (codes "greeting.txt")
    ∷ print_text (codes "# LOGINFAILEDMESSAGEFILE") (codes "loginfailed.txt")
    ∷ print_text (codes "# INVALIDMESSAGETYPEFILE") (codes "invalidmessage.txt")
    ∷ print_text (codes "USERFILEPAGEFILE") (c_str c.user_file_page_file)
    ∷ print_number (codes "NUMRESERVEDUSERFILES") c.num_reserved_user_files
    ∷ print_number (codes "USERMSGTHROTTLE") c.user_msg_throttle
    ∷ []

unfoldable pub directory_lines : List Bytes → List Bytes
directory_lines [] = []
directory_lines (d ∷ ds) = print_text (codes "DIRECTORY") d ∷ directory_lines ds

-- The lines of `NECFG_CLIENT_FIELDS`
unfoldable pub client_lines : Config → List Bytes
client_lines c =
    (print_text (codes "SERVER") (c_str c.server_address)
      ∷ print_number (codes "SERVERACCEPTPORT") c.server_accept_port
      ∷ print_number (codes "MAXNUMPEERS") c.max_num_peers
      ∷ print_number (codes "CLIENTCONTROLPORT") c.client_control_port
      ∷ print_number (codes "CLIENTFORWARDINGPORT") c.client_forwarding_port
      ∷ print_number (codes "CLIENTFIREWALLSTATUS") c.client_firewall_status
      ∷ print_number (codes "CLIENTCONNECTIONSPEED") c.client_connection_speed
      ∷ print_number (codes "MAXNUMPEERS") c.max_num_peers
      ∷ print_number (codes "SHOWFILEPATH") c.show_file_path
      ∷ [])
    ++ (directory_lines c.directories
        ++ (print_text (codes "SAVEPATH") (c_str c.save_path)
            ∷ print_number (codes "MAXNUMSENDS") c.client_max_num_sends
            ∷ print_number (codes "MAXNUMRECVS") c.client_max_num_recvs
            ∷ []))

-- Is `NECFG_CLIENT_FIELDS` (1) or `NECFG_SERVER_FIELDS` (2) among the fields?
unfoldable pub has_client_fields : ℕ → Bool
has_client_fields field_type = field_type % 2 == 1

unfoldable pub has_server_fields : ℕ → Bool
has_server_fields field_type = field_type / 2 % 2 == 1

-- What becomes of the file
pub data Target : Type 0 where
  unopened : Target
  full : Target
  writable : Target

-- `writeConfigFile`: what it returns and the text of the file
unfoldable pub write_config_file : Target → ℕ → Config → ℕ × Bytes
write_config_file unopened field_type c = (1, [])
write_config_file full field_type c = (1, [])
write_config_file writable field_type c =
    let server = if has_server_fields field_type then concat (server_lines c) else [] in
    let client = if has_client_fields field_type then concat (client_lines c) else [] in
    (0, file_header ++ (server ++ client))
