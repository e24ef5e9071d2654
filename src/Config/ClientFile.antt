-- ===== src/Config/ClientFile.antt =====
-- ne_common/neconfig.cpp: what `readConfigFile` finds in a file that `writeConfigFile` wrote with
-- `NECFG_CLIENT_FIELDS`.
use neshare.Base.{
  bytes_key, nat_key, ℕ, ◌+◌, ◌≡◌, refl, sym, ap, ◌∙◌, List, [], ◌∷◌, ◌++◌, some, Bytes, length,
  lookup, append-nil, append_assoc, arith,
}
use neshare.Config.{Config, max_data_len}
use neshare.Config.Text.{starts_with, codes, c_str, strncpy, print_int}
use neshare.Config.Setters.{set_server_address}
use neshare.Config.Reading.{
  Row, Disk, options, find_option, can_ignore_line, read_lines, perform, read_config_file, text,
  row,
}
use neshare.Config.Writing.{
  text_line, print_text, print_number, concat, client_lines, directory_lines, file_header,
  write_config_file, writable, has_server_fields, has_client_fields,
}
use neshare.Config.Lines.{IsInt, c_str-strncpy, length-print_int}
use neshare.Config.Written.{IsValue, read_config_file-written}
use neshare.Config.Printed.{
  AreLines, ◌◂◌, no_lines, read_nothing, print_number-IsLine, read_unknown, read_text, read_number,
  print_text-IsLine,
}

abbrev pub AreValues : List Bytes → Type 0
AreValues [] = Unit
AreValues (v ∷ vs) = IsValue v × AreValues vs

-- The settings of a client fit in their lines.
pub record IsClientConfig (c : Config) : Type 0 where
  pub server_address : IsValue (c_str c.server_address)
  pub server_accept_port : IsInt c.server_accept_port
  pub max_num_peers : IsInt c.max_num_peers
  pub client_control_port : IsInt c.client_control_port
  pub client_firewall_status : IsInt c.client_firewall_status
  pub client_connection_speed : IsInt c.client_connection_speed
  pub show_file_path : IsInt c.show_file_path
  pub save_path : IsValue (c_str c.save_path)
  pub client_max_num_sends : IsInt c.client_max_num_sends
  pub client_max_num_recvs : IsInt c.client_max_num_recvs
  pub directories : AreValues c.directories

-- The settings `d` after those of a client are read from the file of `c`.
abbrev pub client_settings : Config → Config → Config
client_settings c d = record d {
  server_address = strncpy d.server_address (c_str c.server_address) max_data_len;
  server_accept_port = c.server_accept_port;
  max_num_peers = c.max_num_peers;
  client_control_port = c.client_control_port;
  client_firewall_status = c.client_firewall_status;
  client_connection_speed = c.client_connection_speed;
  show_file_path = c.show_file_path;
  save_path = strncpy d.save_path (c_str c.save_path) max_data_len;
  client_max_num_sends = c.client_max_num_sends;
  client_max_num_recvs = c.client_max_num_recvs;
  directories = d.directories ++ c.directories;
}

abbrev server_row : Row
server_row = record {
  prefix = codes "SERVER ";
  name = codes "SERVER";
  action = text set_server_address;
}

abbrev set_path : Bytes → Config → Config
set_path v e = record e { save_path = strncpy e.save_path v max_data_len }

abbrev with_directories : List Bytes → Config → Config
with_directories ds e = record e { directories = e.directories ++ ds }

abbrev directory_row : Row
directory_row =
    row (codes "DIRECTORY") (text (λ v c. record c { directories = c.directories ++ v ∷ [] }))

listed :
    (disk : Disk) (lines : List Bytes) (d : Config) (ds es : List Bytes) (m n : ℕ)
    → ds ≡ es
    → m ≡ n
    → read_lines disk lines (record d { directories = ds }, m)
      ≡ read_lines disk lines (record d { directories = es }, n)
listed disk lines d ds es m n e f =
    ap (λ dirs. read_lines disk lines (record d { directories = dirs }, m)) e
    ∙ ap (λ k. read_lines disk lines (record d { directories = es }, k)) f

directory_lines-read :
    (disk : Disk) (ds : List Bytes) (lines : List Bytes) (d : Config) (ret : ℕ)
    → AreValues ds
    → read_lines disk (directory_lines ds ++ lines) (d, ret)
      ≡ read_lines disk lines (with_directories ds d, ret + length ds)
unfolding directory_lines can_ignore_line find_option options text_line starts_with perform
directory_lines-read disk [] lines d ret h =
    listed disk lines d d.directories (d.directories ++ []) ret (ret + 0)
      (sym (append-nil d.directories)) (omega arith)
directory_lines-read disk (v ∷ ds) lines d ret h =
    read_text disk (codes "DIRECTORY") v directory_row _ d ret (omega arith) h.0.0 h.0.1 refl refl
      refl
    ∙ directory_lines-read disk ds lines (with_directories (v ∷ []) d) (ret + 1) h.1
    ∙ listed disk lines d (d.directories ++ v ∷ [] ++ ds) (d.directories ++ v ∷ ds)
        (ret + 1 + length ds) (ret + length (v ∷ ds)) (append_assoc d.directories (v ∷ []) ds)
        (omega arith)

client_lines-read :
    (disk : Disk) (c d : Config)
    → IsClientConfig c
    → read_lines disk (client_lines c) (d, 0)
      ≡ (client_settings c d, 8 + length c.directories + 1 + 1 + 1)
unfolding client_lines can_ignore_line find_option options text_line print_text starts_with perform
    set_server_address print_number
client_lines-read disk c d h =
    read_text disk (codes "SERVER") (c_str c.server_address) (server_row) _ d 0 (omega arith)
      h.server_address.0 h.server_address.1 refl refl refl
    ∙ read_number disk (codes "SERVERACCEPTPORT") c.server_accept_port
        (λ v e. record e { server_accept_port = v }) _ _ 1 (omega arith) h.server_accept_port refl
        refl
    ∙ read_number disk (codes "MAXNUMPEERS") c.max_num_peers (λ v e. record e { max_num_peers = v })
        _ _ 2 (omega arith) h.max_num_peers refl refl
    ∙ read_number disk (codes "CLIENTCONTROLPORT") c.client_control_port
        (λ v e. record e { client_control_port = v }) _ _ 3 (omega arith) h.client_control_port refl
        refl
    ∙ read_unknown disk (codes "CLIENTFORWARDINGPORT") (print_int c.client_forwarding_port) _ _ 4
        (omega arith) (omega (arith, length-print_int c.client_forwarding_port)) refl refl
    ∙ read_number disk (codes "CLIENTFIREWALLSTATUS") c.client_firewall_status
        (λ v e. record e { client_firewall_status = v }) _ _ 4 (omega arith)
        h.client_firewall_status refl refl
    ∙ read_number disk (codes "CLIENTCONNECTIONSPEED") c.client_connection_speed
        (λ v e. record e { client_connection_speed = v }) _ _ 5 (omega arith)
        h.client_connection_speed refl refl
    ∙ read_number disk (codes "MAXNUMPEERS") c.max_num_peers (λ v e. record e { max_num_peers = v })
        _ _ 6 (omega arith) h.max_num_peers refl refl
    ∙ read_number disk (codes "SHOWFILEPATH") c.show_file_path
        (λ v e. record e { show_file_path = v }) _ _ 7 (omega arith) h.show_file_path refl refl
    ∙ directory_lines-read disk c.directories _ _ 8 h.directories
    ∙ read_text disk (codes "SAVEPATH") (c_str c.save_path) (row (codes "SAVEPATH") (text set_path))
        _ _ _ (omega arith) h.save_path.0 h.save_path.1 refl refl refl
    ∙ read_number disk (codes "MAXNUMSENDS") c.client_max_num_sends
        (λ v e. record e { client_max_num_sends = v }) _ _ _ (omega arith) h.client_max_num_sends
        refl refl
    ∙ read_number disk (codes "MAXNUMRECVS") c.client_max_num_recvs
        (λ v e. record e { client_max_num_recvs = v }) _ _ _ (omega arith) h.client_max_num_recvs
        refl refl
    ∙ read_nothing disk _

directory_lines-AreLines :
    (ds lines : List Bytes) → AreValues ds → AreLines lines → AreLines (directory_lines ds ++ lines)
unfolding directory_lines
directory_lines-AreLines [] lines h k = k
directory_lines-AreLines (v ∷ ds) lines h k =
    print_text-IsLine (codes "DIRECTORY") v (refl, omega arith) h.0.0 h.0.1
    ◂ directory_lines-AreLines ds lines h.1 k

client_lines-AreLines : (c : Config) → IsClientConfig c → AreLines (client_lines c)
unfolding client_lines
client_lines-AreLines c h =
    print_text-IsLine (codes "SERVER") (c_str c.server_address) (refl, omega arith)
      h.server_address.0 h.server_address.1
    ◂ print_number-IsLine (codes "SERVERACCEPTPORT") c.server_accept_port (refl, omega arith)
    ◂ print_number-IsLine (codes "MAXNUMPEERS") c.max_num_peers (refl, omega arith)
    ◂ print_number-IsLine (codes "CLIENTCONTROLPORT") c.client_control_port (refl, omega arith)
    ◂ print_number-IsLine (codes "CLIENTFORWARDINGPORT") c.client_forwarding_port
        (refl, omega arith)
    ◂ print_number-IsLine (codes "CLIENTFIREWALLSTATUS") c.client_firewall_status
        (refl, omega arith)
    ◂ print_number-IsLine (codes "CLIENTCONNECTIONSPEED") c.client_connection_speed
        (refl, omega arith)
    ◂ print_number-IsLine (codes "MAXNUMPEERS") c.max_num_peers (refl, omega arith)
    ◂ print_number-IsLine (codes "SHOWFILEPATH") c.show_file_path (refl, omega arith)
    ◂ directory_lines-AreLines c.directories _ h.directories (
        print_text-IsLine (codes "SAVEPATH") (c_str c.save_path) (refl, omega arith) h.save_path.0
          h.save_path.1
        ◂ print_number-IsLine (codes "MAXNUMSENDS") c.client_max_num_sends (refl, omega arith)
        ◂ print_number-IsLine (codes "MAXNUMRECVS") c.client_max_num_recvs (refl, omega arith)
        ◂ no_lines)

write_client :
    (c : Config) → (write_config_file writable 1 c).1 ≡ file_header ++ concat (client_lines c)
unfolding write_config_file has_server_fields has_client_fields
write_client c = refl

-- A file that was written for a client is read with success, and gives the settings of the client
-- as they were, with its directories after those that were there. The forwarding port is not
-- read: it stays what it was before.
pub read_config_file-write_client :
    (disk : Disk) (name : Bytes) (c d : Config)
    → IsClientConfig c
    → lookup name disk ≡ some (write_config_file writable 1 c).1
    → let r = read_config_file disk name d in
      (r ≡ (0, client_settings c d))
      × (c_str r.1.server_address ≡ c_str c.server_address)
      × (c_str r.1.save_path ≡ c_str c.save_path)
      × (r.1.client_forwarding_port ≡ d.client_forwarding_port)
read_config_file-write_client disk name c d h there =
    let n = 8 + length c.directories + 1 + 1 + 1 in
    let read : read_config_file disk name d ≡ (0, client_settings c d) =
      read_config_file-written disk name (write_config_file writable 1 c).1 (client_lines c) d
        (client_settings c d) n there (write_client c) (client_lines-AreLines c h)
        (client_lines-read disk c d h) (omega arith) in
    (
      read,
      ap (λ (r : ℕ × Config). c_str r.1.server_address) read
          ∙ c_str-strncpy d.server_address (c_str c.server_address) max_data_len h.server_address.0
              (omega (arith, h.server_address.1)),
      ap (λ (r : ℕ × Config). c_str r.1.save_path) read
          ∙ c_str-strncpy d.save_path (c_str c.save_path) max_data_len h.save_path.0
              (omega (arith, h.save_path.1)),
      ap (λ (r : ℕ × Config). r.1.client_forwarding_port) read,
    )
