-- ===== src/Message/Signals.antt =====
-- Messages of a type alone or of a type and a number: ne_common/nemsgping.cpp, nemsgpong.cpp,
-- nemsgdisconnect.cpp, nemsgpeerlogin.cpp, nemsgpeerloginack.cpp, nemsgpeerdisconnect.cpp,
-- nemsgentrysetstart.cpp, nemsgentrysetend.cpp, nemsgsearchresults.cpp and nemsgfiledatacancel.cpp.
use neshare.Base.{
  ℕ, ◌+◌, ◌*◌, List, [], ◌∷◌, Option, none, some, ◌>>=◌, ◌==◌, if◌then◌else◌, nat_key, Bytes, drop,
}
use neshare.Message.{Connection, decode}
use neshare.Message.Wire.{read_words}
use neshare.Message.Numbers.{send_header}

abbrev pub msg_ping : ℕ
msg_ping = 0x20

abbrev pub msg_pong : ℕ
msg_pong = 0x21

abbrev pub msg_disconnect : ℕ
msg_disconnect = 4

abbrev pub msg_peer_login : ℕ
msg_peer_login = 0x10002

abbrev pub msg_peer_login_ack : ℕ
msg_peer_login_ack = 0x10003

abbrev pub msg_peer_disconnect : ℕ
msg_peer_disconnect = 0x10004

abbrev pub msg_entry_set_start : ℕ
msg_entry_set_start = 7

abbrev pub msg_entry_set_end : ℕ
msg_entry_set_end = 9

abbrev pub msg_search_results : ℕ
msg_search_results = 0x32

abbrev pub msg_file_data_cancel : ℕ
msg_file_data_cancel = 0x10024

-- A header of the type alone
unfoldable pub type_alone : ℕ → List ℕ → Option ℕ
type_alone type (t ∷ []) = if t == type then some type else none
type_alone type _ = none

-- The number behind the type
unfoldable pub number_of : ℕ → List ℕ → Option ℕ
number_of type (t ∷ n ∷ []) = if t == type then some n else none
number_of type _ = none

-- A number in the order of the network, taken as it lies in memory on a little-endian machine
unfoldable pub swapped : Bytes → ℕ
swapped (a ∷ b ∷ c ∷ d ∷ bs) = ((d * 256 + c) * 256 + b) * 256 + a
swapped bs = 0

module _ (c : Connection) where
  -- Receiving a header of the type alone: `recv` of a ping
  unfoldable pub recv_type : ℕ → c.Stream → Option ℕ × c.Stream
  recv_type type s = let (r, s') = read_words c s 1 in (r >>= type_alone type, s')

  -- Receiving a type and a number: `recv(numEntries)`
  unfoldable pub recv_number : ℕ → c.Stream → Option ℕ × c.Stream
  recv_number type s = let (r, s') = read_words c s 2 in (r >>= number_of type, s')

  -- `nemsgPing::send`
  unfoldable pub send_ping : c.Stream → ℕ × c.Stream
  send_ping s = send_header c s (msg_ping ∷ [])

  -- `nemsgPing::recv`
  unfoldable pub recv_ping : c.Stream → Option ℕ × c.Stream
  recv_ping s = recv_type msg_ping s

  -- `nemsgPong::send`
  unfoldable pub send_pong : c.Stream → ℕ × c.Stream
  send_pong s = send_header c s (msg_pong ∷ [])

  -- `nemsgPong::recv`
  unfoldable pub recv_pong : c.Stream → Option ℕ × c.Stream
  recv_pong s = recv_type msg_pong s

  -- `nemsgDisconnect::send`
  unfoldable pub send_disconnect : c.Stream → ℕ × c.Stream
  send_disconnect s = send_header c s (msg_disconnect ∷ [])

  -- `nemsgDisconnect::recv`
  unfoldable pub recv_disconnect : c.Stream → Option ℕ × c.Stream
  recv_disconnect s = recv_type msg_disconnect s

  -- `nemsgPeerLogin::send`
  unfoldable pub send_peer_login : c.Stream → ℕ × c.Stream
  send_peer_login s = send_header c s (msg_peer_login ∷ [])

  -- `nemsgPeerLogin::recv`
  unfoldable pub recv_peer_login : c.Stream → Option ℕ × c.Stream
  recv_peer_login s = recv_type msg_peer_login s

  -- `nemsgPeerLoginAck::send`
  unfoldable pub send_peer_login_ack : c.Stream → ℕ × c.Stream
  send_peer_login_ack s = send_header c s (msg_peer_login_ack ∷ [])

  -- `nemsgPeerLoginAck::recv`
  unfoldable pub recv_peer_login_ack : c.Stream → Option ℕ × c.Stream
  recv_peer_login_ack s = recv_type msg_peer_login_ack s

  -- `nemsgPeerDisconnect::send`
  unfoldable pub send_peer_disconnect : c.Stream → ℕ × c.Stream
  send_peer_disconnect s = send_header c s (msg_peer_disconnect ∷ [])

  -- `nemsgPeerDisconnect::recv`
  unfoldable pub recv_peer_disconnect : c.Stream → Option ℕ × c.Stream
  recv_peer_disconnect s = recv_type msg_peer_disconnect s

  -- `nemsgEntrySetStart::send`
  unfoldable pub send_entry_set_start : c.Stream → ℕ → ℕ × c.Stream
  send_entry_set_start s n = send_header c s (msg_entry_set_start ∷ n ∷ [])

  -- `nemsgEntrySetStart::recv` with a pointer
  unfoldable pub recv_entry_set_start : c.Stream → Option ℕ × c.Stream
  recv_entry_set_start s = recv_number msg_entry_set_start s

  -- `nemsgEntrySetStart::recv` into the buffer
  unfoldable pub recv_entry_set_start_raw : c.Stream → Option Bytes × c.Stream
  recv_entry_set_start_raw s = c.read_data s 8

  -- `nemsgEntrySetEnd::send`
  unfoldable pub send_entry_set_end : c.Stream → ℕ → ℕ × c.Stream
  send_entry_set_end s n = send_header c s (msg_entry_set_end ∷ n ∷ [])

  -- `nemsgEntrySetEnd::recv` with a pointer
  unfoldable pub recv_entry_set_end : c.Stream → Option ℕ × c.Stream
  recv_entry_set_end s = recv_number msg_entry_set_end s

  -- `nemsgEntrySetEnd::recv` into the buffer
  unfoldable pub recv_entry_set_end_raw : c.Stream → Option Bytes × c.Stream
  recv_entry_set_end_raw s = c.read_data s 8

  -- `nemsgSearchResults::send`
  unfoldable pub send_search_results : c.Stream → ℕ → ℕ × c.Stream
  send_search_results s n = send_header c s (msg_search_results ∷ n ∷ [])

  -- `nemsgSearchResults::recv` with a pointer
  unfoldable pub recv_search_results : c.Stream → Option ℕ × c.Stream
  recv_search_results s = recv_number msg_search_results s

  -- `nemsgFileDataCancel::send`
  unfoldable pub send_file_data_cancel : c.Stream → ℕ → ℕ × c.Stream
  send_file_data_cancel s n = send_header c s (msg_file_data_cancel ∷ n ∷ [])

  -- `nemsgFileDataCancel::recv` with a pointer
  unfoldable pub recv_file_data_cancel : c.Stream → Option ℕ × c.Stream
  recv_file_data_cancel s = recv_number msg_file_data_cancel s

  -- `nemsgFileDataCancel::recv` into the buffer
  unfoldable pub recv_file_data_cancel_raw : c.Stream → Option Bytes × c.Stream
  recv_file_data_cancel_raw s = c.read_data s 8

-- `format` of a type alone, on the buffer
unfoldable pub format_type : ℕ → Bytes → Option ℕ
format_type type buf = type_alone type (decode 1 buf)

-- `format` of a number, on the buffer
unfoldable pub format_number : ℕ → Bytes → Option ℕ
format_number type buf = number_of type (decode 2 buf)

-- `nemsgPing::format`
unfoldable pub format_ping : Bytes → Option ℕ
format_ping buf = format_type msg_ping buf

-- `nemsgPong::format`
unfoldable pub format_pong : Bytes → Option ℕ
format_pong buf = format_type msg_pong buf

-- `nemsgDisconnect::format`
unfoldable pub format_disconnect : Bytes → Option ℕ
format_disconnect buf = format_type msg_disconnect buf

-- `nemsgEntrySetStart::format`
unfoldable pub format_entry_set_start : Bytes → Option ℕ
format_entry_set_start buf = format_number msg_entry_set_start buf

-- `nemsgEntrySetEnd::format`
unfoldable pub format_entry_set_end : Bytes → Option ℕ
format_entry_set_end buf = format_number msg_entry_set_end buf

-- `nemsgFileDataCancel::format`, which does not turn the file id into the order of the machine
unfoldable pub format_file_data_cancel : Bytes → Option ℕ
format_file_data_cancel buf =
    type_alone msg_file_data_cancel (decode 1 buf) >>= (λ _. some (swapped (drop 4 buf)))
