-- ===== src/Message/Notices.antt =====
-- Messages of a type and a text: ne_common/nemsgerror.cpp, nemsgloginfailed.cpp, nemsgloginack.cpp,
-- nemsgdisconnectack.cpp, nemsgforceddisconnect.cpp, nemsgpeererror.cpp, nemsgpeerloginfailed.cpp,
-- nemsgfilerequest.cpp and nemsgpushrequestack.cpp. NULL is the empty text; `maxlen` is the size of
-- the caller's buffer.
use neshare.Base.{
  ℕ, ◌+◌, ◌-◌, min, List, [], ◌∷◌, ◌++◌, Option, none, some, ltb, ◌==◌, if◌then◌else◌, nat_key,
  Bytes, length, take, drop,
}
use neshare.Message.{Connection, encode, decode}
use neshare.Message.Wire.{read_words}
use neshare.Message.Text.{
  Outcome, failed, overrun, received, max_data_len, max_raw_data_len, send_both,
}

abbrev pub max_greeting_len : ℕ
max_greeting_len = 0x2000

abbrev pub msg_error : ℕ
msg_error = 1

abbrev pub msg_login_failed : ℕ
msg_login_failed = 6

abbrev pub msg_login_ack : ℕ
msg_login_ack = 3

abbrev pub msg_disconnect_ack : ℕ
msg_disconnect_ack = 5

abbrev pub msg_forced_disconnect : ℕ
msg_forced_disconnect = 0x23

abbrev pub msg_peer_error : ℕ
msg_peer_error = 0x10001

abbrev pub msg_peer_login_failed : ℕ
msg_peer_login_failed = 0x10006

abbrev pub msg_file_request : ℕ
msg_file_request = 0x10020

abbrev pub msg_push_request_ack : ℕ
msg_push_request_ack = 0x44

-- The second word of a header
abbrev pub second_word : List ℕ → ℕ
second_word (t ∷ len ∷ ws) = len
second_word _ = 0

-- A text is stored with its end, which has to lie in the buffer.
unfoldable pub store_text : ℕ → Option Bytes → Outcome Bytes
store_text maxlen none = failed
store_text maxlen (some text) = if ltb (length text) maxlen then received text else overrun

-- The length in a header of the right type
unfoldable pub length_of : ℕ → List ℕ → Option ℕ
length_of type (t ∷ len ∷ []) = if t == type then some len else none
length_of type _ = none

module _ (c : Connection) where
  -- `send` with at most `most` characters of the text
  unfoldable pub send_text : ℕ → ℕ → c.Stream → Bytes → ℕ × c.Stream
  send_text type most s text =
      let len = min (length text) most in
      if len == 0 then (1, s) else send_both c s (encode (type ∷ len ∷ [])) (take len text)

  -- The text is read, as much as is announced and fits.
  unfoldable pub read_text : ℕ → ℕ → c.Stream → Option ℕ → Outcome Bytes × c.Stream
  read_text most maxlen s none = (failed, s)
  read_text most maxlen s (some len) =
      let (r, s') = c.read_data s (min (min maxlen most) len) in (store_text maxlen r, s')

  -- `recv` into a buffer of `maxlen` characters, of which it uses at most `most` and the end
  unfoldable pub recv_text : ℕ → ℕ → ℕ → c.Stream → Outcome Bytes × c.Stream
  recv_text type most maxlen s =
      let (r, s') = read_words c s 2 in
      elim r [ none ↦ (failed, s') | some ws ↦ read_text most maxlen s' (length_of type ws) ]

  -- The text of a message that is read into the buffer of the object behind its header
  unfoldable pub read_text_raw : c.Stream → Bytes → Outcome Bytes × c.Stream
  read_text_raw s header =
      let (r, s') = c.read_data s (min (max_raw_data_len - 7) (second_word (decode 2 header))) in
      elim r [
        | none ↦ (failed, s')
        | some text ↦ (
          if ltb (length text + 8) max_raw_data_len then received (header ++ text) else overrun,
          s',
        )
      ]

  -- `recv` into the buffer of the object
  unfoldable pub recv_text_raw : c.Stream → Outcome Bytes × c.Stream
  recv_text_raw s =
      let (r, s') = c.read_data s 8 in
      elim r [ none ↦ (failed, s') | some header ↦ read_text_raw s' header ]

  -- `nemsgError::send`
  unfoldable pub send_error : c.Stream → Bytes → ℕ × c.Stream
  send_error s text = send_text msg_error (max_data_len - 1) s text

  -- `nemsgError::recv` with a buffer
  unfoldable pub recv_error : ℕ → c.Stream → Outcome Bytes × c.Stream
  recv_error maxlen s = recv_text msg_error (max_data_len - 1) maxlen s

  -- `nemsgError::recv` into the buffer of the object
  unfoldable pub recv_error_raw : c.Stream → Outcome Bytes × c.Stream
  recv_error_raw s = recv_text_raw s

  -- `nemsgLoginFailed::send`
  unfoldable pub send_login_failed : c.Stream → Bytes → ℕ × c.Stream
  send_login_failed s text = send_text msg_login_failed (max_data_len - 1) s text

  -- `nemsgLoginFailed::recv` with a buffer, which wants the type of an error
  unfoldable pub recv_login_failed : ℕ → c.Stream → Outcome Bytes × c.Stream
  recv_login_failed maxlen s = recv_text msg_error (max_data_len - 1) maxlen s

  -- `nemsgLoginFailed::recv` into the buffer of the object
  unfoldable pub recv_login_failed_raw : c.Stream → Outcome Bytes × c.Stream
  recv_login_failed_raw s = recv_text_raw s

  -- `nemsgLoginAck::send`
  unfoldable pub send_login_ack : c.Stream → Bytes → ℕ × c.Stream
  send_login_ack s text = send_text msg_login_ack (max_greeting_len - 1) s text

  -- `nemsgLoginAck::recv` with a buffer
  unfoldable pub recv_login_ack : ℕ → c.Stream → Outcome Bytes × c.Stream
  recv_login_ack maxlen s = recv_text msg_login_ack (max_greeting_len - 1) maxlen s

  -- `nemsgLoginAck::recv` into the buffer of the object
  unfoldable pub recv_login_ack_raw : c.Stream → Outcome Bytes × c.Stream
  recv_login_ack_raw s = recv_text_raw s

  -- `nemsgDisconnectAck::send`
  unfoldable pub send_disconnect_ack : c.Stream → Bytes → ℕ × c.Stream
  send_disconnect_ack s text = send_text msg_disconnect_ack (max_data_len - 1) s text

  -- `nemsgDisconnectAck::recv` with a buffer
  unfoldable pub recv_disconnect_ack : ℕ → c.Stream → Outcome Bytes × c.Stream
  recv_disconnect_ack maxlen s = recv_text msg_disconnect_ack (max_data_len - 1) maxlen s

  -- `nemsgDisconnectAck::recv` into the buffer of the object
  unfoldable pub recv_disconnect_ack_raw : c.Stream → Outcome Bytes × c.Stream
  recv_disconnect_ack_raw s = recv_text_raw s

  -- `nemsgForcedDisconnect::send`
  unfoldable pub send_forced_disconnect : c.Stream → Bytes → ℕ × c.Stream
  send_forced_disconnect s text = send_text msg_forced_disconnect max_data_len s text

  -- `nemsgForcedDisconnect::recv` with a buffer
  unfoldable pub recv_forced_disconnect : ℕ → c.Stream → Outcome Bytes × c.Stream
  recv_forced_disconnect maxlen s = recv_text msg_forced_disconnect (max_data_len - 1) maxlen s

  -- `nemsgForcedDisconnect::recv` into the buffer of the object
  unfoldable pub recv_forced_disconnect_raw : c.Stream → Outcome Bytes × c.Stream
  recv_forced_disconnect_raw s = recv_text_raw s

  -- `nemsgPeerError::send`
  unfoldable pub send_peer_error : c.Stream → Bytes → ℕ × c.Stream
  send_peer_error s text = send_text msg_peer_error max_data_len s text

  -- `nemsgPeerError::recv` with a buffer
  unfoldable pub recv_peer_error : ℕ → c.Stream → Outcome Bytes × c.Stream
  recv_peer_error maxlen s = recv_text msg_peer_error (max_data_len - 1) maxlen s

  -- `nemsgPeerLoginFailed::send`
  unfoldable pub send_peer_login_failed : c.Stream → Bytes → ℕ × c.Stream
  send_peer_login_failed s text = send_text msg_peer_login_failed (max_data_len - 1) s text

  -- `nemsgPeerLoginFailed::recv` with a buffer
  unfoldable pub recv_peer_login_failed : ℕ → c.Stream → Outcome Bytes × c.Stream
  recv_peer_login_failed maxlen s = recv_text msg_peer_login_failed (max_data_len - 1) maxlen s

  -- `nemsgFileRequest::send`
  unfoldable pub send_file_request : c.Stream → Bytes → ℕ × c.Stream
  send_file_request s text = send_text msg_file_request max_data_len s text

  -- `nemsgFileRequest::recv` with a buffer
  unfoldable pub recv_file_request : ℕ → c.Stream → Outcome Bytes × c.Stream
  recv_file_request maxlen s = recv_text msg_file_request (max_data_len - 1) maxlen s

  -- `nemsgPushRequestAck::send`
  unfoldable pub send_push_request_ack : c.Stream → Bytes → ℕ × c.Stream
  send_push_request_ack s text = send_text msg_push_request_ack max_data_len s text

  -- `nemsgPushRequestAck::recv` with a buffer
  unfoldable pub recv_push_request_ack : ℕ → c.Stream → Outcome Bytes × c.Stream
  recv_push_request_ack maxlen s = recv_text msg_push_request_ack (max_data_len - 1) maxlen s

-- `format`: the text behind the header in the buffer
unfoldable pub format_text : ℕ → Bytes → ℕ → Outcome Bytes
format_text type buf maxlen = elim (length_of type (decode 2 buf)) [
  | none ↦ failed
  | some len ↦
      store_text maxlen (some (take (min (min maxlen (max_raw_data_len - 1)) len) (drop 8 buf)))
]

-- `nemsgError::format`
unfoldable pub format_error : Bytes → ℕ → Outcome Bytes
format_error buf maxlen = format_text msg_error buf maxlen

-- `nemsgLoginFailed::format`
unfoldable pub format_login_failed : Bytes → ℕ → Outcome Bytes
format_login_failed buf maxlen = format_text msg_login_failed buf maxlen

-- `nemsgLoginAck::format`, which wants the type of an error
unfoldable pub format_login_ack : Bytes → ℕ → Outcome Bytes
format_login_ack buf maxlen = format_text msg_error buf maxlen

-- `nemsgDisconnectAck::format`
unfoldable pub format_disconnect_ack : Bytes → ℕ → Outcome Bytes
format_disconnect_ack buf maxlen = format_text msg_disconnect_ack buf maxlen

-- `nemsgForcedDisconnect::format`
unfoldable pub format_forced_disconnect : Bytes → ℕ → Outcome Bytes
format_forced_disconnect buf maxlen = format_text msg_forced_disconnect buf maxlen
