-- ===== src/Message/NoticeTrips.antt =====
-- What becomes of the messages of a type and a text.
use neshare.Base.{ℕ, ◌<◌, ◌≡◌, refl, true, [], arith, nat_key, Bytes, length, take, drop, word}
use neshare.Message.{Connection}
use neshare.Message.Text.{failed}
use neshare.Message.Notices.{
  msg_login_failed, send_login_failed, recv_login_failed, msg_error, send_error, recv_error,
  msg_login_ack, send_login_ack, recv_login_ack, msg_disconnect_ack, send_disconnect_ack,
  recv_disconnect_ack, msg_peer_login_failed, send_peer_login_failed, recv_peer_login_failed,
  msg_forced_disconnect, send_forced_disconnect, recv_forced_disconnect, msg_peer_error,
  send_peer_error, recv_peer_error, msg_file_request, send_file_request, recv_file_request,
  msg_push_request_ack, send_push_request_ack, recv_push_request_ack,
}
use neshare.Message.TextTrips.{Got, text_start, text_whole, text_refused}

module _ (c : Connection) where
  -- A text that is not empty and is sent over a quiet connection that works is received up to its
  -- first 255 characters, 8191 in the greeting of a server, when the buffer has room for them and the
  -- end. Nothing is left of an error, a greeting, the answer to a disconnect or a failed login at a
  -- peer. The other four send up to 256 characters and read 255: the last one of a longer text is
  -- left in the connection.
  pub recv_error-send_error :
      (s : c.Stream) (maxlen greeting_len : ℕ) (text : Bytes)
      → 0 < length text
      → 255 < maxlen
      → 8191 < greeting_len
      → c.pending s ≡ []
      → ((t : c.Stream) (bs : Bytes) → (c.write_data t bs).0 ≡ true)
      → Got c (recv_error c maxlen (send_error c s text).1) (take 255 text) []
        × Got c (recv_login_ack c greeting_len (send_login_ack c s text).1) (take 8191 text) []
        × Got c (recv_disconnect_ack c maxlen (send_disconnect_ack c s text).1) (take 255 text) []
        × Got c
            (recv_peer_login_failed c maxlen (send_peer_login_failed c s text).1)
            (take 255 text)
            []
        × Got c
            (recv_forced_disconnect c maxlen (send_forced_disconnect c s text).1)
            (take 255 text)
            (drop 255 (take 256 text))
        × Got c
            (recv_peer_error c maxlen (send_peer_error c s text).1)
            (take 255 text)
            (drop 255 (take 256 text))
        × Got c
            (recv_file_request c maxlen (send_file_request c s text).1)
            (take 255 text)
            (drop 255 (take 256 text))
        × Got c
            (recv_push_request_ack c maxlen (send_push_request_ack c s text).1)
            (take 255 text)
            (drop 255 (take 256 text))
  unfolding send_error recv_error send_login_ack recv_login_ack send_disconnect_ack
      recv_disconnect_ack send_peer_login_failed recv_peer_login_failed send_forced_disconnect
      recv_forced_disconnect send_peer_error recv_peer_error send_file_request recv_file_request
      send_push_request_ack recv_push_request_ack
  recv_error-send_error s maxlen greeting_len text some_text room greeting_room quiet works =
      let all = λ (type : ℕ) (small : type < word).
        text_whole c s type 255 maxlen text small some_text (omega arith) (omega arith) room quiet
          works in
      let most = λ (type : ℕ) (small : type < word).
        text_start c s type 256 255 maxlen text small some_text (omega arith) (omega arith)
          (omega arith) room quiet works in
      (
        all msg_error (omega arith),
        text_whole c s msg_login_ack 8191 greeting_len text (omega arith) some_text (omega arith)
            (omega arith) greeting_room quiet works,
        all msg_disconnect_ack (omega arith),
        all msg_peer_login_failed (omega arith),
        most msg_forced_disconnect (omega arith),
        most msg_peer_error (omega arith),
        most msg_file_request (omega arith),
        most msg_push_request_ack (omega arith),
      )

  -- The text of a failed login that is sent over a quiet connection that works is not received: the
  -- call for it fails on its own message, and the text is left in the connection.
  pub recv_login_failed-send_login_failed :
      (s : c.Stream) (maxlen : ℕ) (text : Bytes)
      → 0 < length text
      → c.pending s ≡ []
      → ((t : c.Stream) (bs : Bytes) → (c.write_data t bs).0 ≡ true)
      → ((recv_login_failed c maxlen (send_login_failed c s text).1).0 ≡ failed)
        × (c.pending (recv_login_failed c maxlen (send_login_failed c s text).1).1 ≡ take 255 text)
  unfolding send_login_failed recv_login_failed
  recv_login_failed-send_login_failed s maxlen text some_text quiet works =
      text_refused c s msg_login_failed msg_error 255 255 maxlen text refl (omega arith) some_text
        (omega arith) (omega arith) quiet works
