-- ===== src/Message/Tests.antt =====
-- Instances of the theorems.
use neshare.Base.{ℕ, ◌≤◌, ◌≡◌, refl, [], ◌∷◌, ◌++◌, some, arith, Bytes, replicate, ◌>>=◌}
use neshare.Message.{encode, decode, htonl, ntohl}
use neshare.Message.Pipe.{pipe}
use neshare.Message.Numbers.{
  header, send_header, send_login, recv_login, recv_login_raw, format_login, send_status,
  recv_status, recv_status_raw, format_status, recv_login-send_login, recv_status-send_status,
}
use neshare.Message.Wire.{read_words}
use neshare.Message.Text.{
  failed, overrun, received, entry_header, send_both, send_entry, recv_entry, recv_entry_raw,
  format_entry,
}
use neshare.Message.Entries.{recv_entry-send_entry, recv_entry_raw-overruns}
use neshare.Message.Signals.{
  msg_ping, msg_pong, msg_disconnect, msg_peer_login, msg_peer_login_ack, msg_peer_disconnect,
  send_ping, recv_ping, send_pong, recv_pong, send_disconnect, recv_disconnect, send_peer_login,
  recv_peer_login, send_peer_login_ack, recv_peer_login_ack, send_peer_disconnect,
  recv_peer_disconnect, send_entry_set_start, recv_entry_set_start, recv_entry_set_start_raw,
  format_entry_set_start, send_entry_set_end, recv_entry_set_end, recv_entry_set_end_raw,
  format_entry_set_end, send_search_results, recv_search_results, send_file_data_cancel,
  recv_file_data_cancel, recv_file_data_cancel_raw, format_file_data_cancel, swapped,
}
use neshare.Message.SignalTrips.{
  Arrived, recv_ping-send_ping, recv_entry_set_start-send_entry_set_start,
}
use neshare.Message.Notices.{
  send_error, recv_error, send_login_ack, recv_login_ack, send_disconnect_ack, recv_disconnect_ack,
  send_peer_login_failed, recv_peer_login_failed, send_forced_disconnect, recv_forced_disconnect,
  send_peer_error, recv_peer_error, send_file_request, recv_file_request, send_push_request_ack,
  recv_push_request_ack, send_login_failed, recv_login_failed,
}
use neshare.Message.TextTrips.{Got}
use neshare.Message.NoticeTrips.{recv_error-send_error, recv_login_failed-send_login_failed}
use neshare.Message.Pushes.{
  PushRequest, FoundFile, store_at, read_push, read_result, send_push_request, recv_push_request,
  send_query_result, recv_query_result, recv_push_request_raw, fourth_word,
}

login_bytes :
    (send_login pipe [] (6, 0, 4000)).1
    ≡ 0 ∷ 0 ∷ 0 ∷ 2 ∷ 0 ∷ 0 ∷ 0 ∷ 6 ∷ 0 ∷ 0 ∷ 0 ∷ 0 ∷ 0 ∷ 0 ∷ 15 ∷ 160 ∷ []
unfolding send_login send_header header encode htonl
login_bytes = refl

recv_login-send_login_example :
    let s = (send_login pipe [] (6, 0, 4000)).1 in
    ((recv_login pipe s).0 ≡ some (6, 0, 4000))
    × ((recv_login pipe s).1 ≡ [])
    × (((recv_login_raw pipe s).0 >>= (λ buf. format_login buf)) ≡ some (6, 0, 4000))
    × ((recv_login_raw pipe s).1 ≡ [])
unfolding send_login send_header
recv_login-send_login_example =
    recv_login-send_login pipe [] (6, 0, 4000) (omega arith, omega arith, omega arith) refl refl

recv_status-send_status_example :
    let s = (send_status pipe [] (3, 20, 700)).1 in
    ((recv_status pipe s).0 ≡ some (3, 20, 700))
    × ((recv_status pipe s).1 ≡ [])
    × (((recv_status_raw pipe s).0 >>= (λ buf. format_status buf)) ≡ some (3, 20, 700))
    × ((recv_status_raw pipe s).1 ≡ [])
    × ((type : ℕ) (t : Bytes)
        → (read_words pipe t 4).0 ≡ some (header type (3, 20, 700))
        → (recv_status pipe t).0 ≡ some (3, 20, 700))
unfolding send_status send_header
recv_status-send_status_example =
    recv_status-send_status pipe [] (3, 20, 700) (omega arith, omega arith, omega arith) refl refl

-- "a.b"
abbrev name : Bytes
name = 97 ∷ 46 ∷ 98 ∷ []

recv_entry-send_entry_example :
    let s = (send_entry pipe [] (name, 12)).1 in
    ((recv_entry pipe s 256).0 ≡ received (name, 12))
    × ((recv_entry pipe s 256).1 ≡ [])
    × ((buf : Bytes) × ((recv_entry_raw pipe s).0 ≡ received buf)
        × (format_entry buf 256 ≡ received (name, 12)))
    × ((recv_entry_raw pipe s).1 ≡ [])
unfolding send_entry send_both
recv_entry-send_entry_example =
    recv_entry-send_entry pipe [] name 12 (omega arith) (omega arith) refl refl

abbrev long_text : Bytes
long_text = replicate 501 65

abbrev long_message : Bytes
long_message = encode (entry_header 501 1) ++ (long_text ++ [])

recv_entry_raw-overruns_example :
    (500 ≤ 501 → (recv_entry_raw pipe long_message).0 ≡ overrun)
    × (256 ≤ 501 → format_entry (encode (entry_header 501 1) ++ long_text) 256 ≡ overrun)
recv_entry_raw-overruns_example =
    recv_entry_raw-overruns pipe long_message long_text [] 501 1 (omega arith) (omega arith) refl
      refl

recv_ping-send_ping_example :
    Arrived pipe (recv_ping pipe (send_ping pipe []).1) msg_ping
    × Arrived pipe (recv_pong pipe (send_pong pipe []).1) msg_pong
    × Arrived pipe (recv_disconnect pipe (send_disconnect pipe []).1) msg_disconnect
    × Arrived pipe (recv_peer_login pipe (send_peer_login pipe []).1) msg_peer_login
    × Arrived pipe (recv_peer_login_ack pipe (send_peer_login_ack pipe []).1) msg_peer_login_ack
    × Arrived pipe (recv_peer_disconnect pipe (send_peer_disconnect pipe []).1) msg_peer_disconnect
recv_ping-send_ping_example = recv_ping-send_ping pipe [] refl (λ bs. refl)

recv_entry_set_start-send_entry_set_start_example :
    Arrived pipe (recv_entry_set_start pipe (send_entry_set_start pipe [] 258).1) 258
    × Arrived pipe (recv_entry_set_end pipe (send_entry_set_end pipe [] 258).1) 258
    × Arrived pipe (recv_search_results pipe (send_search_results pipe [] 258).1) 258
    × Arrived pipe (recv_file_data_cancel pipe (send_file_data_cancel pipe [] 258).1) 258
    × (((recv_entry_set_start_raw pipe (send_entry_set_start pipe [] 258).1).0
          >>= (λ buf. format_entry_set_start buf))
        ≡ some 258)
    × (((recv_entry_set_end_raw pipe (send_entry_set_end pipe [] 258).1).0
          >>= (λ buf. format_entry_set_end buf))
        ≡ some 258)
    × (((recv_file_data_cancel_raw pipe (send_file_data_cancel pipe [] 258).1).0
          >>= (λ buf. format_file_data_cancel buf))
        ≡ some 33619968)
unfolding swapped htonl
recv_entry_set_start-send_entry_set_start_example =
    recv_entry_set_start-send_entry_set_start pipe [] 258 (omega arith) refl (λ bs. refl)

recv_error-send_error_example :
    let text : Bytes = replicate 255 65 in
    Got pipe (recv_error pipe 256 (send_error pipe [] long_text).1) text []
    × Got pipe (recv_login_ack pipe 8192 (send_login_ack pipe [] long_text).1) long_text []
    × Got pipe (recv_disconnect_ack pipe 256 (send_disconnect_ack pipe [] long_text).1) text []
    × Got pipe
        (recv_peer_login_failed pipe 256 (send_peer_login_failed pipe [] long_text).1)
        text
        []
    × Got pipe
        (recv_forced_disconnect pipe 256 (send_forced_disconnect pipe [] long_text).1)
        text
        (65 ∷ [])
    × Got pipe (recv_peer_error pipe 256 (send_peer_error pipe [] long_text).1) text (65 ∷ [])
    × Got pipe (recv_file_request pipe 256 (send_file_request pipe [] long_text).1) text (65 ∷ [])
    × Got pipe
        (recv_push_request_ack pipe 256 (send_push_request_ack pipe [] long_text).1)
        text
        (65 ∷ [])
recv_error-send_error_example =
    recv_error-send_error pipe [] 256 8192 long_text (omega arith) (omega arith) (omega arith) refl
      (λ s bs. refl)

recv_login_failed-send_login_failed_example :
    ((recv_login_failed pipe 256 (send_login_failed pipe [] name).1).0 ≡ failed)
    × ((recv_login_failed pipe 256 (send_login_failed pipe [] name).1).1 ≡ name)
recv_login_failed-send_login_failed_example =
    recv_login_failed-send_login_failed pipe [] 256 name (omega arith) refl (λ s bs. refl)

abbrev found_file : FoundFile
found_file = record {
  ip_addr = 10 ∷ 0 ∷ 0 ∷ 1 ∷ [];
  connection = 3;
  firewall_status = 0;
  filesize = 700;
  control_port = 4000;
  id = 2;
  result = name;
}

query_result_arrives :
    (recv_query_result pipe 256 (send_query_result pipe [] found_file).1).0 ≡ received found_file
unfolding recv_query_result send_query_result read_result store_at send_both encode decode htonl
    ntohl
query_result_arrives = refl

abbrev push : PushRequest
push = record { ip_addr = 10 ∷ 0 ∷ 0 ∷ 1 ∷ []; ctrl_port = 4000; id = 2; filename = name }

push_request_arrives :
    (recv_push_request pipe 256 (send_push_request pipe [] push).1).0 ≡ received push
unfolding recv_push_request send_push_request read_push store_at send_both encode decode htonl ntohl
push_request_arrives = refl

-- The buffer of the object gets two bytes behind four words, as the id is taken for the length.
push_request_left :
    (recv_push_request_raw pipe (send_push_request pipe [] push).1).1 ≡ 0 ∷ 3 ∷ 97 ∷ 46 ∷ 98 ∷ []
unfolding recv_push_request_raw send_push_request fourth_word send_both encode htonl ntohl
push_request_left = refl
