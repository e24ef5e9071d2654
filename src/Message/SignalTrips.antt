-- ===== src/Message/SignalTrips.antt =====
-- What was sent as a type or a type and a number is received.
use neshare.Base.{
  ℕ, ◌*◌, ◌<◌, ◌≡◌, refl, sym, ap, ◌∙◌, List, [], ◌∷◌, ◌++◌, Option, some, true, arith, ◌>>=◌,
  ==_refl, nat_key, Bytes, length, append-nil, word,
}
use neshare.Message.{Connection, encode, decode, htonl, ntohl}
use neshare.Message.Wire.{
  AreWords, decode-whole, length-encode, read_words, read_data-first, read_words-first,
}
use neshare.Message.Numbers.{send_header, send_header-pending}
use neshare.Message.Signals.{
  type_alone, number_of, recv_type, recv_number, format_number, msg_ping, msg_pong, msg_disconnect,
  msg_peer_login, msg_peer_login_ack, msg_peer_disconnect, msg_entry_set_start, msg_entry_set_end,
  msg_search_results, msg_file_data_cancel, send_ping, recv_ping, send_pong, recv_pong,
  send_disconnect, recv_disconnect, send_peer_login, recv_peer_login, send_peer_login_ack,
  recv_peer_login_ack, send_peer_disconnect, recv_peer_disconnect, send_entry_set_start,
  recv_entry_set_start, recv_entry_set_start_raw, format_entry_set_start, send_entry_set_end,
  recv_entry_set_end, recv_entry_set_end_raw, format_entry_set_end, send_search_results,
  recv_search_results, send_file_data_cancel, recv_file_data_cancel, recv_file_data_cancel_raw,
  format_file_data_cancel, swapped,
}

cancel_swapped :
    (n : ℕ)
    → format_file_data_cancel (encode (msg_file_data_cancel ∷ n ∷ [])) ≡ some (swapped (htonl n))
unfolding format_file_data_cancel type_alone encode decode htonl ntohl
cancel_swapped n = refl

module _ (c : Connection) where
  -- What a header leaves in a quiet connection
  sent_words :
      (s : c.Stream) (ws : List ℕ)
      → AreWords ws
      → c.pending s ≡ []
      → (send_header c s ws).0 ≡ 0
      → let s' = (send_header c s ws).1 in
        ((read_words c s' (length ws)).0 ≡ some ws)
        × (c.pending (read_words c s' (length ws)).1 ≡ [])
        × ((c.read_data s' (4 * length ws)).0 ≡ some (encode ws))
  sent_words s ws words quiet sent =
      let there : c.pending (send_header c s ws).1 ≡ encode ws ++ [] =
        send_header-pending c s ws sent
        ∙ ap (λ (bs : Bytes). bs ++ encode ws) quiet
        ∙ sym (append-nil (encode ws)) in
      let (first, after) = read_words-first c (send_header c s ws).1 ws [] words there in
      let (raw, _) = read_data-first c (send_header c s ws).1 (encode ws) [] there in
      (first, after, rw (length-encode ws) at raw)

  type_trip :
      (s : c.Stream) (type : ℕ)
      → type < word
      → c.pending s ≡ []
      → (send_header c s (type ∷ [])).0 ≡ 0
      → let r = recv_type c type (send_header c s (type ∷ [])).1 in
        (r.0 ≡ some type) × (c.pending r.1 ≡ [])
  unfolding recv_type type_alone
  type_trip s type small quiet sent =
      let (first, after, _) = sent_words s (type ∷ []) (small, tt) quiet sent in
      (rw (first, ==_refl) refl, after)

  number_trip :
      (s : c.Stream) (type n : ℕ)
      → type < word
      → n < word
      → c.pending s ≡ []
      → (send_header c s (type ∷ n ∷ [])).0 ≡ 0
      → let s' = (send_header c s (type ∷ n ∷ [])).1 in
        ((recv_number c type s').0 ≡ some n)
        × (c.pending (recv_number c type s').1 ≡ [])
        × (((c.read_data s' 8).0 >>= (λ buf. format_number type buf)) ≡ some n)
  unfolding recv_number number_of format_number
  number_trip s type n small_type small quiet sent =
      let ws = type ∷ n ∷ [] in
      let words : AreWords ws = (small_type, (small, tt)) in
      let (first, after, raw) = sent_words s ws words quiet sent in
      (rw (first, ==_refl) refl, after, rw (raw, decode-whole ws words, ==_refl) refl)

  pub header_works :
      (s : c.Stream) (ws : List ℕ)
      → ((bs : Bytes) → (c.write_data s bs).0 ≡ true)
      → (send_header c s ws).0 ≡ 0
  unfolding send_header
  header_works s ws works = rw (works (encode ws)) refl

  -- This value is received, and nothing is left.
  abbrev pub Arrived : Option ℕ × c.Stream → ℕ → Type 0
  Arrived (r, s) n = (r ≡ some n) × (c.pending s ≡ [])

  -- A message of a type alone that is sent over a quiet connection that works is received, and the
  -- connection is quiet again.
  pub recv_ping-send_ping :
      (s : c.Stream)
      → c.pending s ≡ []
      → ((bs : Bytes) → (c.write_data s bs).0 ≡ true)
      → Arrived (recv_ping c (send_ping c s).1) msg_ping
        × Arrived (recv_pong c (send_pong c s).1) msg_pong
        × Arrived (recv_disconnect c (send_disconnect c s).1) msg_disconnect
        × Arrived (recv_peer_login c (send_peer_login c s).1) msg_peer_login
        × Arrived (recv_peer_login_ack c (send_peer_login_ack c s).1) msg_peer_login_ack
        × Arrived (recv_peer_disconnect c (send_peer_disconnect c s).1) msg_peer_disconnect
  unfolding send_ping recv_ping send_pong recv_pong send_disconnect recv_disconnect send_peer_login
      recv_peer_login send_peer_login_ack recv_peer_login_ack send_peer_disconnect
      recv_peer_disconnect
  recv_ping-send_ping s quiet works =
      let trip = λ (type : ℕ) (small : type < word).
        type_trip s type small quiet (header_works s (type ∷ []) works) in
      (
        trip msg_ping (omega arith),
        trip msg_pong (omega arith),
        trip msg_disconnect (omega arith),
        trip msg_peer_login (omega arith),
        trip msg_peer_login_ack (omega arith),
        trip msg_peer_disconnect (omega arith),
      )

  -- The same of the messages of a type and a number. What is read into the buffer of the object
  -- gives the number of entries when it is formatted, but a file id that is cancelled with its bytes
  -- in the wrong order.
  pub recv_entry_set_start-send_entry_set_start :
      (s : c.Stream) (n : ℕ)
      → n < word
      → c.pending s ≡ []
      → ((bs : Bytes) → (c.write_data s bs).0 ≡ true)
      → Arrived (recv_entry_set_start c (send_entry_set_start c s n).1) n
        × Arrived (recv_entry_set_end c (send_entry_set_end c s n).1) n
        × Arrived (recv_search_results c (send_search_results c s n).1) n
        × Arrived (recv_file_data_cancel c (send_file_data_cancel c s n).1) n
        × (((recv_entry_set_start_raw c (send_entry_set_start c s n).1).0
              >>= (λ buf. format_entry_set_start buf))
            ≡ some n)
        × (((recv_entry_set_end_raw c (send_entry_set_end c s n).1).0
              >>= (λ buf. format_entry_set_end buf))
            ≡ some n)
        × (((recv_file_data_cancel_raw c (send_file_data_cancel c s n).1).0
              >>= (λ buf. format_file_data_cancel buf))
            ≡ some (swapped (htonl n)))
  unfolding send_entry_set_start recv_entry_set_start send_entry_set_end recv_entry_set_end
      send_search_results recv_search_results send_file_data_cancel recv_file_data_cancel
      recv_entry_set_start_raw recv_entry_set_end_raw recv_file_data_cancel_raw
      format_entry_set_start format_entry_set_end
  recv_entry_set_start-send_entry_set_start s n small quiet works =
      let trip = λ (type : ℕ) (small_type : type < word).
        number_trip s type n small_type small quiet (header_works s (type ∷ n ∷ []) works) in
      let start = trip msg_entry_set_start (omega arith) in
      let end = trip msg_entry_set_end (omega arith) in
      let results = trip msg_search_results (omega arith) in
      let cancel = trip msg_file_data_cancel (omega arith) in
      let (_, _, raw) =
        sent_words s (msg_file_data_cancel ∷ n ∷ []) (omega arith, (small, tt)) quiet
          (header_works s (msg_file_data_cancel ∷ n ∷ []) works) in
      (
        (start.0, start.1),
        (end.0, end.1),
        (results.0, results.1),
        (cancel.0, cancel.1),
        start.2,
        end.2,
        rw raw (cancel_swapped n),
      )
