-- ===== src/Message/Pushes.antt =====
-- The request to push a file and the result of a search: ne_common/nemsgpushrequest.cpp and
-- nemsgqueryresult.cpp. An address is the four bytes that lie in memory, which a little-endian
-- machine sends as they are. NULL is the empty text.
use neshare.Base.{
  ℕ, ◌+◌, ◌-◌, min, List, [], ◌∷◌, ◌++◌, Option, none, some, ltb, ◌==◌, if◌then◌else◌, nat_key,
  Bytes, length, take, drop,
}
use neshare.Message.{Connection, ntohl, encode, decode}
use neshare.Message.Text.{
  Outcome, failed, overrun, received, max_data_len, max_raw_data_len, send_both,
}
use neshare.Message.Signals.{swapped}

abbrev pub msg_query_result : ℕ
msg_query_result = 0x33

abbrev pub msg_push_request : ℕ
msg_push_request = 0x43

-- What a request to push a file says
pub record PushRequest : Type 0 where
  pub ip_addr : Bytes
  pub ctrl_port : ℕ
  pub id : ℕ
  pub filename : Bytes

-- What a result of a search says
pub record FoundFile : Type 0 where
  pub ip_addr : Bytes
  pub connection : ℕ
  pub firewall_status : ℕ
  pub filesize : ℕ
  pub control_port : ℕ
  pub id : ℕ
  pub result : Bytes

-- A text is stored with its end, which has to lie in the buffer.
unfoldable pub store_at {ℓ} : {A : Type ℓ} → ℕ → (Bytes → A) → Option Bytes → Outcome A
store_at maxlen make none = failed
store_at maxlen make (some text) =
    if ltb (length text) maxlen then received (make text) else overrun

-- The fourth word of a request: the id, which the source takes for the length of the name
unfoldable pub fourth_word : Bytes → ℕ
fourth_word header = (ntohl (drop 12 header)).0

module _ (c : Connection) where
  -- `nemsgPushRequest::send`
  unfoldable pub send_push_request : c.Stream → PushRequest → ℕ × c.Stream
  send_push_request s p =
      let len = min (length p.filename) max_data_len in
      if len == 0
      then (1, s)
      else send_both c s
          (encode (msg_push_request ∷ []) ++ (p.ip_addr ++ encode (p.ctrl_port ∷ p.id ∷ len ∷ [])))
          (take len p.filename)

  -- The name behind a header of the right type
  unfoldable pub read_push : ℕ → c.Stream → Bytes → List ℕ → List ℕ → Outcome PushRequest × c.Stream
  read_push maxlen s ip (t ∷ []) (port ∷ id ∷ len ∷ []) =
      if t == msg_push_request
      then (let (r, s') = c.read_data s (min (min maxlen (max_data_len - 1)) len) in
          (
            store_at maxlen
                (λ name. record { ip_addr = ip; ctrl_port = port; id = id; filename = name }) r,
            s',
          ))
      else (failed, s)
  read_push maxlen s ip _ _ = (failed, s)

  -- `nemsgPushRequest::recv` with a buffer
  unfoldable pub recv_push_request : ℕ → c.Stream → Outcome PushRequest × c.Stream
  recv_push_request maxlen s =
      let (r, s') = c.read_data s 20 in
      elim r [
        | none ↦ (failed, s')
        | some header ↦
            read_push maxlen s' (take 4 (drop 4 header)) (decode 1 header)
              (decode 3 (drop 8 header))
      ]

  -- `nemsgPushRequest::recv` into the buffer of the object: four words and what the fourth announces
  unfoldable pub recv_push_request_raw : c.Stream → Outcome Bytes × c.Stream
  recv_push_request_raw s =
      let (r, s1) = c.read_data s 16 in
      elim r [
        | none ↦ (failed, s1)
        | some header ↦
            let (r', s2) = c.read_data s1 (min (max_raw_data_len - 15) (fourth_word header)) in
            elim r' [
              | none ↦ (failed, s2)
              | some text ↦ (
                if ltb (length text + 16) max_raw_data_len
                    then received (header ++ text)
                    else overrun,
                s2,
              )
            ]
      ]

  -- `nemsgQueryResult::send`
  unfoldable pub send_query_result : c.Stream → FoundFile → ℕ × c.Stream
  send_query_result s q =
      let len = min (length q.result) (max_data_len - 1) in
      if len == 0
      then (1, s)
      else send_both c s
          (encode (msg_query_result ∷ [])
            ++ (q.ip_addr
                ++ encode (
                    q.connection ∷ q.firewall_status ∷ q.filesize ∷ q.control_port ∷ q.id ∷ len
                    ∷ [])))
          (take len q.result)

  -- The text behind a header of the right type
  unfoldable pub read_result : ℕ → c.Stream → Bytes → List ℕ → List ℕ → Outcome FoundFile × c.Stream
  read_result maxlen s ip (t ∷ []) (speed ∷ wall ∷ size ∷ port ∷ id ∷ len ∷ []) =
      if t == msg_query_result
      then (let (r, s') = c.read_data s (min len (min maxlen (max_data_len - 1))) in
          (
            store_at maxlen
                (λ text. record {
                  ip_addr = ip;
                  connection = speed;
                  firewall_status = wall;
                  filesize = size;
                  control_port = port;
                  id = id;
                  result = text;
                })
                r,
            s',
          ))
      else (failed, s)
  read_result maxlen s ip _ _ = (failed, s)

  -- `nemsgQueryResult::recv`
  unfoldable pub recv_query_result : ℕ → c.Stream → Outcome FoundFile × c.Stream
  recv_query_result maxlen s =
      let (r, s') = c.read_data s 32 in
      elim r [
        | none ↦ (failed, s')
        | some header ↦
            read_result maxlen s' (take 4 (drop 4 header)) (decode 1 header)
              (decode 6 (drop 8 header))
      ]

-- `nemsgPushRequest::format`, which does not turn the port and the id into the order of the machine
unfoldable pub format_push_request : Bytes → ℕ → Outcome PushRequest
format_push_request buf maxlen =
    if (ntohl buf).0 == msg_push_request
    then store_at maxlen
        (λ name. record {
          ip_addr = take 4 (drop 4 buf);
          ctrl_port = swapped (drop 8 buf);
          id = swapped (drop 12 buf);
          filename = name;
        })
        (some
          (take (min (min maxlen (max_raw_data_len - 1)) (ntohl (drop 16 buf)).0) (drop 20 buf)))
    else failed
