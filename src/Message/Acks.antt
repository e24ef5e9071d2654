-- ===== src/Message/Acks.antt =====
-- The answers to a request for a file and the wish to resume one: ne_common/nemsgfilerequestack.cpp,
-- nemsgfileresumeack.cpp and nemsgfileresume.cpp. NULL is the empty text.
use neshare.Base.{
  ℕ, ◌-◌, min, List, [], ◌∷◌, ◌++◌, Option, none, some, ltb, ◌==◌, if◌then◌else◌, nat_key, Bytes,
  length, take, drop,
}
use neshare.Message.{Connection, encode, decode}
use neshare.Message.Wire.{read_words}
use neshare.Message.Text.{Outcome, failed, overrun, received, max_data_len, send_both}

abbrev pub msg_file_request_ack : ℕ
msg_file_request_ack = 0x00010021

abbrev pub msg_file_resume : ℕ
msg_file_resume = 0x00010025

abbrev pub msg_file_resume_ack : ℕ
msg_file_resume_ack = 0x00010026

-- The file id, the size of a block, the size of the file, its checksum of 16 bytes and its name
pub record Ack : Type 0 where
  pub file_send_id : ℕ
  pub max_block_size : ℕ
  pub filesize : ℕ
  pub md5checksum : Bytes
  pub filename : Bytes

-- The header of an answer: four words, the checksum and the length of the name
unfoldable pub ack_header : ℕ → Ack → ℕ → Bytes
ack_header type a len =
    encode (type ∷ a.file_send_id ∷ a.max_block_size ∷ a.filesize ∷ [])
    ++ (a.md5checksum ++ encode (len ∷ []))

-- A name is stored with its end, which has to lie in the buffer.
unfoldable pub store_name : ℕ → (Bytes → Ack) → Option Bytes → Outcome Ack
store_name maxlen ack none = failed
store_name maxlen ack (some name) =
    if ltb (length name) maxlen then received (ack name) else overrun

-- A place in a file and its name
unfoldable pub store_place : ℕ → ℕ → Option Bytes → Outcome (ℕ × Bytes)
store_place maxlen position none = failed
store_place maxlen position (some name) =
    if ltb (length name) maxlen then received (position, name) else overrun

module _ (c : Connection) where
  -- `send` of an answer
  unfoldable pub send_ack : ℕ → c.Stream → Ack → ℕ × c.Stream
  send_ack type s a =
      let len = min (length a.filename) max_data_len in
      if len == 0 then (1, s) else send_both c s (ack_header type a len) (take len a.filename)

  -- The name behind the four words of a header of the right type
  unfoldable pub read_ack : ℕ → ℕ → c.Stream → Bytes → List ℕ → List ℕ → Outcome Ack × c.Stream
  read_ack type maxlen s sum (t ∷ id ∷ block ∷ size ∷ []) (len ∷ []) =
      if t == type
      then (let (r, s') = c.read_data s (min (min maxlen (max_data_len - 1)) len) in
          (
            store_name maxlen
                (λ name. record {
                  file_send_id = id;
                  max_block_size = block;
                  filesize = size;
                  md5checksum = sum;
                  filename = name;
                })
                r,
            s',
          ))
      else (failed, s)
  read_ack type maxlen s sum _ _ = (failed, s)

  -- `recv` of an answer: a header of 36 bytes, and the name
  unfoldable pub recv_ack : ℕ → ℕ → c.Stream → Outcome Ack × c.Stream
  recv_ack type maxlen s =
      let (r, s') = c.read_data s 36 in
      elim r [
        | none ↦ (failed, s')
        | some header ↦
            read_ack type maxlen s' (take 16 (drop 16 header)) (decode 4 header)
              (decode 1 (drop 32 header))
      ]

  -- `nemsgFileRequestAck::send`
  unfoldable pub send_file_request_ack : c.Stream → Ack → ℕ × c.Stream
  send_file_request_ack s a = send_ack msg_file_request_ack s a

  -- `nemsgFileRequestAck::recv`
  unfoldable pub recv_file_request_ack : ℕ → c.Stream → Outcome Ack × c.Stream
  recv_file_request_ack maxlen s = recv_ack msg_file_request_ack maxlen s

  -- `nemsgFileResumeAck::send`
  unfoldable pub send_file_resume_ack : c.Stream → Ack → ℕ × c.Stream
  send_file_resume_ack s a = send_ack msg_file_resume_ack s a

  -- `nemsgFileResumeAck::recv`
  unfoldable pub recv_file_resume_ack : ℕ → c.Stream → Outcome Ack × c.Stream
  recv_file_resume_ack maxlen s = recv_ack msg_file_resume_ack maxlen s

  -- `nemsgFileResume::send`
  unfoldable pub send_file_resume : c.Stream → Bytes → ℕ → ℕ × c.Stream
  send_file_resume s filename position =
      let len = min (length filename) max_data_len in
      if len == 0
      then (1, s)
      else send_both c s (encode (msg_file_resume ∷ position ∷ len ∷ [])) (take len filename)

  -- The name behind a header of the right type
  unfoldable pub read_place : ℕ → c.Stream → List ℕ → Outcome (ℕ × Bytes) × c.Stream
  read_place maxlen s (t ∷ position ∷ len ∷ []) =
      if t == msg_file_resume
      then (let (r, s') = c.read_data s (min len (min maxlen (max_data_len - 1))) in
          (store_place maxlen position r, s'))
      else (failed, s)
  read_place maxlen s _ = (failed, s)

  -- `nemsgFileResume::recv`
  unfoldable pub recv_file_resume : ℕ → c.Stream → Outcome (ℕ × Bytes) × c.Stream
  recv_file_resume maxlen s =
      let (r, s') = read_words c s 3 in
      elim r [ none ↦ (failed, s') | some ws ↦ read_place maxlen s' ws ]
