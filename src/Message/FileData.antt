-- ===== src/Message/FileData.antt =====
-- The data of a file on its way to a peer: ne_common/nemsgfiledatasend.cpp and
-- nemsgfiledatasendend.cpp. The constants are those of nemsgconsts.h.
use neshare.Base.{
  ℕ, List, [], ◌∷◌, Option, none, some, ◌==◌, if◌then◌else◌, nat_key, Bytes, length, min, is_empty,
  ◌>>=◌,
}
use neshare.Message.{Connection, ntohl, encode}
use neshare.Message.Wire.{read_words}
use neshare.Message.Text.{send_both}
use neshare.Message.Numbers.{send_header}

abbrev pub msg_file_data_send : ℕ
msg_file_data_send = 0x00010022

abbrev pub msg_file_data_send_end : ℕ
msg_file_data_send_end = 0x00010023

abbrev pub invalid_file_id : ℕ
invalid_file_id = 0xFFFFFFFF

unfoldable pub file_data_header : ℕ → ℕ → List ℕ
file_data_header file_id size = msg_file_data_send ∷ file_id ∷ size ∷ []

-- The file id of a header of the right type
unfoldable pub end_fields : List ℕ → Option ℕ
end_fields (t ∷ file_id ∷ []) = if t == msg_file_data_send_end then some file_id else none
end_fields _ = none

module _ (c : Connection) where
  -- `nemsgFileDataSend::send`; the data is all of what is announced.
  unfoldable pub send_file_data : c.Stream → ℕ → Bytes → ℕ × c.Stream
  send_file_data s file_id bytes =
      if is_empty bytes
      then (1, s)
      else send_both c s (encode (file_data_header file_id (length bytes))) bytes

  -- The data is read, after a header of the right type, as much of it as there is room for; the
  -- size that is given back is the one that the header announces.
  unfoldable pub recv_data : c.Stream → ℕ → List ℕ → Option (ℕ × ℕ × Bytes) × c.Stream
  recv_data s maxlen (t ∷ file_id ∷ size ∷ []) =
      let (r, s') = c.read_data s (min size maxlen) in
      if t == msg_file_data_send
      then (r >>= (λ bytes. some (file_id, size, bytes)), s')
      else (none, s)
  recv_data s maxlen _ = (none, s)

  -- `nemsgFileDataSend::recv`
  unfoldable pub recv_file_data : c.Stream → ℕ → Option (ℕ × ℕ × Bytes) × c.Stream
  recv_file_data s maxlen =
      let (r, s') = read_words c s 3 in
      elim r [ none ↦ (none, s') | some ws ↦ recv_data s' maxlen ws ]

  -- `getMessageType`, `getFileID` and `getDataLength`: the next word, 0 when it cannot be read
  unfoldable pub get_word : c.Stream → ℕ × c.Stream
  get_word s =
      let (r, s') = c.read_data s 4 in
      (elim r [ none ↦ 0 | some word_bytes ↦ (ntohl word_bytes).0 ], s')

  -- `nemsgFileDataSend::readData`
  unfoldable pub read_file_data : c.Stream → ℕ → ℕ → Option Bytes × c.Stream
  read_file_data s size maxlen = c.read_data s (min size maxlen)

  -- `nemsgFileDataSendEnd::send`
  unfoldable pub send_file_data_end : c.Stream → ℕ → ℕ × c.Stream
  send_file_data_end s file_id = send_header c s (msg_file_data_send_end ∷ file_id ∷ [])

  -- `nemsgFileDataSendEnd::recv`
  unfoldable pub recv_file_data_end : c.Stream → Option ℕ × c.Stream
  recv_file_data_end s = let (r, s') = read_words c s 2 in (r >>= end_fields, s')
