-- ===== src/Message/Text.antt =====
-- The message with the name and the size of one shared file: ne_common/nemsgentry.h and .cpp. A C
-- string is the list of its bytes before the terminator; NULL is the empty string here, since
-- `send` treats both alike. `maxlen` is the size of the caller's buffer.
use neshare.Base.{
  ℕ, ◌+◌, ◌-◌, List, [], ◌∷◌, ◌++◌, none, some, ltb, ◌==◌, if◌then◌else◌, nat_key, Bytes, length,
  take, drop, min,
}
use neshare.Message.{Connection, encode, decode}
use neshare.Message.Wire.{read_words}

-- How a receiving call ends; `overrun` is a write past the end of a buffer.
pub data Outcome {ℓ} (A : Type ℓ) : Type ℓ where
  failed overrun : Outcome A
  received : A → Outcome A

abbrev pub msg_entry : ℕ
msg_entry = 8

abbrev pub max_data_len : ℕ
max_data_len = 256

abbrev pub max_raw_data_len : ℕ
max_raw_data_len = 512

-- A name and its size
abbrev pub EntryData : Type 0
EntryData = Bytes × ℕ

unfoldable pub entry_header : ℕ → ℕ → List ℕ
entry_header len size = msg_entry ∷ len ∷ size ∷ []

-- A string of `n` bytes is stored with its terminator.
abbrev pub store : ℕ → Bytes → ℕ → Outcome EntryData
store maxlen name size = if ltb (length name) maxlen then received (name, size) else overrun

-- The second word of a header
abbrev pub second : List ℕ → ℕ
second (t ∷ len ∷ ws) = len
second _ = 0

unfoldable pub announced : Bytes → ℕ
announced header = second (decode 3 header)

module _ (c : Connection) where
  -- The two calls of `writeData`; the second is made when the first has gone well.
  unfoldable pub send_both : c.Stream → Bytes → Bytes → ℕ × c.Stream
  send_both s header text =
      let (ok, s1) = c.write_data s header in
      let (ok', s2) = c.write_data s1 text in if ok then (if ok' then 0 else 1, s2) else (1, s1)

  -- `nemsgEntry::send`
  unfoldable pub send_entry : c.Stream → EntryData → ℕ × c.Stream
  send_entry s (name, size) =
      let len = min (length name) (max_data_len - 1) in
      if len == 0 then (1, s) else send_both s (encode (entry_header len size)) (take len name)

  -- The name is read, after a header of the right type.
  unfoldable pub recv_name : c.Stream → ℕ → List ℕ → Outcome EntryData × c.Stream
  recv_name s maxlen (t ∷ len ∷ size ∷ []) =
      if t == msg_entry
      then (let (r, s') = c.read_data s (min (min maxlen (max_data_len - 1)) len) in
          elim r [ none ↦ (failed, s') | some name ↦ (store maxlen name size, s') ])
      else (failed, s)
  recv_name s maxlen _ = (failed, s)

  -- `nemsgEntry::recv(filename, maxlen, filesize)`
  unfoldable pub recv_entry : c.Stream → ℕ → Outcome EntryData × c.Stream
  recv_entry s maxlen =
      let (r, s') = read_words c s 3 in
      elim r [ none ↦ (failed, s') | some ws ↦ recv_name s' maxlen ws ]

  -- `nemsgEntry::recv()`: header and name go to `m_buf`, and a terminator after them.
  unfoldable pub recv_entry_raw : c.Stream → Outcome Bytes × c.Stream
  recv_entry_raw s =
      let (r, s1) = c.read_data s 12 in
      elim r [
        | none ↦ (failed, s1)
        | some header ↦
            let (r', s2) = c.read_data s1 (min (max_raw_data_len - 11) (announced header)) in
            elim r' [
              | none ↦ (failed, s2)
              | some name ↦ (
                if ltb (length name + 12) max_raw_data_len
                    then received (header ++ name)
                    else overrun,
                s2,
              )
            ]
      ]

-- `nemsgEntry::format(filename, maxlen, filesize)` on `m_buf`
unfoldable pub format_fields : Bytes → ℕ → List ℕ → Outcome EntryData
format_fields buf maxlen (t ∷ len ∷ size ∷ []) =
    if t == msg_entry
    then store maxlen (take (min (min maxlen (max_raw_data_len - 1)) len) (drop 12 buf)) size
    else failed
format_fields buf maxlen _ = failed

unfoldable pub format_entry : Bytes → ℕ → Outcome EntryData
format_entry buf maxlen = format_fields buf maxlen (decode 3 buf)
