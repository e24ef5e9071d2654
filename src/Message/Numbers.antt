-- ===== src/Message/Numbers.antt =====
-- Messages of a type and three numbers: ne_common/nemsglogin.h and .cpp, nemsgstatus.h and .cpp. A
-- receiving call gives `none` where the source returns 1; its pointer arguments are not null.
use neshare.Base.{
  ℕ, ◌<◌, ◌≡◌, refl, sym, ap, ◌∙◌, List, [], ◌∷◌, ◌++◌, Option, none, some, arith, ◌>>=◌, ◌==◌,
  if◌then◌else◌, nat_key, Bytes, length, append-nil, word,
}
use neshare.Message.{Connection, encode, decode}
use neshare.Message.Wire.{
  AreWords, decode-whole, length-encode, read_words, read_data-first, read_words-first,
}

abbrev pub Numbers : Type 0
Numbers = ℕ × ℕ × ℕ

abbrev pub msg_login : ℕ
msg_login = 2

abbrev pub msg_status : ℕ
msg_status = 0x22

-- The header with its type and its fields
unfoldable pub header : ℕ → Numbers → List ℕ
header type (a, b, c) = type ∷ a ∷ b ∷ c ∷ []

-- The fields of a header of this type
unfoldable pub fields : ℕ → List ℕ → Option Numbers
fields type (t ∷ a ∷ b ∷ c ∷ []) = if t == type then some (a, b, c) else none
fields type _ = none

-- The fields of a header whose type is not looked at
unfoldable pub any_fields : List ℕ → Option Numbers
any_fields (t ∷ a ∷ b ∷ c ∷ []) = some (a, b, c)
any_fields _ = none

module _ (c : Connection) where
  -- `writeData` of a header; 0 on success
  unfoldable pub send_header : c.Stream → List ℕ → ℕ × c.Stream
  send_header s ws = let (ok, s') = c.write_data s (encode ws) in (if ok then 0 else 1, s')

  -- `nemsgLogin::send`
  unfoldable pub send_login : c.Stream → Numbers → ℕ × c.Stream
  send_login s n = send_header s (header msg_login n)

  -- `nemsgLogin::recv(connection, firewallStatus, controlPort)`
  unfoldable pub recv_login : c.Stream → Option Numbers × c.Stream
  recv_login s = let (r, s') = read_words c s 4 in (r >>= fields msg_login, s')

  -- `nemsgLogin::recv()`, which reads the header into the buffer
  unfoldable pub recv_login_raw : c.Stream → Option Bytes × c.Stream
  recv_login_raw s = c.read_data s 16

  -- `nemsgStatus::send`
  unfoldable pub send_status : c.Stream → Numbers → ℕ × c.Stream
  send_status s n = send_header s (header msg_status n)

  -- `nemsgStatus::recv(numUsers, numFiles, numMB)`, which does not look at the type
  unfoldable pub recv_status : c.Stream → Option Numbers × c.Stream
  recv_status s = let (r, s') = read_words c s 4 in (r >>= any_fields, s')

  -- `nemsgStatus::recv()`
  unfoldable pub recv_status_raw : c.Stream → Option Bytes × c.Stream
  recv_status_raw s = c.read_data s 16

-- `nemsgLogin::format` on the buffer
unfoldable pub format_login : Bytes → Option Numbers
format_login buf = fields msg_login (decode 4 buf)

-- `nemsgStatus::format`
unfoldable pub format_status : Bytes → Option Numbers
format_status buf = fields msg_status (decode 4 buf)

-- Numbers that fit in 32 bits.
abbrev pub AreNumbers : Numbers → Type 0
AreNumbers (a, b, c) = (a < word) × (b < word) × (c < word)

module _ (c : Connection) where
  pub send_header-pending :
      (s : c.Stream) (ws : List ℕ)
      → (send_header c s ws).0 ≡ 0
      → c.pending (send_header c s ws).1 ≡ c.pending s ++ encode ws
  unfolding send_header
  send_header-pending s ws h = c.write_data-pending s (encode ws) (ground (arith, h))

  -- A header that is sent over a quiet connection is there to be read, in either way.
  sent_header :
      (s : c.Stream) (type : ℕ) (n : Numbers)
      → type < word
      → AreNumbers n
      → c.pending s ≡ []
      → (send_header c s (header type n)).0 ≡ 0
      → let s' = (send_header c s (header type n)).1 in
        ((read_words c s' 4).0 ≡ some (header type n))
        × (c.pending (read_words c s' 4).1 ≡ [])
        × ((c.read_data s' 16).0 ≡ some (encode (header type n)))
        × (c.pending (c.read_data s' 16).1 ≡ [])
        × (decode 4 (encode (header type n)) ≡ header type n)
  unfolding header
  sent_header s type n small_type small quiet sent =
      let ws = header type n in
      let words : AreWords ws = (small_type, (small.0, (small.1, (small.2, tt)))) in
      let there : c.pending (send_header c s ws).1 ≡ encode ws ++ [] =
        send_header-pending s ws sent
        ∙ ap (λ (bs : Bytes). bs ++ encode ws) quiet
        ∙ sym (append-nil (encode ws)) in
      let (first, after) = read_words-first c (send_header c s ws).1 ws [] words there in
      let (raw, raw_after) = read_data-first c (send_header c s ws).1 (encode ws) [] there in
      let size : length (encode ws) ≡ 16 = length-encode ws in
      let raw' = rw size at raw in
      let raw_after' = rw size at raw_after in
      (first, after, raw', raw_after', decode-whole ws words)

  -- A login that is sent over a quiet connection and received gives the numbers that were sent and
  -- leaves the connection quiet; receiving it into the buffer and formatting it gives the same.
  pub recv_login-send_login :
      (s : c.Stream) (n : Numbers)
      → AreNumbers n
      → c.pending s ≡ []
      → (send_login c s n).0 ≡ 0
      → let s' = (send_login c s n).1 in
        ((recv_login c s').0 ≡ some n)
        × (c.pending (recv_login c s').1 ≡ [])
        × (((recv_login_raw c s').0 >>= (λ buf. format_login buf)) ≡ some n)
        × (c.pending (recv_login_raw c s').1 ≡ [])
  unfolding send_login recv_login recv_login_raw format_login header fields
  recv_login-send_login s n small quiet sent =
      let (first, after, raw, raw_after, whole) =
        sent_header s msg_login n (omega arith) small quiet sent in
      (rw first refl, after, rw raw (ap (fields msg_login) whole), raw_after)

  -- The same of a status message. A status is also taken from a header of any other type, by the
  -- direct way of receiving, which does not look at the type.
  pub recv_status-send_status :
      (s : c.Stream) (n : Numbers)
      → AreNumbers n
      → c.pending s ≡ []
      → (send_status c s n).0 ≡ 0
      → let s' = (send_status c s n).1 in
        ((recv_status c s').0 ≡ some n)
        × (c.pending (recv_status c s').1 ≡ [])
        × (((recv_status_raw c s').0 >>= (λ buf. format_status buf)) ≡ some n)
        × (c.pending (recv_status_raw c s').1 ≡ [])
        × (((type : ℕ) (t : c.Stream)
            → (read_words c t 4).0 ≡ some (header type n)
            → (recv_status c t).0 ≡ some n))
  unfolding send_status recv_status recv_status_raw format_status header fields any_fields
  recv_status-send_status s n small quiet sent =
      let (first, after, raw, raw_after, whole) =
        sent_header s msg_status n (omega arith) small quiet sent in
      (
        rw first refl,
        after,
        rw raw (ap (fields msg_status) whole),
        raw_after,
        λ type t e. rw e refl,
      )
