-- ===== src/Message/Entries.antt =====
-- Round trips of the entry message, and the announced lengths that overrun a buffer.
use neshare.Base.{
  ℕ, ◌+◌, ◌-◌, ◌≤◌, ◌<◌, ◌≡◌, refl, sym, ap, ◌∙◌, true, false, [], ◌++◌, some, arith, ltb, leb,
  ◌==◌, if◌then◌else◌, nat_key, Bytes, length, take, drop, min, append-nil, append_assoc,
  length-take, drop-append, take_all, Bool-cases, inl, inr, word, ltb-false,
}
use neshare.Message.{Connection, encode, decode}
use neshare.Message.Wire.{
  AreWords, decode-whole, decode-encode, length-encode, read_words, read_data-first,
  read_words-first,
}
use neshare.Message.Text.{
  Outcome, overrun, received, EntryData, entry_header, send_both, send_entry, recv_name, recv_entry,
  recv_entry_raw, announced, format_fields, format_entry, second, max_data_len, max_raw_data_len,
}

pub take-min : (n : ℕ) (xs : Bytes) → take (min (length xs) n) xs ≡ take n xs
take-min n xs = elim (Bool-cases (leb (length xs) n)) [
  | inl few ↦
      let short : length xs ≤ n = ground (arith, few) in
      let all : min (length xs) n ≡ length xs = omega (arith, short) in
      rw (all, take_all (length xs) xs (omega arith), take_all n xs short) refl
  | inr many ↦ let cut : min (length xs) n ≡ n = ground (arith, many) in rw cut refl
]

module _ (c : Connection) where
  pub send_both-pending :
      (s : c.Stream) (header text : Bytes)
      → (send_both c s header text).0 ≡ 0
      → c.pending (send_both c s header text).1 ≡ c.pending s ++ (header ++ text)
  unfolding send_both
  send_both-pending s header text h = elim (Bool-cases (c.write_data s header).0) [
    | inl ok ↦
        let s1 = (c.write_data s header).1 in
        let h' : (if (c.write_data s1 text).0 then 0 else 1) ≡ 0 = rw ok at h in
        let ok' : (c.write_data s1 text).0 ≡ true = ground (arith, h') in
        rw ok (
          c.write_data-pending s1 text ok'
          ∙ ap (λ (bs : Bytes). bs ++ text) (c.write_data-pending s header ok)
          ∙ append_assoc (c.pending s) header text)
    | inr bad ↦ absurd (ground (arith, h, bad))
  ]

  -- What is read of a message with a name that fits.
  read_entry :
      (s : c.Stream) (name rest : Bytes) (size maxlen : ℕ)
      → size < word
      → length name < 256
      → length name < maxlen
      → c.pending s ≡ encode (entry_header (length name) size) ++ (name ++ rest)
      → ((recv_entry c s maxlen).0 ≡ received (name, size))
        × (c.pending (recv_entry c s maxlen).1 ≡ rest)
  unfolding recv_entry recv_name entry_header
  read_entry s name rest size maxlen small short fits e =
      let ws = entry_header (length name) size in
      let words : AreWords ws = (omega arith, (omega (arith, short), (small, tt))) in
      let (first, after) = read_words-first c s ws (name ++ rest) words e in
      let (text, after') = read_data-first c (read_words c s 3).1 name rest after in
      let n : min (min maxlen (max_data_len - 1)) (length name) ≡ length name =
        omega (arith, short, fits) in
      let stored : ltb (length name) maxlen ≡ true = ground (arith, fits) in
      let first' : (read_words c s 3).0 ≡ some ws = first in
      rw (first', recv_entry, recv_name, n, text, stored, n) (refl, after')

  -- The same into the buffer, from which `format` takes it.
  read_entry_raw :
      (s : c.Stream) (name rest : Bytes) (size maxlen : ℕ)
      → size < word
      → length name < 256
      → length name < maxlen
      → c.pending s ≡ encode (entry_header (length name) size) ++ (name ++ rest)
      → ((recv_entry_raw c s).0 ≡ received (encode (entry_header (length name) size) ++ name))
        × (format_entry (encode (entry_header (length name) size) ++ name) maxlen
            ≡ received (name, size))
        × (c.pending (recv_entry_raw c s).1 ≡ rest)
  unfolding recv_entry_raw announced format_entry format_fields entry_header
  read_entry_raw s name rest size maxlen small short fits e =
      let ws = entry_header (length name) size in
      let words : AreWords ws = (omega arith, (omega (arith, short), (small, tt))) in
      let twelve : length (encode ws) ≡ 12 = length-encode ws in
      let (first, after) = read_data-first c s (encode ws) (name ++ rest) e in
      let first' : (c.read_data s 12).0 ≡ some (encode ws) = rw twelve at first in
      let after_header : c.pending (c.read_data s 12).1 ≡ name ++ rest = rw twelve at after in
      let (text, after') = read_data-first c (c.read_data s 12).1 name rest after_header in
      let len : decode 3 (encode ws) ≡ ws = decode-whole ws words in
      let len' : decode 3 (encode ws ++ name) ≡ ws = decode-encode ws name words in
      let told : announced (encode ws) ≡ length name = ap second len in
      let n : min (max_raw_data_len - 11) (announced (encode ws)) ≡ length name =
        omega (arith, short, told) in
      let n' : min (min maxlen (max_raw_data_len - 1)) (length name) ≡ length name =
        omega (arith, short, fits) in
      let room : ltb (length name + 12) max_raw_data_len ≡ true = ground (arith, short) in
      let stored : ltb (length name) maxlen ≡ true = ground (arith, fits) in
      let body : drop 12 (encode ws ++ name) ≡ name =
        ap (λ (k : ℕ). drop k (encode ws ++ name)) (sym twelve) ∙ drop-append (encode ws) name in
      let whole : take (length name) name ≡ name = take_all (length name) name (omega arith) in
      (
        rw (first', recv_entry_raw, n, text, room) refl,
        ap (format_fields (encode ws ++ name) maxlen) len' ∙ rw (n', body, whole, stored) refl,
        rw (first', recv_entry_raw, n, text, n) after',
      )

  -- A name that is not empty, sent over a quiet connection and received into a buffer of 256 bytes,
  -- arrives with its size, cut to its first 255 bytes, and the connection is quiet again; receiving
  -- it into the message's buffer and formatting it gives the same.
  pub recv_entry-send_entry :
      (s : c.Stream) (name : Bytes) (size : ℕ)
      → size < word
      → 0 < length name
      → c.pending s ≡ []
      → (send_entry c s (name, size)).0 ≡ 0
      → let s' = (send_entry c s (name, size)).1 in
        let arrived : Outcome EntryData = received (take 255 name, size) in
        ((recv_entry c s' 256).0 ≡ arrived)
        × (c.pending (recv_entry c s' 256).1 ≡ [])
        × ((buf : Bytes) × ((recv_entry_raw c s').0 ≡ received buf)
            × (format_entry buf 256 ≡ arrived))
        × (c.pending (recv_entry_raw c s').1 ≡ [])
  unfolding send_entry
  recv_entry-send_entry s name size small full quiet sent =
      let len = min (length name) (max_data_len - 1) in
      let text = take len name in
      let some_text : (len == 0) ≡ false = ground (arith, full) in
      let measured : length text ≡ len = omega (arith, length-take len name) in
      let both = send_both c s (encode (entry_header len size)) text in
      let is_both : send_entry c s (name, size) ≡ both = rw (some_text, send_entry) refl in
      let sent' : both.0 ≡ 0 = sym (ap (λ (r : ℕ × c.Stream). r.0) is_both) ∙ sent in
      let there : c.pending both.1 ≡ encode (entry_header (length text) size) ++ (text ++ []) =
        send_both-pending s (encode (entry_header len size)) text sent'
        ∙ ap (λ (bs : Bytes). bs ++ (encode (entry_header len size) ++ text)) quiet
        ∙ ap (λ (n : ℕ). encode (entry_header n size) ++ text) (sym measured)
        ∙ ap (◌++◌ (encode (entry_header (length text) size))) (sym (append-nil text)) in
      let short : length text < 256 = omega (arith, measured) in
      let cut : text ≡ take 255 name = take-min 255 name in
      let (got, after) = read_entry both.1 text [] size 256 small short short there in
      let (raw, formatted, raw_after) =
        read_entry_raw both.1 text [] size 256 small short short there in
      rw (is_both, sym cut) (got, after, (_, raw, formatted), raw_after)

  -- An announced length of 500 or more makes the terminator go past the end of the buffer of the
  -- message, and one of 256 or more past the end of a caller's buffer of 256 bytes.
  pub recv_entry_raw-overruns :
      (s : c.Stream) (text rest : Bytes) (len size : ℕ)
      → len < word
      → size < word
      → length text ≡ min 501 len
      → c.pending s ≡ encode (entry_header len size) ++ (text ++ rest)
      → (500 ≤ len → (recv_entry_raw c s).0 ≡ overrun)
        × (256 ≤ len → format_entry (encode (entry_header len size) ++ text) 256 ≡ overrun)
  unfolding recv_entry_raw announced format_entry format_fields entry_header
  recv_entry_raw-overruns s text rest len size small small' measured e =
      let ws = entry_header len size in
      let words : AreWords ws = (omega arith, (small, (small', tt))) in
      let twelve : length (encode ws) ≡ 12 = length-encode ws in
      let (first, after) = read_data-first c s (encode ws) (text ++ rest) e in
      let first' : (c.read_data s 12).0 ≡ some (encode ws) = rw twelve at first in
      let after_header : c.pending (c.read_data s 12).1 ≡ text ++ rest = rw twelve at after in
      let (got, _) = read_data-first c (c.read_data s 12).1 text rest after_header in
      let whole : decode 3 (encode ws) ≡ ws = decode-whole ws words in
      let whole' : decode 3 (encode ws ++ text) ≡ ws = decode-encode ws text words in
      let told : announced (encode ws) ≡ len = ap second whole in
      let n : min (max_raw_data_len - 11) (announced (encode ws)) ≡ length text =
        omega (arith, told, measured) in
      let body : drop 12 (encode ws ++ text) ≡ text =
        ap (λ (k : ℕ). drop k (encode ws ++ text)) (sym twelve) ∙ drop-append (encode ws) text in
      (
        λ long.
            let full : ltb (length text + 12) max_raw_data_len ≡ false =
              ltb-false (length text + 12) max_raw_data_len (omega (arith, long, measured)) in
            rw (first', recv_entry_raw, n, got, full) refl,
        λ long.
            let n' : min (min 256 (max_raw_data_len - 1)) len ≡ 256 = omega (arith, long) in
            let full : ltb (length (take 256 text)) 256 ≡ false =
              ltb-false (length (take 256 text)) 256
                (omega (arith, long, measured, length-take 256 text)) in
            ap (format_fields (encode ws ++ text) 256) whole' ∙ rw (n', body, full) refl,
      )
