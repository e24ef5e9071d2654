-- ===== src/Message/Wire.antt =====
-- Reading back what was written: words, headers, and streams.
use neshare.Base.{
  ℕ, ◌+◌, ◌*◌, ◌/◌, ◌%◌, ◌≤◌, ◌<◌, ◌≡◌, refl, sym, ap, ◌∙◌, List, [], ◌∷◌, ◌++◌, Option, some,
  arith, Bytes, length, take, drop, length-append, take-append, drop-append, append_assoc,
  append-nil, word,
}
use mathlib.Core.Option
use neshare.Message.{Connection, htonl, ntohl, encode, decode}

-- Words that fit in 32 bits.
abbrev pub AreWords : List ℕ → Type 0
AreWords [] = Unit
AreWords (w ∷ ws) = (w < word) × AreWords ws

pub ntohl-htonl : (w : ℕ) (rest : Bytes) → w < word → ntohl (htonl w ++ rest) ≡ (w, rest)
unfolding ntohl htonl
ntohl-htonl w rest h =
    let same : ((w / 16777216 % 256 * 256 + w / 65536 % 256) * 256 + w / 256 % 256) * 256 + w % 256
        ≡ w =
      omega (arith, h) in
    rw same refl

pub decode-encode :
    (ws : List ℕ) (rest : Bytes) → AreWords ws → decode (length ws) (encode ws ++ rest) ≡ ws
unfolding decode encode
decode-encode [] rest h = refl
decode-encode (w ∷ ws) rest h =
    let next =
      ap ntohl (append_assoc (htonl w) (encode ws) rest) ∙ ntohl-htonl w (encode ws ++ rest) h.0 in
    rw next (ap (◌∷◌ w) (decode-encode ws rest h.1))

pub length-encode : (ws : List ℕ) → length (encode ws) ≡ 4 * length ws
unfolding encode htonl
length-encode [] = refl
length-encode (w ∷ ws) = omega (arith, length-encode ws)

pub decode-whole : (ws : List ℕ) → AreWords ws → decode (length ws) (encode ws) ≡ ws
decode-whole ws h = ap (decode (length ws)) (sym (append-nil (encode ws))) ∙ decode-encode ws [] h

module _ (c : Connection) where
  -- `readData` of a header of `n` words
  unfoldable pub read_words : c.Stream → ℕ → Option (List ℕ) × c.Stream
  read_words s n = let (r, s') = c.read_data s (4 * n) in (Option.map (decode n) r, s')

  pub read_data-first :
      (s : c.Stream) (bs rest : Bytes)
      → c.pending s ≡ bs ++ rest
      → let r = c.read_data s (length bs) in (r.0 ≡ some bs) × (c.pending r.1 ≡ rest)
  read_data-first s bs rest e =
      let there : length bs ≤ length (c.pending s) =
        omega (arith, length-append bs rest, ap length e) in
      (
        c.read_data-there s (length bs) there
            ∙ ap (λ (xs : Bytes). some (take (length bs) xs)) e
            ∙ ap some (take-append bs rest),
        c.read_data-pending s (length bs) there ∙ ap (drop (length bs)) e ∙ drop-append bs rest,
      )

  pub read_words-first :
      (s : c.Stream) (ws : List ℕ) (rest : Bytes)
      → AreWords ws
      → c.pending s ≡ encode ws ++ rest
      → let r = read_words s (length ws) in (r.0 ≡ some ws) × (c.pending r.1 ≡ rest)
  unfolding read_words
  read_words-first s ws rest h e =
      let (first, after) = read_data-first s (encode ws) rest e in
      rw (sym (length-encode ws), first) (ap some (decode-whole ws h), after)
