-- ===== src/Message/TextTrips.antt =====
-- What becomes of a text that is sent.
use neshare.Base.{
  ℕ, zero, suc, ◌≤◌, ◌<◌, ◌≡◌, refl, ap, ◌∙◌, min, true, false, List, [], ◌∷◌, ◌++◌, Option, none,
  some, arith, ltb, leb, Bool-cases, inl, inr, ◌==◌, ==_refl, nat_key, Bytes, length, take, drop,
  length-take, word,
}
use neshare.Message.{Connection, encode}
use neshare.Message.Wire.{AreWords, read_words, read_words-first}
use neshare.Message.Text.{Outcome, failed, received, send_both}
use neshare.Message.Entries.{take-min, send_both-pending}
use neshare.Message.Notices.{length_of, store_text, send_text, read_text, recv_text}

drop_short : (n : ℕ) (xs : Bytes) → length xs ≤ n → drop n xs ≡ []
drop_short zero [] h = refl
drop_short zero (x ∷ xs) h = absurd (omega (arith, h))
drop_short (suc n) [] h = refl
drop_short (suc n) (x ∷ xs) h = drop_short n xs (omega (arith, h))

take-take : (n m : ℕ) (xs : Bytes) → n ≤ m → take n (take m xs) ≡ take n xs
take-take zero m xs h = refl
take-take (suc n) zero xs h = absurd (omega (arith, h))
take-take (suc n) (suc m) [] h = refl
take-take (suc n) (suc m) (x ∷ xs) h = ap (◌∷◌ x) (take-take n m xs (omega (arith, h)))

drop-min : (n : ℕ) (xs : Bytes) → drop (min (length xs) n) xs ≡ drop n xs
drop-min n xs = elim (Bool-cases (leb (length xs) n)) [
  | inl few ↦
      let short : length xs ≤ n = ground (arith, few) in
      let all : min (length xs) n ≡ length xs = omega (arith, short) in
      rw (all, drop_short (length xs) xs (omega arith), drop_short n xs short) refl
  | inr many ↦ let cut : min (length xs) n ≡ n = ground (arith, many) in rw cut refl
]

module _ (c : Connection) where
  pub both_work :
      (s : c.Stream) (header text : Bytes)
      → ((t : c.Stream) (bs : Bytes) → (c.write_data t bs).0 ≡ true)
      → (send_both c s header text).0 ≡ 0
  unfolding send_both
  both_work s header text works = rw (works s header, works (c.write_data s header).1 text) refl

  -- What a text leaves in a quiet connection that works
  sent_text :
      (s : c.Stream) (type most : ℕ) (text : Bytes)
      → 0 < length text
      → 0 < most
      → c.pending s ≡ []
      → ((t : c.Stream) (bs : Bytes) → (c.write_data t bs).0 ≡ true)
      → let cut = take most text in
        c.pending (send_text c type most s text).1
        ≡ encode (type ∷ min (length text) most ∷ []) ++ cut
  unfolding send_text
  sent_text s type most text some_text some_room quiet works =
      let len = min (length text) most in
      let header = encode (type ∷ len ∷ []) in
      let filled : (len == 0) ≡ false = ground (arith, some_text, some_room) in
      let ok : (send_both c s header (take len text)).0 ≡ 0 =
        both_work s header (take len text) works in
      rw (filled) (
        send_both-pending c s header (take len text) ok
        ∙ ap (λ (bs : Bytes). bs ++ (header ++ take len text)) quiet
        ∙ ap (◌++◌ header) (take-min most text))

  -- A text behind a header of the right type
  read_back :
      (s : c.Stream) (most maxlen : ℕ) (cut : Bytes)
      → most < maxlen
      → c.pending s ≡ cut
      → let r = read_text c most maxlen s (some (length cut)) in
        (r.0 ≡ received (take most cut)) × (c.pending r.1 ≡ drop most cut)
  unfolding read_text store_text
  read_back s most maxlen cut room there =
      let n = min (min maxlen most) (length cut) in
      let size : n ≡ min (length cut) most = omega (arith, room) in
      let enough : n ≤ length (c.pending s) = omega (arith, ap length there) in
      let read : (c.read_data s n).0 ≡ some (take most cut) =
        c.read_data-there s n enough
        ∙ ap (λ (xs : Bytes). some (take n xs)) there
        ∙ ap (λ k. some (take k cut)) size
        ∙ ap some (take-min most cut) in
      let left : c.pending (c.read_data s n).1 ≡ drop most cut =
        c.read_data-pending s n enough
        ∙ ap (drop n) there
        ∙ ap (λ k. drop k cut) size
        ∙ drop-min most cut in
      let fits : ltb (length (take most cut)) maxlen ≡ true =
        ground (arith, length-take most cut, room) in
      (rw (read, fits) refl, left)

  words_there :
      (s : c.Stream) (type most : ℕ) (text : Bytes)
      → type < word
      → 0 < length text
      → 0 < most
      → most < word
      → c.pending s ≡ []
      → ((t : c.Stream) (bs : Bytes) → (c.write_data t bs).0 ≡ true)
      → let s1 = (send_text c type most s text).1 in
        ((read_words c s1 2).0 ≡ some (type ∷ length (take most text) ∷ []))
        × (c.pending (read_words c s1 2).1 ≡ take most text)
  words_there s type most text small some_text some_room bounded quiet works =
      let len = min (length text) most in
      let words : AreWords (type ∷ len ∷ []) = (small, (omega (arith, bounded), tt)) in
      let there = sent_text s type most text some_text some_room quiet works in
      let (read, left) =
        read_words-first c (send_text c type most s text).1 (type ∷ len ∷ []) (take most text) words
          there in
      let measured : len ≡ length (take most text) = omega (arith, length-take most text) in
      (read ∙ ap (λ n. some (type ∷ n ∷ [])) measured, left)

  -- A header that arrived decides what is read behind it.
  recv_text-read :
      (s : c.Stream) (type most maxlen : ℕ) (ws : List ℕ)
      → (read_words c s 2).0 ≡ some ws
      → recv_text c type most maxlen s
        ≡ read_text c most maxlen (read_words c s 2).1 (length_of type ws)
  unfolding recv_text
  recv_text-read s type most maxlen ws read =
      ap
        (λ (r : Option (List ℕ)). elim r [
          | none ↦ (failed, (read_words c s 2).1)
          | some ws ↦ read_text c most maxlen (read_words c s 2).1 (length_of type ws)
        ])
        read

  -- A text is received by a call that wants its type.
  text_trip :
      (s : c.Stream) (type most room maxlen : ℕ) (text : Bytes)
      → type < word
      → 0 < length text
      → 0 < most
      → most < word
      → room < maxlen
      → c.pending s ≡ []
      → ((t : c.Stream) (bs : Bytes) → (c.write_data t bs).0 ≡ true)
      → let cut = take most text in
        let r = recv_text c type room maxlen (send_text c type most s text).1 in
        (r.0 ≡ received (take room cut)) × (c.pending r.1 ≡ drop room cut)
  unfolding length_of
  text_trip s type most room maxlen text small some_text some_room bounded fits quiet works =
      let s1 = (send_text c type most s text).1 in
      let (read, left) =
        words_there s type most text small some_text some_room bounded quiet works in
      let back = read_back (read_words c s1 2).1 room maxlen (take most text) fits left in
      rw (recv_text-read s1 type room maxlen (type ∷ length (take most text) ∷ []) read, ==_refl)
        back

  -- A call that wants another type fails, and the text stays.
  pub text_refused :
      (s : c.Stream) (type wanted most room maxlen : ℕ) (text : Bytes)
      → (type == wanted) ≡ false
      → type < word
      → 0 < length text
      → 0 < most
      → most < word
      → c.pending s ≡ []
      → ((t : c.Stream) (bs : Bytes) → (c.write_data t bs).0 ≡ true)
      → let r = recv_text c wanted room maxlen (send_text c type most s text).1 in
        (r.0 ≡ failed) × (c.pending r.1 ≡ take most text)
  unfolding length_of read_text
  text_refused s type wanted most room maxlen text other small some_text some_room bounded quiet
        works =
      let s1 = (send_text c type most s text).1 in
      let (read, left) =
        words_there s type most text small some_text some_room bounded quiet works in
      rw (recv_text-read s1 wanted room maxlen (type ∷ length (take most text) ∷ []) read, other)
        (refl, left)

  -- This much of the text is received, and this is left.
  abbrev pub Got : Outcome Bytes × c.Stream → Bytes → Bytes → Type 0
  Got (r, s) text left = (r ≡ received text) × (c.pending s ≡ left)

  pub text_start :
      (s : c.Stream) (type most room maxlen : ℕ) (text : Bytes)
      → type < word
      → 0 < length text
      → 0 < most
      → most < word
      → room ≤ most
      → room < maxlen
      → c.pending s ≡ []
      → ((t : c.Stream) (bs : Bytes) → (c.write_data t bs).0 ≡ true)
      → Got
          (recv_text c type room maxlen (send_text c type most s text).1)
          (take room text)
          (drop room (take most text))
  text_start s type most room maxlen text small some_text some_room bounded inside fits quiet
        works =
      let (r, left) =
        text_trip s type most room maxlen text small some_text some_room bounded fits quiet works in
      (r ∙ ap received (take-take room most text inside), left)

  pub text_whole :
      (s : c.Stream) (type most maxlen : ℕ) (text : Bytes)
      → type < word
      → 0 < length text
      → 0 < most
      → most < word
      → most < maxlen
      → c.pending s ≡ []
      → ((t : c.Stream) (bs : Bytes) → (c.write_data t bs).0 ≡ true)
      → Got (recv_text c type most maxlen (send_text c type most s text).1) (take most text) []
  text_whole s type most maxlen text small some_text some_room bounded fits quiet works =
      let (r, left) =
        text_start s type most most maxlen text small some_text some_room bounded (omega arith) fits
          quiet works in
      let short : length (take most text) ≤ most = omega (arith, length-take most text) in
      (r, left ∙ drop_short most (take most text) short)
