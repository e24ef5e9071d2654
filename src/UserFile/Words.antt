-- ===== src/UserFile/Words.antt =====
-- The keywords of a file name, described without indices, and that `neUserFile::initialize` finds
-- them and nothing else.
use neshare.Base.{
  ℕ, ◌+◌, ◌-◌, ◌<◌, ◌≡◌, refl, sym, ap, ◌∙◌, true, false, List, [], ◌∷◌, ◌++◌, some, arith, ltb,
  ◌==◌, if◌then◌else◌, nat_key, bytes_key, Bytes, map, length, take, drop, is_empty, ◌>>=◌,
  length-append, take-append, drop-append, append-nil, append_assoc, inl, inr, Bool-cases, word,
}
use neshare.Keyword.{Keywords, add_keyword, add_all}
use neshare.UserFile.{is_alnum, to_upper, Scan, cut, scan_byte, scan, last_word}

-- A word is kept when it is not empty.
abbrev pub keep : Bytes → List Bytes → List Bytes
keep [] ws = ws
keep (c ∷ cs) ws = (c ∷ cs) ∷ ws

-- The words of a name, in capitals, when `word` has been read since the last delimiter.
unfoldable pub words_from : Bytes → Bytes → List Bytes
words_from word [] = keep word []
words_from word (b ∷ bs) =
    let longer = words_from (word ++ to_upper b ∷ []) bs in
    let fresh = words_from [] bs in if is_alnum b then longer else keep word fresh

-- The maximal runs of letters and digits of a name.
unfoldable pub words : Bytes → List Bytes
words name = words_from [] name

-- The loop of `initialize` between `before` and a rest, with `word` read.
abbrev pub at : Bytes → Bytes → List Bytes → Keywords → Scan
at before word found k = record {
  start = length before;
  end = length before + length word;
  found = found;
  manager = k;
}

slice :
    (before word rest : Bytes)
    → take (length word) (drop (length before) (before ++ (word ++ rest))) ≡ word
slice before word rest =
    ap (take (length word)) (drop-append before (word ++ rest)) ∙ take-append word rest

cut_lem :
    (before word rest : Bytes) (found : List Bytes) (k : Keywords)
    → length word < 256
    → cut (before ++ (word ++ rest)) (at before word found k)
      ≡ some (record (at before word found k) {
        found = found ++ keep (map to_upper word) [];
        manager = add_all (keep (map to_upper word) []) k;
      })
unfolding cut add_all
cut_lem before word rest found k h =
    let len : (length before + length word) - length before ≡ length word = omega arith in
    let fits : ltb (length word) 256 ≡ true = ground arith in
    rw (len, slice before word rest, fits) (kept word)
  where
    kept :
        (word : Bytes)
        → some (
            if is_empty (map to_upper word)
            then at before word found k
            else record (at before word found k) {
              manager = add_keyword (map to_upper word) k;
              found = found ++ map to_upper word ∷ [];
            })
          ≡ some (record (at before word found k) {
            found = found ++ keep (map to_upper word) [];
            manager = add_all (keep (map to_upper word) []) k;
          })
    kept [] = rw append-nil refl
    kept (c ∷ cs) = refl

keep-append : (word : Bytes) (ws : List Bytes) → keep word [] ++ ws ≡ keep word ws
keep-append [] ws = refl
keep-append (c ∷ cs) ws = refl

add_all-keep :
    (word : Bytes) (ws : List Bytes) (k : Keywords)
    → add_all ws (add_all (keep word []) k) ≡ add_all (keep word ws) k
unfolding add_all
add_all-keep [] ws k = refl
add_all-keep (c ∷ cs) ws k = refl

map_last : (f : ℕ → ℕ) (xs : Bytes) (x : ℕ) → map f (xs ++ x ∷ []) ≡ map f xs ++ f x ∷ []
map_last f [] x = refl
map_last f (y ∷ ys) x = ap (◌∷◌ (f y)) (map_last f ys x)

scan_byte-word :
    (name before word : Bytes) (b : ℕ) (found : List Bytes) (k : Keywords)
    → is_alnum b ≡ true
    → scan_byte name b (at before word found k) ≡ some (at before (word ++ b ∷ []) found k)
unfolding scan_byte
scan_byte-word name before word b found k h =
    let len : length before + length (word ++ b ∷ []) ≡ length before + length word + 1 =
      omega (arith, length-append word (b ∷ [])) in
    rw (h, len) refl

scan_byte-delimiter :
    (name before word bs : Bytes) (b : ℕ) (found : List Bytes) (k : Keywords)
    → name ≡ before ++ (word ++ b ∷ bs)
    → is_alnum b ≡ false
    → length word < 256
    → scan_byte name b (at before word found k)
      ≡ some (
          at
            (before ++ (word ++ b ∷ []))
            []
            (found ++ keep (map to_upper word) [])
            (add_all (keep (map to_upper word) []) k))
unfolding scan_byte
scan_byte-delimiter name before word bs b found k e h fits =
    let len : length (before ++ (word ++ b ∷ [])) ≡ length before + length word + 1 =
      omega (arith, length-append before (word ++ b ∷ []), length-append word (b ∷ [])) in
    let zero_len : length before + length word + 1 + 0 ≡ length before + length word + 1 =
      omega arith in
    rw (e, h, cut_lem before word (b ∷ bs) found k fits, len, zero_len) refl

last_word_lem :
    (before word : Bytes) (found : List Bytes) (k : Keywords)
    → length word < 256
    → (s : Scan) × (last_word (before ++ (word ++ [])) (at before word found k) ≡ some s)
      × (s.found ≡ found ++ keep (map to_upper word) [])
      × (s.manager ≡ add_all (keep (map to_upper word) []) k)
unfolding last_word add_all
last_word_lem before [] found k fits =
    let none_read : (length before + 0 == length before) ≡ true = ground arith in
    (at before [] found k, rw none_read refl, rw append-nil refl, refl)
last_word_lem before (c ∷ cs) found k fits =
    let read : (length before + length (c ∷ cs) == length before) ≡ false = ground arith in
    let s = record (at before (c ∷ cs) found k) {
      found = found ++ map to_upper (c ∷ cs) ∷ [];
      manager = add_keyword (map to_upper (c ∷ cs)) k;
    } in
    (s, rw (read, cut_lem before (c ∷ cs) [] found k fits) refl, refl, refl)

short :
    (name before word rest : Bytes)
    → name ≡ before ++ (word ++ rest)
    → length name < 256
    → length word < 256
short name before word rest e h =
    let h' : length (before ++ (word ++ rest)) < 256 = rw e at h in
    omega (arith, length-append before (word ++ rest), length-append word rest)

-- What the loop and the last word find from here on.
pub scan_lem :
    (name before word rest : Bytes) (found : List Bytes) (k : Keywords)
    → name ≡ before ++ (word ++ rest)
    → length name < 256
    → (s : Scan) × ((scan name rest (at before word found k) >>= last_word name) ≡ some s)
      × (s.found ≡ found ++ words_from (map to_upper word) rest)
      × (s.manager ≡ add_all (words_from (map to_upper word) rest) k)
unfolding scan words_from
scan_lem name before word [] found k e h =
    rw e (last_word_lem before word found k (short name before word [] e h))
scan_lem name before word (b ∷ bs) found k e h = elim (Bool-cases (is_alnum b)) [
  | inl letter ↦
      let moved : name ≡ before ++ ((word ++ b ∷ []) ++ bs) =
        e ∙ ap (◌++◌ before) (sym (append_assoc word (b ∷ []) bs)) in
      let (s, run, f, m) = scan_lem name before (word ++ b ∷ []) bs found k moved h in
      let upper = map_last to_upper word b in
      (
        s,
        rw (scan_byte-word name before word b found k letter) run,
        rw (letter, sym upper) f,
        rw (letter, sym upper) m,
      )
  | inr other ↦
      let moved : name ≡ (before ++ (word ++ b ∷ [])) ++ ([] ++ bs) =
        e
        ∙ ap (◌++◌ before) (sym (append_assoc word (b ∷ []) bs))
        ∙ sym (append_assoc before (word ++ b ∷ []) bs) in
      let kept = keep (map to_upper word) [] in
      let (s, run, f, m) =
        scan_lem name (before ++ (word ++ b ∷ [])) [] bs (found ++ kept) (add_all kept k) moved h in
      let step =
        scan_byte-delimiter name before word bs b found k e other
          (short name before word (b ∷ bs) e h) in
      (
        s,
        rw step run,
        rw other (
            f
            ∙ append_assoc found kept (words_from [] bs)
            ∙ ap (◌++◌ found) (keep-append (map to_upper word) (words_from [] bs))),
        rw other (m ∙ add_all-keep (map to_upper word) (words_from [] bs) k),
      )
]
