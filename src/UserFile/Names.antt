-- ===== src/UserFile/Names.antt =====
-- The keywords that `neUserFile::initialize` finds in a name, and that the destructor gives back.
use neshare.Base.{
  ℕ, ◌+◌, ◌<◌, ◌≡◌, refl, ap, ◌∙◌, List, [], ◌∷◌, ◌++◌, some, arith, if◌then◌else◌, nat_key,
  bytes_key, Bytes, map, length, take, drop, is_empty, append-nil, append_assoc, take_all, min,
  bind_assoc, drop_nil, inl, inr, filterb, Bool-cases, count, word,
}
use neshare.Keyword.{Keywords, add_all}
use neshare.Keyword.References.{refs, IsLive, add_all-refs, remove_all-refs}
use neshare.UserFile.{UserFile, new, is_alnum, to_upper, scan, last_word, initialize, destroy}
use neshare.UserFile.Words.{keep, words_from, words, scan_lem, at}

abbrev pub concat : List Bytes → Bytes
concat [] = []
concat (w ∷ ws) = w ++ concat ws

concat-keep : (word : Bytes) (ws : List Bytes) → concat (keep word ws) ≡ word ++ concat ws
concat-keep [] ws = refl
concat-keep (c ∷ cs) ws = refl

-- The letters and digits of the rest all go into the words, in their order.
words_from-concat :
    (word rest : Bytes)
    → concat (words_from word rest) ≡ word ++ map to_upper (filterb is_alnum rest)
unfolding words_from
words_from-concat word [] = concat-keep word []
words_from-concat word (b ∷ bs) = elim (Bool-cases (is_alnum b)) [
  | inl letter ↦ rw letter (
      words_from-concat (word ++ to_upper b ∷ []) bs
      ∙ append_assoc word (to_upper b ∷ []) (map to_upper (filterb is_alnum bs)))
  | inr other ↦
      rw other (concat-keep word (words_from [] bs) ∙ ap (◌++◌ word) (words_from-concat [] bs))
]

-- A new object that is initialised with a name that fits its buffer has as its keywords exactly the
-- maximal runs of letters and digits of the name, in capitals, each of which the manager counts once
-- more; nothing is written past a buffer, the name and the size are stored, and the result is 0
-- when there is a keyword. The keywords together hold all the letters and digits of the name.
pub initialize-words :
    (user size : ℕ) (name : Bytes) (k : Keywords)
    → length name < 256
    → (initialize (new user) name size k
        ≡ some (
          if is_empty (words name) then 1 else 0,
          record { filesize = size; owner = user; filename = name; keywords = words name },
          add_all (words name) k,
        ))
      × (concat (words name) ≡ map to_upper (filterb is_alnum name))
unfolding initialize new words
initialize-words user size name k h =
    let (s, run, f, m) = scan_lem name [] [] name [] k refl h in
    let stored : min (length name) 255 ≡ length name = omega arith in
    let whole : take (length name) name ≡ name = take_all (length name) name (omega arith) in
    let nothing_left : drop {A = ℕ} (length name) [] ≡ [] = drop_nil (length name) in
    (
      bind_assoc (scan name name (at [] [] [] k)) (last_word name) _
          ∙ rw (run, f, m, stored, whole, nothing_left) (rw append-nil refl),
      words_from-concat [] name,
    )

-- A file with a name of less than 256 bytes, whose words do not make a count of references wrap at
-- 2^32, that is initialised and destroyed gives back each reference that it took: no keyword pointer
-- dangles, and every keyword has the references that it had before.
pub destroy-initialize :
    (user size : ℕ) (name : Bytes) (k : Keywords)
    → length name < 256
    → IsLive k
    → ((w : Bytes) → refs w k + count w (words name) < word)
    → (ret : ℕ) × (f : UserFile) × (k' k'' : Keywords) × (initialize (new user) name size k
        ≡ some (ret, f, k'))
      × (destroy f k' ≡ some k'')
      × IsLive k''
      × ((w : Bytes) → refs w k'' ≡ refs w k)
unfolding destroy
destroy-initialize user size name k short_name l room =
    let (l', added) = add_all-refs (words name) k room l in
    let (k'', run, l'', removed) =
      remove_all-refs (words name) (add_all (words name) k) (λ w. omega (arith, added w)) l' in
    (
      _,
      _,
      _,
      k'',
      (initialize-words user size name k short_name).0,
      run,
      l'',
      λ w. omega (arith, added w, removed w),
    )
