-- ===== src/UserFile/Tests.antt =====
-- Runs of the splitting of file names, and instances of the theorems.
use neshare.Base.{
  ℕ, ◌+◌, ◌<◌, ◌≡◌, refl, List, [], ◌∷◌, some, arith, Bytes, count, word, filterb, map, bytes_key,
}
use neshare.Keyword.{Keywords, add_keyword, add_all}
use neshare.Keyword.References.{refs, IsLive, empty-IsLive}
use neshare.UserFile.{UserFile, new, initialize, destroy, is_alnum, to_upper}
use neshare.UserFile.Words.{words, words_from}
use neshare.UserFile.Names.{initialize-words, destroy-initialize, concat}

-- "ab-c.ab"
abbrev song : Bytes
song = 97 ∷ 98 ∷ 45 ∷ 99 ∷ 46 ∷ 97 ∷ 98 ∷ []

abbrev song_words : List Bytes
song_words = (65 ∷ 66 ∷ []) ∷ (67 ∷ []) ∷ (65 ∷ 66 ∷ []) ∷ []

song_words_found : words song ≡ song_words
unfolding words words_from is_alnum to_upper
song_words_found = refl

song_initialized :
    initialize (new 7) song 10 []
    ≡ some (
      0,
      record { filesize = 10; owner = 7; filename = song; keywords = song_words },
      (65 ∷ 66 ∷ [], 2) ∷ (67 ∷ [], 1) ∷ [],
    )
unfolding initialize new add_keyword
song_initialized = refl

-- "--" has no keyword.
dashes_initialized :
    initialize (new 7) (45 ∷ 45 ∷ []) 10 []
    ≡ some (1, record { filesize = 10; owner = 7; filename = 45 ∷ 45 ∷ []; keywords = [] }, [])
unfolding initialize new add_keyword
dashes_initialized = refl

initialize-words_example :
    (initialize (new 7) song 10 []
      ≡ some (
        0,
        record { filesize = 10; owner = 7; filename = song; keywords = words song },
        add_all (words song) [],
      ))
    × (concat (words song) ≡ map to_upper (filterb is_alnum song))
unfolding words words_from is_alnum
initialize-words_example = initialize-words 7 10 song [] (omega arith)

song_room : (w : Bytes) → refs w [] + count w (words song) < word
unfolding words words_from is_alnum to_upper
song_room w = ground arith

destroy-initialize_example :
    (ret : ℕ) × (f : UserFile) × (k' k'' : Keywords) × (initialize (new 7) song 10 []
      ≡ some (ret, f, k'))
    × (destroy f k' ≡ some k'')
    × IsLive k''
    × ((w : Bytes) → refs w k'' ≡ refs w [])
destroy-initialize_example = destroy-initialize 7 10 song [] (omega arith) empty-IsLive song_room
