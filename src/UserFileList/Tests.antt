-- ===== src/UserFileList/Tests.antt =====
-- Runs of the file list, and instances of the theorems.
use neshare.Base.{
  add32, ℕ, ◌+◌, ◌≤◌, ◌≡◌, refl, List, [], ◌∷◌, none, some, arith, true, false, Bytes, lookup,
  count, contains, ◌==◌, if◌then◌else◌, nat_key, bytes_key, bytes_beq_iff, nat_beq_iff, is_empty,
  Bool-cases, inl, inr, sym, ◌⊎◌,
}
use neshare.DiskMem
use neshare.Keyword.{Keywords, remove_all, has_keyword, remove_keyword}
use neshare.Keyword.References.{refs, IsLive}
use neshare.UserFile.{UserFile, destroy}
use neshare.UserManager.Interface.{sizeof_file_in_mb}
use neshare.UserFileList.{
  FileList, Store, new, reference, place_keyword, place_keywords, add_user_file, empty, mark_map,
  mark_all, mark, delete_files, delete_file,
}
use neshare.UserFileList.Adding.{IsIndex, held}
use neshare.UserFileList.Index.{add_user_file-IsIndex}
use neshare.UserFileList.Marks.{total}
use neshare.UserFileList.Emptying.{Allocated, empty-releases}

-- Two files: "ab-c.ab" at 100 and "AB" at 200.
abbrev ab : Bytes
ab = 65 ∷ 66 ∷ []

abbrev letter_c : Bytes
letter_c = 67 ∷ []

abbrev names : ℕ → List Bytes
names file = if file == 100 then ab ∷ letter_c ∷ ab ∷ [] else (if file == 200 then ab ∷ [] else [])

abbrev song : UserFile
song = record { filesize = 3000000; owner = 7; filename = []; keywords = ab ∷ letter_c ∷ ab ∷ [] }

abbrev other : UserFile
other = record { filesize = 10; owner = 7; filename = []; keywords = ab ∷ [] }

abbrev one_file : FileList
one_file = record {
  num_user_files = 1;
  total_sizeof_user_files = 2;
  file_map = (ab, 100 ∷ 100 ∷ []) ∷ (letter_c, 100 ∷ []) ∷ [];
}

abbrev two_files : FileList
two_files = record {
  num_user_files = 2;
  total_sizeof_user_files = 3;
  file_map = (ab, 100 ∷ 100 ∷ 200 ∷ []) ∷ (letter_c, 100 ∷ []) ∷ [];
}

abbrev known_words : Keywords
known_words = (ab, 4) ∷ (letter_c, 2) ∷ []

abbrev store : Store
store = record {
  keywords = known_words;
  files = (100, song) ∷ (200, other) ∷ [];
  allocator = DiskMem.new;
}

add_first :
    add_user_file ((ab, 2) ∷ (letter_c, 1) ∷ []) new 100 song
    ≡ some (0, one_file, (ab, 3) ∷ (letter_c, 2) ∷ [])
unfolding add_user_file place_keywords place_keyword reference new sizeof_file_in_mb
add_first = refl

empty_two :
    (s' : Store) × (empty two_files store ≡ some (new, s')) × (s'.keywords ≡ []) × (s'.files ≡ [])
unfolding empty mark_map mark_all mark delete_files delete_file destroy remove_all has_keyword
    remove_keyword new
empty_two = (_, refl, refl, refl)

known_words-IsLive : IsLive known_words
known_words-IsLive = record {
  dict = (refl, (refl, tt));
  below = λ w. ground arith;
  live = λ w. ground arith;
}

one_file-IsIndex : IsIndex names one_file.file_map (100 ∷ [])
one_file-IsIndex = record {
  dict = (refl, (refl, tt));
  entry = λ w. elim (Bool-cases (ab == w)) [
    | inl e ↦ rw (sym ((bytes_beq_iff ab w).0 e)) refl
    | inr n ↦ elim (Bool-cases (letter_c == w)) [
      | inl e ↦ rw (sym ((bytes_beq_iff letter_c w).0 e)) refl
      | inr m ↦ rw (n, m) refl
    ]
  ];
}

two_files-IsIndex : IsIndex names two_files.file_map (100 ∷ 200 ∷ [])
two_files-IsIndex = record {
  dict = (refl, (refl, tt));
  entry = λ w. elim (Bool-cases (ab == w)) [
    | inl e ↦ rw (sym ((bytes_beq_iff ab w).0 e)) refl
    | inr n ↦ elim (Bool-cases (letter_c == w)) [
      | inl e ↦ rw (sym ((bytes_beq_iff letter_c w).0 e)) refl
      | inr m ↦ rw (n, m) refl
    ]
  ];
}

either : (x : ℕ) → contains x (100 ∷ 200 ∷ []) ≡ true → (100 ≡ x) ⊎ (200 ≡ x)
either x h = ground (arith, h)

two_files-Allocated : Allocated names (100 ∷ 200 ∷ []) store.files
two_files-Allocated x h = elim (either x h) [
  | inl e ↦ rw (sym e) (song, refl, refl)
  | inr e ↦ rw (sym e) (other, refl, refl)
]

two_files-worded :
    (x : ℕ) → contains x (100 ∷ 200 ∷ []) ≡ true → (w : Bytes) × 1 ≤ count w (names x)
two_files-worded x h = elim (either x h) [
  | inl e ↦ rw (sym e) (ab, ground arith)
  | inr e ↦ rw (sym e) (ab, ground arith)
]

add_user_file-IsIndex_example :
    (ret : ℕ) × (l' : FileList) × (k' : Keywords) × (add_user_file known_words one_file 200 other
      ≡ some (ret, l', k'))
    × (is_empty other.keywords ≡ true → (ret ≡ 1) × (l' ≡ one_file) × (k' ≡ known_words))
    × (is_empty other.keywords ≡ false
        → (ret ≡ 0)
          × IsIndex names l'.file_map (100 ∷ 200 ∷ [])
          × (l'.num_user_files ≡ add32 one_file.num_user_files 1)
          × (l'.total_sizeof_user_files
              ≡ add32 one_file.total_sizeof_user_files (sizeof_file_in_mb other.filesize)))
    × IsLive k'
    × ((w : Bytes) → refs w k' + held w one_file.file_map ≡ refs w known_words + held w l'.file_map)
add_user_file-IsIndex_example =
    add_user_file-IsIndex names known_words one_file (100 ∷ []) 200 other refl one_file-IsIndex
      known_words-IsLive (λ w. ground arith) (λ w. ground arith)

empty-releases_example :
    (s' : Store) × (empty two_files store ≡ some (new, s'))
    × IsLive s'.keywords
    × ((x : ℕ)
        → lookup x s'.files ≡ (if contains x (100 ∷ 200 ∷ []) then none else lookup x store.files))
    × ((w : Bytes)
        → refs w s'.keywords + (held w two_files.file_map + total names w (100 ∷ 200 ∷ []))
          ≡ refs w store.keywords)
empty-releases_example =
    empty-releases names (100 ∷ 200 ∷ []) two_files store two_files-IsIndex two_files-Allocated
      (λ x. ground (arith, nat_beq_iff 100 x, nat_beq_iff 200 x)) two_files-worded
      (refl, (refl, tt)) known_words-IsLive (λ w. ground arith)
