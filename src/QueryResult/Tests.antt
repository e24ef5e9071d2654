-- ===== src/QueryResult/Tests.antt =====
-- Runs of the search, and instances of the theorems.
use neshare.Base.{
  ℕ, ◌+◌, ◌<◌, ◌≤◌, ◌≡◌, refl, sym, List, [], ◌∷◌, ◌++◌, ◌&&◌, known, none, some, arith, true,
  Bytes, Dict, lookup, count, contains, length, ◌==◌, if◌then◌else◌, nat_key, bytes_key, pair_key,
  Bool-cases, inl, inr,
}
use neshare.Keyword.{Keywords, has_keyword}
use neshare.UserFileList.{FileList, reference, get_user_files_from_keyword, get_num_keywords}
use neshare.QueryResult.{
  KeywordMap, vectors_at, remove_entries_from_user, remove_entries, remove_entry, remove_pointer,
  merge_keyword, merge_keywords, merge_entries_to_keyword_map, build_query_result, add_vectors,
  add_results, search, perform_search_query,
}
use neshare.QueryResult.Results.{all_files, build_query_result_lem}
use neshare.QueryResult.RoundTrip.{merge-remove}
use neshare.Keyword.References.{refs, IsLive}
use neshare.QueryResult.Search.{Good, answer, last_match, perform_search_query_lem}

abbrev ab : Bytes
ab = 65 ∷ 66 ∷ []

abbrev letter_c : Bytes
letter_c = 67 ∷ []

-- The files of two users, 7 and 8.
abbrev lists : Dict ℕ FileList
lists =
    (
      7,
      record {
        num_user_files = 2;
        total_sizeof_user_files = 3;
        file_map = (ab, 100 ∷ 100 ∷ 200 ∷ []) ∷ (letter_c, 100 ∷ []) ∷ [];
      },
    )
    ∷ (
      8,
      record { num_user_files = 1; total_sizeof_user_files = 1; file_map = (ab, 300 ∷ []) ∷ [] },
    )
    ∷ []

abbrev mapped : KeywordMap
mapped = (ab, (7, ab) ∷ (8, ab) ∷ []) ∷ (letter_c, (7, letter_c) ∷ []) ∷ []

abbrev known_words : Keywords
known_words = (ab, 6) ∷ (letter_c, 3) ∷ []

build_two : build_query_result lists 2 ((7, ab) ∷ (8, ab) ∷ []) ≡ some (100 ∷ 200 ∷ [])
unfolding build_query_result add_vectors add_results
build_two = refl

build_all : build_query_result lists 5 ((7, ab) ∷ (8, ab) ∷ []) ≡ some (100 ∷ 200 ∷ 300 ∷ [])
unfolding build_query_result add_vectors add_results
build_all = refl

-- The last keyword decides.
search_both :
    perform_search_query lists 5 mapped known_words (ab ∷ letter_c ∷ []) (0 ∷ 0 ∷ [])
    ≡ some (some (100 ∷ []))
unfolding perform_search_query search has_keyword build_query_result add_vectors add_results
search_both = refl

ab_files : all_files lists ((7, ab) ∷ (8, ab) ∷ []) ≡ some (100 ∷ 100 ∷ 200 ∷ 300 ∷ [])
unfolding all_files
ab_files = refl

build_query_result_lem_example :
    (result : List ℕ) × (build_query_result lists 5 ((7, ab) ∷ (8, ab) ∷ []) ≡ some result)
    × (length result ≤ 5)
    × ((x : ℕ) → count x result ≤ 1)
    × ((x : ℕ) → contains x result ≡ true → contains x (100 ∷ 100 ∷ 200 ∷ 300 ∷ []) ≡ true)
    × (length result < 5
        → (x : ℕ) → contains x (100 ∷ 100 ∷ 200 ∷ 300 ∷ []) ≡ true
        → contains x result ≡ true)
build_query_result_lem_example =
    build_query_result_lem lists 5 ((7, ab) ∷ (8, ab) ∷ []) (100 ∷ 100 ∷ 200 ∷ 300 ∷ []) ab_files

mapped-Good : Good lists mapped
unfolding all_files
mapped-Good w ptrs h = elim (Bool-cases (ab == w)) [
  | inl e ↦
      let same : (7, ab) ∷ (8, ab) ∷ [] ≡ ptrs = ground (arith, h, e) in
      rw (sym same) (100 ∷ 100 ∷ 200 ∷ 300 ∷ [], refl)
  | inr n ↦
      let same : (7, letter_c) ∷ [] ≡ ptrs = ground (arith, h, n) in rw (sym same) (100 ∷ [], refl)
]

perform_search_query_lem_example :
    perform_search_query lists 5 mapped known_words (ab ∷ letter_c ∷ []) (0 ∷ 0 ∷ [])
    ≡ some (answer lists 5 none (last_match mapped known_words (ab ∷ letter_c ∷ []) (0 ∷ 0 ∷ [])))
perform_search_query_lem_example =
    perform_search_query_lem lists 5 mapped known_words (ab ∷ letter_c ∷ []) (0 ∷ 0 ∷ [])
      mapped-Good

-- The list of user 8, before it is merged into the map that has the list of user 7.
abbrev list_8 : FileList
list_8 = record { num_user_files = 1; total_sizeof_user_files = 1; file_map = (ab, 300 ∷ []) ∷ [] }

abbrev mapped_7 : KeywordMap
mapped_7 = (ab, (7, ab) ∷ []) ∷ (letter_c, (7, letter_c) ∷ []) ∷ []

-- The count of "AB" is 7 after the two calls, and was 6.
merge_remove_leaks :
    (remove_entries_from_user 8 list_8 mapped ((ab, 7) ∷ (letter_c, 3) ∷ [])
      ≡ some (0, mapped_7, (ab, 7) ∷ (letter_c, 3) ∷ []))
    × (merge_entries_to_keyword_map 8 list_8 mapped_7 known_words
        ≡ some (0, mapped, (ab, 7) ∷ (letter_c, 3) ∷ []))
unfolding remove_entries_from_user remove_entries remove_entry remove_pointer
    merge_entries_to_keyword_map merge_keywords merge_keyword get_user_files_from_keyword
    get_num_keywords reference has_keyword
merge_remove_leaks = (refl, refl)

known_words-IsLive : IsLive known_words
known_words-IsLive = record {
  dict = (refl, (refl, tt));
  below = λ w. ground arith;
  live = λ w. ground arith;
}

user_8_absent : (v : Bytes) → count (8, v) (vectors_at v mapped_7) ≡ 0
user_8_absent v = elim (Bool-cases (ab == v)) [
  | inl e ↦ rw e refl
  | inr n ↦ elim (Bool-cases (letter_c == v)) [ inl e ↦ rw (n, e) refl | inr o ↦ rw (n, o) refl ]
]

merge-remove_example :
    (m1 m2 : KeywordMap) × (k1 k2 : Keywords) × (merge_entries_to_keyword_map 8 list_8 mapped_7
        known_words
      ≡ some (0, m1, k1))
    × (remove_entries_from_user 8 list_8 m1 k1 ≡ some (0, m2, k2))
    × ((v : Bytes)
        → lookup v m1 ≡ (
            if known (lookup v list_8.file_map)
            then some (vectors_at v mapped_7 ++ (8, v) ∷ [])
            else lookup v mapped_7))
    × ((v : Bytes) → lookup v m2 ≡ lookup v mapped_7)
    × ((v : Bytes)
        → refs v k2
          ≡ refs v known_words
            + (if known (lookup v list_8.file_map) && known (lookup v mapped_7) then 1 else 0))
merge-remove_example =
    merge-remove 8 list_8 mapped_7 known_words (refl, tt) (refl, (refl, tt)) known_words-IsLive
      user_8_absent (λ v. ground arith) (λ v. ground arith) (λ v. ground arith)
