-- ===== src/QueryResult.antt =====
-- ne_server/nequeryresultmanager.h and .cpp with nequeryresult.h and neusersearchquery.h: the global
-- map from keywords to the vectors of files of all users, and the search in it. A vector stands
-- inside the file list of a user, so its address is the user with the keyword. `none` is an access
-- through a pointer to a keyword or to a vector that is gone. The assertions on the files of a
-- result and the sending of results are left out.
pub mod Results
pub mod Search
pub mod Merging
pub mod Removing
pub mod RoundTrip
mod Tests
use neshare.Base.{
  ℕ, zero, suc, ◌+◌, Bool, List, [], ◌∷◌, ◌++◌, Option, none, some, leb, ◌==◌, if◌then◌else◌,
  nat_key, bytes_key, pair_key, Bytes, Dict, lookup, insert, remove, keys, contains, erase,
  is_empty, length, known, ◌>>=◌, nat_beq,
}
use neshare.Keyword.{Keywords, remove_keyword, has_keyword}
use neshare.UserFileList.{FileList, reference, get_user_files_from_keyword, get_num_keywords}

-- The address of a vector of a file list: the user and the keyword.
abbrev pub VectorPtr : Type 0
VectorPtr = ℕ × Bytes

-- `m_keywordMap`
abbrev pub KeywordMap : Type 0
KeywordMap = Dict Bytes (List VectorPtr)

-- The loop of `mergeEntriesToKeywordMap` on one keyword, with `ret` counted.
pub record Merge : Type 0 where
  pub keyword_map : KeywordMap
  pub keywords : Keywords
  pub ret : ℕ

-- `m_keywordMap[nKey]`, which makes an empty vector where there is none
abbrev pub vectors_of : Option (List VectorPtr) → List VectorPtr
vectors_of none = []
vectors_of (some ptrs) = ptrs

abbrev pub vectors_at : Bytes → KeywordMap → List VectorPtr
vectors_at w m = vectors_of (lookup w m)

unfoldable pub merge_keyword : ℕ → FileList → Bytes → Merge → Option Merge
merge_keyword user l w s = elim (get_user_files_from_keyword l s.keywords w) [
  | none ↦ if has_keyword w s.keywords then some s else none
  | some files ↦ do
    k ← reference w s.keywords
    some (record {
      keyword_map = insert w (vectors_at w s.keyword_map ++ (user, w) ∷ []) s.keyword_map;
      keywords = k;
      ret = s.ret + 1;
    })
]

unfoldable pub merge_keywords : ℕ → FileList → List Bytes → Merge → Option Merge
merge_keywords user l [] s = some s
merge_keywords user l (w ∷ ws) s = do s' ← merge_keyword user l w s; merge_keywords user l ws s'

-- `mergeEntriesToKeywordMap`: 0 when all keywords were merged.
unfoldable pub merge_entries_to_keyword_map :
    ℕ → FileList → KeywordMap → Keywords → Option (ℕ × KeywordMap × Keywords)
merge_entries_to_keyword_map user l m k = do
  s ← merge_keywords user l (keys l.file_map) (record { keyword_map = m; keywords = k; ret = 0 })
  some (if s.ret == get_num_keywords l then 0 else 1, s.keyword_map, s.keywords)

-- A vector pointer leaves the vector of its keyword, and the entry goes with the last one.
unfoldable pub remove_pointer :
    VectorPtr → Bytes → List VectorPtr → KeywordMap × Keywords → KeywordMap × Keywords
remove_pointer ptr w ptrs (m, k) =
    if contains ptr ptrs
    then (if is_empty (erase ptr ptrs)
        then (remove w m, remove_keyword w k)
        else (insert w (erase ptr ptrs) m, k))
    else (m, k)

-- The loop of `removeEntriesFromUser` on one keyword.
unfoldable pub remove_entry :
    ℕ → FileList → Bytes → KeywordMap × Keywords → Option (KeywordMap × Keywords)
remove_entry user l w (m, k) =
    if has_keyword w k
    then some (elim (lookup w m) [
      | none ↦ (m, k)
      | some ptrs ↦ elim (get_user_files_from_keyword l k w) [
        | none ↦ (m, k)
        | some files ↦ remove_pointer (user, w) w ptrs (m, k)
      ]
    ])
    else none

unfoldable pub remove_entries :
    ℕ → FileList → List Bytes → KeywordMap × Keywords → Option (KeywordMap × Keywords)
remove_entries user l [] s = some s
remove_entries user l (w ∷ ws) s = do s' ← remove_entry user l w s; remove_entries user l ws s'

-- `removeEntriesFromUser` of the query result manager; its result is always 0.
unfoldable pub remove_entries_from_user :
    ℕ → FileList → KeywordMap → Keywords → Option (ℕ × KeywordMap × Keywords)
remove_entries_from_user user l m k = do
  (m', k') ← remove_entries user l (keys l.file_map) (m, k)
  some (0, m', k')

-- The inner loop of `buildQueryResult`, on one vector: `count` and the files of the result. It
-- stops when `++count > maxResults`, where `maxResults` is one less than the configured number.
unfoldable pub add_results : ℕ → List ℕ → ℕ × List ℕ → ℕ × List ℕ
add_results max_results [] s = s
add_results max_results (file ∷ files) (count, result) =
    let skipped = add_results max_results files (count, result) in
    let added : ℕ × List ℕ = (count + 1, result ++ file ∷ []) in
    let more = add_results max_results files added in
    if contains file result then skipped else (if leb max_results (count + 1) then added else more)

-- The outer loop, on the vectors behind the pointers.
unfoldable pub add_vectors : Dict ℕ FileList → ℕ → List VectorPtr → ℕ × List ℕ → Option (ℕ × List ℕ)
add_vectors lists max_results [] s = some s
add_vectors lists max_results ((user, w) ∷ ptrs) s = do
  l ← lookup user lists
  files ← lookup w l.file_map
  let s' = add_results max_results files s
  let rest = add_vectors lists max_results ptrs s'
  if leb max_results s'.0 then some s' else rest

-- `buildQueryResult`
unfoldable pub build_query_result : Dict ℕ FileList → ℕ → List VectorPtr → Option (List ℕ)
build_query_result lists max_results ptrs = do
  s ← add_vectors lists max_results ptrs (0, [])
  some s.1

-- The loop of `performSearchQuery` over the keywords and the type flags together.
unfoldable pub search :
    Dict ℕ FileList
    → ℕ
    → KeywordMap
    → Keywords
    → List Bytes
    → List ℕ
    → Option (List ℕ)
    → Option (Option (List ℕ))
search lists max_results m k (w ∷ ws) (flag ∷ flags) result =
    elim (if has_keyword w k then lookup w m else none) [
      | none ↦ search lists max_results m k ws flags result
      | some ptrs ↦ do
        found ← build_query_result lists max_results ptrs
        search lists max_results m k ws flags (some found)
    ]
search lists max_results m k _ _ result = some result

-- `performSearchQuery`; the result `none` is NULL.
unfoldable pub perform_search_query :
    Dict ℕ FileList → ℕ → KeywordMap → Keywords → List Bytes → List ℕ → Option (Option (List ℕ))
perform_search_query lists max_results m k words flags =
    search lists max_results m k words flags none
