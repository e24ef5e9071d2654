-- ===== src/QueryResult/Search.antt =====
-- Which keyword of a query gives the result (`neQueryResultManager::performSearchQuery`).
use neshare.Base.{
  ℕ, ◌≡◌, refl, sym, ap, ◌∙◌, List, [], ◌∷◌, Option, none, some, arith, if◌then◌else◌, bytes_key,
  Bytes, Dict, lookup, Option-cases, inl, inr,
}
use neshare.Keyword.{Keywords, has_keyword}
use neshare.UserFileList.{FileList}
use neshare.QueryResult.{VectorPtr, KeywordMap, build_query_result, search, perform_search_query}
use neshare.QueryResult.Results.{all_files, build_query_result_lem}

-- The vectors of one keyword that is known and mapped.
abbrev pub match : KeywordMap → Keywords → Bytes → Option (List VectorPtr)
match m k w = if has_keyword w k then lookup w m else none

-- The vectors of the last keyword with a type flag that is known and mapped.
unfoldable pub last_match : KeywordMap → Keywords → List Bytes → List ℕ → Option (List VectorPtr)
last_match m k (w ∷ ws) (flag ∷ flags) = elim (last_match m k ws flags) [
  | none ↦ match m k w
  | some ptrs ↦ some ptrs
]
last_match m k _ _ = none

-- No vector pointer of the map dangles.
abbrev pub Good : Dict ℕ FileList → KeywordMap → Type 0
Good lists m =
    (w : Bytes) (ptrs : List VectorPtr)
    → lookup w m ≡ some ptrs
    → (all : List ℕ) × (all_files lists ptrs ≡ some all)

-- The result of a query when `old` is there before it.
abbrev pub answer :
    Dict ℕ FileList → ℕ → Option (List ℕ) → Option (List VectorPtr) → Option (List ℕ)
answer lists max_results old none = old
answer lists max_results old (some ptrs) = build_query_result lists max_results ptrs

search-skip :
    (lists : Dict ℕ FileList) (n : ℕ) (m : KeywordMap) (k : Keywords) (w : Bytes) (ws : List Bytes)
    (flag : ℕ) (flags : List ℕ) (old : Option (List ℕ))
    → match m k w ≡ none
    → search lists n m k (w ∷ ws) (flag ∷ flags) old ≡ search lists n m k ws flags old
unfolding search
search-skip lists n m k w ws flag flags old h = rw (h, search) refl

search-hit :
    (lists : Dict ℕ FileList) (n : ℕ) (m : KeywordMap) (k : Keywords) (w : Bytes) (ws : List Bytes)
    (flag : ℕ) (flags : List ℕ) (old : Option (List ℕ)) (ptrs : List VectorPtr) (found : List ℕ)
    → match m k w ≡ some ptrs
    → build_query_result lists n ptrs ≡ some found
    → search lists n m k (w ∷ ws) (flag ∷ flags) old ≡ search lists n m k ws flags (some found)
unfolding search
search-hit lists n m k w ws flag flags old ptrs found h b = rw (h, b, search) refl

match-good :
    (lists : Dict ℕ FileList) (m : KeywordMap) (k : Keywords) (w : Bytes) (ptrs : List VectorPtr)
    → match m k w ≡ some ptrs
    → lookup w m ≡ some ptrs
match-good lists m k w ptrs h = ground (arith, h)

search_lem :
    (lists : Dict ℕ FileList) (n : ℕ) (m : KeywordMap) (k : Keywords) (ws : List Bytes)
    (flags : List ℕ) (old : Option (List ℕ))
    → Good lists m
    → search lists n m k ws flags old ≡ some (answer lists n old (last_match m k ws flags))
unfolding search last_match
search_lem lists n m k [] flags old good = refl
search_lem lists n m k (w ∷ ws) [] old good = refl
search_lem lists n m k (w ∷ ws) (flag ∷ flags) old good = elim (Option-cases (match m k w)) [
  | inl absent ↦
      search-skip lists n m k w ws flag flags old absent
      ∙ search_lem lists n m k ws flags old good
      ∙ elim (Option-cases (last_match m k ws flags)) [
        | inl none_later ↦ rw (none_later, absent) refl
        | inr (later, e) ↦ rw e refl
      ]
  | inr (ptrs, here) ↦
      let (all, ok) = good w ptrs (match-good lists m k w ptrs here) in
      let (found, build, _, _, _, _) = build_query_result_lem lists n ptrs all ok in
      search-hit lists n m k w ws flag flags old ptrs found here build
      ∙ search_lem lists n m k ws flags (some found) good
      ∙ elim (Option-cases (last_match m k ws flags)) [
        | inl none_later ↦ rw (none_later, here) (ap some (sym build))
        | inr (later, e) ↦ rw e refl
      ]
]

-- When no vector pointer dangles, a query is answered, by the files of the last of its keywords that
-- is known and mapped, and by NULL when there is none.
pub perform_search_query_lem :
    (lists : Dict ℕ FileList) (max_results : ℕ) (m : KeywordMap) (k : Keywords) (words : List Bytes)
    (flags : List ℕ)
    → Good lists m
    → perform_search_query lists max_results m k words flags
      ≡ some (answer lists max_results none (last_match m k words flags))
unfolding perform_search_query
perform_search_query_lem lists max_results m k words flags =
    search_lem lists max_results m k words flags none
