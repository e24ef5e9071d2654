-- ===== src/QueryResult/RoundTrip.antt =====
-- A file list that is merged into the global keyword map and removed again (`mergeEntriesToKeywordMap`
-- and `removeEntriesFromUser` of neQueryResultManager).
use neshare.Base.{
  ℕ, suc, ◌+◌, ◌≤◌, ◌<◌, ◌≡◌, refl, ap, ◌∙◌, Bool, true, false, ◌&&◌, List, [], ◌∷◌, ◌++◌, Option,
  none, some, arith, ltb, ◌==◌, if◌then◌else◌, nat_key, bytes_key, pair_key, Bytes, Dict, lookup,
  keys, known, IsDict, count, contains, length, erase_last, ==_refl, contains_last, word,
}
use neshare.Keyword.{Keywords}
use neshare.Keyword.References.{refs, IsLive}
use neshare.UserFileList.{FileList, get_num_keywords}
use neshare.UserFileList.Adding.{held}
use neshare.UserFileList.Emptying.{count-keys}
use neshare.QueryResult.{
  VectorPtr, KeywordMap, Merge, vectors_of, vectors_at, merge_entries_to_keyword_map,
  remove_entries_from_user,
}
use neshare.QueryResult.Merging.{merge_keywords_lem}
use neshare.QueryResult.Removing.{without, dropped, remove_entries_lem}

length-keys : (l : Dict Bytes (List ℕ)) → length (keys l) ≡ length l
length-keys [] = refl
length-keys ((w, files) ∷ l) = ap suc (length-keys l)

keys-known :
    (v : Bytes) (l : Dict Bytes (List ℕ)) → contains v (keys l) ≡ true → known (lookup v l) ≡ true
keys-known v [] h = cc
keys-known v ((w, files) ∷ l) h = ground (arith, h, keys-known v l)

-- A pointer that was put at the end of a vector, or of none, and taken away again.
without-last :
    (ptr : VectorPtr) (o : Option (List VectorPtr))
    → count ptr (vectors_of o) ≡ 0
    → (o ≡ some [] → ⊥)
    → (without ptr (some (vectors_of o ++ ptr ∷ [])) ≡ o)
      × (dropped ptr (some (vectors_of o ++ ptr ∷ [])) + (if known o then 1 else 0) ≡ 1)
without-last ptr none h full = let same : (ptr == ptr) ≡ true = ==_refl ptr in rw same (refl, refl)
without-last ptr (some []) h full = absurd (full refl)
without-last ptr (some (p ∷ ps)) h full =
    rw (contains_last ptr (p ∷ ps), erase_last ptr (p ∷ ps) h) (refl, refl)

-- One entry after the merge and after the removal.
restored :
    (ptr : VectorPtr) (o o1 o2 : Option (List VectorPtr)) (listed : Bool) (n r r1 r2 : ℕ)
    → n ≡ (if listed then 1 else 0)
    → count ptr (vectors_of o) ≡ 0
    → (o ≡ some [] → ⊥)
    → o1 ≡ (if ltb 0 n then some (vectors_of o ++ ptr ∷ []) else o)
    → o2 ≡ (if ltb 0 n then without ptr o1 else o1)
    → r1 ≡ r + n
    → r2 + (if ltb 0 n then dropped ptr o1 else 0) ≡ r1
    → (o1 ≡ (if listed then some (vectors_of o ++ ptr ∷ []) else o))
      × (o2 ≡ o)
      × (r2 ≡ r + (if listed && known o then 1 else 0))
restored ptr o o1 o2 true n r r1 r2 one fresh full e1 e2 c1 c2 =
    let yes : ltb 0 n ≡ true = ground (arith, one) in
    let here : o1 ≡ some (vectors_of o ++ ptr ∷ []) = rw yes at e1 in
    let left : o2 ≡ without ptr o1 = rw yes at e2 in
    let gone : r2 + dropped ptr o1 ≡ r1 = rw yes at c2 in
    let (back, sum) = without-last ptr o fresh full in
    (
      here,
      left ∙ ap (without ptr) here ∙ back,
      omega (arith, one, c1, gone, ap (dropped ptr) here, sum),
    )
restored ptr o o1 o2 false n r r1 r2 none_listed fresh full e1 e2 c1 c2 =
    let no : ltb 0 n ≡ false = ground (arith, none_listed) in
    let here : o1 ≡ o = rw no at e1 in
    let left : o2 ≡ o1 = rw no at e2 in
    let gone : r2 + 0 ≡ r1 = rw no at c2 in
    (here, left ∙ here, omega (arith, none_listed, c1, gone))

-- A user's list, which holds references to its keywords, is merged and removed again. Nothing that
-- is gone is accessed, both calls return 0, in between every keyword of the list has the vector of
-- the list after those of the others, and afterwards the map is as it was. But each keyword of the
-- list that another list had mapped keeps one reference more than before.
pub merge-remove :
    (user : ℕ) (l : FileList) (m : KeywordMap) (k : Keywords)
    → IsDict l.file_map
    → IsDict m
    → IsLive k
    → ((v : Bytes) → count (user, v) (vectors_at v m) ≡ 0)
    → ((v : Bytes) → lookup v m ≡ some [] → ⊥)
    → ((v : Bytes) → held v l.file_map ≤ refs v k)
    → ((v : Bytes) → refs v k + 1 < word)
    → (m1 m2 : KeywordMap) × (k1 k2 : Keywords) × (merge_entries_to_keyword_map user l m k
        ≡ some (0, m1, k1))
      × (remove_entries_from_user user l m1 k1 ≡ some (0, m2, k2))
      × ((v : Bytes)
          → lookup v m1 ≡ (
              if known (lookup v l.file_map)
              then some (vectors_at v m ++ (user, v) ∷ [])
              else lookup v m))
      × ((v : Bytes) → lookup v m2 ≡ lookup v m)
      × ((v : Bytes)
          → refs v k2
            ≡ refs v k + (if known (lookup v l.file_map) && known (lookup v m) then 1 else 0))
unfolding merge_entries_to_keyword_map remove_entries_from_user get_num_keywords
merge-remove user l m k dl d live fresh full enough room =
    let held_keys = λ (v : Bytes). count-keys v l.file_map dl in
    let start : Merge = record { keyword_map = m; keywords = k; ret = 0 } in
    let (s, run1, d1, live1, e1, r1, c1) =
      merge_keywords_lem user l (keys l.file_map) start (λ v. ground (arith, held_keys v))
        (λ v. keys-known v l.file_map) d live (λ v. omega (arith, held_keys v, enough v))
        (λ v. ground (arith, held_keys v, room v)) in
    let (m2, k2, run2, d2, live2, e2, r2) =
      remove_entries_lem user l (keys l.file_map) s.keyword_map s.keywords
        (λ v. ground (arith, held_keys v)) (λ v. keys-known v l.file_map) d1 live1
        (λ v. omega (arith, r1 v, enough v)) in
    let all : (s.ret == length l.file_map) ≡ true = ground (arith, c1, length-keys l.file_map) in
    let back = λ (v : Bytes).
      restored (user, v) (lookup v m) (lookup v s.keyword_map) (lookup v m2)
        (known (lookup v l.file_map)) (count v (keys l.file_map)) (refs v k) (refs v s.keywords)
        (refs v k2) (held_keys v) (fresh v) (full v) (e1 v) (e2 v) (r1 v) (r2 v) in
    (
      s.keyword_map,
      m2,
      s.keywords,
      k2,
      rw (run1, all) refl,
      rw run2 refl,
      λ v. (back v).0,
      λ v. (back v).1,
      λ v. (back v).2,
    )
