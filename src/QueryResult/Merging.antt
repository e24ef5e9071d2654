-- ===== src/QueryResult/Merging.antt =====
-- What merging a file list into the global keyword map adds, and what removing it takes away
-- (`mergeEntriesToKeywordMap` and `removeEntriesFromUser` of neQueryResultManager).
use neshare.Base.{
  ℕ, ◌+◌, ◌≤◌, ◌<◌, ◌≡◌, refl, ap, ◌∙◌, true, false, List, [], ◌∷◌, ◌++◌, some, arith, ltb, ◌==◌,
  if◌then◌else◌, nat_key, bytes_key, pair_key, bytes_beq_iff, Bytes, lookup, insert, known, IsDict,
  lookup-insert, insert-IsDict, count, contains, length, Option-cases, Bool-cases, inl, inr, word,
}
use neshare.Keyword.{Keywords}
use neshare.Keyword.References.{refs, IsLive}
use neshare.UserFileList.{FileList, reference, get_user_files_from_keyword}
use neshare.UserFileList.Adding.{reference_lem}
use neshare.QueryResult.{KeywordMap, Merge, vectors_at, merge_keyword, merge_keywords}

pub get_files-some :
    (l : FileList) (k : Keywords) (w : Bytes) (files : List ℕ)
    → lookup w l.file_map ≡ some files
    → known (lookup w k) ≡ true
    → get_user_files_from_keyword l k w ≡ some files
unfolding get_user_files_from_keyword
get_files-some l k w files e h = elim (Option-cases (lookup w k)) [
  | inl none_there ↦ absurd (ground (arith, h, none_there))
  | inr (n, here) ↦ rw here e
]

merge_keyword-run :
    (user : ℕ) (l : FileList) (w : Bytes) (s : Merge) (files : List ℕ) (k : Keywords)
    → get_user_files_from_keyword l s.keywords w ≡ some files
    → reference w s.keywords ≡ some k
    → merge_keyword user l w s
      ≡ some (record {
        keyword_map = insert w (vectors_at w s.keyword_map ++ (user, w) ∷ []) s.keyword_map;
        keywords = k;
        ret = s.ret + 1;
      })
unfolding merge_keyword
merge_keyword-run user l w s files k found run = rw (found, run, merge_keyword) refl

merge_keyword_lem :
    (user : ℕ) (l : FileList) (w : Bytes) (s : Merge)
    → known (lookup w l.file_map) ≡ true
    → IsDict s.keyword_map
    → IsLive s.keywords
    → 0 < refs w s.keywords
    → refs w s.keywords + 1 < word
    → (s' : Merge) × (merge_keyword user l w s ≡ some s')
      × IsDict s'.keyword_map
      × IsLive s'.keywords
      × ((v : Bytes)
          → lookup v s'.keyword_map ≡ (
              if w == v
              then some (vectors_at w s.keyword_map ++ (user, w) ∷ [])
              else lookup v s.keyword_map))
      × ((v : Bytes) → refs v s'.keywords ≡ refs v s.keywords + (if w == v then 1 else 0))
      × (s'.ret ≡ s.ret + 1)
merge_keyword_lem user l w s inside d live pos room = elim (Option-cases (lookup w l.file_map)) [
  | inl absent ↦ absurd (ground (arith, inside, absent))
  | inr (files, e) ↦
      let here : known (lookup w s.keywords) ≡ true = ground (arith, live.live w, pos) in
      let found = get_files-some l s.keywords w files e here in
      let (k, run, live', r) = reference_lem w s.keywords live pos room in
      let ptrs = vectors_at w s.keyword_map ++ (user, w) ∷ [] in
      (
        record { keyword_map = insert w ptrs s.keyword_map; keywords = k; ret = s.ret + 1 },
        merge_keyword-run user l w s files k found run,
        insert-IsDict w ptrs s.keyword_map d,
        live',
        λ v. lookup-insert w v ptrs s.keyword_map,
        r,
        refl,
      )
]

merge_entry :
    (user : ℕ) (w v : Bytes) (ws : List Bytes) (m m1 : KeywordMap)
    → lookup v m1 ≡ (if w == v then some (vectors_at w m ++ (user, w) ∷ []) else lookup v m)
    → count v (w ∷ ws) ≤ 1
    → (if ltb 0 (count v ws) then some (vectors_at v m1 ++ (user, v) ∷ []) else lookup v m1)
      ≡ (if ltb 0 (count v (w ∷ ws)) then some (vectors_at v m ++ (user, v) ∷ []) else lookup v m)
merge_entry user w v ws m m1 e d = elim (Bool-cases (w == v)) [
  | inl same ↦
      let met : w ≡ v = (bytes_beq_iff w v).0 same in
      let last : ltb 0 (count v ws) ≡ false = ground (arith, d, same) in
      let first : ltb 0 (count v (w ∷ ws)) ≡ true = ground (arith, same) in
      let here : lookup v m1 ≡ some (vectors_at w m ++ (user, w) ∷ []) = ground (arith, e, same) in
      rw (last, first, here) (ap (λ (u : Bytes). some (vectors_at u m ++ (user, u) ∷ [])) met)
  | inr other ↦
      let as_before : lookup v m1 ≡ lookup v m = ground (arith, e, other) in
      let as_counted : count v (w ∷ ws) ≡ count v ws = ground (arith, other) in
      rw (as_before, as_counted) refl
]

-- The keywords of a list, each once.
pub merge_keywords_lem :
    (user : ℕ) (l : FileList) (ws : List Bytes) (s : Merge)
    → ((v : Bytes) → count v ws ≤ 1)
    → ((v : Bytes) → contains v ws ≡ true → known (lookup v l.file_map) ≡ true)
    → IsDict s.keyword_map
    → IsLive s.keywords
    → ((v : Bytes) → count v ws ≤ refs v s.keywords)
    → ((v : Bytes) → refs v s.keywords + count v ws < word)
    → (s' : Merge) × (merge_keywords user l ws s ≡ some s')
      × IsDict s'.keyword_map
      × IsLive s'.keywords
      × ((v : Bytes)
          → lookup v s'.keyword_map ≡ (
              if ltb 0 (count v ws)
              then some (vectors_at v s.keyword_map ++ (user, v) ∷ [])
              else lookup v s.keyword_map))
      × ((v : Bytes) → refs v s'.keywords ≡ refs v s.keywords + count v ws)
      × (s'.ret ≡ s.ret + length ws)
unfolding merge_keywords
merge_keywords_lem user l [] s distinct inside d live enough room =
    (s, refl, d, live, λ v. refl, λ v. omega arith, omega arith)
merge_keywords_lem user l (w ∷ ws) s distinct inside d live enough room =
    let at_w = bytes_beq_iff w w in
    let (s1, run1, d1, live1, e1, r1, c1) =
      merge_keyword_lem user l w s (inside w (ground (arith, at_w))) d live
        (ground (arith, enough w, at_w)) (ground (arith, room w, at_w)) in
    let (s2, run2, d2, live2, e2, r2, c2) =
      merge_keywords_lem user l ws s1 (λ v. ground (arith, distinct v))
        (λ v h. inside v (ground (arith, h))) d1 live1 (λ v. ground (arith, enough v, r1 v))
        (λ v. ground (arith, room v, r1 v)) in
    (
      s2,
      rw run1 run2,
      d2,
      live2,
      λ v. e2 v ∙ merge_entry user w v ws s.keyword_map s1.keyword_map (e1 v) (distinct v),
      λ v. ground (arith, r1 v, r2 v),
      omega (arith, c1, c2),
    )
