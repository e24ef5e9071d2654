-- ===== src/QueryResult/Removing.antt =====
-- What removing a file list from the global keyword map takes away, and what is left of a list that
-- was merged before (`removeEntriesFromUser` of neQueryResultManager).
use neshare.Base.{
  ℕ, ◌+◌, ◌≤◌, ◌<◌, ◌≡◌, refl, sym, ap, ◌∙◌, true, false, ◌&&◌, List, [], ◌∷◌, Option, none, some,
  arith, ltb, ◌==◌, if◌then◌else◌, nat_key, bytes_key, pair_key, bytes_beq_iff, Bytes, lookup,
  known, IsDict, lookup-insert, lookup-remove, insert-IsDict, remove-IsDict, count, contains, erase,
  is_empty, Option-cases, Bool-cases, inl, inr,
}
use neshare.Keyword.{Keywords, has_keyword}
use neshare.Keyword.References.{refs, IsLive, refs-remove_keyword, remove_keyword-IsLive}
use neshare.UserFileList.{FileList}
use neshare.QueryResult.{VectorPtr, KeywordMap, remove_pointer, remove_entry, remove_entries}
use neshare.QueryResult.Merging.{get_files-some}

-- The entry of a keyword without a pointer.
abbrev pub without : VectorPtr → Option (List VectorPtr) → Option (List VectorPtr)
without ptr none = none
without ptr (some ptrs) =
    if contains ptr ptrs
    then (if is_empty (erase ptr ptrs) then none else some (erase ptr ptrs))
    else some ptrs

-- Whether the entry goes with the pointer, as a number.
abbrev pub dropped : VectorPtr → Option (List VectorPtr) → ℕ
dropped ptr none = 0
dropped ptr (some ptrs) = if contains ptr ptrs && is_empty (erase ptr ptrs) then 1 else 0

same_entry :
    (w v : Bytes) (m : KeywordMap) (o : Option (List VectorPtr))
    → lookup w m ≡ o
    → lookup v m ≡ (if w == v then o else lookup v m)
same_entry w v m o e = elim (Bool-cases (w == v)) [
  | inl same ↦ rw same (ap (λ (u : Bytes). lookup u m) (sym ((bytes_beq_iff w v).0 same)) ∙ e)
  | inr other ↦ rw other refl
]

remove_pointer_lem :
    (ptr : VectorPtr) (w : Bytes) (ptrs : List VectorPtr) (m : KeywordMap) (k : Keywords)
    → lookup w m ≡ some ptrs
    → IsDict m
    → IsLive k
    → 0 < refs w k
    → let s = remove_pointer ptr w ptrs (m, k) in
      IsDict s.0
      × IsLive s.1
      × ((v : Bytes) → lookup v s.0 ≡ (if w == v then without ptr (some ptrs) else lookup v m))
      × ((v : Bytes) → refs v s.1 + (if w == v then dropped ptr (some ptrs) else 0) ≡ refs v k)
unfolding remove_pointer
remove_pointer_lem ptr w ptrs m k e d live pos = elim (Bool-cases (contains ptr ptrs)) [
  | inl inside ↦ elim (Bool-cases (is_empty (erase ptr ptrs))) [
    | inl last ↦
        rw (inside, last)
          (
            remove-IsDict w m d,
            remove_keyword-IsLive w k live,
            λ v. lookup-remove w v m d,
            λ v. ground (arith, refs-remove_keyword w v k live, pos, bytes_beq_iff w v),
          )
    | inr more ↦
        rw (inside, more)
          (
            insert-IsDict w (erase ptr ptrs) m d,
            live,
            λ v. lookup-insert w v (erase ptr ptrs) m,
            λ v. ground arith,
          )
  ]
  | inr absent ↦ rw absent (d, live, λ v. same_entry w v m (some ptrs) e, λ v. ground arith)
]

remove_entry_lem :
    (user : ℕ) (l : FileList) (w : Bytes) (m : KeywordMap) (k : Keywords)
    → known (lookup w l.file_map) ≡ true
    → IsDict m
    → IsLive k
    → 0 < refs w k
    → (m' : KeywordMap) × (k' : Keywords) × (remove_entry user l w (m, k) ≡ some (m', k'))
      × IsDict m'
      × IsLive k'
      × ((v : Bytes)
          → lookup v m' ≡ (if w == v then without (user, w) (lookup w m) else lookup v m))
      × ((v : Bytes)
          → refs v k' + (if w == v then dropped (user, w) (lookup w m) else 0) ≡ refs v k)
unfolding remove_entry has_keyword
remove_entry_lem user l w m k inside d live pos =
    let here : known (lookup w k) ≡ true = ground (arith, live.live w, pos) in
    elim (Option-cases (lookup w l.file_map)) [
      | inl absent ↦ absurd (ground (arith, inside, absent))
      | inr (files, e) ↦
          let found = get_files-some l k w files e here in
          elim (Option-cases (lookup w m)) [
            | inl nothing ↦ (
              m,
              k,
              rw (here, nothing, remove_entry) refl,
              d,
              live,
              λ v. rw nothing (same_entry w v m none nothing),
              λ v. rw nothing (ground arith),
            )
            | inr (ptrs, at_w) ↦
                let s = remove_pointer (user, w) w ptrs (m, k) in
                let (d', live', lookups, r) =
                  remove_pointer_lem (user, w) w ptrs m k at_w d live pos in
                (
                  s.0,
                  s.1,
                  rw (here, at_w, found, remove_entry) refl,
                  d',
                  live',
                  λ v. rw at_w (lookups v),
                  λ v. rw at_w (r v),
                )
          ]
    ]

-- The first keyword of a list of distinct keywords has been removed: what is left to do at `v`.
remaining :
    (user : ℕ) (w v : Bytes) (ws : List Bytes) (m m1 : KeywordMap)
    → lookup v m1 ≡ (if w == v then without (user, w) (lookup w m) else lookup v m)
    → count v (w ∷ ws) ≤ 1
    → ((if ltb 0 (count v ws) then without (user, v) (lookup v m1) else lookup v m1)
        ≡ (if ltb 0 (count v (w ∷ ws)) then without (user, v) (lookup v m) else lookup v m))
      × ((if ltb 0 (count v (w ∷ ws)) then dropped (user, v) (lookup v m) else 0)
          ≡ (if w == v then dropped (user, w) (lookup w m) else 0)
            + (if ltb 0 (count v ws) then dropped (user, v) (lookup v m1) else 0))
remaining user w v ws m m1 e d = elim (Bool-cases (w == v)) [
  | inl same ↦
      let met : w ≡ v = (bytes_beq_iff w v).0 same in
      let last : ltb 0 (count v ws) ≡ false = ground (arith, d, same) in
      let first : ltb 0 (count v (w ∷ ws)) ≡ true = ground (arith, same) in
      let here : lookup v m1 ≡ without (user, w) (lookup w m) = ground (arith, e, same) in
      let moved = ap (λ (u : Bytes). dropped (user, u) (lookup u m)) (sym met) in
      rw (last, first, same)
        (here ∙ ap (λ (u : Bytes). without (user, u) (lookup u m)) met, omega (arith, moved))
  | inr other ↦
      let as_before : lookup v m1 ≡ lookup v m = ground (arith, e, other) in
      let as_counted : count v (w ∷ ws) ≡ count v ws = ground (arith, other) in
      rw (as_before, as_counted, other) (refl, omega arith)
]

pub remove_entries_lem :
    (user : ℕ) (l : FileList) (ws : List Bytes) (m : KeywordMap) (k : Keywords)
    → ((v : Bytes) → count v ws ≤ 1)
    → ((v : Bytes) → contains v ws ≡ true → known (lookup v l.file_map) ≡ true)
    → IsDict m
    → IsLive k
    → ((v : Bytes) → count v ws ≤ refs v k)
    → (m' : KeywordMap) × (k' : Keywords) × (remove_entries user l ws (m, k) ≡ some (m', k'))
      × IsDict m'
      × IsLive k'
      × ((v : Bytes)
          → lookup v m'
            ≡ (if ltb 0 (count v ws) then without (user, v) (lookup v m) else lookup v m))
      × ((v : Bytes)
          → refs v k' + (if ltb 0 (count v ws) then dropped (user, v) (lookup v m) else 0)
            ≡ refs v k)
unfolding remove_entries
remove_entries_lem user l [] m k distinct inside d live enough =
    (m, k, refl, d, live, λ v. refl, λ v. omega arith)
remove_entries_lem user l (w ∷ ws) m k distinct inside d live enough =
    let at_w = bytes_beq_iff w w in
    let (m1, k1, run1, d1, live1, e1, r1) =
      remove_entry_lem user l w m k (inside w (ground (arith, at_w))) d live
        (ground (arith, enough w, at_w)) in
    let left = λ (v : Bytes). remaining user w v ws m m1 (e1 v) (distinct v) in
    let (m2, k2, run2, d2, live2, e2, r2) =
      remove_entries_lem user l ws m1 k1 (λ v. ground (arith, distinct v))
        (λ v h. inside v (ground (arith, h))) d1 live1
        (λ v. ground (arith, enough v, distinct v, r1 v)) in
    (
      m2,
      k2,
      rw run1 run2,
      d2,
      live2,
      λ v. e2 v ∙ (left v).0,
      λ v. omega (arith, r1 v, r2 v, (left v).1),
    )
