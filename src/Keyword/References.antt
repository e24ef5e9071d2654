-- ===== src/Keyword/References.antt =====
-- The references to keywords: what each call adds and takes, and that an entry is there exactly as
-- long as there are references to it (ne_server/nekeywordmanager.cpp).
use neshare.Base.{
  ℕ, ◌+◌, ◌-◌, ◌≤◌, ◌<◌, ◌≡◌, refl, List, [], ◌∷◌, true, Option, none, some, arith, ltb, ◌==◌,
  if◌then◌else◌, nat_key, bytes_key, bytes_beq_iff, Bytes, lookup, insert, known, IsDict,
  lookup-insert, lookup-remove, insert-IsDict, remove-IsDict, Option-cases, Bool-cases, count, inl,
  inr, word,
}
use neshare.Keyword.{
  Keywords, add_keyword, has_keyword, remove_keyword, add_all, remove_all, add_ref, drop_ref,
}

-- The references that an entry counts.
abbrev pub entry_refs : Option ℕ → ℕ
entry_refs none = 0
entry_refs (some n) = n

abbrev pub refs : Bytes → Keywords → ℕ
refs w k = entry_refs (lookup w k)

-- One entry to a keyword, none without a reference, and no count has wrapped.
pub record IsLive (k : Keywords) : Type 0 where
  pub dict : IsDict k
  pub below : (w : Bytes) → refs w k < word
  pub live : (w : Bytes) → known (lookup w k) ≡ ltb 0 (refs w k)

pub empty-IsLive : IsLive []
empty-IsLive = record { dict = tt; below = λ w. omega arith; live = λ w. refl }

lookup-add_keyword :
    (w v : Bytes) (k : Keywords)
    → lookup v (add_keyword w k) ≡ (if w == v then some (add_ref (refs w k)) else lookup v k)
unfolding add_keyword
lookup-add_keyword w v k = elim (Option-cases (lookup w k)) [
  | inl e ↦
      rw e (ground (arith, e, lookup-insert w v (add_ref 0) (insert w 0 k), lookup-insert w v 0 k))
  | inr (n, e) ↦ rw e (ground (arith, e, lookup-insert w v (add_ref n) k))
]

pub refs-add_keyword :
    (w v : Bytes) (k : Keywords)
    → refs w k + 1 < word
    → refs v (add_keyword w k) ≡ (if w == v then refs w k + 1 else refs v k)
refs-add_keyword w v k h = rw (lookup-add_keyword w v k) (ground arith)

add_keyword-IsDict : (w : Bytes) (k : Keywords) → IsDict k → IsDict (add_keyword w k)
unfolding add_keyword
add_keyword-IsDict w k d = elim (Option-cases (lookup w k)) [
  | inl e ↦ rw (e, IsDict) (insert-IsDict w (add_ref 0) (insert w 0 k) (insert-IsDict w 0 k d))
  | inr (n, e) ↦ rw (e, IsDict) (insert-IsDict w (add_ref n) k d)
]

pub add_keyword-IsLive :
    (w : Bytes) (k : Keywords) → refs w k + 1 < word → IsLive k → IsLive (add_keyword w k)
add_keyword-IsLive w k h l = record {
  dict = add_keyword-IsDict w k l.dict;
  below = λ v. rw (lookup-add_keyword w v k) (ground (arith, l.below v));
  live = λ v. rw (lookup-add_keyword w v k) (ground (arith, l.live v));
}

lookup-remove_keyword :
    (w v : Bytes) (k : Keywords)
    → IsLive k
    → lookup v (remove_keyword w k)
      ≡ (if w == v then (if ltb 1 (refs w k) then some (refs w k - 1) else none) else lookup v k)
unfolding remove_keyword
lookup-remove_keyword w v k l = elim (Option-cases (lookup w k)) [
  | inl e ↦ rw e (ground (arith, e, bytes_beq_iff w v))
  | inr (n, e) ↦
      let pos : 0 < n = ground (arith, l.live w, e) in
      let below : n < word = ground (arith, l.below w, e) in
      rw e (
        ground (
          arith,
          e,
          lookup-insert w v (drop_ref n) k,
          lookup-remove w v k l.dict,
          bytes_beq_iff w v,
          pos,
          below,
        ))
]

pub refs-remove_keyword :
    (w v : Bytes) (k : Keywords)
    → IsLive k
    → refs v (remove_keyword w k) ≡ (if w == v then refs w k - 1 else refs v k)
refs-remove_keyword w v k l = rw (lookup-remove_keyword w v k l) (ground arith)

remove_keyword-IsDict : (w : Bytes) (k : Keywords) → IsDict k → IsDict (remove_keyword w k)
unfolding remove_keyword
remove_keyword-IsDict w k d = elim (Option-cases (lookup w k)) [
  | inl e ↦ rw (e, IsDict) d
  | inr (n, e) ↦ elim (Bool-cases (drop_ref n == 0)) [
    | inl last ↦ rw (e, last, IsDict) (remove-IsDict w k d)
    | inr more ↦ rw (e, more, IsDict) (insert-IsDict w (drop_ref n) k d)
  ]
]

pub remove_keyword-IsLive : (w : Bytes) (k : Keywords) → IsLive k → IsLive (remove_keyword w k)
remove_keyword-IsLive w k l = record {
  dict = remove_keyword-IsDict w k l.dict;
  below = λ v. rw (lookup-remove_keyword w v k l) (ground (arith, l.below v, l.below w));
  live = λ v. rw (lookup-remove_keyword w v k l) (ground (arith, l.live v));
}

-- Each word of a list gains a reference for each of its occurrences, no other word does, and the
-- manager stays well formed, while no count wraps.
pub add_all-refs :
    (ws : List Bytes) (k : Keywords)
    → ((v : Bytes) → refs v k + count v ws < word)
    → IsLive k
    → IsLive (add_all ws k) × ((v : Bytes) → refs v (add_all ws k) ≡ refs v k + count v ws)
unfolding add_all
add_all-refs [] k h l = (l, λ v. omega arith)
add_all-refs (w ∷ ws) k h l =
    let room : refs w k + 1 < word = ground (arith, h w, bytes_beq_iff w w) in
    let added = λ (v : Bytes). refs-add_keyword w v k room in
    let (l', r) =
      add_all-refs ws (add_keyword w k) (λ v. ground (arith, h v, added v, bytes_beq_iff w v))
        (add_keyword-IsLive w k room l) in
    (l', λ v. ground (arith, r v, added v, bytes_beq_iff w v))

-- Dropping a list of references that are all held meets no dangling pointer, and takes from each
-- word one reference for each of its occurrences.
pub remove_all-refs :
    (ws : List Bytes) (k : Keywords)
    → ((v : Bytes) → count v ws ≤ refs v k)
    → IsLive k
    → (k' : Keywords) × (remove_all ws k ≡ some k')
      × IsLive k'
      × ((v : Bytes) → refs v k' + count v ws ≡ refs v k)
unfolding remove_all has_keyword
remove_all-refs [] k h l = (k, refl, l, λ v. omega arith)
remove_all-refs (w ∷ ws) k h l =
    let removed = λ (v : Bytes). refs-remove_keyword w v k l in
    let held : known (lookup w k) ≡ true = ground (arith, h w, l.live w, bytes_beq_iff w w) in
    let (k', run, l', r) =
      remove_all-refs ws (remove_keyword w k)
        (λ v. ground (arith, h v, removed v, bytes_beq_iff w v)) (remove_keyword-IsLive w k l) in
    (k', rw (held, run), l', λ v. ground (arith, h v, r v, removed v, bytes_beq_iff w v))
