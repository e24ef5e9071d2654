-- ===== src/UserFileList/Adding.antt =====
-- What `neUserFileList::addUserFile` does to the map of a list and to the references.
use neshare.Base.{
  ℕ, ◌+◌, ◌≤◌, ◌<◌, ◌≡◌, refl, sym, ap, ◌∙◌, List, [], ◌∷◌, ◌++◌, Option, none, some, arith, ◌==◌,
  if◌then◌else◌, nat_key, bytes_key, bytes_beq_iff, Bytes, lookup, insert, known, IsDict,
  lookup-insert, insert-IsDict, count, replicate, append-nil, Option-cases, Bool-cases, inl, inr,
  word,
}
use neshare.Keyword.{Keywords, add_ref}
use neshare.Keyword.References.{refs, IsLive}
use neshare.UserFileList.{FileMap, reference, place_keyword}

-- The occurrences of a word in the names of the files of a list, a file once for each.
abbrev pub occurrences : (ℕ → List Bytes) → Bytes → List ℕ → List ℕ
occurrences words w [] = []
occurrences words w (file ∷ files) =
    replicate (count w (words file)) file ++ occurrences words w files

-- The entry of a word that occurs in these files.
abbrev pub entry_of : List ℕ → Option (List ℕ)
entry_of [] = none
entry_of (file ∷ files) = some (file ∷ files)

-- The reference that the list holds to a word.
abbrev pub held : Bytes → FileMap → ℕ
held w m = if known (lookup w m) then 1 else 0

-- The map has just the words of these files, each with the files that it occurs in.
pub record IsIndex (words : ℕ → List Bytes) (m : FileMap) (files : List ℕ) : Type 0 where
  pub dict : IsDict m
  pub entry : (w : Bytes) → lookup w m ≡ entry_of (occurrences words w files)

pub entry_of-last :
    (files : List ℕ) (file : ℕ) → entry_of (files ++ file ∷ []) ≡ some (files ++ file ∷ [])
entry_of-last [] file = refl
entry_of-last (x ∷ xs) file = refl

entry_of-none : (files : List ℕ) → entry_of files ≡ none → files ≡ []
entry_of-none [] h = refl
entry_of-none (x ∷ xs) h = cc

pub entry_of-some : (files : List ℕ) {xs : List ℕ} → entry_of files ≡ some xs → files ≡ xs
entry_of-some [] h = cc
entry_of-some (x ∷ xs) h = cc

pub reference_lem :
    (w : Bytes) (k : Keywords)
    → IsLive k
    → 0 < refs w k
    → refs w k + 1 < word
    → (k' : Keywords) × (reference w k ≡ some k')
      × IsLive k'
      × ((v : Bytes) → refs v k' ≡ refs v k + (if w == v then 1 else 0))
unfolding reference
reference_lem w k l pos room = elim (Option-cases (lookup w k)) [
  | inl e ↦ absurd (ground (arith, l.live w, e, pos))
  | inr (n, e) ↦
      let added = λ (v : Bytes). lookup-insert w v (add_ref n) k in
      (
        insert w (add_ref n) k,
        rw e refl,
        record {
          dict = insert-IsDict w (add_ref n) k l.dict;
          below = λ v. rw (added v) (ground (arith, l.below v));
          live = λ v. rw (added v) (ground (arith, l.live v, e, pos, room));
        },
        λ v. rw (added v) (ground (arith, e, room, bytes_beq_iff w v)),
      )
]

place_keyword-new :
    (file : ℕ) (w : Bytes) (m : FileMap) (k : Keywords) {k' : Keywords}
    → lookup w m ≡ none
    → reference w k ≡ some k'
    → place_keyword file w (m, k) ≡ some (insert w (file ∷ []) m, k')
unfolding place_keyword
place_keyword-new file w m k absent run = rw (absent, run, place_keyword) refl

-- One keyword: the file goes to the end of the vector of the word, and the first file of a word
-- takes a reference to it.
pub place_keyword_lem :
    (file : ℕ) (w : Bytes) (m : FileMap) (k : Keywords) (base : Bytes → List ℕ)
    → IsDict m
    → ((v : Bytes) → lookup v m ≡ entry_of (base v))
    → IsLive k
    → 0 < refs w k
    → refs w k + 1 < word + held w m
    → (m' : FileMap) × (k' : Keywords) × (place_keyword file w (m, k) ≡ some (m', k'))
      × IsDict m'
      × ((v : Bytes) → lookup v m' ≡ entry_of (base v ++ (if w == v then file ∷ [] else [])))
      × IsLive k'
      × ((v : Bytes) → (refs v k' + held v m ≡ refs v k + held v m') × held v m ≤ held v m')
unfolding place_keyword
place_keyword_lem file w m k base d e l pos room = elim (Option-cases (lookup w m)) [
  | inl absent ↦
      let (k', run, l', r) = reference_lem w k l pos (ground (arith, room, absent)) in
      let added = λ (v : Bytes). lookup-insert w v (file ∷ []) m in
      let none_yet : base w ≡ [] = entry_of-none (base w) (sym (e w) ∙ absent) in
      let entry : (v : Bytes)
          → (if w == v then some (file ∷ []) else lookup v m)
            ≡ entry_of (base v ++ (if w == v then file ∷ [] else [])) =
        λ v. elim (Bool-cases (w == v)) [
          | inl same ↦
              let here : base v ≡ [] = ap base (sym ((bytes_beq_iff w v).0 same)) ∙ none_yet in
              rw (same, here) refl
          | inr other ↦ rw (other, append-nil) (e v)
        ] in
      (
        insert w (file ∷ []) m,
        k',
        place_keyword-new file w m k absent run,
        insert-IsDict w (file ∷ []) m d,
        λ v. rw (added v) (entry v),
        l',
        λ v. rw (added v) (ground (arith, absent, r v, bytes_beq_iff w v)),
      )
  | inr (files, present) ↦
      let added = λ (v : Bytes). lookup-insert w v (files ++ file ∷ []) m in
      let so_far : base w ≡ files = entry_of-some (base w) (sym (e w) ∙ present) in
      let entry : (v : Bytes)
          → (if w == v then some (files ++ file ∷ []) else lookup v m)
            ≡ entry_of (base v ++ (if w == v then file ∷ [] else [])) =
        λ v. elim (Bool-cases (w == v)) [
          | inl same ↦
              let here : base v ≡ files = ap base (sym ((bytes_beq_iff w v).0 same)) ∙ so_far in
              rw (same, here) (sym (entry_of-last files file))
          | inr other ↦ rw (other, append-nil) (e v)
        ] in
      (
        insert w (files ++ file ∷ []) m,
        k,
        rw (present, place_keyword) refl,
        insert-IsDict w (files ++ file ∷ []) m d,
        λ v. rw (added v) (entry v),
        l,
        λ v. rw (added v) (ground (arith, present, bytes_beq_iff w v)),
      )
]
