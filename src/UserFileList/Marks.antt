-- ===== src/UserFileList/Marks.antt =====
-- The marking of the file objects of a list for deletion, each once, in `neUserFileList::empty`.
use neshare.Base.{
  ℕ, ◌+◌, ◌≤◌, ◌≡◌, refl, sym, ap, ◌∙◌, Bool, true, false, ◌||◌, List, [], ◌∷◌, some, arith, ◌==◌,
  if◌then◌else◌, nat_key, bytes_key, nat_beq_iff, bytes_beq_iff, Bytes, lookup, IsDict, count,
  contains, erase, replicate, Bool-cases, inl, inr, count-append, contains-count, count-contains,
  count-erase, contains-append, contains-replicate,
}
use neshare.UserFileList.{FileMap, mark, mark_all, mark_map}
use neshare.UserFileList.Adding.{occurrences, entry_of, entry_of-some, IsIndex}

count-mark :
    (x file : ℕ) (marked : List ℕ)
    → count file marked ≤ 1
    → count x (mark file marked) ≡ (if file == x then 1 else count x marked)
unfolding mark
count-mark x file marked h = elim (Bool-cases (contains file marked)) [
  | inl old ↦ rw old (ground (arith, contains-count file marked, nat_beq_iff file x))
  | inr fresh ↦ rw fresh (
      ground
        (arith, count-contains file marked, count-append x marked (file ∷ []), nat_beq_iff file x))
]

count-mark_all :
    (x : ℕ) (files marked : List ℕ)
    → ((y : ℕ) → count y marked ≤ 1)
    → count x (mark_all files marked) ≡ (if contains x files then 1 else count x marked)
unfolding mark_all
count-mark_all x [] marked h = refl
count-mark_all x (file ∷ files) marked h =
    let marks = λ (y : ℕ). count-mark y file marked (h file) in
    ground (
      arith,
      count-mark_all x files (mark file marked) (λ y. ground (arith, marks y, h y)),
      marks x,
    )

-- Whether a file stands in some vector of a map.
abbrev pub listed : ℕ → FileMap → Bool
listed x [] = false
listed x ((w, files) ∷ m) = contains x files || listed x m

pub count-mark_map :
    (x : ℕ) (m : FileMap) (marked : List ℕ)
    → ((y : ℕ) → count y marked ≤ 1)
    → count x (mark_map m marked) ≡ (if listed x m then 1 else count x marked)
unfolding mark_map
count-mark_map x [] marked h = refl
count-mark_map x ((w, files) ∷ m) marked h =
    let marks = λ (y : ℕ). count-mark_all y files marked h in
    ground (
      arith,
      count-mark_map x m (mark_all files marked) (λ y. ground (arith, marks y, h y)),
      marks x,
    )

listed-lookup :
    (x : ℕ) (m : FileMap)
    → IsDict m
    → listed x m ≡ true
    → (w : Bytes) × (files : List ℕ) × (lookup w m ≡ some files) × (contains x files ≡ true)
listed-lookup x [] d h = cc
listed-lookup x ((j, files) ∷ m) d h = elim (Bool-cases (contains x files)) [
  | inl here ↦ (j, files, rw ((bytes_beq_iff j j).1 refl) refl, here)
  | inr later ↦
      let (w, found, at_w, inside) = listed-lookup x m d.1 (ground (arith, h, later)) in
      (w, found, ground (arith, at_w, d.0, bytes_beq_iff j w), inside)
]

lookup-listed :
    (x : ℕ) (w : Bytes) (files : List ℕ) (m : FileMap)
    → lookup w m ≡ some files
    → contains x files ≡ true
    → listed x m ≡ true
lookup-listed x w files [] h c = cc
lookup-listed x w files ((j, here) ∷ m) h c = ground (arith, lookup-listed x w files m, h, c)

contains-occurrences :
    (words : ℕ → List Bytes) (x : ℕ) (w : Bytes) (files : List ℕ)
    → contains x (occurrences words w files) ≡ true
    → contains x files ≡ true
contains-occurrences words x w [] h = h
contains-occurrences words x w (file ∷ files) h = ground (
  arith,
  h,
  contains-append x (replicate (count w (words file)) file) (occurrences words w files),
  contains-replicate x file (count w (words file)),
  contains-occurrences words x w files,
)

occurrences-contains :
    (words : ℕ → List Bytes) (x : ℕ) (w : Bytes) (files : List ℕ)
    → contains x files ≡ true
    → 1 ≤ count w (words x)
    → contains x (occurrences words w files) ≡ true
occurrences-contains words x w [] h c = h
occurrences-contains words x w (file ∷ files) h c = ground (
  arith,
  h,
  c,
  contains-append x (replicate (count w (words file)) file) (occurrences words w files),
  contains-replicate x file (count w (words file)),
  occurrences-contains words x w files,
  nat_beq_iff file x,
)

-- In a list that is a correct index of distinct files, each with a keyword, the marked files are
-- the files of the list, each once.
pub count-marked :
    (words : ℕ → List Bytes) (m : FileMap) (files : List ℕ) (x : ℕ)
    → IsIndex words m files
    → ((y : ℕ) → count y files ≤ 1)
    → ((y : ℕ) → contains y files ≡ true → (w : Bytes) × 1 ≤ count w (words y))
    → count x (mark_map m []) ≡ count x files
count-marked words m files x i distinct worded =
    let marks = count-mark_map x m [] (λ y. omega arith) in
    elim (Bool-cases (contains x files)) [
      | inl inside ↦
          let (w, occurs) = worded x inside in
          let found = occurrences-contains words x w files inside occurs in
          let in_map : listed x m ≡ true =
            lookup-listed x w (occurrences words w files) m
              (i.entry w ∙ entry_of-full (occurrences words w files) x found) found in
          ground (arith, marks, in_map, distinct x, contains-count x files, inside)
      | inr outside ↦ elim (Bool-cases (listed x m)) [
        | inl in_map ↦
            let (w, vector, at_w, inside) = listed-lookup x m i.dict in_map in
            let same : occurrences words w files ≡ vector =
              entry_of-some (occurrences words w files) (sym (i.entry w) ∙ at_w) in
            let found : contains x (occurrences words w files) ≡ true = rw same inside in
            let again = contains-occurrences words x w files found in
            absurd (ground (arith, outside, again))
        | inr absent ↦ ground (arith, marks, absent, count-contains x files, outside)
      ]
    ]
  where
    entry_of-full : (xs : List ℕ) (y : ℕ) → contains y xs ≡ true → entry_of xs ≡ some xs
    entry_of-full [] y h = cc
    entry_of-full (z ∷ xs) y h = refl

-- The references that files hold to a word.
abbrev pub total : (ℕ → List Bytes) → Bytes → List ℕ → ℕ
total words w [] = 0
total words w (file ∷ files) = count w (words file) + total words w files

total-erase :
    (words : ℕ → List Bytes) (w : Bytes) (x : ℕ) (files : List ℕ)
    → contains x files ≡ true
    → total words w files ≡ count w (words x) + total words w (erase x files)
total-erase words w x [] h = cc
total-erase words w x (file ∷ files) h = elim (Bool-cases (file == x)) [
  | inl same ↦
      let met : file ≡ x = (nat_beq_iff file x).0 same in
      rw same (ap (λ (z : ℕ). count w (words z) + total words w files) met)
  | inr other ↦ rw other (omega (arith, total-erase words w x files (ground (arith, h, other))))
]

pub total-congr :
    (words : ℕ → List Bytes) (w : Bytes) (xs ys : List ℕ)
    → ((x : ℕ) → count x xs ≡ count x ys)
    → total words w xs ≡ total words w ys
total-congr words w [] [] h = refl
total-congr words w [] (y ∷ ys) h = absurd (ground (arith, h y, nat_beq_iff y y))
total-congr words w (x ∷ xs) ys h =
    let inside : contains x ys ≡ true = ground (arith, h x, nat_beq_iff x x, count-contains x ys) in
    let erased = λ (z : ℕ). count-erase x z ys inside in
    omega (
      arith,
      total-erase words w x ys inside,
      total-congr words w xs (erase x ys) (λ z. omega (arith, h z, erased z)),
    )
