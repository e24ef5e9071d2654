-- ===== src/UserFileList/Emptying.antt =====
-- What `neUserFileList::empty` does to the file objects and to the references.
use neshare.Base.{
  ℕ, ◌+◌, ◌≤◌, ◌≡◌, refl, sym, ap, ◌∙◌, true, List, [], ◌∷◌, none, some, arith, if◌then◌else◌,
  nat_key, bytes_key, nat_beq_iff, bytes_beq_iff, Bytes, Dict, lookup, remove, keys, IsDict,
  lookup-remove, remove-IsDict, count, contains, contains-count, count-contains,
}
use neshare.DiskMem.{free}
use neshare.Keyword.References.{refs, IsLive, remove_all-refs}
use neshare.UserFile.{UserFile, destroy}
use neshare.UserFileList.{FileMap, FileList, Store, new, mark_map, delete_file, delete_files, empty}
use neshare.UserFileList.Adding.{IsIndex, held}
use neshare.UserFileList.Marks.{total, total-congr, count-marked}

-- The objects of these files are there, with the keywords that `words` names.
abbrev pub Allocated : (ℕ → List Bytes) → List ℕ → Dict ℕ UserFile → Type 0
Allocated words files heap =
    (x : ℕ)
    → contains x files ≡ true
    → (f : UserFile) × (lookup x heap ≡ some f) × (f.keywords ≡ words x)

-- A map has each of its words as a key once.
pub count-keys : (w : Bytes) (m : FileMap) → IsDict m → count w (keys m) ≡ held w m
count-keys w [] d = refl
count-keys w ((j, v) ∷ m) d = ground (arith, count-keys w m d.1, d.0, bytes_beq_iff j w)

-- Deleting distinct file objects: each is there, drops its own references, and is gone afterwards.
pub delete_files_lem :
    (words : ℕ → List Bytes) (files : List ℕ) (s : Store)
    → Allocated words files s.files
    → ((x : ℕ) → count x files ≤ 1)
    → IsDict s.files
    → IsLive s.keywords
    → ((w : Bytes) → total words w files ≤ refs w s.keywords)
    → (s' : Store) × (delete_files files s ≡ some s')
      × IsDict s'.files
      × IsLive s'.keywords
      × ((x : ℕ) → lookup x s'.files ≡ (if contains x files then none else lookup x s.files))
      × ((w : Bytes) → refs w s'.keywords + total words w files ≡ refs w s.keywords)
unfolding delete_files delete_file destroy
delete_files_lem words [] s here distinct d l enough = (s, refl, d, l, λ x. refl, λ w. omega arith)
delete_files_lem words (file ∷ files) s here distinct d l enough =
    let (f, found, same) = here file (ground (arith, nat_beq_iff file file)) in
    let own = λ (w : Bytes). ap (count w) same in
    let (k, run, l1, r1) =
      remove_all-refs f.keywords s.keywords (λ w. omega (arith, own w, enough w)) l in
    let s1 : Store = record {
      keywords = k;
      files = remove file s.files;
      allocator = free s.allocator file;
    } in
    let gone = λ (x : ℕ). lookup-remove file x s.files d in
    let (s', run', d', l', lookups, r') =
      delete_files_lem words files s1
        (λ x inside.
          let (g, at_x, words_x) = here x (ground (arith, inside)) in
          (
            g,
            ground (
              arith,
              gone x,
              at_x,
              distinct x,
              contains-count x files,
              inside,
              nat_beq_iff file x,
            ),
            words_x,
          ))
        (λ x. ground (arith, distinct x)) (remove-IsDict file s.files d) l1
        (λ w. omega (arith, own w, r1 w, enough w)) in
    (
      s',
      rw (found, run) run',
      d',
      l',
      λ x. ground (arith, lookups x, gone x, nat_beq_iff file x),
      λ w. omega (arith, own w, r1 w, r' w),
    )

contains-congr : (x : ℕ) (xs ys : List ℕ) → count x xs ≡ count x ys → contains x xs ≡ contains x ys
contains-congr x xs ys h =
    ground
      (arith, h, contains-count x xs, contains-count x ys, count-contains x xs, count-contains x ys)

-- Emptying a list that is a correct index of distinct file objects, each allocated and with a
-- keyword, while the list and the files hold their references: nothing that is gone is accessed, the
-- list is as new, just its file objects are gone, and each word loses exactly the references that
-- the list and its files held.
pub empty-releases :
    (words : ℕ → List Bytes) (files : List ℕ) (l : FileList) (s : Store)
    → IsIndex words l.file_map files
    → Allocated words files s.files
    → ((x : ℕ) → count x files ≤ 1)
    → ((x : ℕ) → contains x files ≡ true → (w : Bytes) × 1 ≤ count w (words x))
    → IsDict s.files
    → IsLive s.keywords
    → ((w : Bytes) → held w l.file_map + total words w files ≤ refs w s.keywords)
    → (s' : Store) × (empty l s ≡ some (new, s'))
      × IsLive s'.keywords
      × ((x : ℕ) → lookup x s'.files ≡ (if contains x files then none else lookup x s.files))
      × ((w : Bytes)
          → refs w s'.keywords + (held w l.file_map + total words w files) ≡ refs w s.keywords)
unfolding empty new
empty-releases words files l s i here distinct worded d live enough =
    let marked = mark_map l.file_map [] in
    let counts = λ (x : ℕ). count-marked words l.file_map files x i distinct worded in
    let inside = λ (x : ℕ). contains-congr x marked files (counts x) in
    let totals = λ (w : Bytes). total-congr words w marked files counts in
    let held_keys = λ (w : Bytes). count-keys w l.file_map i.dict in
    let (k, run, l1, r1) =
      remove_all-refs (keys l.file_map) s.keywords (λ w. omega (arith, held_keys w, enough w))
        live in
    let (s', run', d', l', lookups, r') =
      delete_files_lem words marked (record s { keywords = k }) (λ x h. here x (sym (inside x) ∙ h))
        (λ x. omega (arith, counts x, distinct x)) d l1
        (λ w. omega (arith, totals w, held_keys w, r1 w, enough w)) in
    (
      s',
      rw (run, run') refl,
      l',
      λ x. rw (sym (inside x)) (lookups x),
      λ w. omega (arith, totals w, held_keys w, r1 w, r' w),
    )
