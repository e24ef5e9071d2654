-- ===== src/Files/Laws.antt =====
-- What the calls on the file structures answer to the user manager: sizes and counters.
use neshare.Base.{
  add32, bytes_key, ℕ, ◌≡◌, refl, sym, ap, ◌∙◌, Option, none, some, arith, ◌==◌, nat_key, Bytes,
  keys, is_empty, ◌>>=◌, bind-eq-some, some-inj, Bool-cases, Option-cases, inl, inr,
}
use neshare.DiskMem.{Answer, alloc}
use neshare.UserFile.{UserFile, Scan}
use neshare.UserFile
use neshare.Keyword.{Keywords, remove_all}
use neshare.UserManager.Interface.{sizeof_file_in_mb}
use neshare.UserFileList.{
  Store, FileList, FileMap, add_user_file, place_keywords, empty, delete_file,
}
use neshare.UserFileList
use neshare.QueryResult
use neshare.QueryResult.{KeywordMap, remove_entries_from_user}
use neshare.Files.{Files, Entry, construct, make_file, list_file, empty_list, remove_entries}

-- A call on a state that may be broken, with what it answers then.
abbrev pub attempt : {A : Type 0} → A → Option (A × Files) → A × Option Files
attempt a none = (a, none)
attempt a (some (b, s)) = (b, some s)

abbrev pub list_attempt : FileList → Option (ℕ × FileList × Files) → ℕ × FileList × Option Files
list_attempt l none = (1, l, none)
list_attempt l (some (ret, l', s)) = (ret, l', some s)

initialize-filesize :
    (f f' : UserFile) (name : Bytes) (size ret : ℕ) (k k' : Keywords)
    → UserFile.initialize f name size k ≡ some (ret, f', k')
    → f'.filesize ≡ size
unfolding UserFile.initialize
initialize-filesize f f' name size ret k k' h =
    let (s, _, h1) = bind-eq-some (UserFile.scan name name _) _ h in
    let (s', _, h2) = bind-eq-some (UserFile.last_word name s) _ h1 in
    ap (λ (r : ℕ × UserFile × Keywords). r.1.filesize) (sym (some-inj h2))

no_entry :
    (o : Option Store) (g : Store → Files) {e : Entry}
    → (attempt none (o >>= λ gone. some (none, g gone))).0 ≡ some e
    → ⊥
no_entry none g h = cc
no_entry (some gone) g h = cc

construct-filesize :
    (s : Files) (ptr user : ℕ) (name : Bytes) (size : ℕ) (e : Entry)
    → (attempt none (construct s ptr user name size)).0 ≡ some e
    → e.1.filesize ≡ size
unfolding construct
construct-filesize s ptr user name size e h =
    elim (Option-cases (UserFile.initialize (UserFile.new user) name size s.store.keywords)) [
      | inl absent ↦ let h' : none ≡ some e = rw (absent, construct) at h in cc
      | inr ((ret, f, k), made) ↦ elim (Bool-cases (ret == 0)) [
        | inl good ↦
            let h' : some (ptr, f) ≡ some e = rw (made, good, construct) at h in
            ap (λ (x : Entry). x.1.filesize) (sym (some-inj h'))
            ∙ initialize-filesize (UserFile.new user) f name size ret s.store.keywords k made
        | inr bad ↦ absurd (no_entry _ _ (rw (made, bad, construct) at h))
      ]
    ]

add_user_file-counted :
    (k : Keywords) (l : FileList) (ptr : ℕ) (f : UserFile) (ret : ℕ) (l' : FileList) (k' : Keywords)
    → add_user_file k l ptr f ≡ some (ret, l', k')
    → (ret ≡ 0
        → (l'.num_user_files ≡ add32 l.num_user_files 1)
          × (l'.total_sizeof_user_files
              ≡ add32 l.total_sizeof_user_files (sizeof_file_in_mb f.filesize)))
      × ((ret ≡ 0 → ⊥) → l' ≡ l)
unfolding add_user_file
add_user_file-counted k l ptr f ret l' k' h =
    let ((m, k1), _, h1) = bind-eq-some (place_keywords ptr f.keywords (l.file_map, k)) _ h in
    elim (Bool-cases (is_empty f.keywords)) [
      | inl nothing ↦
          let e : some (1, l, k) ≡ some (ret, l', k') = rw nothing at h1 in
          let one : 1 ≡ ret = ap (λ (r : ℕ × FileList × Keywords). r.0) (some-inj e) in
          (
            λ zero_ret. absurd (omega (arith, one, zero_ret)),
            λ n. sym (ap (λ (r : ℕ × FileList × Keywords). r.1) (some-inj e)),
          )
      | inr some_words ↦
          let grown : FileList = record {
            num_user_files = add32 l.num_user_files 1;
            total_sizeof_user_files =
                add32 l.total_sizeof_user_files (sizeof_file_in_mb f.filesize);
            file_map = m;
          } in
          let e : some (0, grown, k1) ≡ some (ret, l', k') = rw some_words at h1 in
          let same : grown ≡ l' = ap (λ (r : ℕ × FileList × Keywords). r.1) (some-inj e) in
          (
            λ z. (
              sym (ap (λ (x : FileList). x.num_user_files) same),
              sym (ap (λ (x : FileList). x.total_sizeof_user_files) same),
            ),
            λ n. absurd (n (sym (ap (λ (r : ℕ × FileList × Keywords). r.0) (some-inj e)))),
          )
    ]

pub make_file-filesize :
    (s : Files) (user : ℕ) (name : Bytes) (size : ℕ) (os : Answer) (e : Entry)
    → (attempt none (make_file s user name size os)).0 ≡ some e
    → e.1.filesize ≡ size
unfolding make_file
make_file-filesize s user name size os e h =
    let (ptr, a) = alloc s.store.allocator os in
    elim (Bool-cases (ptr == 0)) [
      | inl null ↦ let h' : none ≡ some e = rw (null, make_file) at h in cc
      | inr there ↦
          let s' : Files = record s { store = record (s.store) { allocator = a } } in
          let h' : (attempt none (construct s' ptr user name size)).0 ≡ some e =
            rw (there, make_file) at h in
          construct-filesize s' ptr user name size e h'
    ]

pub list_file-counted :
    (s : Files) (l : FileList) (e : Entry)
    → let r = list_attempt l (list_file s l e) in
      (r.0 ≡ 0
        → (r.1.num_user_files ≡ add32 l.num_user_files 1)
          × (r.1.total_sizeof_user_files
              ≡ add32 l.total_sizeof_user_files (sizeof_file_in_mb e.1.filesize)))
      × ((r.0 ≡ 0 → ⊥) → r.1 ≡ l)
unfolding list_file
list_file-counted s l (ptr, f) = elim (Option-cases (add_user_file s.store.keywords l ptr f)) [
  | inl broken ↦ rw (broken, list_file) (λ z. absurd (omega (arith, z)), λ n. refl)
  | inr ((ret, l', k), run) ↦
      rw (run, list_file) (add_user_file-counted s.store.keywords l ptr f ret l' k run)
]

empty-new : (l l' : FileList) (s s' : Store) → empty l s ≡ some (l', s') → UserFileList.new ≡ l'
unfolding empty UserFileList.new
empty-new l l' s s' h =
    let (k, _, h1) = bind-eq-some (remove_all (keys l.file_map) s.keywords) _ h in
    let (t, _, h2) = bind-eq-some (UserFileList.delete_files _ _) _ h1 in
    ap (λ (r : FileList × Store). r.0) (some-inj h2)

pub empty_list-counted :
    (s : Files) (l : FileList)
    → let l' = (attempt UserFileList.new (empty_list s l)).0 in
      (l'.num_user_files ≡ 0) × (l'.total_sizeof_user_files ≡ 0)
unfolding empty_list UserFileList.new
empty_list-counted s l = elim (Option-cases (empty l s.store)) [
  | inl broken ↦ rw (broken, empty_list) (refl, refl)
  | inr ((l', t), run) ↦
      let same = empty-new l l' s.store t run in
      rw (run, empty_list)
        (
          sym (ap (λ (x : FileList). x.num_user_files) same),
          sym (ap (λ (x : FileList). x.total_sizeof_user_files) same),
        )
]

remove_entries_from_user-returns :
    (user ret : ℕ) (l : FileList) (m m' : KeywordMap) (k k' : Keywords)
    → remove_entries_from_user user l m k ≡ some (ret, m', k')
    → ret ≡ 0
unfolding remove_entries_from_user
remove_entries_from_user-returns user ret l m m' k k' h =
    let (r, _, h1) = bind-eq-some (QueryResult.remove_entries user l _ (m, k)) _ h in
    sym (ap (λ (x : ℕ × KeywordMap × Keywords). x.0) (some-inj h1))

pub remove_entries-returns :
    (s : Files) (user : ℕ) (l : FileList) → (attempt 0 (remove_entries s user l)).0 ≡ 0
unfolding remove_entries
remove_entries-returns s user l =
    elim (Option-cases (remove_entries_from_user user l s.keyword_map s.store.keywords)) [
      | inl broken ↦ rw (broken, remove_entries) refl
      | inr ((ret, m, k), run) ↦
          rw (run, remove_entries)
            (remove_entries_from_user-returns user ret l s.keyword_map m s.store.keywords k run)
    ]
