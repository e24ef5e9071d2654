-- ===== src/Files/Instance.antt =====
-- The file structures fulfil the interface of the user manager.
use neshare.Base.{add32, ℕ, ◌≡◌, refl, Option, none, some, arith, Bytes, ◌>>=◌}
use neshare.DiskMem.{Answer}
use neshare.UserManager.Interface.{Catalog, sizeof_file_in_mb}
use neshare.UserFileList.{FileList}
use neshare.UserFileList
use neshare.Files.{
  Files, Entry, make_file, drop_file, list_file, empty_list, merge_entries, remove_entries,
}
use neshare.Files.Laws.{
  attempt, list_attempt, make_file-filesize, list_file-counted, empty_list-counted,
  remove_entries-returns,
}

-- A call on the state, which may be broken.
abbrev pub on : {B : Type 0} → Option Files → (Files → Option B) → Option B
on o f = o >>= f

pub made-filesize :
    (o : Option Files) (user : ℕ) (name : Bytes) (size : ℕ) (os : Answer) (e : Entry)
    → (attempt none (on o (λ s. make_file s user name size os))).0 ≡ some e
    → e.1.filesize ≡ size
made-filesize none user name size os e h = cc
made-filesize (some s) user name size os e h = make_file-filesize s user name size os e h

pub new-counted :
    (UserFileList.new.num_user_files ≡ 0) × (UserFileList.new.total_sizeof_user_files ≡ 0)
unfolding UserFileList.new
new-counted = (refl, refl)

pub added-counted :
    (o : Option Files) (l : FileList) (e : Entry)
    → let r = list_attempt l (on o (λ s. list_file s l e)) in
      (r.0 ≡ 0
        → (r.1.num_user_files ≡ add32 l.num_user_files 1)
          × (r.1.total_sizeof_user_files
              ≡ add32 l.total_sizeof_user_files (sizeof_file_in_mb e.1.filesize)))
      × ((r.0 ≡ 0 → ⊥) → r.1 ≡ l)
added-counted none l e = (λ z. absurd (omega (arith, z)), λ n. refl)
added-counted (some s) l e = list_file-counted s l e

pub emptied-counted :
    (o : Option Files) (l : FileList)
    → let l' = (attempt UserFileList.new (on o (λ s. empty_list s l))).0 in
      (l'.num_user_files ≡ 0) × (l'.total_sizeof_user_files ≡ 0)
emptied-counted none l = new-counted
emptied-counted (some s) l = empty_list-counted s l

pub removed-returns :
    (o : Option Files) (user : ℕ) (l : FileList)
    → (attempt 0 (on o (λ s. remove_entries s user l))).0 ≡ 0
removed-returns none user l = refl
removed-returns (some s) user l = remove_entries-returns s user l

-- The structures as the user manager sees them.
abbrev pub files : Catalog
files = record {
  FileList = FileList;
  UserFile = Entry;
  Shared = Option Files;
  new_list = UserFileList.new;
  num_user_files = λ l. l.num_user_files;
  total_sizeof_user_files = λ l. l.total_sizeof_user_files;
  make_file = λ o user name size os. attempt none (on o (λ s. make_file s user name size os));
  filesize = λ e. e.1.filesize;
  drop_file = λ o e. on o (λ s. drop_file s e);
  add_user_file = λ o l e. list_attempt l (on o (λ s. list_file s l e));
  empty_list = λ o l. attempt UserFileList.new (on o (λ s. empty_list s l));
  remove_entries = λ o user l. attempt 0 (on o (λ s. remove_entries s user l));
  merge_entries = λ o user l. attempt 1 (on o (λ s. merge_entries s user l));
  filesize-make_file = made-filesize;
  new_list-counts = new-counted;
  add_user_file-counts = λ o l e h. (added-counted o l e).0 h;
  add_user_file-fails = λ o l e h. (added-counted o l e).1 h;
  empty_list-counts = emptied-counted;
  remove_entries_succeeds = removed-returns;
}
