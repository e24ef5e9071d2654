-- ===== src/Files.antt =====
-- The shared structures behind the file lists of the users, as the user manager calls them
-- (neusermanager.cpp, addEntryToUser, mergeEntriesToKeywordMap, removeEntriesFromUser): the keyword
-- manager, the file objects with their allocator, and the map of the query result manager. They
-- fulfil the interface of the user manager. Once an access to an object that is gone has been
-- made, the state is `none` and calls fail.
pub mod Laws
pub mod Instance
pub mod Making
mod Tests
use neshare.Base.{
  ℕ, ◌+◌, Bool, List, [], ◌∷◌, Option, none, some, ◌==◌, if◌then◌else◌, nat_key, Bytes, insert,
  ◌>>=◌,
}
use neshare.DiskMem.{Answer, alloc, free}
use neshare.UserFile.{UserFile, destroy}
use neshare.UserFile
use neshare.UserFileList.{Store, FileList, add_user_file, empty, delete_file}
use neshare.QueryResult.{KeywordMap, merge_entries_to_keyword_map, remove_entries_from_user}

-- A file object with its address.
abbrev pub Entry : Type 0
Entry = ℕ × UserFile

pub record Files : Type 0 where
  pub store : Store
  pub keyword_map : KeywordMap

-- The new object at `ptr` is initialised, and dropped again when its name has no keyword.
unfoldable pub construct : Files → ℕ → ℕ → Bytes → ℕ → Option (Option Entry × Files)
construct s ptr user name size = do
  (ret, f, k) ← UserFile.initialize (UserFile.new user) name size s.store.keywords
  let made = record (s.store) { keywords = k; files = insert ptr f s.store.files }
  if ret == 0
      then some (some (ptr, f), record s { store = made })
      else (delete_file ptr made >>= λ gone. some (none, record s { store = gone }))

-- The first half of `addEntryToUser`: the file, when there was memory and it has a keyword.
unfoldable pub make_file : Files → ℕ → Bytes → ℕ → Answer → Option (Option Entry × Files)
make_file s user name size os =
    let (ptr, a) = alloc s.store.allocator os in
    let s' = record s { store = record (s.store) { allocator = a } } in
    if ptr == 0 then some (none, s') else construct s' ptr user name size

-- `userFile->~neUserFile(); g_userFileAllocator.free(userFile);`
unfoldable pub drop_file : Files → Entry → Option Files
drop_file s (ptr, f) = do store ← delete_file ptr s.store; some (record s { store = store })

unfoldable pub list_file : Files → FileList → Entry → Option (ℕ × FileList × Files)
list_file s l (ptr, f) = do
  (ret, l', k) ← add_user_file s.store.keywords l ptr f
  some (ret, l', record s { store = record (s.store) { keywords = k } })

unfoldable pub empty_list : Files → FileList → Option (FileList × Files)
empty_list s l = do (l', store) ← empty l s.store; some (l', record s { store = store })

unfoldable pub merge_entries : Files → ℕ → FileList → Option (ℕ × Files)
merge_entries s user l = do
  (ret, m, k) ← merge_entries_to_keyword_map user l s.keyword_map s.store.keywords
  some (ret, record { store = record (s.store) { keywords = k }; keyword_map = m })

unfoldable pub remove_entries : Files → ℕ → FileList → Option (ℕ × Files)
remove_entries s user l = do
  (ret, m, k) ← remove_entries_from_user user l s.keyword_map s.store.keywords
  some (ret, record { store = record (s.store) { keywords = k }; keyword_map = m })
