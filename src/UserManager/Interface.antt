-- ===== src/UserManager/Interface.antt =====
-- What a user manager asks of the shared file structures (ne_server/neuserfilelist.h,
-- nequeryresultmanager.h and nediskmemallocator.h): the operations, with the laws on their counters.
use neshare.Base.{add32, ℕ, ◌/◌, ◌≡◌, Option, some, Bytes, ◌==◌, if◌then◌else◌, nat_key}
use neshare.DiskMem.{Answer}

-- `BYTES_TO_MBYTES`, with a part of a megabyte at the start counted as one
unfoldable pub sizeof_file_in_mb : ℕ → ℕ
sizeof_file_in_mb bytes = let mb = bytes / 1048576 in if mb == 0 then 1 else mb

pub record Catalog : Type 1 where
  pub FileList : Type 0
  pub UserFile : Type 0
  pub Shared : Type 0
  -- `neUserFileList()`
  pub new_list : FileList
  pub num_user_files : FileList → ℕ
  pub total_sizeof_user_files : FileList → ℕ
  -- `g_userFileAllocator.alloc()`, `new (ptr) neUserFile(user)` and `initialize(filename, filesize)`;
  -- the file when all went well
  pub make_file : Shared → ℕ → Bytes → ℕ → Answer → Option UserFile × Shared
  pub filesize : UserFile → ℕ
  -- `~neUserFile()` and `g_userFileAllocator.free(userFile)`
  pub drop_file : Shared → UserFile → Shared
  -- `neUserFileList::addUserFile`, 0 on success
  pub add_user_file : Shared → FileList → UserFile → ℕ × FileList × Shared
  -- `neUserFileList::empty`
  pub empty_list : Shared → FileList → FileList × Shared
  -- `neQueryResultManager::removeEntriesFromUser`, 0 on success
  pub remove_entries : Shared → ℕ → FileList → ℕ × Shared
  -- `neQueryResultManager::mergeEntriesToKeywordMap`, 0 on success
  pub merge_entries : Shared → ℕ → FileList → ℕ × Shared
  pub filesize-make_file :
      (s : Shared) (user : ℕ) (name : Bytes) (size : ℕ) (os : Answer) (f : UserFile)
      → (make_file s user name size os).0 ≡ some f
      → filesize f ≡ size
  pub new_list-counts : (num_user_files new_list ≡ 0) × (total_sizeof_user_files new_list ≡ 0)
  pub add_user_file-counts :
      (s : Shared) (l : FileList) (f : UserFile)
      → (add_user_file s l f).0 ≡ 0
      → let l' = (add_user_file s l f).1 in
        (num_user_files l' ≡ add32 (num_user_files l) 1)
        × (total_sizeof_user_files l'
            ≡ add32 (total_sizeof_user_files l) (sizeof_file_in_mb (filesize f)))
  pub add_user_file-fails :
      (s : Shared) (l : FileList) (f : UserFile)
      → ((add_user_file s l f).0 ≡ 0 → ⊥)
      → (add_user_file s l f).1 ≡ l
  pub empty_list-counts :
      (s : Shared) (l : FileList)
      → let l' = (empty_list s l).0 in (num_user_files l' ≡ 0) × (total_sizeof_user_files l' ≡ 0)
  pub remove_entries_succeeds :
      (s : Shared) (user : ℕ) (l : FileList) → (remove_entries s user l).0 ≡ 0
