-- ===== src/UserFileList.antt =====
-- ne_server/neuserfilelist.h and .cpp: the files that one user shares, by keyword, with the life of
-- the file objects of neusermanager.cpp. File objects stand at the addresses of `files`; a file
-- list holds addresses, one for each occurrence of a keyword in the name of the file. `none` is an
-- access to an object that is gone.
pub mod Marks
pub mod Adding
pub mod Index
pub mod Emptying
mod Tests
use neshare.Base.{
  add32, ℕ, ◌+◌, Bool, List, [], ◌∷◌, ◌++◌, Option, none, some, ◌==◌, if◌then◌else◌, nat_key,
  bytes_key, Bytes, Dict, lookup, insert, remove, keys, contains, is_empty, length, ◌>>=◌,
}
use neshare.DiskMem.{Allocator, Answer, alloc, free}
use neshare.Keyword.{Keywords, add_ref, remove_all}
use neshare.UserFile.{UserFile, destroy}
use neshare.UserManager.Interface.{sizeof_file_in_mb}

-- The global structures: `g_keywordManager`, the file objects, and `g_userFileAllocator`.
pub record Store : Type 0 where
  pub keywords : Keywords
  pub files : Dict ℕ UserFile
  pub allocator : Allocator

-- `m_keywordToUserFileMap`
abbrev pub FileMap : Type 0
FileMap = Dict Bytes (List ℕ)

pub record FileList : Type 0 where
  pub num_user_files : ℕ
  pub total_sizeof_user_files : ℕ
  pub file_map : FileMap

unfoldable pub new : FileList
new = record { num_user_files = 0; total_sizeof_user_files = 0; file_map = [] }

-- `nKey->addRef()`
unfoldable pub reference : Bytes → Keywords → Option Keywords
reference w k = do n ← lookup w k; some (insert w (add_ref n) k)

-- The body of the loop of `addUserFile` on one keyword.
unfoldable pub place_keyword : ℕ → Bytes → FileMap × Keywords → Option (FileMap × Keywords)
place_keyword file w (m, k) = elim (lookup w m) [
  | none ↦ do k' ← reference w k; some (insert w (file ∷ []) m, k')
  | some files ↦ some (insert w (files ++ file ∷ []) m, k)
]

unfoldable pub place_keywords : ℕ → List Bytes → FileMap × Keywords → Option (FileMap × Keywords)
place_keywords file [] s = some s
place_keywords file (w ∷ ws) s = do s' ← place_keyword file w s; place_keywords file ws s'

-- `addUserFile`: 0 when the file has a keyword.
unfoldable pub add_user_file : Keywords → FileList → ℕ → UserFile → Option (ℕ × FileList × Keywords)
add_user_file k l file f = do
  (m, k') ← place_keywords file f.keywords (l.file_map, k)
  some (
      if is_empty f.keywords then (1, l, k) else (
        0,
        record {
          num_user_files = add32 l.num_user_files 1;
          total_sizeof_user_files = add32 l.total_sizeof_user_files (sizeof_file_in_mb f.filesize);
          file_map = m;
        },
        k',
      ))

-- `markedDeleted[file] = file`
unfoldable pub mark : ℕ → List ℕ → List ℕ
mark file marked = if contains file marked then marked else marked ++ file ∷ []

unfoldable pub mark_all : List ℕ → List ℕ → List ℕ
mark_all [] marked = marked
mark_all (file ∷ files) marked = mark_all files (mark file marked)

unfoldable pub mark_map : FileMap → List ℕ → List ℕ
mark_map [] marked = marked
mark_map ((w, files) ∷ m) marked = mark_map m (mark_all files marked)

-- `userFile->~neUserFile(); g_userFileAllocator.free(userFile);`
unfoldable pub delete_file : ℕ → Store → Option Store
delete_file file s = do
  f ← lookup file s.files
  k ← destroy f s.keywords
  some (record { keywords = k; files = remove file s.files; allocator = free s.allocator file })

unfoldable pub delete_files : List ℕ → Store → Option Store
delete_files [] s = some s
delete_files (file ∷ files) s = do s' ← delete_file file s; delete_files files s'

-- `empty`: the references of the map go first, then each marked file object.
unfoldable pub empty : FileList → Store → Option (FileList × Store)
empty l s = do
  k ← remove_all (keys l.file_map) s.keywords
  s' ← delete_files (mark_map l.file_map []) (record s { keywords = k })
  some (record { num_user_files = 0; total_sizeof_user_files = 0; file_map = [] }, s')

-- `getUserFilesFromKeyword`
unfoldable pub get_user_files_from_keyword : FileList → Keywords → Bytes → Option (List ℕ)
get_user_files_from_keyword l k w = do _ ← lookup w k; lookup w l.file_map

-- `getNumKeywords`
unfoldable pub get_num_keywords : FileList → ℕ
get_num_keywords l = length l.file_map
