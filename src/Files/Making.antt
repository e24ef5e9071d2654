-- ===== src/Files/Making.antt =====
-- The first half of `neUserManager::addEntryToUser`: making a file object from a name.
use neshare.Base.{
  ℕ, ◌<◌, ◌≡◌, refl, ap, true, List, [], ◌∷◌, none, some, arith, ◌||◌, ◌==◌, if◌then◌else◌, nat_key,
  bytes_key, nat_beq_iff, Bytes, length, is_empty, lookup, insert, lookup-insert, remove-insert,
  Bool-cases, inl, inr,
}
use neshare.DiskMem.{Answer, alloc, free}
use neshare.Keyword.{add_all, remove_all}
use neshare.UserFile.{UserFile, destroy}
use neshare.UserFile.Words.{words}
use neshare.UserFile.Names.{initialize-words}
use neshare.UserFileList.{Store, delete_file}
use neshare.Files.{Files, construct, make_file}

-- The file that a name makes.
abbrev pub file_of : ℕ → Bytes → ℕ → UserFile
file_of user name size = record {
  filesize = size;
  owner = user;
  filename = name;
  keywords = words name;
}

delete-new :
    (ptr : ℕ) (f : UserFile) (s : Store)
    → f.keywords ≡ []
    → lookup ptr s.files ≡ none
    → delete_file ptr (record s { files = insert ptr f s.files })
      ≡ some (record s { allocator = free s.allocator ptr })
unfolding delete_file destroy remove_all
delete-new ptr f s nothing fresh =
    let at_ptr : lookup ptr (insert ptr f s.files) ≡ some f =
      ground (arith, lookup-insert ptr ptr f s.files, nat_beq_iff ptr ptr) in
    rw (at_ptr, delete_file, remove-insert ptr f s.files fresh, nothing) refl

empty-nil : (ws : List Bytes) → is_empty ws ≡ true → ws ≡ []
empty-nil [] h = refl
empty-nil (w ∷ ws) h = cc

construct_lem :
    (s : Files) (ptr user size : ℕ) (name : Bytes)
    → lookup ptr s.store.files ≡ none
    → length name < 256
    → construct s ptr user name size
      ≡ some (
          if is_empty (words name)
          then (
            none,
            record s { store = record (s.store) { allocator = free s.store.allocator ptr } },
          )
          else (
            some (ptr, file_of user name size),
            record s {
              store = record (s.store) {
                keywords = add_all (words name) s.store.keywords;
                files = insert ptr (file_of user name size) s.store.files;
              };
            },
          ))
unfolding construct add_all
construct_lem s ptr user size name fresh short =
    let (made, _) = initialize-words user size name s.store.keywords short in
    elim (Bool-cases (is_empty (words name))) [
      | inl blank ↦
          let nothing : words name ≡ [] = empty-nil (words name) blank in
          let uncounted : add_all (words name) s.store.keywords ≡ s.store.keywords =
            ap (λ (ws : List Bytes). add_all ws s.store.keywords) nothing in
          let gone = delete-new ptr (file_of user name size) s.store nothing fresh in
          rw (made, blank, uncounted, construct, gone) refl
      | inr some_words ↦ rw (made, some_words, construct) refl
    ]

-- With a name of less than 256 bytes and a chunk from the allocator that holds no object, a file is
-- made exactly when the name has a keyword, with the words of the name counted; otherwise the chunk
-- is given back and nothing else has changed. Without a chunk no file is made and only the
-- allocator has changed. In no case is an object accessed that is gone.
pub make_file_lem :
    (s : Files) (user size : ℕ) (name : Bytes) (os : Answer)
    → let (ptr, a) = alloc s.store.allocator os in
      lookup ptr s.store.files ≡ none
      → length name < 256
      → make_file s user name size os
        ≡ some (
            if ptr == 0 || is_empty (words name)
            then (
              none,
              record s {
                store = record (s.store) { allocator = if ptr == 0 then a else free a ptr };
              },
            )
            else (
              some (ptr, file_of user name size),
              record s {
                store = record {
                  keywords = add_all (words name) s.store.keywords;
                  files = insert ptr (file_of user name size) s.store.files;
                  allocator = a;
                };
              },
            ))
unfolding make_file
make_file_lem s user size name os fresh short =
    let (ptr, a) = alloc s.store.allocator os in
    elim (Bool-cases (ptr == 0)) [
      | inl null ↦ rw (null, make_file) refl
      | inr there ↦
          let s' : Files = record s { store = record (s.store) { allocator = a } } in
          rw (there, make_file) (construct_lem s' ptr user size name fresh short)
    ]
