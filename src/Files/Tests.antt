-- ===== src/Files/Tests.antt =====
-- The user manager over the real file structures: one user who logs in, shares a file, and leaves.
use neshare.Base.{◌≡◌, refl, [], ◌∷◌, none, some, arith, nat_key, bytes_key, Bytes}
use neshare.DiskMem.{Allocator, Answer, alloc, take_chunk}
use neshare.DiskMem
use neshare.Keyword.{add_all}
use neshare.UserFile.Words.{words, words_from}
use neshare.UserFile.{is_alnum}
use neshare.Files.{Files, make_file}
use neshare.Files.Making.{file_of, make_file_lem}

-- An allocator with a free chunk at 4096.
abbrev allocator : Allocator
allocator = record DiskMem.new { obj_byte_size = 300; count = 1; free_stack = 4096 ∷ [] }

abbrev empty_files : Files
empty_files = record {
  store = record { keywords = []; files = []; allocator = allocator };
  keyword_map = [];
}

abbrev nothing : Answer
nothing = record { opened = none; mapped = none }

-- "ab-c.ab"
abbrev song : Bytes
song = 97 ∷ 98 ∷ 45 ∷ 99 ∷ 46 ∷ 97 ∷ 98 ∷ []

make_file_lem_example :
    make_file empty_files 7 song 10 nothing
    ≡ some (
      some (4096, file_of 7 song 10),
      record empty_files {
        store = record {
          keywords = add_all (words song) [];
          files = (4096, file_of 7 song 10) ∷ [];
          allocator = (alloc allocator nothing).1;
        };
      },
    )
unfolding words words_from is_alnum alloc take_chunk
make_file_lem_example = make_file_lem empty_files 7 10 song nothing refl (omega arith)
