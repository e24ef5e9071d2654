-- ===== src/UserFile.antt =====
-- ne_server/neuserfile.h and .cpp: one shared file, and the splitting of its name into keywords. A
-- C string is the list of its bytes before the terminator. `none` is a write past the end of the
-- keyword buffer, or a keyword pointer that dangles.
pub mod Words
pub mod Names
mod Tests
use neshare.Base.{
  ℕ, ◌+◌, ◌-◌, ◌≤◌, Bool, true, false, ◌&&◌, ◌||◌, List, [], ◌∷◌, ◌++◌, Option, none, some, ltb,
  leb, ◌==◌, nat_key, if◌then◌else◌, Bytes, map, min, length, take, drop, is_empty, ◌>>=◌,
}
use neshare.Keyword.{Keywords, add_keyword, remove_all}

-- `owner` is the address of the user, 0 for none.
pub record UserFile : Type 0 where
  pub filesize : ℕ
  pub owner : ℕ
  pub filename : Bytes
  pub keywords : List Bytes

-- `NE_MSG_MAX_DATA_LEN`, the size of the buffers for the name and for a keyword
abbrev pub max_data_len : ℕ
max_data_len = 256

-- `neUserFile(user)`
unfoldable pub new : ℕ → UserFile
new user = record { filesize = 0; owner = user; filename = []; keywords = [] }

-- `isalnum` and `toupper` in the C locale
unfoldable pub is_alnum : ℕ → Bool
is_alnum b = (leb 48 b && leb b 57) || (leb 65 b && leb b 90) || (leb 97 b && leb b 122)

unfoldable pub to_upper : ℕ → ℕ
to_upper b = if leb 97 b && leb b 122 then b - 32 else b

-- The variables of the loop of `initialize`.
pub record Scan : Type 0 where
  pub start : ℕ
  pub end : ℕ
  pub found : List Bytes
  pub manager : Keywords

-- The word between `start` and `end` is copied, in capitals, and added.
unfoldable pub cut : Bytes → Scan → Option Scan
unfolding to_upper
cut name s =
    let len = s.end - s.start in
    let keyword = map to_upper (take len (drop s.start name)) in
    if ltb len max_data_len
    then some (
        if is_empty keyword
        then s
        else record s { manager = add_keyword keyword s.manager; found = s.found ++ keyword ∷ [] })
    else none

-- The body of the loop on one byte.
unfoldable pub scan_byte : Bytes → ℕ → Scan → Option Scan
unfolding is_alnum cut
scan_byte name b s =
    if is_alnum b
    then some (record s { end = s.end + 1 })
    else do s' ← cut name s; some (record s' { start = s'.end + 1; end = s'.end + 1 })

unfoldable pub scan : Bytes → Bytes → Scan → Option Scan
unfolding scan_byte
scan name [] s = some s
scan name (b ∷ bs) s = do s' ← scan_byte name b s; scan name bs s'

-- After the loop: the word that the end of the name closes.
unfoldable pub last_word : Bytes → Scan → Option Scan
unfolding cut
last_word name s = if s.end == s.start then some s else cut name s

-- `initialize`: 0 when the name has a keyword.
unfoldable pub initialize : UserFile → Bytes → ℕ → Keywords → Option (ℕ × UserFile × Keywords)
unfolding scan last_word
initialize f name size k = do
  let stored = min (length name) (max_data_len - 1)
  s ← scan name name (record { start = 0; end = 0; found = f.keywords; manager = k })
  s' ← last_word name s
  some (
    if is_empty s'.found then 1 else 0,
    record f {
      filesize = size;
      filename = take stored name ++ drop stored f.filename;
      keywords = s'.found;
    },
    s'.manager,
  )

-- `~neUserFile()`
unfoldable pub destroy : UserFile → Keywords → Option Keywords
destroy f k = remove_all f.keywords k
