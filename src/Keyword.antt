-- ===== src/Keyword.antt =====
-- ne_server/nekeyword.h, nekeyword.cpp, nekeywordmanager.h and .cpp: the keywords that the server
-- knows, each with the number of references to it. A `neKeyword *` is the address of the entry of
-- its own string, so the string stands for the pointer, and a pointer whose entry is gone dangles.
-- A count is the bit pattern of its `int`.
pub mod References
use neshare.Base.{
  ℕ, Bool, List, [], ◌∷◌, Option, none, some, ◌==◌, if◌then◌else◌, nat_key, bytes_key, Bytes, Dict,
  lookup, insert, remove, known, add32, sub32,
}

-- `m_strToKeywordMap`
abbrev pub Keywords : Type 0
Keywords = Dict Bytes ℕ

-- `neKeyword::addRef`
abbrev pub add_ref : ℕ → ℕ
add_ref n = add32 n 1

-- `neKeyword::dropRef`
abbrev pub drop_ref : ℕ → ℕ
drop_ref n = sub32 n 1

-- `addKeyword`: a new keyword has the count 0 before its first reference.
unfoldable pub add_keyword : Bytes → Keywords → Keywords
add_keyword w k = elim (lookup w k) [
  | none ↦ insert w (add_ref 0) (insert w 0 k)
  | some n ↦ insert w (add_ref n) k
]

-- `getKeywordObj` finds a keyword.
unfoldable pub has_keyword : Bytes → Keywords → Bool
has_keyword w k = known (lookup w k)

-- `removeKeyword`
unfoldable pub remove_keyword : Bytes → Keywords → Keywords
remove_keyword w k = elim (lookup w k) [
  | none ↦ k
  | some n ↦ if drop_ref n == 0 then remove w k else insert w (drop_ref n) k
]

-- `addKeyword` on each word of a list
unfoldable pub add_all : List Bytes → Keywords → Keywords
add_all [] k = k
add_all (w ∷ ws) k = add_all ws (add_keyword w k)

-- `removeKeyword(*(nKey->getKeyword()))` on each pointer of a list; `none` when one dangles.
unfoldable pub remove_all : List Bytes → Keywords → Option Keywords
remove_all [] k = some k
remove_all (w ∷ ws) k =
    let rest = remove_all ws (remove_keyword w k) in if has_keyword w k then rest else none
