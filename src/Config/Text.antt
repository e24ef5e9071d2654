-- ===== src/Config/Text.antt =====
-- The C strings and numbers that ne_common/neconfig.cpp uses of the standard library: `strncpy`,
-- `fgets`, `atoi`, `sscanf` with "NAME = %s", and "%d". A text has no character 0.
use Prim.Native.Char.{code}
use Prim.Native.String.{String}
use neshare.Base.{
  ℕ, zero, suc, ◌+◌, ◌-◌, ◌*◌, ◌/◌, ◌%◌, Bool, true, false, ◌&&◌, ◌||◌, ◌==◌, nat_key, ltb,
  if◌then◌else◌, Bytes, Option, none, some, List, [], ◌∷◌, ◌++◌, length, take, drop, replicate,
}

-- An `int`
pub data ℤ : Type 0 where
  pos : ℕ → ℤ
  negsuc : ℕ → ℤ

-- The characters of a literal
abbrev pub codes : String → Bytes
codes String.[] = []
codes (String.◌∷◌ c s) = code c ∷ codes s

-- `strncpy`: at most `n` characters of the text, the rest of the `n` filled with zeros
unfoldable pub strncpy : Bytes → Bytes → ℕ → Bytes
strncpy dst s n = take n (s ++ replicate n 0) ++ drop n dst

-- `strcpy` of a text that fits
unfoldable pub strcpy : Bytes → Bytes → Bytes
strcpy dst s = strncpy dst s (length s + 1)

-- An assignment to an element of an array; outside it, nothing is written here.
unfoldable pub put : Bytes → ℕ → ℕ → Bytes
put [] i b = []
put (x ∷ xs) zero b = b ∷ xs
put (x ∷ xs) (suc i) b = x ∷ put xs i b

-- The text in an array, up to its first 0
unfoldable pub c_str : Bytes → Bytes
c_str [] = []
c_str (x ∷ xs) = if x == 0 then [] else x ∷ c_str xs

unfoldable pub is_space : ℕ → Bool
is_space c = c == 32 || (ltb 8 c && ltb c 14)

unfoldable pub skip_space : Bytes → Bytes
skip_space [] = []
skip_space (c ∷ cs) = if is_space c then skip_space cs else c ∷ cs

-- The characters up to the next white space
unfoldable pub token : Bytes → Bytes
token [] = []
token (c ∷ cs) = if is_space c then [] else c ∷ token cs

-- `sscanf` after the name: white space, `=`, white space and a token
unfoldable pub scan_value : Bytes → Option Bytes
scan_value [] = some []
scan_value (c ∷ cs) = if c == b'=' then some (token (skip_space cs)) else none

-- `sscanf(line, "NAME = %s", value)`: `none` when it returns 0. At the end of the line it returns
-- EOF, which is not 0, and leaves the empty value.
unfoldable pub scan : Bytes → Bytes → Option Bytes
scan [] line = scan_value (skip_space line)
scan (n ∷ ns) [] = some []
scan (n ∷ ns) (c ∷ cs) = if n == c then scan ns cs else none

-- `memcmp(line, name, strlen(name)) == 0`
unfoldable pub starts_with : Bytes → Bytes → Bool
starts_with [] line = true
starts_with (n ∷ ns) [] = false
starts_with (n ∷ ns) (c ∷ cs) = if n == c then starts_with ns cs else false

unfoldable pub is_digit : ℕ → Bool
is_digit c = ltb 47 c && ltb c 58

unfoldable pub atoi_digits : ℕ → Bytes → ℕ
atoi_digits n [] = n
atoi_digits n (c ∷ cs) = if is_digit c then atoi_digits (n * 10 + (c - 48)) cs else n

-- Minus this number
unfoldable pub negated : ℕ → ℤ
negated zero = pos 0
negated (suc n) = negsuc n

unfoldable pub atoi_signed : Bytes → ℤ
atoi_signed [] = pos 0
atoi_signed (c ∷ cs) =
    if c == b'-'
    then negated (atoi_digits 0 cs)
    else if c == b'+'
    then pos (atoi_digits 0 cs)
    else pos (atoi_digits 0 (c ∷ cs))

-- `atoi`, on a number that an `int` holds
unfoldable pub atoi : Bytes → ℤ
atoi s = atoi_signed (skip_space s)

-- The decimal digits of a number below 10 ^ `fuel`
unfoldable pub digits : ℕ → ℕ → Bytes
digits zero n = []
digits (suc fuel) n =
    let front = digits fuel (n / 10) in
    if ltb n 10 then ((n + 48) ∷ []) else front ++ ((n % 10 + 48) ∷ [])

-- "%d"
unfoldable pub print_int : ℤ → Bytes
print_int (pos n) = digits 10 n
print_int (negsuc n) = b'-' ∷ digits 10 (n + 1)

unfoldable pub begin_line : ℕ → List Bytes → List Bytes
begin_line b [] = (b ∷ []) ∷ []
begin_line b (l ∷ ls) = (b ∷ l) ∷ ls

-- The lines that `fgets(line, room + 1, fd)` gives one after the other, the first one with `left`
-- characters of room
unfoldable pub fgets_lines : ℕ → ℕ → Bytes → List Bytes
fgets_lines room left [] = []
fgets_lines room left (b ∷ bs) =
    let ends = b == 10 || left == 1 in
    let rest = fgets_lines room (if ends then room else left - 1) bs in
    if ends then (b ∷ []) ∷ rest else begin_line b rest
