-- ===== src/Config/Printed.antt =====
-- A line of `writeConfigFile` under `readConfigFile`.
use neshare.Base.{
  ==_refl, ℕ, ◌+◌, ◌≤◌, ◌<◌, ◌≡◌, refl, sym, ap, ◌∙◌, true, false, nat_key, Bytes, none, some, List,
  [], ◌∷◌, ◌++◌, length, take_all, length-append, append_assoc, contains, contains-append, arith,
}
use neshare.Config.{Config}
use neshare.Config.Text.{
  ℤ, codes, is_space, skip_space, token, scan_value, scan, print_int, fgets_lines,
}
use neshare.Config.Reading.{
  Disk, Row, number, row, options, perform, find_option, can_ignore_line, read_row, read_line,
  read_lines, max_line,
}
use neshare.Config.Writing.{text_line, print_text, print_number, concat}
use neshare.Config.Lines.{
  IsWord, IsInt, token-first, fgets_lines-first, atoi-print_int, print_int-IsWord, length-print_int,
}

-- A line that `fgets` gives as it was written
abbrev pub IsLine : Bytes → Type 0
IsLine line = (l : Bytes) × (line ≡ l ++ 10 ∷ []) × (contains 10 l ≡ false) × (length l < max_line)

infixr 10 ◌◂◌
pub data AreLines : List Bytes → Type 0 where
  no_lines : AreLines []
  ◌◂◌ : {line : Bytes} {lines : List Bytes} → IsLine line → AreLines lines → AreLines (line ∷ lines)

pub fgets_lines-concat :
    (lines : List Bytes) (rest : Bytes)
    → AreLines lines
    → fgets_lines max_line max_line (concat lines ++ rest)
      ≡ lines ++ fgets_lines max_line max_line rest
unfolding concat
fgets_lines-concat [] rest no_lines = refl
fgets_lines-concat (line ∷ lines) rest ((l, e, plain, small) ◂ h) =
    let whole = append_assoc (l ++ 10 ∷ []) (concat lines) rest in
    rw
      (
        e,
        whole,
        fgets_lines-first max_line max_line l (concat lines ++ rest) plain small,
        fgets_lines-concat lines rest h,
      )
      refl

pub read_lines-append :
    (disk : Disk) (xs ys : List Bytes) (s : Config × ℕ)
    → read_lines disk (xs ++ ys) s ≡ read_lines disk ys (read_lines disk xs s)
unfolding read_lines
read_lines-append disk [] ys s = refl
read_lines-append disk (x ∷ xs) ys s = read_lines-append disk xs ys (read_line disk x s)

IsWord-plain : (v : Bytes) → IsWord v → contains 10 v ≡ false
unfolding is_space
IsWord-plain [] h = refl
IsWord-plain (b ∷ bs) h = ground (arith, h.0, IsWord-plain bs h.2)

-- The name of an option: short and without an end of line
abbrev pub IsName : Bytes → Type 0
IsName name = (contains 10 name ≡ false) × (length name < 40)

print_text-short :
    (name v : Bytes) → length name < 40 → length v ≤ 200 → print_text name v ≡ text_line name v
unfolding print_text text_line
print_text-short name v small short = take_all max_line (text_line name v) (
    omega (
      arith,
      length-append name (codes " = " ++ v),
      length-append (codes " = ") v,
      length-append (name ++ (codes " = " ++ v)) (13 ∷ 10 ∷ []),
    ))

pub print_text-IsLine :
    (name v : Bytes) → IsName name → IsWord v → length v ≤ 200 → IsLine (print_text name v)
unfolding text_line
print_text-IsLine name v (plain, small) h short =
    let body : Bytes = name ++ (codes " = " ++ v) in
    let none_there = IsWord-plain v h in
    (
      body ++ 13 ∷ [],
      print_text-short name v small short ∙ sym (append_assoc body (13 ∷ []) (10 ∷ [])),
      rw
          (
            contains-append 10 body (13 ∷ []),
            contains-append 10 name (codes " = " ++ v),
            plain,
            none_there,
          )
          refl,
      omega (
        arith,
        length-append name (codes " = " ++ v),
        length-append (codes " = ") v,
        length-append body (13 ∷ []),
      ),
    )

pub scan-text_line : (name v : Bytes) → IsWord v → scan name (text_line name v) ≡ some v
unfolding text_line scan scan_value skip_space is_space token
scan-text_line [] [] h = refl
scan-text_line [] (b ∷ bs) h = rw h.0 (ap some (token-first (b ∷ bs) (10 ∷ []) h))
scan-text_line (n ∷ ns) v h = rw ==_refl (scan-text_line ns v h)

read_row-found :
    (disk : Disk) (line v : Bytes) (r : Row) (c : Config) (ret : ℕ)
    → scan r.name line ≡ some v
    → read_row disk r line (c, ret) ≡ (perform disk r.action v c, ret + 1)
unfolding read_row
read_row-found disk line v r c ret scanned = rw (scanned, read_row) refl

read_line-found :
    (disk : Disk) (line v : Bytes) (r : Row) (c : Config) (ret : ℕ)
    → can_ignore_line line ≡ false
    → find_option options line ≡ some r
    → scan r.name line ≡ some v
    → read_line disk line (c, ret) ≡ (perform disk r.action v c, ret + 1)
unfolding read_line
read_line-found disk line v r c ret seen found scanned =
    rw (seen, found) (read_row-found disk line v r c ret scanned)

-- A line of an option that the table has
pub read_text :
    (disk : Disk) (name v : Bytes) (r : Row) (lines : List Bytes) (c : Config) (ret : ℕ)
    → length name < 40
    → IsWord v
    → length v ≤ 200
    → can_ignore_line (text_line name v) ≡ false
    → find_option options (text_line name v) ≡ some r
    → r.name ≡ name
    → read_lines disk (print_text name v ∷ lines) (c, ret)
      ≡ read_lines disk lines (perform disk r.action v c, ret + 1)
unfolding read_lines
read_text disk name v r lines c ret small h short seen found same =
    let scanned : scan r.name (text_line name v) ≡ some v = rw same (scan-text_line name v h) in
    ap (λ (line : Bytes). read_lines disk lines (read_line disk line (c, ret)))
      (print_text-short name v small short)
    ∙ ap (read_lines disk lines)
        (read_line-found disk (text_line name v) v r c ret seen found scanned)

pub read_number :
    (disk : Disk) (name : Bytes) (v : ℤ) (set : ℤ → Config → Config) (lines : List Bytes)
    (c : Config) (ret : ℕ)
    → length name < 40
    → IsInt v
    → can_ignore_line (text_line name (print_int v)) ≡ false
    → find_option options (text_line name (print_int v)) ≡ some (row name (number set))
    → read_lines disk (print_number name v ∷ lines) (c, ret)
      ≡ read_lines disk lines (set v c, ret + 1)
unfolding print_number perform
read_number disk name v set lines c ret small h seen found =
    read_text disk name (print_int v) (row name (number set)) lines c ret small (print_int-IsWord v)
      (omega (arith, length-print_int v)) seen found refl
    ∙ ap (λ (w : ℤ). read_lines disk lines (set w c, ret + 1)) (atoi-print_int v h)

pub print_number-IsLine : (name : Bytes) (v : ℤ) → IsName name → IsLine (print_number name v)
unfolding print_number
print_number-IsLine name v h =
    print_text-IsLine name (print_int v) h (print_int-IsWord v) (omega (arith, length-print_int v))

pub read_nothing : (disk : Disk) (s : Config × ℕ) → read_lines disk [] s ≡ s
unfolding read_lines
read_nothing disk s = refl

pub read_comment :
    (disk : Disk) (line : Bytes) (lines : List Bytes) (s : Config × ℕ)
    → can_ignore_line line ≡ true
    → read_lines disk (line ∷ lines) s ≡ read_lines disk lines s
unfolding read_lines read_line
read_comment disk line lines (c, ret) seen = rw seen refl

-- A line of an option that the table does not have
pub read_unknown :
    (disk : Disk) (name v : Bytes) (lines : List Bytes) (c : Config) (ret : ℕ)
    → length name < 40
    → length v ≤ 200
    → can_ignore_line (text_line name v) ≡ false
    → find_option options (text_line name v) ≡ none
    → read_lines disk (print_text name v ∷ lines) (c, ret) ≡ read_lines disk lines (c, ret)
unfolding read_lines read_line
read_unknown disk name v lines c ret small short seen missing =
    ap (λ (line : Bytes). read_lines disk lines (read_line disk line (c, ret)))
      (print_text-short name v small short)
    ∙ rw (seen, missing) refl
