-- ===== src/Config/Written.antt =====
-- ne_common/neconfig.cpp: the header of a file that `writeConfigFile` writes, and what the lines below
-- it do.
use neshare.Base.{
  bytes_key, nat_key, contains, false, ℕ, ◌≤◌, ◌<◌, ◌≡◌, refl, sym, ap, ◌∙◌, true, List, [], ◌∷◌,
  ◌++◌, some, Bytes, length, ltb, lookup, append-nil, arith,
}
use neshare.Config.{Config}
use neshare.Config.Text.{codes, fgets_lines}
use neshare.Config.Reading.{
  Disk, can_ignore_line, read_line, read_lines, max_line, read_config_file, read_result,
}
use neshare.Config.Writing.{concat, file_header}
use neshare.Config.Lines.{IsWord}
use neshare.Config.Printed.{AreLines, ◌◂◌, no_lines, IsLine, fgets_lines-concat, read_lines-append}

-- A text that a line of the file holds and "%s" reads whole
abbrev pub IsValue : Bytes → Type 0
IsValue v = IsWord v × (length v ≤ 200)

-- A line that is a constant
pub comment-IsLine :
    (l : Bytes) → contains 10 l ≡ false → length l < max_line → IsLine (l ++ 10 ∷ [])
comment-IsLine l plain small = (l, refl, plain, small)

abbrev header_lines : List Bytes
header_lines =
    codes "# Generated by neConfig (a part of NEshare)\r\n"
    ∷ codes "# (C) 2001,2002 Neill Miller\r\n"
    ∷ codes "# Contact Author: neillm@thecodefactory.org\r\n"
    ∷ codes "#\r\n"
    ∷ codes "# Write out all user configurable settings.\r\n"
    ∷ []

header_lines-AreLines : AreLines header_lines
header_lines-AreLines =
    comment-IsLine (codes "# Generated by neConfig (a part of NEshare)\r") refl (omega arith)
    ◂ comment-IsLine (codes "# (C) 2001,2002 Neill Miller\r") refl (omega arith)
    ◂ comment-IsLine (codes "# Contact Author: neillm@thecodefactory.org\r") refl (omega arith)
    ◂ comment-IsLine (codes "#\r") refl (omega arith)
    ◂ comment-IsLine (codes "# Write out all user configurable settings.\r") refl (omega arith)
    ◂ no_lines

header_lines-read : (disk : Disk) (d : Config) → read_lines disk header_lines (d, 0) ≡ (d, 0)
unfolding read_lines read_line can_ignore_line
header_lines-read disk d = refl

lines_whole :
    (lines : List Bytes) → AreLines lines → fgets_lines max_line max_line (concat lines) ≡ lines
unfolding fgets_lines
lines_whole lines h =
    ap (fgets_lines max_line max_line) (sym (append-nil (concat lines)))
    ∙ fgets_lines-concat lines [] h
    ∙ append-nil lines

-- What is read of a file that has the header and these lines
pub read_written :
    (disk : Disk) (lines : List Bytes) (d : Config)
    → AreLines lines
    → read_lines disk (fgets_lines max_line max_line (file_header ++ concat lines)) (d, 0)
      ≡ read_lines disk lines (d, 0)
unfolding file_header concat
read_written disk lines d h =
    let header = fgets_lines-concat header_lines (concat lines) header_lines-AreLines in
    let body = lines_whole lines h in
    ap (λ (ls : List Bytes). read_lines disk ls (d, 0)) (header ∙ ap (◌++◌ header_lines) body)
    ∙ read_lines-append disk header_lines lines (d, 0)
    ∙ ap (read_lines disk lines) (header_lines-read disk d)

-- A file with the header and these lines, of which two are options at least, is read with success.
pub read_config_file-written :
    (disk : Disk) (name bytes : Bytes) (lines : List Bytes) (d d' : Config) (ret : ℕ)
    → lookup name disk ≡ some bytes
    → bytes ≡ file_header ++ concat lines
    → AreLines lines
    → read_lines disk lines (d, 0) ≡ (d', ret)
    → 1 < ret
    → read_config_file disk name d ≡ (0, d')
unfolding read_config_file read_result
read_config_file-written disk name bytes lines d d' ret there e h read enough =
    let state : read_lines disk (fgets_lines max_line max_line bytes) (d, 0) ≡ (d', ret) =
      ap (λ (bs : Bytes). read_lines disk (fgets_lines max_line max_line bs) (d, 0)) e
      ∙ read_written disk lines d h
      ∙ read in
    let counted : ltb 1 ret ≡ true = ground (arith, enough) in
    rw (read_config_file, there) (ap read_result state ∙ rw counted refl)
