-- ===== src/Config/SavePath.antt =====
-- ne_common/neconfig.cpp: what `setSavePath` leaves in the array.
use neshare.Base.{
  ℕ, zero, suc, ◌+◌, ◌-◌, ◌≤◌, ◌<◌, min, ◌≡◌, refl, sym, ap, ◌∙◌, false, ◌==◌, nat_key,
  if◌then◌else◌, Bytes, [], ◌∷◌, ◌++◌, length, get_elem?, drop, replicate, contains, take-append,
  append_assoc, append-nil, contains-append, Bool-cases, inl, inr, length-append, arith,
}
use neshare.Config.{Config, max_data_len}
use neshare.Config.Text.{strncpy, c_str, put}
use neshare.Config.Setters.{set_save_path, ends_path}

c_str-append : (s rest : Bytes) → contains 0 s ≡ false → c_str (s ++ rest) ≡ s ++ c_str rest
unfolding c_str
c_str-append [] rest h = refl
c_str-append (b ∷ bs) rest h = ground (arith, h, c_str-append bs rest)

put-append : (s : Bytes) (a b : ℕ) (rest : Bytes) → put (s ++ a ∷ rest) (length s) b ≡ s ++ b ∷ rest
unfolding put
put-append [] a b rest = refl
put-append (x ∷ xs) a b rest = ap (◌∷◌ x) (put-append xs a b rest)

drop_two :
    (n : ℕ) (xs : Bytes)
    → n + 2 ≤ length xs
    → (a : ℕ) × (b : ℕ) × (rest : Bytes) × (drop n xs ≡ a ∷ b ∷ rest)
drop_two zero [] h = absurd (omega (arith, h))
drop_two zero (a ∷ []) h = absurd (omega (arith, h))
drop_two zero (a ∷ b ∷ rest) h = (a, b, rest, refl)
drop_two (suc n) [] h = absurd (omega (arith, h))
drop_two (suc n) (x ∷ xs) h = drop_two n xs (omega (arith, h))

copied : (dst s : Bytes) → strncpy dst s (length s) ≡ s ++ drop (length s) dst
unfolding strncpy
copied dst s = rw (take-append s (replicate (length s) 0)) refl

-- The branch that writes a slash and the end of the string
slash_written :
    (dst s : Bytes)
    → length dst ≡ max_data_len
    → length s + 2 ≤ max_data_len
    → contains 0 s ≡ false
    → c_str (put (put (strncpy dst s (length s)) (length s) b'/') (length s + 1) 0) ≡ s ++ b'/' ∷ []
unfolding c_str
slash_written dst s full short plain =
    let (a, b, rest, e) = drop_two (length s) dst (omega (arith, full, short)) in
    let path : Bytes = s ++ b'/' ∷ [] in
    let first : put (strncpy dst s (length s)) (length s) b'/' ≡ path ++ b ∷ rest =
      ap (λ xs. put xs (length s) b'/') (copied dst s ∙ ap (◌++◌ s) e)
      ∙ put-append s a b'/' (b ∷ rest)
      ∙ sym (append_assoc s (b'/' ∷ []) (b ∷ rest)) in
    let size : length s + 1 ≡ length path = omega (arith, length-append s (b'/' ∷ [])) in
    let put_end : put (path ++ b ∷ rest) (length s + 1) 0 ≡ path ++ 0 ∷ rest =
      ap (λ (i : ℕ). put (path ++ b ∷ rest) i 0) size ∙ put-append path b 0 rest in
    let whole : contains 0 path ≡ false = rw (contains-append 0 s (b'/' ∷ []), plain) refl in
    ap c_str (ap (λ (xs : Bytes). put xs (length s + 1) 0) first ∙ put_end)
    ∙ c_str-append path (0 ∷ rest) whole
    ∙ append-nil path

-- In an array of full size, a path of 1 to 254 characters, none of them 0, is followed by a slash
-- and the end of the string if it does not end with a slash or a backslash; if it does, it is
-- followed by what the array held after that many characters.
pub set_save_path-c_str :
    (s : Bytes) (c : Config)
    → 0 < length s
    → length s + 2 ≤ max_data_len
    → contains 0 s ≡ false
    → length c.save_path ≡ max_data_len
    → c_str (set_save_path s c).save_path ≡ (
        if ends_path (get_elem? s (length s - 1))
        then s ++ c_str (drop (length s) c.save_path)
        else s ++ b'/' ∷ [])
unfolding set_save_path
set_save_path-c_str s c some_text short plain full =
    let len : min (length s) (max_data_len - 1) ≡ length s = omega (arith, short) in
    let filled : (length s == 0) ≡ false = ground (arith, some_text) in
    elim (Bool-cases (ends_path (get_elem? s (length s - 1)))) [
      | inl slash ↦
          rw (len, filled, slash)
            (ap c_str (copied c.save_path s) ∙ c_str-append s (drop (length s) c.save_path) plain)
      | inr other ↦ rw (len, filled, other) (slash_written c.save_path s full short plain)
    ]
