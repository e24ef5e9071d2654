-- ===== src/Config/Lines.antt =====
-- What `readConfigFile` does with the lines that `writeConfigFile` writes.
use neshare.Base.{
  append-nil, ℕ, zero, suc, ◌+◌, ◌-◌, ◌*◌, ◌/◌, ◌%◌, ◌^◌, ◌≤◌, ◌<◌, ◌≡◌, refl, sym, ap, ◌∙◌, inl,
  inr, true, false, ◌&&◌, ◌==◌, nat_key, ltb, Bool-cases, Bytes, [], ◌∷◌, ◌++◌, length, take, drop,
  replicate, length-append, append_assoc, contains, arith,
}
use neshare.Config.Text.{
  ℤ, pos, negsuc, strncpy, strcpy, c_str, is_space, skip_space, token, is_digit, atoi_digits,
  negated, atoi_signed, atoi, digits, print_int, begin_line, fgets_lines,
}

-- A line that ends within the room is what `fgets` gives first.
pub fgets_lines-first :
    (room left : ℕ) (l rest : Bytes)
    → contains 10 l ≡ false
    → length l < left
    → fgets_lines room left ((l ++ 10 ∷ []) ++ rest) ≡ (l ++ 10 ∷ []) ∷ fgets_lines room room rest
unfolding fgets_lines begin_line
fgets_lines-first room left [] rest h small = refl
fgets_lines-first room left (b ∷ l) rest h small =
    let other : (b == 10) ≡ false = ground (arith, h) in
    let next : (left == 1) ≡ false = ground (arith, small) in
    let later =
      fgets_lines-first room (left - 1) l rest (ground (arith, h)) (omega (arith, small)) in
    rw (other, next, later) refl

-- A value that "%s" reads whole: not empty, without white space and without the character 0.
abbrev pub IsWord : Bytes → Type 0
IsWord [] = Unit
IsWord (b ∷ bs) = (is_space b ≡ false) × (b == 0 ≡ false) × IsWord bs

pub token-first : (v rest : Bytes) → IsWord v → token (v ++ 13 ∷ rest) ≡ v
unfolding token is_space
token-first [] rest h = refl
token-first (b ∷ bs) rest h = rw h.0 (ap (◌∷◌ b) (token-first bs rest h.2))

c_str-padded :
    (v : Bytes) (n : ℕ) (zs tail : Bytes)
    → IsWord v
    → length v < n
    → c_str (take n (v ++ 0 ∷ zs) ++ tail) ≡ v
unfolding c_str
c_str-padded v zero zs tail h small = absurd (omega (arith, small))
c_str-padded [] (suc n) zs tail h small = refl
c_str-padded (b ∷ bs) (suc n) zs tail h small =
    rw h.1 (ap (◌∷◌ b) (c_str-padded bs n zs tail h.2 (omega (arith, small))))

pub c_str-strncpy : (dst v : Bytes) (n : ℕ) → IsWord v → length v < n → c_str (strncpy dst v n) ≡ v
unfolding strncpy
c_str-strncpy dst v zero h small = absurd (omega (arith, small))
c_str-strncpy dst v (suc n) h small =
    c_str-padded v (suc n) (replicate n 0) (drop (suc n) dst) h small

pub c_str-strcpy : (dst v : Bytes) → IsWord v → c_str (strcpy dst v) ≡ v
unfolding strcpy
c_str-strcpy dst v h = c_str-strncpy dst v (length v + 1) h (omega arith)

IsWord-append : (xs ys : Bytes) → IsWord xs → IsWord ys → IsWord (xs ++ ys)
IsWord-append [] ys h k = k
IsWord-append (x ∷ xs) ys (a, b, h) k = (a, b, IsWord-append xs ys h k)

-- The character of a digit
digit-IsWord : (d : ℕ) → d < 10 → IsWord ((d + 48) ∷ [])
unfolding is_space
digit-IsWord d h = (ground (arith, h), ground (arith, h), tt)

pub digits-IsWord : (fuel n : ℕ) → IsWord (digits fuel n)
unfolding digits
digits-IsWord zero n = tt
digits-IsWord (suc fuel) n = elim (Bool-cases (ltb n 10)) [
  | inl small ↦ rw small (digit-IsWord n (ground (arith, small)))
  | inr large ↦ rw large (
      IsWord-append (digits fuel (n / 10)) ((n % 10 + 48) ∷ []) (digits-IsWord fuel (n / 10))
        (digit-IsWord (n % 10) (omega arith)))
]

pub length-digits : (fuel n : ℕ) → length (digits fuel n) ≤ fuel
unfolding digits
length-digits zero n = omega arith
length-digits (suc fuel) n = elim (Bool-cases (ltb n 10)) [
  | inl small ↦ rw small (omega arith)
  | inr large ↦ rw large (
      omega (
        arith,
        length-append (digits fuel (n / 10)) ((n % 10 + 48) ∷ []),
        length-digits fuel (n / 10),
      ))
]

atoi_digits-one :
    (m d : ℕ) (rest : Bytes)
    → d < 10
    → atoi_digits m ((d + 48) ∷ rest) ≡ atoi_digits (m * 10 + d) rest
unfolding atoi_digits is_digit
atoi_digits-one m d rest h =
    let digit : ltb 47 (d + 48) && ltb (d + 48) 58 ≡ true = ground (arith, h) in
    rw digit (ap (λ k. atoi_digits k rest) (omega arith))

atoi_digits-digits :
    (fuel n : ℕ) (rest : Bytes)
    → n < 10 ^ fuel
    → atoi_digits 0 (digits fuel n ++ rest) ≡ atoi_digits n rest
unfolding digits
atoi_digits-digits zero n rest h = ap (λ m. atoi_digits m rest) (omega (arith, h))
atoi_digits-digits (suc fuel) n rest h = elim (Bool-cases (ltb n 10)) [
  | inl small ↦ rw small (
      atoi_digits-one 0 n rest (ground (arith, small)) ∙ ap (λ m. atoi_digits m rest) (omega arith))
  | inr large ↦
      rw (large, append_assoc (digits fuel (n / 10)) ((n % 10 + 48) ∷ []) rest)
        (atoi_digits-digits fuel (n / 10) ((n % 10 + 48) ∷ rest) (omega (arith, h))
          ∙ atoi_digits-one (n / 10) (n % 10) rest (omega arith)
          ∙ ap (λ m. atoi_digits m rest) (omega arith))
]

-- The numbers that an `int` holds
unfoldable pub IsInt : ℤ → Type 0
IsInt (pos n) = n < 2 ^ 31
IsInt (negsuc n) = n < 2 ^ 31

digits_whole : (n : ℕ) → n < 10 ^ 10 → atoi_digits 0 (digits 10 n) ≡ n
unfolding atoi_digits
digits_whole n h =
    ap (atoi_digits 0) (sym (append-nil (digits 10 n))) ∙ atoi_digits-digits 10 n [] h

digits-first :
    (fuel n : ℕ) → (d : ℕ) × (cs : Bytes) × (d < 10) × (digits (suc fuel) n ≡ (d + 48) ∷ cs)
unfolding digits
digits-first zero n = elim (Bool-cases (ltb n 10)) [
  | inl small ↦ (n, [], ground (arith, small), rw small refl)
  | inr large ↦ (n % 10, [], omega arith, rw large refl)
]
digits-first (suc fuel) n = elim (Bool-cases (ltb n 10)) [
  | inl small ↦ (n, [], ground (arith, small), rw small refl)
  | inr large ↦
      let (d, cs, small, e) = digits-first fuel (n / 10) in
      (d, cs ++ ((n % 10 + 48) ∷ []), small, rw (large, e) refl)
]

atoi-digit :
    (d : ℕ) (cs : Bytes) → d < 10 → atoi ((d + 48) ∷ cs) ≡ pos (atoi_digits 0 ((d + 48) ∷ cs))
unfolding atoi skip_space is_space atoi_signed
atoi-digit d cs h = ground (arith, h)

atoi_negative : (n : ℕ) → n < 2 ^ 31 → atoi (b'-' ∷ digits 10 (n + 1)) ≡ negsuc n
unfolding atoi skip_space is_space atoi_signed negated
atoi_negative n h =
    rw (digits_whole (n + 1) (omega (arith, h)))
      (let next : n + 1 ≡ suc n = omega arith in ap negated next)

pub atoi-print_int : (v : ℤ) → IsInt v → atoi (print_int v) ≡ v
unfolding IsInt print_int
atoi-print_int (pos n) h =
    let (d, cs, small, e) = digits-first 9 n in
    ap atoi e
    ∙ atoi-digit d cs small
    ∙ ap (λ s. pos (atoi_digits 0 s)) (sym e)
    ∙ ap pos (digits_whole n (omega (arith, h)))
atoi-print_int (negsuc n) h = atoi_negative n h

pub print_int-IsWord : (v : ℤ) → IsWord (print_int v)
unfolding print_int is_space
print_int-IsWord (pos n) = digits-IsWord 10 n
print_int-IsWord (negsuc n) = (refl, refl, digits-IsWord 10 (n + 1))

pub length-print_int : (v : ℤ) → length (print_int v) ≤ 11
unfolding print_int
length-print_int (pos n) = omega (arith, length-digits 10 n)
length-print_int (negsuc n) = omega (arith, length-digits 10 (n + 1))
