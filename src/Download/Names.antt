-- ===== src/Download/Names.antt =====
-- ne_common/neutils.cpp: the names of files without the folders before them.
use neshare.Base.{
  ◌++◌, ◌⊎◌, append_assoc, ℕ, ◌≡◌, refl, sym, ap, ◌∙◌, inl, inr, Bool, true, false, ◌||◌, ◌==◌,
  nat_key, if◌then◌else◌, Bytes, Option, none, some, Bool-cases, Option-cases, some-inj, [], ◌∷◌,
  drop, arith,
}

-- The text behind the last character of this kind
unfoldable pub after_last : (ℕ → Bool) → Bytes → Option Bytes
after_last p [] = none
after_last p (b ∷ bs) = elim (after_last p bs) [
  | some t ↦ some t
  | none ↦ if p b then some bs else none
]

unfoldable pub is_separator : ℕ → Bool
is_separator b = b == b'/' || b == 92

-- `getFormattedOutputFilename`: the scan from the end stops before the first character.
unfoldable pub get_formatted_output_filename : Bytes → Bytes
get_formatted_output_filename [] = []
get_formatted_output_filename (b ∷ bs) = elim (after_last is_separator bs) [
  | none ↦ b ∷ bs
  | some t ↦ t
]

-- `getFormattedFilename`; the source reads before the start of a text without a slash.
unfoldable pub get_formatted_filename : Bytes → Bytes
get_formatted_filename s = elim (after_last (λ b. b == b'/') s) [ none ↦ s | some t ↦ t ]

-- Is there a character of this kind?
unfoldable pub has : (ℕ → Bool) → Bytes → Bool
has p [] = false
has p (b ∷ bs) = p b || has p bs

some-ne-none : {A : Type 0} {x : A} → none ≡ some x → ⊥
some-ne-none h = cc

true-ne-false : true ≡ false → ⊥
true-ne-false h = cc

nothing_there : has is_separator [] ≡ false
unfolding has
nothing_there = refl

after_last-none : (p : ℕ → Bool) (s : Bytes) → after_last p s ≡ none → has p s ≡ false
unfolding after_last has
after_last-none p [] h = refl
after_last-none p (b ∷ bs) h = elim (Option-cases (after_last p bs)) [
  | inl e ↦ elim (Bool-cases (p b)) [
    | inl hit ↦ absurd (some-ne-none (sym (rw (e, hit) at h)))
    | inr miss ↦ rw miss (after_last-none p bs e)
  ]
  | inr (u, e) ↦ absurd (some-ne-none (sym (rw e at h)))
]

-- What is behind the last one has none.
after_last-some :
    (p : ℕ → Bool) (s t : Bytes) → after_last p s ≡ some t → (has p t ≡ false) × (has p s ≡ true)
unfolding after_last has
after_last-some p [] t h = absurd (some-ne-none h)
after_last-some p (b ∷ bs) t h = elim (Option-cases (after_last p bs)) [
  | inl e ↦ elim (Bool-cases (p b)) [
    | inl hit ↦
        (ap (has p) (sym (some-inj (rw (e, hit) at h))) ∙ after_last-none p bs e, rw hit refl)
    | inr miss ↦ absurd (some-ne-none (rw (e, miss) at h))
  ]
  | inr (u, e) ↦
      let (plain, there) = after_last-some p bs u e in
      (ap (has p) (sym (some-inj (rw e at h))) ∙ plain, ground (arith, there))
]

has-drop : (t : Bytes) → has is_separator t ≡ false → has is_separator (drop 1 t) ≡ false
unfolding has
has-drop [] h = refl
has-drop (b ∷ bs) h = ground (arith, h)

empty : get_formatted_output_filename [] ≡ []
unfolding get_formatted_output_filename
empty = refl

whole :
    (b : ℕ) (bs : Bytes)
    → after_last is_separator bs ≡ none
    → get_formatted_output_filename (b ∷ bs) ≡ b ∷ bs
unfolding get_formatted_output_filename
whole b bs e = rw (e, get_formatted_output_filename) refl

behind :
    (b : ℕ) (bs t : Bytes)
    → after_last is_separator bs ≡ some t
    → get_formatted_output_filename (b ∷ bs) ≡ t
unfolding get_formatted_output_filename
behind b bs t e = rw (e, get_formatted_output_filename) refl

-- What is behind the last one is the end of the text, and the character before it is one.
after_last-split :
    (p : ℕ → Bool) (s t : Bytes)
    → after_last p s ≡ some t
    → (pre : Bytes) × (b : ℕ) × (s ≡ pre ++ b ∷ t) × (p b ≡ true)
unfolding after_last
after_last-split p [] t h = absurd (some-ne-none h)
after_last-split p (x ∷ xs) t h = elim (Option-cases (after_last p xs)) [
  | inl e ↦ elim (Bool-cases (p x)) [
    | inl hit ↦ let same : xs ≡ t = some-inj (rw (e, hit) at h) in ([], x, ap (◌∷◌ x) same, hit)
    | inr miss ↦ absurd (some-ne-none (rw (e, miss) at h))
  ]
  | inr (u, e) ↦
      let (pre, b, split, hit) = after_last-split p xs u e in
      let same : u ≡ t = some-inj (rw e at h) in
      (x ∷ pre, b, ap (◌∷◌ x) (split ∙ ap (λ (v : Bytes). pre ++ b ∷ v) same), hit)
]

-- The name of a file is the end of the name that the peer gave, the whole of it or all that is behind
-- a separator other than its first character, and has no separator itself but for a first character
-- that is left when there is no other. So where there is another one, none is left.
pub get_formatted_output_filename-plain :
    (s : Bytes)
    → let name = get_formatted_output_filename s in
      ((pre : Bytes) × (s ≡ pre ++ name)
        × ((pre ≡ [])
            ⊎ ((q : Bytes) × (x b : ℕ) × (pre ≡ x ∷ (q ++ b ∷ [])) × (is_separator b ≡ true))))
      × (has is_separator (drop 1 name) ≡ false)
      × (has is_separator name
          ≡ (if has is_separator (drop 1 s) then false else has is_separator s))
get_formatted_output_filename-plain [] = (
  ([], sym empty, inl refl),
  ap (λ t. has is_separator (drop 1 t)) empty ∙ nothing_there,
  ap (has is_separator) empty ∙ rw nothing_there refl,
)
get_formatted_output_filename-plain (b ∷ bs) = elim (Option-cases (after_last is_separator bs)) [
  | inl e ↦
      let plain = after_last-none is_separator bs e in
      (
        ([], sym (whole b bs e), inl refl),
        ap (λ (v : Bytes). has is_separator (drop 1 v)) (whole b bs e) ∙ plain,
        ap (has is_separator) (whole b bs e) ∙ rw plain refl,
      )
  | inr (t, e) ↦
      let (plain, there) = after_last-some is_separator bs t e in
      let (q, x, split, hit) = after_last-split is_separator bs t e in
      (
        (
          b ∷ (q ++ x ∷ []),
          ap (◌∷◌ b) (split ∙ sym (append_assoc q (x ∷ []) t))
              ∙ ap (λ (v : Bytes). (b ∷ (q ++ x ∷ [])) ++ v) (sym (behind b bs t e)),
          inr (q, b, x, refl, hit),
        ),
        ap (λ (v : Bytes). has is_separator (drop 1 v)) (behind b bs t e) ∙ has-drop t plain,
        ap (has is_separator) (behind b bs t e) ∙ rw there plain,
      )
]
