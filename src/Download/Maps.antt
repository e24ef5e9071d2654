-- ===== src/Download/Maps.antt =====
-- The two-level map of ne_client/nepeerdownloadmanager.cpp: what is found after an insertion and after
-- an erasing.
use neshare.Base.{
  ℕ, ◌≡◌, refl, sym, ◌∙◌, inl, inr, true, ◌&&◌, ◌==◌, nat_key, nat_beq_iff, Bool-cases,
  Option-cases, if◌then◌else◌, Option, none, some, [], ◌∷◌, Dict, IsDict, lookup, insert, remove,
  is_empty, ◌>>=◌, lookup-insert, lookup-remove, insert-IsDict, remove-IsDict, some-inj,
}
use neshare.Download.{get_download_rec}
use neshare.Download.Records.{or_empty, put_rec, drop_rec}

-- One entry for each key, also in the inner maps
pub record AreMaps (map : Dict ℕ (Dict ℕ ℕ)) : Type 0 where
  pub outer : IsDict map
  pub inner : (s : ℕ) (m : Dict ℕ ℕ) → lookup s map ≡ some m → IsDict m

pub none-ne-some : {A : Type 0} {x : A} → none ≡ some x → ⊥
none-ne-some h = cc

lookup-or_empty :
    (f : ℕ) (o : Option (Dict ℕ ℕ)) → lookup f (or_empty o) ≡ (o >>= (λ m. lookup f m))
lookup-or_empty f none = refl
lookup-or_empty f (some m) = refl

pub get_download_rec-put_rec :
    (f s g t p : ℕ) (map : Dict ℕ (Dict ℕ ℕ))
    → get_download_rec g t (put_rec f s p map)
      ≡ (if s == t && f == g then some p else get_download_rec g t map)
unfolding get_download_rec put_rec
get_download_rec-put_rec f s g t p map =
    let m = insert f p (or_empty (lookup s map)) in
    let found = lookup-insert s t m map in
    let inner = lookup-insert f g p (or_empty (lookup s map)) in
    let before = lookup-or_empty g (lookup s map) in
    elim (Bool-cases (s == t)) [
      | inl e ↦ let same : s ≡ t = (nat_beq_iff s t).0 e in rw (found, e, inner, before, same) refl
      | inr e ↦ rw (found, e) refl
    ]

or_empty-IsDict : (s : ℕ) (map : Dict ℕ (Dict ℕ ℕ)) → AreMaps map → IsDict (or_empty (lookup s map))
or_empty-IsDict s map h = elim (Option-cases (lookup s map)) [
  | inl e ↦ rw e tt
  | inr (m, e) ↦ rw e (h.inner s m e)
]

-- A change of one inner map
insert-AreMaps :
    (s : ℕ) (m : Dict ℕ ℕ) (map : Dict ℕ (Dict ℕ ℕ))
    → AreMaps map
    → IsDict m
    → AreMaps (insert s m map)
insert-AreMaps s m map h d = record {
  outer = insert-IsDict s m map h.outer;
  inner = λ t k there.
      let found = lookup-insert s t m map in
      elim (Bool-cases (s == t)) [
        | inl e ↦ let same : m ≡ k = some-inj (sym (rw e at found) ∙ there) in rw (sym same) d
        | inr e ↦ h.inner t k (sym (rw e at found) ∙ there)
      ];
}

remove-AreMaps : (s : ℕ) (map : Dict ℕ (Dict ℕ ℕ)) → AreMaps map → AreMaps (remove s map)
remove-AreMaps s map h = record {
  outer = remove-IsDict s map h.outer;
  inner = λ t k there.
      let found = lookup-remove s t map h.outer in
      elim (Bool-cases (s == t)) [
        | inl e ↦ absurd (none-ne-some (sym (rw e at found) ∙ there))
        | inr e ↦ h.inner t k (sym (rw e at found) ∙ there)
      ];
}

pub put_rec-AreMaps :
    (f s p : ℕ) (map : Dict ℕ (Dict ℕ ℕ)) → AreMaps map → AreMaps (put_rec f s p map)
unfolding put_rec
put_rec-AreMaps f s p map h =
    insert-AreMaps s (insert f p (or_empty (lookup s map))) map h
      (insert-IsDict f p (or_empty (lookup s map)) (or_empty-IsDict s map h))

is_empty-nil : (xs : Dict ℕ ℕ) → is_empty xs ≡ true → xs ≡ []
is_empty-nil [] h = refl
is_empty-nil (x ∷ xs) h = cc

-- What the outer map has for a socket, looked up for a file
erased :
    (f s g t : ℕ) (m : Dict ℕ ℕ) (map : Dict ℕ (Dict ℕ ℕ))
    → AreMaps map
    → (lookup t (drop_rec f s m map) >>= (λ k. lookup g k))
      ≡ (if s == t then lookup g (remove f m) else get_download_rec g t map)
unfolding get_download_rec drop_rec
erased f s g t m map h = elim (Bool-cases (is_empty (remove f m))) [
  | inl e ↦
      let nil = is_empty-nil (remove f m) e in
      let found = lookup-remove s t map h.outer in
      elim (Bool-cases (s == t)) [
        | inl k ↦ rw (e, found, k, nil) refl
        | inr k ↦ rw (e, found, k) refl
      ]
  | inr e ↦
      let found = lookup-insert s t (remove f m) map in
      elim (Bool-cases (s == t)) [ inl k ↦ rw (e, found, k) refl | inr k ↦ rw (e, found, k) refl ]
]

pub get_download_rec-drop_rec :
    (f s g t : ℕ) (m : Dict ℕ ℕ) (map : Dict ℕ (Dict ℕ ℕ))
    → AreMaps map
    → lookup s map ≡ some m
    → get_download_rec g t (drop_rec f s m map)
      ≡ (if s == t && f == g then none else get_download_rec g t map)
unfolding get_download_rec
get_download_rec-drop_rec f s g t m map h there =
    let inner = lookup-remove f g m (h.inner s m there) in
    erased f s g t m map h ∙ elim (Bool-cases (s == t)) [
      | inl e ↦
          let same : s ≡ t = (nat_beq_iff s t).0 e in
          let there' : lookup t map ≡ some m = rw (sym same) there in rw (e, inner, there') refl
      | inr e ↦ rw e refl
    ]

pub drop_rec-AreMaps :
    (f s : ℕ) (m : Dict ℕ ℕ) (map : Dict ℕ (Dict ℕ ℕ))
    → AreMaps map
    → lookup s map ≡ some m
    → AreMaps (drop_rec f s m map)
unfolding drop_rec
drop_rec-AreMaps f s m map h there = elim (Bool-cases (is_empty (remove f m))) [
  | inl e ↦ rw e (remove-AreMaps s map h)
  | inr e ↦ rw e (insert-AreMaps s (remove f m) map h (remove-IsDict f m (h.inner s m there)))
]
