-- ===== src/Upload/Removal.antt =====
-- ne_client/nepeeruploadmanager.cpp: `removePeerUpload` keeps the lists and the records together.
use neshare.Base.{
  ℕ, ◌+◌, ◌≡◌, refl, sym, ap, ◌∙◌, inl, inr, Bool, true, false, ◌||◌, ◌==◌, ==_refl, nat_key,
  nat_beq_iff, Bool-cases, if◌then◌else◌, Option, none, some, List, [], ◌∷◌, Dict, IsDict, lookup,
  remove, lookup-remove, remove-IsDict, known, length, arith,
}
use neshare.Upload.{UploadRec, UploadManager}
use neshare.Upload.Records.{
  is_upload, find_upload, erase_upload, erase_state, free_upload, remove_peer_upload,
}

abbrev pub listed : ℕ → List ℕ → Bool
listed p [] = false
listed p (q ∷ qs) = q == p || listed p qs

-- Every upload has a record.
abbrev pub AreHeld : Dict ℕ UploadRec → List ℕ → Type 0
AreHeld recs [] = Unit
AreHeld recs (p ∷ ps) = (known (lookup p recs) ≡ true) × AreHeld recs ps

-- No upload is listed twice.
abbrev pub AreDistinct : List ℕ → Type 0
AreDistinct [] = Unit
AreDistinct (p ∷ ps) = (listed p ps ≡ false) × AreDistinct ps

abbrev pub addresses : List (ℕ × Bool) → List ℕ
addresses [] = []
addresses ((p, cancelled) ∷ states) = p ∷ addresses states

-- The uploads are listed once, each has a record and a state, in the same order.
pub record Sound (m : UploadManager) : Type 0 where
  pub dict : IsDict m.recs
  pub held : AreHeld m.recs m.uploads
  pub distinct : AreDistinct m.uploads
  pub states : addresses m.peer_upload_states ≡ m.uploads

-- Is this the upload that was found?
abbrev pub is_found : Option ℕ → ℕ → Bool
is_found none q = false
is_found (some p) q = p == q

pub known-some : {A : Type 0} (o : Option A) → known o ≡ true → (x : A) × (o ≡ some x)
known-some none h = absurd (ground (arith, h))
known-some (some x) h = (x, refl)

-- What was found is in the list.
abbrev is_listed : List ℕ → Option ℕ → Bool
is_listed uploads none = true
is_listed uploads (some p) = listed p uploads

listed-more :
    (p : ℕ) (uploads : List ℕ) (o : Option ℕ)
    → is_listed uploads o ≡ true
    → is_listed (p ∷ uploads) o ≡ true
listed-more p uploads none h = refl
listed-more p uploads (some q) h = ground (arith, h)

-- The search ends, with an upload of the list or none.
find_upload-held :
    (peer file_id : ℕ) (uploads : List ℕ) (recs : Dict ℕ UploadRec)
    → AreHeld recs uploads
    → (o : Option ℕ) × (find_upload peer file_id uploads recs ≡ some o)
      × (is_listed uploads o ≡ true)
unfolding find_upload
find_upload-held peer file_id [] recs h = (none, refl, refl)
find_upload-held peer file_id (p ∷ uploads) recs h =
    let (r, there) = known-some (lookup p recs) h.0 in
    elim (Bool-cases (is_upload peer file_id r)) [
      | inl hit ↦ (some p, rw (there, hit) refl, rw ==_refl refl)
      | inr miss ↦
          let (o, found, ok) = find_upload-held peer file_id uploads recs h.1 in
          (o, rw (there, miss) found, listed-more p uploads o ok)
    ]

addresses-erase_state :
    (p : ℕ) (states : List (ℕ × Bool))
    → addresses (erase_state p states) ≡ erase_upload p (addresses states)
unfolding erase_state erase_upload
addresses-erase_state p [] = refl
addresses-erase_state p ((q, cancelled) ∷ states) = elim (Bool-cases (q == p)) [
  | inl e ↦ rw e refl
  | inr e ↦ rw e (ap (◌∷◌ q) (addresses-erase_state p states))
]

not_listed-erase :
    (p q : ℕ) (ps : List ℕ) → listed q ps ≡ false → listed q (erase_upload p ps) ≡ false
unfolding erase_upload
not_listed-erase p q [] h = refl
not_listed-erase p q (x ∷ ps) h = ground (arith, h, not_listed-erase p q ps)

erase-AreDistinct : (p : ℕ) (ps : List ℕ) → AreDistinct ps → AreDistinct (erase_upload p ps)
unfolding erase_upload
erase-AreDistinct p [] h = tt
erase-AreDistinct p (q ∷ ps) h = elim (Bool-cases (q == p)) [
  | inl e ↦ rw e h.1
  | inr e ↦ rw e (not_listed-erase p q ps h.0, erase-AreDistinct p ps h.1)
]

absent-AreHeld :
    (p : ℕ) (ps : List ℕ) (recs : Dict ℕ UploadRec)
    → IsDict recs
    → listed p ps ≡ false
    → AreHeld recs ps
    → AreHeld (remove p recs) ps
absent-AreHeld p [] recs d absent h = tt
absent-AreHeld p (q ∷ ps) recs d absent h =
    let other : (p == q) ≡ false = ground (arith, absent, nat_beq_iff p q, nat_beq_iff q p) in
    let rest : listed p ps ≡ false = ground (arith, absent) in
    (rw (lookup-remove p q recs d, other) h.0, absent-AreHeld p ps recs d rest h.1)

erase-AreHeld :
    (p : ℕ) (ps : List ℕ) (recs : Dict ℕ UploadRec)
    → IsDict recs
    → AreDistinct ps
    → AreHeld recs ps
    → AreHeld (remove p recs) (erase_upload p ps)
unfolding erase_upload
erase-AreHeld p [] recs d distinct h = tt
erase-AreHeld p (q ∷ ps) recs d distinct h = elim (Bool-cases (q == p)) [
  | inl e ↦
      let same : q ≡ p = (nat_beq_iff q p).0 e in
      let absent : listed p ps ≡ false = ap (λ x. listed x ps) (sym same) ∙ distinct.0 in
      rw e (absent-AreHeld p ps recs d absent h.1)
  | inr e ↦
      let other : (p == q) ≡ false = ground (arith, e, nat_beq_iff p q, nat_beq_iff q p) in
      rw e (rw (lookup-remove p q recs d, other) h.0, erase-AreHeld p ps recs d distinct.1 h.1)
]

length-erase_upload :
    (p : ℕ) (ps : List ℕ) → listed p ps ≡ true → length (erase_upload p ps) + 1 ≡ length ps
unfolding erase_upload
length-erase_upload p [] h = absurd (ground (arith, h))
length-erase_upload p (q ∷ ps) h = ground (arith, h, length-erase_upload p ps)

free_upload-Sound : (p : ℕ) (m : UploadManager) → Sound m → Sound (free_upload p m)
unfolding free_upload
free_upload-Sound p m h = record {
  dict = remove-IsDict p m.recs h.dict;
  held = erase-AreHeld p m.uploads m.recs h.dict h.distinct h.held;
  distinct = erase-AreDistinct p m.uploads h.distinct;
  states = addresses-erase_state p m.peer_upload_states ∙ ap (erase_upload p) h.states;
}

-- What `removePeerUpload` does when it finds this or nothing
abbrev pub Removed : ℕ → ℕ → UploadManager → Option ℕ → ℕ × UploadManager → Type 0
Removed peer file_id m o (ret, m') =
    (find_upload peer file_id m.uploads m.recs ≡ some o)
    × (remove_peer_upload peer file_id m ≡ some (ret, m'))
    × Sound m'
    × (ret ≡ (if known o then 0 else 1))
    × (length m'.uploads + (if known o then 1 else 0) ≡ length m.uploads)
    × ((q : ℕ) → lookup q m'.recs ≡ (if is_found o q then none else lookup q m.recs))

by_search :
    (peer file_id : ℕ) (m : UploadManager)
    → Sound m
    → (o : Option ℕ) → find_upload peer file_id m.uploads m.recs ≡ some o
    → is_listed m.uploads o ≡ true
    → (o : Option ℕ) × (result : ℕ × UploadManager) × Removed peer file_id m o result
unfolding remove_peer_upload free_upload
by_search peer file_id m h none found inside =
    (none, (1, m), (found, rw (remove_peer_upload, found) refl, h, refl, omega arith, λ q. refl))
by_search peer file_id m h (some p) found inside = (
  some p,
  (0, free_upload p m),
  (
    found,
    rw (remove_peer_upload, found) refl,
    free_upload-Sound p m h,
    refl,
    length-erase_upload p m.uploads inside,
    λ q. lookup-remove p q m.recs h.dict,
  ),
)

-- In a sound state removing an upload reads no record that is gone, and the state stays sound. When an
-- upload of this peer with this file id is found, the result is 0, the list is one shorter and just
-- its record is freed; otherwise the result is 1 and no upload is lost.
pub remove_peer_upload-Sound :
    (peer file_id : ℕ) (m : UploadManager)
    → Sound m
    → (o : Option ℕ) × (result : ℕ × UploadManager) × Removed peer file_id m o result
remove_peer_upload-Sound peer file_id m h =
    let (o, found, inside) = find_upload-held peer file_id m.uploads m.recs h.held in
    by_search peer file_id m h o found inside
