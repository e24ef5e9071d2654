-- ===== src/QueryResult/Results.antt =====
-- The results of a search (`neQueryResultManager::buildQueryResult` and `performSearchQuery`).
use neshare.Base.{
  ℕ, ◌+◌, ◌≤◌, ◌<◌, ◌≡◌, refl, sym, true, false, List, [], ◌∷◌, ◌++◌, Option, some, arith, ◌||◌,
  leb, max, nat_key, bytes_key, nat_beq_iff, Bytes, Dict, lookup, count, contains, length,
  length-append, count-append, contains-append, count-contains, Bool-cases, inl, inr, ◌>>=◌,
  bind-eq-some, some-inj,
}
use neshare.UserFileList.{FileList}
use neshare.QueryResult.{VectorPtr, add_results, add_vectors, build_query_result}

-- The state of the loops: the files so far, distinct and counted, and no more than allowed.
pub record IsResult (max_results : ℕ) (s : ℕ × List ℕ) : Type 0 where
  pub counted : s.0 ≡ length s.1
  pub bounded : length s.1 ≤ max 1 max_results
  pub distinct : (x : ℕ) → count x s.1 ≤ 1

-- A loop goes on only while there is room for another file.
abbrev HasRoom : ℕ → ℕ × List ℕ → Type 0
HasRoom max_results s = s.0 < max 1 max_results

-- What a loop over these files makes of its state: a correct result, which keeps what was there,
-- adds files of these only, and adds them all unless the limit was reached.
pub record Adds (max_results : ℕ) (files : List ℕ) (s s' : ℕ × List ℕ) : Type 0 where
  pub result : IsResult max_results s'
  pub room : leb max_results s'.0 ≡ false → HasRoom max_results s'
  pub grows : s.0 ≤ s'.0
  pub keeps : (x : ℕ) → contains x s.1 ≡ true → contains x s'.1 ≡ true
  pub sound : (x : ℕ) → contains x s'.1 ≡ true → (contains x s.1 || contains x files) ≡ true
  pub complete :
      leb max_results s'.0 ≡ false → (x : ℕ) → contains x files ≡ true → contains x s'.1 ≡ true

Adds-trans :
    (m : ℕ) (xs ys : List ℕ) (s t u : ℕ × List ℕ)
    → Adds m xs s t
    → Adds m ys t u
    → Adds m (xs ++ ys) s u
Adds-trans m xs ys s t u a b = record {
  grows = omega (arith, a.grows, b.grows);
  result = b.result;
  room = b.room;
  keeps = λ x h. b.keeps x (a.keeps x h);
  sound = λ x h. ground (arith, contains-append x xs ys, b.sound x h, a.sound x);
  complete = λ h x inside. ground (
    arith,
    contains-append x xs ys,
    inside,
    b.complete h x,
    b.keeps x,
    a.complete (ground (arith, h, b.grows)) x,
  );
}

last-IsResult :
    (m file : ℕ) (s : ℕ × List ℕ)
    → IsResult m s
    → HasRoom m s
    → contains file s.1 ≡ false
    → IsResult m (s.0 + 1, s.1 ++ file ∷ [])
last-IsResult m file s r room new = record {
  counted = omega (arith, r.counted, length-append s.1 (file ∷ []));
  bounded = omega (arith, r.counted, room, length-append s.1 (file ∷ []));
  distinct = λ x. ground (
    arith,
    r.distinct x,
    count-append x s.1 (file ∷ []),
    count-contains file s.1,
    new,
    nat_beq_iff file x,
  );
}

Adds-nil : (m : ℕ) (s : ℕ × List ℕ) → IsResult m s → HasRoom m s → Adds m [] s s
Adds-nil m s r room = record {
  grows = omega arith;
  result = r;
  room = λ h. room;
  keeps = λ x h. h;
  sound = λ x h. ground (arith, h);
  complete = λ h x e. absurd (ground (arith, e));
}

pub add_results-Adds :
    (m : ℕ) (files : List ℕ) (s : ℕ × List ℕ)
    → IsResult m s
    → HasRoom m s
    → Adds m files s (add_results m files s)
unfolding add_results
add_results-Adds m [] s r room = Adds-nil m s r room
add_results-Adds m (file ∷ files) (n, found) r room = elim (Bool-cases (contains file found)) [
  | inl old ↦
      let a = add_results-Adds m files (n, found) r room in
      rw old (record {
        grows = a.grows;
        result = a.result;
        room = a.room;
        keeps = a.keeps;
        sound = λ x h. ground (arith, a.sound x h);
        complete = λ h x inside.
            ground (arith, a.complete h x, a.keeps x, inside, old, nat_beq_iff file x);
      })
  | inr new ↦
      let one = last-IsResult m file (n, found) r room new in
      elim (Bool-cases (leb m (n + 1))) [
        | inl full ↦
            rw (new, full)
              (record {
                grows = omega arith;
                result = one;
                room = λ h. absurd (ground (arith, h, full));
                keeps = λ x h. ground (arith, contains-append x found (file ∷ []), h);
                sound = λ x h. ground (arith, contains-append x found (file ∷ []), h);
                complete = λ h x inside. absurd (ground (arith, h, full));
              })
        | inr more ↦
            let a =
              add_results-Adds m files (n + 1, found ++ file ∷ []) one
                (ground (arith, room, more)) in
            rw (new, more)
              (record {
                grows = omega (arith, a.grows);
                result = a.result;
                room = a.room;
                keeps = λ x h. a.keeps x (ground (arith, contains-append x found (file ∷ []), h));
                sound = λ x h. ground (arith, contains-append x found (file ∷ []), a.sound x h);
                complete = λ h x inside. ground (
                  arith,
                  contains-append x found (file ∷ []),
                  a.keeps x,
                  a.complete h x,
                  inside,
                  nat_beq_iff file x,
                );
              })
      ]
]

-- The files of all vectors, in order; `none` when a pointer dangles.
unfoldable pub all_files : Dict ℕ FileList → List VectorPtr → Option (List ℕ)
all_files lists [] = some []
all_files lists ((user, w) ∷ ptrs) = do
  l ← lookup user lists
  files ← lookup w l.file_map
  rest ← all_files lists ptrs
  some (files ++ rest)

all_files-cons :
    (lists : Dict ℕ FileList) (user : ℕ) (w : Bytes) (ptrs : List VectorPtr) (all : List ℕ)
    → all_files lists ((user, w) ∷ ptrs) ≡ some all
    → (l : FileList) × (files rest : List ℕ) × (lookup user lists ≡ some l)
      × (lookup w l.file_map ≡ some files)
      × (all_files lists ptrs ≡ some rest)
      × (files ++ rest ≡ all)
unfolding all_files
all_files-cons lists user w ptrs all h =
    let (l, at_user, h1) = bind-eq-some (lookup user lists) _ h in
    let (files, at_w, h2) = bind-eq-some (lookup w l.file_map) _ h1 in
    let (rest, later, h3) = bind-eq-some (all_files lists ptrs) _ h2 in
    (l, files, rest, at_user, at_w, later, some-inj h3)

Adds-stop :
    (m : ℕ) (xs ys : List ℕ) (s t : ℕ × List ℕ)
    → Adds m xs s t
    → leb m t.0 ≡ true
    → Adds m (xs ++ ys) s t
Adds-stop m xs ys s t a full = record {
  grows = a.grows;
  result = a.result;
  room = a.room;
  keeps = a.keeps;
  sound = λ x h. ground (arith, contains-append x xs ys, a.sound x h);
  complete = λ h x inside. absurd (ground (arith, h, full));
}

add_vectors-Adds :
    (lists : Dict ℕ FileList) (m : ℕ) (ptrs : List VectorPtr) (s : ℕ × List ℕ) (all : List ℕ)
    → all_files lists ptrs ≡ some all
    → IsResult m s
    → HasRoom m s
    → (s' : ℕ × List ℕ) × (add_vectors lists m ptrs s ≡ some s') × Adds m all s s'
unfolding add_vectors all_files
add_vectors-Adds lists m [] s all e r room = (s, refl, rw (sym (some-inj e)) (Adds-nil m s r room))
add_vectors-Adds lists m ((user, w) ∷ ptrs) s all e r room =
    let (l, files, rest, at_user, at_w, later, split) = all_files-cons lists user w ptrs all e in
    let s1 = add_results m files s in
    let a = add_results-Adds m files s r room in
    elim (Bool-cases (leb m s1.0)) [
      | inl full ↦
          (s1, rw (at_user, at_w, full) refl, rw (sym split) (Adds-stop m files rest s s1 a full))
      | inr more ↦
          let (s2, run, b) = add_vectors-Adds lists m ptrs s1 rest later a.result (a.room more) in
          (s2, rw (at_user, at_w, more) run, rw (sym split) (Adds-trans m files rest s s1 s2 a b))
    ]

-- When every vector pointer is good, `buildQueryResult` gives distinct files of the vectors, no more
-- of them than the configured number (or one, when that is 0), and all of them when it gives fewer.
pub build_query_result_lem :
    (lists : Dict ℕ FileList) (max_results : ℕ) (ptrs : List VectorPtr) (all : List ℕ)
    → all_files lists ptrs ≡ some all
    → (result : List ℕ) × (build_query_result lists max_results ptrs ≡ some result)
      × (length result ≤ max 1 max_results)
      × ((x : ℕ) → count x result ≤ 1)
      × ((x : ℕ) → contains x result ≡ true → contains x all ≡ true)
      × (length result < max_results → (x : ℕ) → contains x all ≡ true → contains x result ≡ true)
unfolding build_query_result
build_query_result_lem lists m ptrs all e =
    let nothing : IsResult m (0, []) = record {
      counted = refl;
      bounded = omega arith;
      distinct = λ x. omega arith;
    } in
    let (s, run, a) = add_vectors-Adds lists m ptrs (0, []) all e nothing (omega arith) in
    (
      s.1,
      rw run refl,
      a.result.bounded,
      a.result.distinct,
      λ x h. a.sound x h,
      λ few x h. a.complete (ground (arith, few, a.result.counted)) x h,
    )
