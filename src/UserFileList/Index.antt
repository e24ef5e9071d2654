-- ===== src/UserFileList/Index.antt =====
-- The index that `neUserFileList::addUserFile` keeps: the loop over the keywords of a file.
use neshare.Base.{
  add32, ℕ, suc, ◌+◌, ◌≤◌, ◌<◌, ◌≡◌, refl, sym, ap, ◌∙◌, Bool, true, false, List, [], ◌∷◌, ◌++◌,
  some, arith, ◌==◌, if◌then◌else◌, nat_key, bytes_key, bytes_beq_iff, Bytes, lookup, IsDict, count,
  replicate, append_assoc, append-nil, Bool-cases, inl, inr, word, is_empty,
}
use neshare.Keyword.{Keywords}
use neshare.Keyword.References.{refs, IsLive}
use neshare.UserFile.{UserFile}
use neshare.UserManager.Interface.{sizeof_file_in_mb}
use neshare.UserFileList.{FileMap, FileList, place_keywords, add_user_file}
use neshare.UserFileList.Adding.{occurrences, entry_of, held, IsIndex, place_keyword_lem}

-- One more occurrence before the others.
occurrence-replicate :
    (base : List ℕ) (here : Bool) (n file : ℕ)
    → (base ++ (if here then file ∷ [] else [])) ++ replicate n file
      ≡ base ++ replicate ((if here then 1 else 0) + n) file
occurrence-replicate base true n file =
    let one : 1 + n ≡ suc n = omega arith in
    rw one (append_assoc base (file ∷ []) (replicate n file))
occurrence-replicate base false n file =
    let same : 0 + n ≡ n = omega arith in rw (append-nil, same) refl

place_keywords_lem :
    (file : ℕ) (ws : List Bytes) (m : FileMap) (k : Keywords) (base : Bytes → List ℕ)
    → IsDict m
    → ((v : Bytes) → lookup v m ≡ entry_of (base v))
    → IsLive k
    → ((v : Bytes) → count v ws ≤ refs v k)
    → ((v : Bytes) → refs v k + 1 < word + held v m)
    → (m' : FileMap) × (k' : Keywords) × (place_keywords file ws (m, k) ≡ some (m', k'))
      × IsDict m'
      × ((v : Bytes) → lookup v m' ≡ entry_of (base v ++ replicate (count v ws) file))
      × IsLive k'
      × ((v : Bytes) → (refs v k' + held v m ≡ refs v k + held v m') × held v m ≤ held v m')
unfolding place_keywords
place_keywords_lem file [] m k base d e l h room =
    (m, k, refl, d, λ v. rw append-nil (e v), l, λ v. (refl, omega arith))
place_keywords_lem file (w ∷ ws) m k base d e l h room =
    let pos : 0 < refs w k = ground (arith, h w, bytes_beq_iff w w) in
    let (m1, k1, run1, d1, e1, l1, r1) = place_keyword_lem file w m k base d e l pos (room w) in
    let (m2, k2, run2, d2, e2, l2, r2) =
      place_keywords_lem file ws m1 k1 (λ v. base v ++ (if w == v then file ∷ [] else [])) d1 e1 l1
        (λ v. ground (arith, h v, r1 v)) (λ v. ground (arith, room v, r1 v)) in
    (
      m2,
      k2,
      rw run1 run2,
      d2,
      λ v. rw (sym (occurrence-replicate (base v) (w == v) (count v ws) file)) (e2 v),
      l2,
      λ v. ground (arith, r1 v, r2 v),
    )

occurrences-last :
    (words : ℕ → List Bytes) (w : Bytes) (files : List ℕ) (file : ℕ)
    → occurrences words w (files ++ file ∷ [])
      ≡ occurrences words w files ++ replicate (count w (words file)) file
occurrences-last words w [] file = append-nil (replicate (count w (words file)) file)
occurrences-last words w (x ∷ xs) file =
    ap (◌++◌ (replicate (count w (words x)) x)) (occurrences-last words w xs file)
    ∙ sym (
        append_assoc (replicate (count w (words x)) x) (occurrences words w xs)
          (replicate (count w (words file)) file))

-- A file that holds references to its keywords is added to a list that is a correct index. The call
-- meets no dangling pointer; it fails, with no change, exactly on a file without keywords; otherwise
-- the list is a correct index of its files and the new one, the number and the size of the files
-- grow by those of the file, modulo 2^32, and the references grow by the new entries of the map.
pub add_user_file-IsIndex :
    (words : ℕ → List Bytes) (k : Keywords) (l : FileList) (files : List ℕ) (file : ℕ)
    (f : UserFile)
    → words file ≡ f.keywords
    → IsIndex words l.file_map files
    → IsLive k
    → ((w : Bytes) → count w f.keywords ≤ refs w k)
    → ((w : Bytes) → refs w k + 1 < word + held w l.file_map)
    → (ret : ℕ) × (l' : FileList) × (k' : Keywords) × (add_user_file k l file f
        ≡ some (ret, l', k'))
      × (is_empty f.keywords ≡ true → (ret ≡ 1) × (l' ≡ l) × (k' ≡ k))
      × (is_empty f.keywords ≡ false
          → (ret ≡ 0)
            × IsIndex words l'.file_map (files ++ file ∷ [])
            × (l'.num_user_files ≡ add32 l.num_user_files 1)
            × (l'.total_sizeof_user_files
                ≡ add32 l.total_sizeof_user_files (sizeof_file_in_mb f.filesize)))
      × IsLive k'
      × ((w : Bytes) → refs w k' + held w l.file_map ≡ refs w k + held w l'.file_map)
unfolding add_user_file
add_user_file-IsIndex words k l files file f same i live h room =
    let (m, k', run, d, e, live', r) =
      place_keywords_lem file f.keywords l.file_map k (λ w. occurrences words w files) i.dict
        i.entry live h room in
    let l' : FileList = record {
      num_user_files = add32 l.num_user_files 1;
      total_sizeof_user_files = add32 l.total_sizeof_user_files (sizeof_file_in_mb f.filesize);
      file_map = m;
    } in
    elim (Bool-cases (is_empty f.keywords)) [
      | inl nothing ↦ (
        1,
        l,
        k,
        rw (run, nothing) refl,
        λ n. (refl, refl, refl),
        λ n. absurd (true-false nothing n),
        live,
        λ w. refl,
      )
      | inr some_words ↦ (
        0,
        l',
        k',
        rw (run, some_words) refl,
        λ n. absurd (true-false n some_words),
        λ n. (
          refl,
          record { dict = d; entry = λ w. rw (occurrences-last words w files file, same) (e w) },
          refl,
          refl,
        ),
        live',
        λ w. (r w).0,
      )
    ]
  where
    true-false : {b : Bool} → b ≡ true → b ≡ false → ⊥
    true-false t n = cc
