-- ===== src/Download/Consistent.antt =====
-- The maps of ne_client/nepeerdownloadmanager.h agree with the records that they point to.
use neshare.Base.{
  ℕ, ◌≡◌, sym, ap, ◌∙◌, inl, inr, false, ◌&&◌, ◌==◌, nat_key, bytes_key, nat_beq_iff, bytes_beq_iff,
  Bool-cases, Bytes, none, some, Dict, IsDict, lookup, insert, remove, lookup-insert, lookup-remove,
  insert-IsDict, remove-IsDict, some-inj, arith,
}
use neshare.Download.{DownloadRec, get_download_rec}
use neshare.Download.Records.{put_rec, drop_rec}
use neshare.Download.Maps.{
  AreMaps, get_download_rec-put_rec, put_rec-AreMaps, get_download_rec-drop_rec, drop_rec-AreMaps,
  none-ne-some,
}

-- A pointer in the maps leads to a record with the file id and the socket that it is filed under,
-- whose name is in the cache; every record is filed, and every name in the cache is one of a record.
pub record Consistent (map : Dict ℕ (Dict ℕ ℕ)) (cache : Dict Bytes ℕ) (recs : Dict ℕ DownloadRec)
    : Type 0 where
  pub maps : AreMaps map
  pub names : IsDict cache
  pub addresses : IsDict recs
  pub found :
      (f s p : ℕ)
      → get_download_rec f s map ≡ some p
      → (r : DownloadRec) × (lookup p recs ≡ some r)
        × (r.file_id ≡ f)
        × (r.peer.sockfd ≡ s)
        × (lookup r.filename cache ≡ some p)
  pub held :
      (p : ℕ) (r : DownloadRec)
      → lookup p recs ≡ some r
      → get_download_rec r.file_id r.peer.sockfd map ≡ some p
  pub cached :
      (name : Bytes) (p : ℕ)
      → lookup name cache ≡ some p
      → (r : DownloadRec) × (lookup p recs ≡ some r) × (r.filename ≡ name)

-- Different records have different addresses.
distinct :
    (recs : Dict ℕ DownloadRec) (p q : ℕ) (r s : DownloadRec)
    → lookup p recs ≡ some r
    → lookup q recs ≡ some s
    → (r ≡ s → ⊥)
    → (p == q) ≡ false
distinct recs p q r s there there' differ = elim (Bool-cases (p == q)) [
  | inl k ↦
      let pq : p ≡ q = (nat_beq_iff p q).0 k in
      absurd (differ (some-inj (sym there ∙ ap (λ x. lookup x recs) pq ∙ there')))
  | inr k ↦ k
]

module _ {map : Dict ℕ (Dict ℕ ℕ)} {cache : Dict Bytes ℕ} {recs : Dict ℕ DownloadRec} where
  -- The name of a record is in the cache.
  pub named_rec :
      (p : ℕ) (r : DownloadRec)
      → Consistent map cache recs
      → lookup p recs ≡ some r
      → lookup r.filename cache ≡ some p
  named_rec p r h there =
      let (r', e, _, _, named) = h.found r.file_id r.peer.sockfd p (h.held p r there) in
      let same : r' ≡ r = some-inj (sym e ∙ there) in rw same at named

  -- No two records write to the same file.
  pub one_writer :
      (p q : ℕ) (r s : DownloadRec)
      → Consistent map cache recs
      → lookup p recs ≡ some r
      → lookup q recs ≡ some s
      → r.filename ≡ s.filename
      → p ≡ q
  one_writer p q r s h there there' same =
      some-inj
        (sym (named_rec p r h there) ∙ ap (λ n. lookup n cache) same ∙ named_rec q s h there')

  -- A new record
  pub insert-Consistent :
      (p : ℕ) (r : DownloadRec)
      → Consistent map cache recs
      → lookup p recs ≡ none
      → get_download_rec r.file_id r.peer.sockfd map ≡ none
      → lookup r.filename cache ≡ none
      → Consistent
          (put_rec r.file_id r.peer.sockfd p map)
          (insert r.filename p cache)
          (insert p r recs)
  insert-Consistent p r h fresh unfiled unnamed = record {
    maps = put_rec-AreMaps r.file_id r.peer.sockfd p map h.maps;
    names = insert-IsDict r.filename p cache h.names;
    addresses = insert-IsDict p r recs h.addresses;
    found = λ f s q e.
        let filed = get_download_rec-put_rec r.file_id r.peer.sockfd f s p map in
        elim (Bool-cases (r.peer.sockfd == s && r.file_id == f)) [
          | inl hit ↦
              let new : p ≡ q = some-inj (sym (rw hit at filed) ∙ e) in
              (
                r,
                ground (arith, lookup-insert p q r recs, nat_beq_iff p q, new),
                ground (arith, hit, nat_beq_iff r.file_id f),
                ground (arith, hit, nat_beq_iff r.peer.sockfd s),
                ground (
                  arith,
                  lookup-insert r.filename r.filename p cache,
                  bytes_beq_iff r.filename r.filename,
                  new,
                ),
              )
          | inr miss ↦
              let (r', there, id, sock, named) = h.found f s q (sym (rw miss at filed) ∙ e) in
              (
                r',
                ground (arith, lookup-insert p q r recs, nat_beq_iff p q, there, fresh),
                id,
                sock,
                ground (
                  arith,
                  lookup-insert r.filename r'.filename p cache,
                  bytes_beq_iff r.filename r'.filename,
                  named,
                  unnamed,
                ),
              )
        ];
    held = λ q r' e.
        let filed =
          get_download_rec-put_rec r.file_id r.peer.sockfd r'.file_id r'.peer.sockfd p map in
        let stored = lookup-insert p q r recs in
        elim (Bool-cases (p == q)) [
          | inl hit ↦
              let new : r ≡ r' = some-inj (sym (rw hit at stored) ∙ e) in
              ap
                (λ (x : DownloadRec).
                  get_download_rec x.file_id x.peer.sockfd (put_rec r.file_id r.peer.sockfd p map))
                (sym new)
              ∙ get_download_rec-put_rec r.file_id r.peer.sockfd r.file_id r.peer.sockfd p map
              ∙ ground (arith, nat_beq_iff p q, hit)
          | inr miss ↦
              let old = h.held q r' (sym (rw miss at stored) ∙ e) in
              filed
              ∙ ground (
                arith,
                nat_beq_iff r.peer.sockfd r'.peer.sockfd,
                nat_beq_iff r.file_id r'.file_id,
                old,
                unfiled,
              )
        ];
    cached = λ name q e.
        let stored = lookup-insert r.filename name p cache in
        elim (Bool-cases (r.filename == name)) [
          | inl hit ↦
              let new : p ≡ q = some-inj (sym (rw hit at stored) ∙ e) in
              (
                r,
                ground (arith, lookup-insert p q r recs, nat_beq_iff p q, new),
                (bytes_beq_iff r.filename name).0 hit,
              )
          | inr miss ↦
              let (r', there, same) = h.cached name q (sym (rw miss at stored) ∙ e) in
              (r', ground (arith, lookup-insert p q r recs, nat_beq_iff p q, there, fresh), same)
        ];
  }

  -- A record without its entries
  pub erase-Consistent :
      (p : ℕ) (r : DownloadRec) (inner : Dict ℕ ℕ)
      → Consistent map cache recs
      → lookup p recs ≡ some r
      → lookup r.peer.sockfd map ≡ some inner
      → Consistent
          (drop_rec r.file_id r.peer.sockfd inner map)
          (remove r.filename cache)
          (remove p recs)
  erase-Consistent p r inner h there filed = record {
    maps = drop_rec-AreMaps r.file_id r.peer.sockfd inner map h.maps filed;
    names = remove-IsDict r.filename cache h.names;
    addresses = remove-IsDict p recs h.addresses;
    found = λ f s q e.
        let filed' = get_download_rec-drop_rec r.file_id r.peer.sockfd f s inner map h.maps filed in
        elim (Bool-cases (r.peer.sockfd == s && r.file_id == f)) [
          | inl hit ↦ absurd (none-ne-some (sym (rw hit at filed') ∙ e))
          | inr miss ↦
              let (r', there', id, sock, named) = h.found f s q (sym (rw miss at filed') ∙ e) in
              let old = sym (rw miss at filed') ∙ e in
              let own : get_download_rec r.file_id r.peer.sockfd map ≡ some p = h.held p r there in
              let differ : r ≡ r' → ⊥ = λ rr.
                let fid : r.file_id ≡ f = ap (λ (x : DownloadRec). x.file_id) rr ∙ id in
                let soc : r.peer.sockfd ≡ s = ap (λ (x : DownloadRec). x.peer.sockfd) rr ∙ sock in
                ground
                  (arith, miss, nat_beq_iff r.file_id f, nat_beq_iff r.peer.sockfd s, fid, soc) in
              let other = distinct recs p q r r' there there' differ in
              let gone = lookup-remove p q recs h.addresses in
              (
                r',
                rw other at gone ∙ there',
                id,
                sock,
                ground (
                  arith,
                  lookup-remove r.filename r'.filename cache h.names,
                  bytes_beq_iff r.filename r'.filename,
                  named,
                  named_rec p r h there,
                  other,
                  nat_beq_iff p q,
                ),
              )
        ];
    held = λ q r' e.
        let gone = lookup-remove p q recs h.addresses in
        let filed' =
          get_download_rec-drop_rec r.file_id r.peer.sockfd r'.file_id r'.peer.sockfd inner map
            h.maps filed in
        elim (Bool-cases (p == q)) [
          | inl hit ↦ absurd (none-ne-some (sym (rw hit at gone) ∙ e))
          | inr miss ↦
              let there' = sym (rw miss at gone) ∙ e in
              let own = h.held p r there in
              let old = h.held q r' there' in
              filed'
              ∙ ground (
                arith,
                own,
                old,
                nat_beq_iff r.peer.sockfd r'.peer.sockfd,
                nat_beq_iff r.file_id r'.file_id,
                nat_beq_iff p q,
                miss,
              )
        ];
    cached = λ name q e.
        let gone = lookup-remove r.filename name cache h.names in
        elim (Bool-cases (r.filename == name)) [
          | inl hit ↦ absurd (none-ne-some (sym (rw hit at gone) ∙ e))
          | inr miss ↦
              let (r', there', same) = h.cached name q (sym (rw miss at gone) ∙ e) in
              let differ : r ≡ r' → ⊥ = λ rr.
                let nam : r.filename ≡ name = ap (λ (x : DownloadRec). x.filename) rr ∙ same in
                ground (arith, miss, bytes_beq_iff r.filename name, nam) in
              let other = distinct recs p q r r' there there' differ in
              let left = lookup-remove p q recs h.addresses in (r', rw other at left ∙ there', same)
        ];
  }
