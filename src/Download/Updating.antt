-- ===== src/Download/Updating.antt =====
-- ne_client/nepeerdownloadmanager.h: a record changes, but not in what it is filed under.
use neshare.Base.{
  ℕ, ◌≡◌, refl, sym, ap, ◌∙◌, inl, inr, ◌==◌, nat_key, bytes_key, nat_beq_iff, Bool-cases, Bytes,
  some, Dict, lookup, insert, lookup-insert, insert-IsDict, some-inj,
}
use neshare.Download.{DownloadRec, Peer, get_download_rec}
use neshare.Download.Consistent.{Consistent}

module _ {map : Dict ℕ (Dict ℕ ℕ)} {cache : Dict Bytes ℕ} {recs : Dict ℕ DownloadRec} where
  -- A record that keeps its file id, its peer and its name
  pub update-Consistent :
      (p : ℕ) (r r' : DownloadRec)
      → Consistent map cache recs
      → lookup p recs ≡ some r
      → r'.file_id ≡ r.file_id
      → r'.peer ≡ r.peer
      → r'.filename ≡ r.filename
      → Consistent map cache (insert p r' recs)
  update-Consistent p r r' h there same_id same_peer same_name = record {
    maps = h.maps;
    names = h.names;
    addresses = insert-IsDict p r' recs h.addresses;
    found = λ f s q e.
        let (r0, there0, id, sock, named) = h.found f s q e in
        let stored = lookup-insert p q r' recs in
        elim (Bool-cases (p == q)) [
          | inl hit ↦
              let pq : p ≡ q = (nat_beq_iff p q).0 hit in
              let rr : r ≡ r0 = some-inj (sym there ∙ ap (λ x. lookup x recs) pq ∙ there0) in
              (
                r',
                stored ∙ rw hit refl,
                same_id ∙ ap (λ (x : DownloadRec). x.file_id) rr ∙ id,
                ap (λ (x : Peer). x.sockfd) (same_peer ∙ ap (λ (x : DownloadRec). x.peer) rr)
                    ∙ sock,
                ap (λ n. lookup n cache) (same_name ∙ ap (λ (x : DownloadRec). x.filename) rr)
                    ∙ named,
              )
          | inr miss ↦ (r0, stored ∙ rw miss there0, id, sock, named)
        ];
    held = λ q r1 e.
        let stored = lookup-insert p q r' recs in
        elim (Bool-cases (p == q)) [
          | inl hit ↦
              let pq : p ≡ q = (nat_beq_iff p q).0 hit in
              let rr : r' ≡ r1 = some-inj (sym (rw hit at stored) ∙ e) in
              ap (λ (x : DownloadRec). get_download_rec x.file_id x.peer.sockfd map) (sym rr)
              ∙ ap (λ i. get_download_rec i r'.peer.sockfd map) same_id
              ∙ ap (λ (x : Peer). get_download_rec r.file_id x.sockfd map) same_peer
              ∙ h.held p r there
              ∙ ap some pq
          | inr miss ↦ h.held q r1 (sym (rw miss at stored) ∙ e)
        ];
    cached = λ name q e.
        let (r0, there0, same) = h.cached name q e in
        let stored = lookup-insert p q r' recs in
        elim (Bool-cases (p == q)) [
          | inl hit ↦
              let pq : p ≡ q = (nat_beq_iff p q).0 hit in
              let rr : r ≡ r0 = some-inj (sym there ∙ ap (λ x. lookup x recs) pq ∙ there0) in
              (r', stored ∙ rw hit refl, same_name ∙ ap (λ (x : DownloadRec). x.filename) rr ∙ same)
          | inr miss ↦ (r0, stored ∙ rw miss there0, same)
        ];
  }
