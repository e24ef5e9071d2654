-- ===== src/Upload/Adding.antt =====
-- ne_client/nepeeruploadmanager.cpp: `addPeerUpload` keeps the lists and the records together.
use neshare.Base.{
  ℕ, ◌≡◌, refl, sym, ap, ◌∙◌, inl, inr, Bool, true, false, ◌&&◌, ◌==◌, ==_refl, nat_key, bytes_key,
  nat_beq_iff, Bool-cases, if◌then◌else◌, Bytes, Option, none, some, List, [], ◌∷◌, ◌++◌, Dict,
  lookup, insert, lookup-insert, insert-IsDict, known, length, add32, arith, ◌>>=◌,
}
use neshare.Message.{Connection}
use neshare.Message.Acks.{send_ack, send_file_request_ack}
use neshare.User.{TimeVal}
use neshare.Download.{Peer}
use neshare.Upload.{UploadRec, UploadManager}
use neshare.Upload.Records.{Sockets, put_socket, is_file_being_uploaded}
use neshare.Upload.Acknowledging.{
  Answers, invalid_md5_checksum, refusal, verify_valid_upload_file, new_upload, store_upload,
  send_answer, open_upload, add_peer_upload,
}
use neshare.Upload.Removal.{listed, AreHeld, AreDistinct, addresses, Sound, known-some}

is_file_being_uploaded-held :
    (peer : Peer) (filename : Bytes) (uploads : List ℕ) (recs : Dict ℕ UploadRec)
    → AreHeld recs uploads
    → (busy : Bool) × (is_file_being_uploaded peer filename uploads recs ≡ some busy)
unfolding is_file_being_uploaded
is_file_being_uploaded-held peer filename [] recs h = (false, refl)
is_file_being_uploaded-held peer filename (p ∷ uploads) recs h =
    let (r, there) = known-some (lookup p recs) h.0 in
    let (busy, later) = is_file_being_uploaded-held peer filename uploads recs h.1 in
    elim (Bool-cases (r.peer.address == peer.address && r.filename == filename)) [
      | inl hit ↦ (true, rw (there, hit) refl)
      | inr miss ↦ (busy, rw (there, miss) later)
    ]

fresh-listed :
    (p : ℕ) (uploads : List ℕ) (recs : Dict ℕ UploadRec)
    → lookup p recs ≡ none
    → AreHeld recs uploads
    → listed p uploads ≡ false
fresh-listed p [] recs fresh h = refl
fresh-listed p (q ∷ uploads) recs fresh h = elim (Bool-cases (q == p)) [
  | inl e ↦
      let same : q ≡ p = (nat_beq_iff q p).0 e in
      absurd (ground (arith, ap (λ x. known (lookup x recs)) same, ap known fresh, h.0))
  | inr e ↦ rw e (fresh-listed p uploads recs fresh h.1)
]

insert-AreHeld :
    (p : ℕ) (r : UploadRec) (uploads : List ℕ) (recs : Dict ℕ UploadRec)
    → AreHeld recs uploads
    → AreHeld (insert p r recs) (uploads ++ p ∷ [])
insert-AreHeld p r [] recs h = (rw (lookup-insert p p r recs, ==_refl) refl, tt)
insert-AreHeld p r (q ∷ uploads) recs h = (
  elim (Bool-cases (p == q)) [
    | inl e ↦ rw (lookup-insert p q r recs, e) refl
    | inr e ↦ rw (lookup-insert p q r recs, e) h.0
  ],
  insert-AreHeld p r uploads recs h.1,
)

listed-last :
    (p q : ℕ) (uploads : List ℕ)
    → listed q uploads ≡ false
    → (p == q) ≡ false
    → listed q (uploads ++ p ∷ []) ≡ false
listed-last p q [] h other = rw other refl
listed-last p q (x ∷ uploads) h other = ground (arith, h, other, listed-last p q uploads)

last-AreDistinct :
    (p : ℕ) (uploads : List ℕ)
    → listed p uploads ≡ false
    → AreDistinct uploads
    → AreDistinct (uploads ++ p ∷ [])
last-AreDistinct p [] absent h = (refl, tt)
last-AreDistinct p (q ∷ uploads) absent h =
    let other : (q == p) ≡ false = ground (arith, absent) in
    let other' : (p == q) ≡ false = ground (arith, other, nat_beq_iff p q, nat_beq_iff q p) in
    let rest : listed p uploads ≡ false = rw other at absent in
    (listed-last p q uploads h.0 other', last-AreDistinct p uploads rest h.1)

addresses-last :
    (p : ℕ) (states : List (ℕ × Bool))
    → addresses (states ++ (p, false) ∷ []) ≡ addresses states ++ p ∷ []
addresses-last p [] = refl
addresses-last p ((q, cancelled) ∷ states) = ap (◌∷◌ q) (addresses-last p states)

-- `id` counts the requests only.
next_id-Sound : (m : UploadManager) (n : ℕ) → Sound m → Sound (record m { id = n })
next_id-Sound m n h = record {
  dict = h.dict;
  held = h.held;
  distinct = h.distinct;
  states = h.states;
}

store_upload-Sound :
    (p : ℕ) (r : UploadRec) (size position : ℕ) (name : Bytes) (now : TimeVal) (m : UploadManager)
    → lookup p m.recs ≡ none
    → Sound m
    → Sound (store_upload p r size position name now m)
unfolding store_upload
store_upload-Sound p r size position name now m fresh h = record {
  dict = insert-IsDict p r m.recs h.dict;
  held = insert-AreHeld p r m.uploads m.recs h.held;
  distinct = last-AreDistinct p m.uploads (fresh-listed p m.uploads m.recs fresh h.held) h.distinct;
  states = addresses-last p m.peer_upload_states ∙ ap (λ (xs : List ℕ). xs ++ p ∷ []) h.states;
}

module _ (c : Connection) (a : Answers) (peer : Peer) (filename : Bytes) (position : ℕ) where
  put_socket-same : (fd t : ℕ) (k : Sockets c) → put_socket c fd (k fd) k t ≡ k t
  unfolding put_socket
  put_socket-same fd t k = elim (Bool-cases (t == fd)) [
    | inl e ↦ rw e (ap k (sym ((nat_beq_iff t fd).0 e)))
    | inr e ↦ rw e refl
  ]

  -- A refusal is not sent.
  refused : (s : c.Stream) (sum : Bytes) → send_file_request_ack c s (refusal sum) ≡ (1, s)
  unfolding send_file_request_ack send_ack refusal
  refused s sum = refl

  -- What `addPeerUpload` leaves, by the file that it may send
  abbrev pub Added :
      UploadManager → Sockets c → Option (Bytes × Bytes) → ℕ × UploadManager × Sockets c → Type 0
  Added m k valid (ret, m', k') =
      (add_peer_upload c a peer filename position m k ≡ some (ret, m', k'))
      × Sound m'
      × (m'.uploads ≡ (if ret == 0 then m.uploads ++ a.address ∷ [] else m.uploads))
      × ((ret == 0) ≡ (if known valid then ret == 0 else false))
      × ((fd : ℕ) → k' fd ≡ (if known valid then k' fd else k fd))

  by_file :
      (m : UploadManager) (k : Sockets c) (valid : Option (Bytes × Bytes))
      → Sound m
      → lookup a.address m.recs ≡ none
      → verify_valid_upload_file a peer filename m ≡ some valid
      → (result : ℕ × UploadManager × Sockets c) × Added m k valid result
  unfolding add_peer_upload open_upload store_upload
  by_file m k none h fresh file = (
    (1, m, put_socket c peer.sockfd (k peer.sockfd) k),
    (
      rw (add_peer_upload, file, refused (k peer.sockfd) invalid_md5_checksum) refl,
      h,
      refl,
      refl,
      λ t. put_socket-same peer.sockfd t k,
    ),
  )
  by_file m k (some (name, bytes)) h fresh file = elim (Bool-cases a.opened) [
    | inr shut ↦ ((1, m, k), (rw (add_peer_upload, file, shut) refl, h, refl, refl, λ t. refl))
    | inl ready ↦
        let r = new_upload m.id peer filename position bytes in
        let counted : UploadManager = record m { id = add32 m.id 1 } in
        let sent = send_answer c r a.md5checksum position (length bytes) filename (k peer.sockfd) in
        let k' = put_socket c peer.sockfd sent.1 k in
        let counted-Sound : Sound counted = next_id-Sound m (add32 m.id 1) h in
        elim (Bool-cases a.sought) [
          | inr lost ↦ (
            (1, counted, k),
            (
              rw (add_peer_upload, file, ready, open_upload, lost) refl,
              counted-Sound,
              refl,
              refl,
              λ t. refl,
            ),
          )
          | inl found ↦ elim (Bool-cases (sent.0 == 0)) [
            | inr failed ↦ (
              (1, counted, k'),
              (
                rw (add_peer_upload, file, ready, open_upload, found, failed) refl,
                counted-Sound,
                refl,
                refl,
                λ t. refl,
              ),
            )
            | inl ok ↦ (
              (0, store_upload a.address r (length bytes) position name a.now counted, k'),
              (
                rw (add_peer_upload, file, ready, open_upload, found, ok) refl,
                store_upload-Sound a.address r (length bytes) position name a.now counted fresh
                    counted-Sound,
                refl,
                refl,
                λ t. refl,
              ),
            )
          ]
        ]
  ]

  -- In a sound state adding an upload reads no record that is gone, and the state stays sound, when
  -- the new record has an address of its own. The upload is listed just when the result is 0; when
  -- the file is not one that may be sent, the result is not 0 and no connection has changed: the
  -- refusal is not sent.
  pub add_peer_upload-Sound :
      (m : UploadManager) (k : Sockets c)
      → Sound m
      → lookup a.address m.recs ≡ none
      → (valid : Option (Bytes × Bytes)) × (verify_valid_upload_file a peer filename m ≡ some valid)
        × (result : ℕ × UploadManager × Sockets c) × Added m k valid result
  unfolding verify_valid_upload_file
  add_peer_upload-Sound m k h fresh =
      let (busy, found) = is_file_being_uploaded-held peer filename m.uploads m.recs h.held in
      let valid : Option (Bytes × Bytes) =
        if busy
        then none
        else a.real_filename >>= (λ name. a.contents >>= (λ bytes. some (name, bytes))) in
      let file : verify_valid_upload_file a peer filename m ≡ some valid =
        rw (verify_valid_upload_file, found) refl in
      let (result, added) = by_file m k valid h fresh file in (valid, file, result, added)
