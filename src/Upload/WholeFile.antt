-- ===== src/Upload/WholeFile.antt =====
-- ne_client/nepeeruploadmanager.cpp: rounds of `sendPeerData` send a whole file, which arrives at the
-- peer that downloads it.
use neshare.Base.{
  ℕ, true, false, zero, suc, ◌≤◌, ◌<◌, ◌≡◌, refl, sym, ap, ◌∙◌, ◌⊎◌, inl, inr, Bytes, Option, none,
  some, List, [], ◌∷◌, ◌++◌, lookup, length, take, length-take, arith, ◌>>=◌, word, append_assoc,
  bytes_key, nat_key,
}
use neshare.User.{TimeVal}
use neshare.Message.{Connection, encode}
use neshare.Message.FileData.{msg_file_data_send_end, file_data_header, invalid_file_id}
use neshare.Download.{Peer, DownloadManager, get_download_rec}
use neshare.Download.Records.{or_empty}
use neshare.Download.Removal.{Inv}
use neshare.Download.Arrival.{Ready}
use neshare.Download.Transfer.{end_file_data_send}
use neshare.Download.Completion.{wire, joined, AreBlocks, arrive, arrive-completes}
use neshare.Upload.{UploadRec, UploadManager}
use neshare.Upload.Records.{Sockets}
use neshare.Upload.Sending.{send_one, read_block}
use neshare.Upload.Blocks.{advanced, take-drop, length-drop, block_round, end_round}

wire-block : (p h b w e : Bytes) → (p ++ (h ++ b)) ++ (w ++ e) ≡ p ++ ((h ++ (b ++ w)) ++ e)
wire-block p h b w e =
    append_assoc p (h ++ b) (w ++ e)
    ∙ ap (◌++◌ p) (
        append_assoc h b (w ++ e)
        ∙ ap (◌++◌ h) (sym (append_assoc b w e))
        ∙ sym (append_assoc h (b ++ w) e))

no_bytes : (xs : Bytes) → length xs ≤ 0 → xs ≡ []
no_bytes [] h = refl
no_bytes (x ∷ xs) h = absurd (omega (arith, h))

no_bytes-or : (xs : Bytes) → (xs ≡ []) ⊎ (0 < length xs)
no_bytes-or [] = inl refl
no_bytes-or (x ∷ xs) = inr (omega arith)

module _ (c : Connection) where
  -- So many rounds of one upload in which its file can be read
  unfoldable pub upload_rounds :
      TimeVal → ℕ → ℕ → UploadManager → Sockets c → Option (UploadManager × Sockets c)
  upload_rounds now zero p m k = some (m, k)
  upload_rounds now (suc n) p m k =
      send_one c now (λ q. false) p m k >>= (λ one. upload_rounds now n p one.0 one.1)

  rounds-next :
      (now : TimeVal) (n p : ℕ) (m m1 : UploadManager) (k k1 : Sockets c)
      (result : Option (UploadManager × Sockets c))
      → send_one c now (λ q. false) p m k ≡ some (m1, k1)
      → upload_rounds now n p m1 k1 ≡ result
      → upload_rounds now (suc n) p m k ≡ result
  unfolding upload_rounds
  rounds-next now n p m m1 k k1 result ran later =
      ap
        (λ (o : Option (UploadManager × Sockets c)).
          o >>= (λ one. upload_rounds now n p one.0 one.1))
        ran
      ∙ later

  -- What the rounds of an upload do: these blocks and the end message are sent to its peer.
  abbrev pub Sent :
      TimeVal
      → ℕ
      → ℕ
      → UploadRec
      → UploadManager
      → Sockets c
      → List Bytes
      → UploadManager
      → Sockets c
      → Type 0
  Sent now room p r m k bs m' k' =
      (upload_rounds now (suc (length bs)) p m k ≡ some (m', k'))
      × (joined bs ≡ r.rest)
      × AreBlocks r.max_block_size room bs
      × (c.pending (k' r.peer.sockfd)
          ≡ c.pending (k r.peer.sockfd)
            ++ (wire r.file_id bs ++ encode (msg_file_data_send_end ∷ r.file_id ∷ [])))
      × (lookup r.file_id m'.finished_uploads ≡ some p)
      × (m'.peer_errors ≡ m.peer_errors)

  sends_rest :
      (works : (t : c.Stream) (bs : Bytes) → (c.write_data t bs).0 ≡ true) (fuel : ℕ)
      (now : TimeVal) (room p : ℕ) (r : UploadRec) (m : UploadManager) (k : Sockets c)
      → length r.rest ≤ fuel
      → 0 < r.max_block_size
      → r.max_block_size < word
      → r.max_block_size ≤ room
      → lookup p m.recs ≡ some r
      → (bs : List Bytes) × (m' : UploadManager) × (k' : Sockets c) × Sent now room p r m k bs m' k'
  unfolding upload_rounds read_block
  sends_rest works zero now room p r m k short some_room small fits held =
      let done : r.rest ≡ [] = no_bytes r.rest short in
      let (m', k', ran, finished, errors, there) =
        end_round c works now p r m k held some_room done in
      (
        [],
        m',
        k',
        (
          rounds-next now 0 p m m' k k' (some (m', k')) ran refl,
          sym done,
          tt,
          there,
          finished,
          errors,
        ),
      )
  sends_rest works (suc fuel) now room p r m k short some_room small fits held =
      elim (no_bytes-or r.rest) [
        | inl done ↦
            let (m', k', ran, finished, errors, there) =
              end_round c works now p r m k held some_room done in
            (
              [],
              m',
              k',
              (
                rounds-next now 0 p m m' k k' (some (m', k')) ran refl,
                sym done,
                tt,
                there,
                finished,
                errors,
              ),
            )
        | inr more ↦
            let block = take r.max_block_size r.rest in
            let (m1, k1, ran, kept, errors1, there1) =
              block_round c works now p r m k held some_room more in
            let sized : length block ≤ r.max_block_size =
              omega (arith, length-take r.max_block_size r.rest) in
            let shorter : length (advanced r).rest ≤ fuel = omega (
              arith,
              length-drop r.max_block_size r.rest,
              length-take r.max_block_size r.rest,
              short,
              more,
              some_room,
            ) in
            let (bs, m', k', (later, whole, blocks, there, finished, errors)) =
              sends_rest works fuel now room p (advanced r) m1 k1 shorter some_room small fits
                kept in
            let header = encode (file_data_header r.file_id (length block)) in
            let ending = encode (msg_file_data_send_end ∷ r.file_id ∷ []) in
            (
              block ∷ bs,
              m',
              k',
              (
                rounds-next now (suc (length bs)) p m m1 k k1 (some (m', k')) ran later,
                ap (◌++◌ block) whole ∙ take-drop r.max_block_size r.rest,
                (omega (arith, sized, small), sized, omega (arith, sized, fits), blocks),
                there
                    ∙ ap (λ (xs : Bytes). xs ++ (wire r.file_id bs ++ ending)) there1
                    ∙ wire-block (c.pending (k r.peer.sockfd)) header block (wire r.file_id bs)
                        ending,
                finished,
                errors ∙ errors1,
              ),
            )
      ]

  -- An upload whose file can be read, over a connection that works to a peer, and a download of it at
  -- the other end. In as many rounds as the file has blocks and one more, all that was left of the
  -- file is sent and the upload is finished, without an error of the peer. When the connection was
  -- quiet, the download takes each of these blocks and the end message: its file then is what it was
  -- with all that was left of the file at the upload behind it, the download is gone, its manager is
  -- sound and the connection is quiet again.
  pub upload_rounds-arrive :
      (works : (t : c.Stream) (bs : Bytes) → (c.write_data t bs).0 ≡ true) (now : TimeVal)
      (room p : ℕ) (r : UploadRec) (m : UploadManager) (k : Sockets c) (peer : Peer) (q : ℕ)
      (name : Bytes) (d : DownloadManager)
      → 0 < r.max_block_size
      → r.max_block_size < word
      → r.max_block_size ≤ room
      → lookup p m.recs ≡ some r
      → c.pending (k r.peer.sockfd) ≡ []
      → r.file_id < invalid_file_id
      → Ready peer r.file_id q name r.max_block_size d
      → (bs : List Bytes) × (m' : UploadManager) × (k' : Sockets c) × Sent now room p r m k bs m' k'
        × (d1 : DownloadManager) × (s1 : c.Stream) × (d2 : DownloadManager) × (s2 : c.Stream)
        × (arrive c now room peer (length bs) (k' r.peer.sockfd) d ≡ some (d1, s1))
        × (end_file_data_send c now peer s1 d1 ≡ some (0, d2, s2))
        × (or_empty (lookup name d2.files) ≡ or_empty (lookup name d.files) ++ r.rest)
        × (get_download_rec r.file_id peer.sockfd d2.fd_id_map ≡ none)
        × Inv d2
        × (c.pending s2 ≡ [])
  upload_rounds-arrive works now room p r m k peer q name d some_room small fits held quiet id
        ready =
      let (bs, m', k', sent) =
        sends_rest works (length r.rest) now room p r m k (omega arith) some_room small fits held in
      let (ran, whole, blocks, there, _, _) = sent in
      let on_wire = wire r.file_id bs ++ encode (msg_file_data_send_end ∷ r.file_id ∷ []) in
      let there' : c.pending (k' r.peer.sockfd) ≡ on_wire =
        there ∙ ap (λ (xs : Bytes). xs ++ on_wire) quiet in
      let (d1, s1, d2, s2, got, ended, file, gone, sound, left) =
        arrive-completes c now room peer bs (k' r.peer.sockfd) d r.file_id q r.max_block_size name
          ready id blocks there' in
      (
        bs,
        m',
        k',
        sent,
        d1,
        s1,
        d2,
        s2,
        got,
        ended,
        file ∙ ap (◌++◌ (or_empty (lookup name d.files))) whole,
        gone,
        sound,
        left,
      )
