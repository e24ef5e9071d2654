-- ===== src/Download/Completion.antt =====
-- ne_client/nepeerdownloadmanager.cpp: a whole download, from its blocks to its end message.
use neshare.Base.{
  ℕ, zero, suc, ◌≤◌, ◌<◌, ◌≡◌, refl, sym, ap, ◌∙◌, inl, inr, Bool, true, false, ◌==◌, ==_refl,
  nat_key, bytes_key, Bool-cases, Option-cases, if◌then◌else◌, Bytes, Option, none, some, known,
  List, [], ◌∷◌, ◌++◌, Dict, lookup, insert, lookup-insert, length, arith, ◌>>=◌, word,
  append_assoc, append-nil,
}
use neshare.User.{TimeVal}
use neshare.Message.{Connection, encode}
use neshare.Message.Wire.{AreWords, read_words, read_words-first}
use neshare.Message.FileData.{
  msg_file_data_send_end, invalid_file_id, file_data_header, end_fields, recv_file_data_end,
}
use neshare.Download.{Peer, DownloadRec, DownloadManager, get_download_rec}
use neshare.Download.Progress.{set_complete}
use neshare.Download.Records.{or_empty, next_time, report, call_registered_callback}
use neshare.Download.Transfer.{get_file_data_send, tell_complete, end_file_data_send}
use neshare.Download.Updating.{update-Consistent}
use neshare.Download.Removal.{Inv, remove_peer_download-Inv}
use neshare.Download.Arrival.{Ready}
use neshare.Download.Blocks.{get_file_data_send-Ready}

-- The blocks of a file as they are sent
abbrev pub wire : ℕ → List Bytes → Bytes
wire f [] = []
wire f (b ∷ bs) = encode (file_data_header f (length b)) ++ (b ++ wire f bs)

abbrev pub joined : List Bytes → Bytes
joined [] = []
joined (b ∷ bs) = b ++ joined bs

-- Every block fits in a length, in the buffer of the record and on the disk.
abbrev pub AreBlocks : ℕ → ℕ → List Bytes → Type 0
AreBlocks max room [] = Unit
AreBlocks max room (b ∷ bs) =
    (length b < word) × (length b ≤ max) × (length b ≤ room) × AreBlocks max room bs

stored :
    (name x : Bytes) (files : Dict Bytes Bytes) → or_empty (lookup name (insert name x files)) ≡ x
stored name x files = rw (lookup-insert name name x files, ==_refl) refl

false-ne-true : false ≡ true → ⊥
false-ne-true h = cc

completing :
    (now : TimeVal) (f s p : ℕ) (m : DownloadManager)
    → get_download_rec f s m.fd_id_map ≡ some p
    → m.registered ≡ true
    → tell_complete now f s m
      ≡ call_registered_callback now p true
          (record m { status_objs = set_complete p m.status_objs })
unfolding tell_complete
completing now f s p m filed on =
    ap
      (λ (b : Bool).
        if b
        then elim (get_download_rec f s m.fd_id_map) [
          | none ↦ some m
          | some q ↦
              call_registered_callback now q true
                (record m { status_objs = set_complete q m.status_objs })
        ]
        else some m)
      on
    ∙ rw filed refl

unregistered :
    (now : TimeVal) (f s : ℕ) (m : DownloadManager)
    → m.registered ≡ false
    → tell_complete now f s m ≡ some m
unfolding tell_complete
unregistered now f s m off =
    ap
      (λ (b : Bool).
        if b
        then elim (get_download_rec f s m.fd_id_map) [
          | none ↦ some m
          | some q ↦
              call_registered_callback now q true
                (record m { status_objs = set_complete q m.status_objs })
        ]
        else some m)
      off

-- The callback is told of the end; the maps and the files stay.
tell_complete-Inv :
    (now : TimeVal) (f s : ℕ) (m : DownloadManager)
    → Inv m
    → known (get_download_rec f s m.fd_id_map) ≡ true
    → (m' : DownloadManager) × (tell_complete now f s m ≡ some m')
      × Inv m'
      × (m'.files ≡ m.files)
      × (m'.fd_id_map ≡ m.fd_id_map)
unfolding report call_registered_callback
tell_complete-Inv now f s m h there = elim (Option-cases (get_download_rec f s m.fd_id_map)) [
  | inl e ↦ absurd (false-ne-true (rw e at there))
  | inr (p, e) ↦
      let (r, held, id, sock, named) = h.found f s p e in
      elim (Bool-cases m.registered) [
        | inr off ↦ (m, unregistered now f s m off, h, refl, refl)
        | inl on ↦
            let r' : DownloadRec = record r {
              next_callback_time = next_time now m.callback_time_delay;
            } in
            let m1 : DownloadManager = record m {
              status_objs = set_complete p m.status_objs;
              recs = insert p r' m.recs;
            } in
            (
              report m1,
              completing now f s p m e on ∙ rw (call_registered_callback, held) refl,
              update-Consistent p r r' h held refl refl refl,
              refl,
              refl,
            )
      ]
]

module _ (c : Connection) where
  -- So many calls of `getFileDataSend`, each returning 0
  unfoldable pub arrive :
      TimeVal → ℕ → Peer → ℕ → c.Stream → DownloadManager → Option (DownloadManager × c.Stream)
  arrive now room peer zero s m = some (m, s)
  arrive now room peer (suc n) s m =
      get_file_data_send c now room peer s m
      >>= (λ (ret, m', s'). if ret == 0 then arrive now room peer n s' m' else none)

  arrive-Ready :
      (now : TimeVal) (room : ℕ) (peer : Peer) (bs : List Bytes) (s : c.Stream)
      (m : DownloadManager) (f p max : ℕ) (name rest : Bytes)
      → Ready peer f p name max m
      → f < invalid_file_id
      → AreBlocks max room bs
      → c.pending s ≡ wire f bs ++ rest
      → (m' : DownloadManager) × (s' : c.Stream) × (arrive now room peer (length bs) s m
          ≡ some (m', s'))
        × (c.pending s' ≡ rest)
        × Ready peer f p name max m'
        × (or_empty (lookup name m'.files) ≡ or_empty (lookup name m.files) ++ joined bs)
  unfolding arrive
  arrive-Ready now room peer [] s m f p max name rest h small fit there =
      (m, s, refl, there, h, sym (append-nil (or_empty (lookup name m.files))))
  arrive-Ready now room peer (b ∷ bs) s m f p max name rest h small fit there =
      let header = encode (file_data_header f (length b)) in
      let next : c.pending s ≡ header ++ (b ++ (wire f bs ++ rest)) =
        there
        ∙ append_assoc header (b ++ wire f bs) rest
        ∙ ap (◌++◌ header) (append_assoc b (wire f bs) rest) in
      let (m1, s1, run, left, ready, wrote) =
        get_file_data_send-Ready c now room peer s m f p max name b (wire f bs ++ rest) h small
          fit.0 fit.1 fit.2 next in
      let (m2, s2, later, after, ready2, file) =
        arrive-Ready now room peer bs s1 m1 f p max name rest ready small fit.3 left in
      let contents : or_empty (lookup name m1.files) ≡ or_empty (lookup name m.files) ++ b =
        ap (λ (fs : Dict Bytes Bytes). or_empty (lookup name fs)) wrote
        ∙ stored name (or_empty (lookup name m.files) ++ b) m.files in
      (
        m2,
        s2,
        rw (run) later,
        after,
        ready2,
        file
            ∙ ap (λ (xs : Bytes). xs ++ joined bs) contents
            ∙ append_assoc (or_empty (lookup name m.files)) b (joined bs),
      )

  -- The end message, after which the download is gone
  pub end_file_data_send-Ready :
      (now : TimeVal) (peer : Peer) (s : c.Stream) (m : DownloadManager) (f p max : ℕ)
      (name : Bytes)
      → Ready peer f p name max m
      → f < invalid_file_id
      → c.pending s ≡ encode (msg_file_data_send_end ∷ f ∷ []) ++ []
      → (m' : DownloadManager) × (s' : c.Stream) × (end_file_data_send c now peer s m
          ≡ some (0, m', s'))
        × (c.pending s' ≡ [])
        × Inv m'
        × (m'.files ≡ m.files)
        × (get_download_rec f peer.sockfd m'.fd_id_map ≡ none)
  unfolding end_file_data_send recv_file_data_end end_fields
  end_file_data_send-Ready now peer s m f p max name h small there =
      let ws = msg_file_data_send_end ∷ f ∷ [] in
      let words : AreWords ws = (omega arith, (omega (arith, small), tt)) in
      let (read, after) = read_words-first c s ws [] words there in
      let valid : (f == invalid_file_id) ≡ false = ground (arith, small) in
      let (m1, told, sound, kept, maps) =
        tell_complete-Inv now f peer.sockfd m h.sound (rw h.filed refl) in
      let (result, removed, sound', kept', ret, gone, _) =
        remove_peer_download-Inv now f peer.sockfd m1 sound in
      let ok : result.0 ≡ 0 = ret ∙ rw (maps, h.filed) refl in
      (
        result.1,
        (read_words c s 2).1,
        rw (end_file_data_send, recv_file_data_end, read, valid, told, removed, ok) refl,
        after,
        sound',
        kept' ∙ kept,
        gone f peer.sockfd ∙ rw (==_refl, ==_refl) refl,
      )

  -- Blocks that fit arrive for a download and are followed by the end message: each call returns 0,
  -- and afterwards the file is what it was before with all the blocks behind it, the download is in
  -- no map, the state is sound and the connection is quiet.
  pub arrive-completes :
      (now : TimeVal) (room : ℕ) (peer : Peer) (bs : List Bytes) (s : c.Stream)
      (m : DownloadManager) (f p max : ℕ) (name : Bytes)
      → Ready peer f p name max m
      → f < invalid_file_id
      → AreBlocks max room bs
      → c.pending s ≡ wire f bs ++ encode (msg_file_data_send_end ∷ f ∷ [])
      → (m1 : DownloadManager) × (s1 : c.Stream) × (m2 : DownloadManager) × (s2 : c.Stream)
        × (arrive now room peer (length bs) s m ≡ some (m1, s1))
        × (end_file_data_send c now peer s1 m1 ≡ some (0, m2, s2))
        × (or_empty (lookup name m2.files) ≡ or_empty (lookup name m.files) ++ joined bs)
        × (get_download_rec f peer.sockfd m2.fd_id_map ≡ none)
        × Inv m2
        × (c.pending s2 ≡ [])
  arrive-completes now room peer bs s m f p max name h small fit there =
      let ending = encode (msg_file_data_send_end ∷ f ∷ []) in
      let (m1, s1, run, left, ready, file) =
        arrive-Ready now room peer bs s m f p max name ending h small fit there in
      let (m2, s2, ended, after, sound, kept, gone) =
        end_file_data_send-Ready now peer s1 m1 f p max name ready small
          (left ∙ sym (append-nil ending)) in
      (
        m1,
        s1,
        m2,
        s2,
        run,
        ended,
        ap (λ (fs : Dict Bytes Bytes). or_empty (lookup name fs)) kept ∙ file,
        gone,
        sound,
        after,
      )
