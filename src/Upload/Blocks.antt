-- ===== src/Upload/Blocks.antt =====
-- ne_client/nepeeruploadmanager.cpp: rounds of `sendPeerData` send a whole file, which arrives at the
-- peer that downloads it.
use neshare.Base.{
  ℕ, zero, suc, ◌+◌, ◌<◌, ◌≡◌, refl, ap, ◌∙◌, inl, inr, true, false, ◌==◌, ==_refl, nat_key,
  Bool-cases, if◌then◌else◌, Bytes, some, List, [], ◌∷◌, ◌++◌, lookup, lookup-insert, length, take,
  drop, length-take, is_empty, arith, sub32,
}
use neshare.User.{TimeVal}
use neshare.Message.{Connection, encode}
use neshare.Message.SignalTrips.{header_works}
use neshare.Message.TextTrips.{both_work}
use neshare.Message.Entries.{send_both-pending}
use neshare.Message.Numbers.{send_header-pending}
use neshare.Message.FileData.{
  msg_file_data_send_end, file_data_header, send_file_data, send_file_data_end,
}
use neshare.Upload.{UploadRec, UploadStatus, UploadManager}
use neshare.Upload.Progress.{update_status, set_complete, set_error}
use neshare.Upload.Records.{Sockets, put_socket, call_registered_callback, finish}
use neshare.Upload.Sending.{
  note, tell_last, put_upload, read_block, give_up, note_sent, note_end, end_upload, pass_block,
  send_one,
}

-- Nothing but the status objects changes.
note-kept :
    (f : List UploadStatus → List UploadStatus) (m : UploadManager)
    → ((note f m).recs ≡ m.recs)
      × ((note f m).finished_uploads ≡ m.finished_uploads)
      × ((note f m).peer_errors ≡ m.peer_errors)
unfolding note
note-kept f m = elim (Bool-cases m.registered) [
  | inl on ↦ rw on (refl, refl, refl)
  | inr off ↦ rw off (refl, refl, refl)
]

tell_last-kept :
    (now : TimeVal) (m : UploadManager)
    → ((tell_last now m).finished_uploads ≡ m.finished_uploads)
      × ((tell_last now m).peer_errors ≡ m.peer_errors)
unfolding tell_last call_registered_callback
tell_last-kept now m = elim (Bool-cases m.registered) [
  | inl on ↦ rw on (refl, refl)
  | inr off ↦ rw off (refl, refl)
]

-- The record after a block of it was sent
abbrev pub advanced : UploadRec → UploadRec
advanced r =
    let r' = (read_block false r).0 in
    record r' { bytes_remaining = sub32 r'.bytes_remaining r'.buflen; error_count = 0 }

note_sent-kept :
    (now : TimeVal) (p : ℕ) (r : UploadRec) (m : UploadManager)
    → let m' = note_sent now p true (read_block false r).0 m in
      (lookup p m'.recs ≡ some (advanced r)) × (m'.peer_errors ≡ m.peer_errors)
unfolding note_sent give_up put_upload
note_sent-kept now p r m =
    let r' = (read_block false r).0 in
    let (recs, _, errors) =
      note-kept
        (λ (objs : List UploadStatus).
          update_status p r'.buflen now
            (if (advanced r).bytes_remaining == 0 then set_complete p objs else objs))
        (put_upload p (advanced r) m) in
    (ap (lookup p) recs ∙ rw (lookup-insert p p (advanced r) m.recs, ==_refl) refl, errors)

note_end-kept :
    (now : TimeVal) (p : ℕ) (r : UploadRec) (m : UploadManager)
    → ((note_end now p r m).finished_uploads ≡ m.finished_uploads)
      × ((note_end now p r m).peer_errors ≡ m.peer_errors)
unfolding note_end put_upload
note_end-kept now p r m =
    let change = λ (objs : List UploadStatus).
      update_status p r.buflen now
        (if r.bytes_remaining == 0 then set_complete p objs else set_error p objs) in
    let (_, finished, errors) = note-kept change (put_upload p r m) in
    let (told, blamed) = tell_last-kept now (note change (put_upload p r m)) in
    (told ∙ finished, blamed ∙ errors)

not_empty : (xs : Bytes) → 0 < length xs → is_empty xs ≡ false
not_empty [] h = absurd (omega (arith, h))
not_empty (x ∷ xs) h = refl

take-none : (n : ℕ) → take {A = ℕ} n [] ≡ []
take-none zero = refl
take-none (suc n) = refl

take-whole : (n : ℕ) (xs : Bytes) → take (length (take n xs)) xs ≡ take n xs
take-whole zero xs = refl
take-whole (suc n) [] = refl
take-whole (suc n) (x ∷ xs) = ap (◌∷◌ x) (take-whole n xs)

pub take-drop : (n : ℕ) (xs : Bytes) → take n xs ++ drop (length (take n xs)) xs ≡ xs
take-drop zero xs = refl
take-drop (suc n) [] = refl
take-drop (suc n) (x ∷ xs) = ap (◌∷◌ x) (take-drop n xs)

pub length-drop :
    (n : ℕ) (xs : Bytes) → length xs ≡ length (take n xs) + length (drop (length (take n xs)) xs)
length-drop zero xs = omega arith
length-drop (suc n) [] = omega arith
length-drop (suc n) (x ∷ xs) = omega (arith, length-drop n xs)

module _ (c : Connection) (works : (t : c.Stream) (bs : Bytes) → (c.write_data t bs).0 ≡ true) where
  put_socket-there : (fd : ℕ) (s : c.Stream) (k : Sockets c) → put_socket c fd s k fd ≡ s
  unfolding put_socket
  put_socket-there fd s k = rw ==_refl refl

  data_goes :
      (s : c.Stream) (f : ℕ) (block : Bytes)
      → is_empty block ≡ false
      → let sent = send_file_data c s f block in
        (sent.0 ≡ 0)
        × (c.pending sent.1 ≡ c.pending s ++ (encode (file_data_header f (length block)) ++ block))
  unfolding send_file_data
  data_goes s f block some_block =
      let header = encode (file_data_header f (length block)) in
      let ok = both_work c s header block works in
      rw some_block (ok, send_both-pending c s header block ok)

  end_goes :
      (s : c.Stream) (f : ℕ)
      → let sent = send_file_data_end c s f in
        (sent.0 ≡ 0) × (c.pending sent.1 ≡ c.pending s ++ encode (msg_file_data_send_end ∷ f ∷ []))
  unfolding send_file_data_end
  end_goes s f =
      let ws = msg_file_data_send_end ∷ f ∷ [] in
      let ok = header_works c s ws (works s) in (ok, send_header-pending c s ws ok)

  -- A round that sends a block
  pub block_round :
      (now : TimeVal) (p : ℕ) (r : UploadRec) (m : UploadManager) (k : Sockets c)
      → lookup p m.recs ≡ some r
      → 0 < r.max_block_size
      → 0 < length r.rest
      → let block = take r.max_block_size r.rest in
        (m' : UploadManager) × (k' : Sockets c) × (send_one c now (λ q. false) p m k
          ≡ some (m', k'))
        × (lookup p m'.recs ≡ some (advanced r))
        × (m'.peer_errors ≡ m.peer_errors)
        × (c.pending (k' r.peer.sockfd)
            ≡ c.pending (k r.peer.sockfd)
              ++ (encode (file_data_header r.file_id (length block)) ++ block))
  unfolding send_one pass_block read_block
  block_round now p r m k held room more =
      let block = take r.max_block_size r.rest in
      let fd = r.peer.sockfd in
      let sized : 0 < length block =
        omega (arith, length-take r.max_block_size r.rest, room, more) in
      let some_block = not_empty block sized in
      let (ok, there) = data_goes (k fd) r.file_id block some_block in
      let s = (send_file_data c (k fd) r.file_id block).1 in
      let (kept, errors) = note_sent-kept now p r m in
      (
        note_sent now p true (read_block false r).0 m,
        put_socket c fd s k,
        rw (send_one, held, pass_block, some_block, ok) refl,
        kept,
        errors,
        ap c.pending (put_socket-there fd s k) ∙ there,
      )

  -- The round at the end of the file
  pub end_round :
      (now : TimeVal) (p : ℕ) (r : UploadRec) (m : UploadManager) (k : Sockets c)
      → lookup p m.recs ≡ some r
      → 0 < r.max_block_size
      → r.rest ≡ []
      → (m' : UploadManager) × (k' : Sockets c) × (send_one c now (λ q. false) p m k
          ≡ some (m', k'))
        × (lookup r.file_id m'.finished_uploads ≡ some p)
        × (m'.peer_errors ≡ m.peer_errors)
        × (c.pending (k' r.peer.sockfd)
            ≡ c.pending (k r.peer.sockfd) ++ encode (msg_file_data_send_end ∷ r.file_id ∷ []))
  unfolding send_one pass_block end_upload read_block finish
  end_round now p r m k held room done =
      let fd = r.peer.sockfd in
      let r' = (read_block false r).0 in
      let none_left : take r.max_block_size r.rest ≡ [] =
        ap (take r.max_block_size) done ∙ take-none r.max_block_size in
      let some_room : (0 == r.max_block_size) ≡ false = ground (arith, room) in
      let (ok, there) = end_goes (k fd) r.file_id in
      let s = (send_file_data_end c (k fd) r.file_id).1 in
      let noted = note_end now p r' m in
      let (finished, errors) = note_end-kept now p r' m in
      (
        finish p r' noted,
        put_socket c fd s k,
        rw (send_one, held, pass_block, none_left, some_room, end_upload, ok) refl,
        rw (lookup-insert r.file_id r.file_id p noted.finished_uploads, ==_refl) refl,
        errors,
        ap c.pending (put_socket-there fd s k) ∙ there,
      )
