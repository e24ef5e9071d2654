-- ===== src/Upload/Sending.antt =====
-- ne_client/nepeeruploadmanager.cpp: `sendPeerData`, a round of data for each upload. A read gives
-- the next block, fewer bytes only at the end of the file, or fails and gives nothing.
use neshare.Base.{
  ℕ, Bool, true, false, ◌&&◌, not, ◌==◌, nat_key, if◌then◌else◌, Bytes, Option, some, List, [], ◌∷◌,
  ◌++◌, insert, length, take, drop, is_empty, add32, sub32, lookup, ◌>>=◌,
}
use neshare.Message.{Connection}
use neshare.Message.FileData.{send_file_data, send_file_data_end}
use neshare.User.{TimeVal}
use neshare.Upload.{UploadRec, UploadStatus, UploadManager}
use neshare.Upload.Progress.{set_complete, set_cancelled, set_error, update_status}
use neshare.Upload.Records.{Sockets, put_socket, call_registered_callback, finish, remove_finished}

abbrev pub max_resend_on_error_count : ℕ
max_resend_on_error_count = 5

-- The status object of a record is changed when a callback is registered.
unfoldable pub note : (List UploadStatus → List UploadStatus) → UploadManager → UploadManager
note change m = if m.registered then record m { status_objs = change m.status_objs } else m

-- The last call of the callback, if one is registered
unfoldable pub tell_last : TimeVal → UploadManager → UploadManager
tell_last now m = if m.registered then call_registered_callback now true m else m

unfoldable pub put_upload : ℕ → UploadRec → UploadManager → UploadManager
put_upload p r m = record m { recs = insert p r m.recs }

-- `fread` into the record
unfoldable pub read_block : Bool → UploadRec → UploadRec × Bytes
read_block fails r =
    let block = if fails then [] else take r.max_block_size r.rest in
    (record r { buflen = length block; rest = drop (length block) r.rest }, block)

-- An upload with too many errors is finished.
unfoldable pub give_up : TimeVal → ℕ → UploadRec → UploadManager → UploadManager
give_up now p r m =
    if r.error_count == max_resend_on_error_count
    then tell_last now
        (note (λ objs. update_status p r.buflen now (set_error p objs)) (finish p r m))
    else m

-- A block that was sent, and one that was not
unfoldable pub note_sent : TimeVal → ℕ → Bool → UploadRec → UploadManager → UploadManager
note_sent now p sent r m =
    if sent
    then (let r' = record r {
      bytes_remaining = sub32 r.bytes_remaining r.buflen;
      error_count = 0;
    } in
        give_up now p r' (
          note
            (λ objs.
              update_status p r.buflen now
                (if r'.bytes_remaining == 0 then set_complete p objs else objs))
            (put_upload p r' m)))
    else (let r' = record r { error_count = add32 r.error_count 1 } in
        let failed = record m { peer_errors = m.peer_errors ++ r.peer.address ∷ [] } in
        give_up now p r'
          (note (λ objs. update_status p r.buflen now (set_error p objs)) (put_upload p r' failed)))

-- The status of an upload whose file gives no more
unfoldable pub note_end : TimeVal → ℕ → UploadRec → UploadManager → UploadManager
note_end now p r m = tell_last now (
    note
      (λ objs.
        update_status p r.buflen now
          (if r.bytes_remaining == 0 then set_complete p objs else set_error p objs))
      (put_upload p r m))

-- The uploads that are marked as cancelled are finished.
unfoldable pub finish_cancelled : List (ℕ × Bool) → UploadManager → Option UploadManager
finish_cancelled [] m = some m
finish_cancelled ((p, cancelled) ∷ states) m = elim cancelled [
  | false ↦ finish_cancelled states m
  | true ↦ lookup p m.recs >>= (λ r.
      finish_cancelled states
        (finish p r (record m { status_objs = set_cancelled p m.status_objs })))
]

-- What follows the round: the callback is told, and the finished uploads are removed.
unfoldable pub after_round : TimeVal → UploadManager → Option UploadManager
after_round now m = finish_cancelled m.peer_upload_states m >>= (λ m'.
    let told =
      if m'.registered
      then call_registered_callback now (not (is_empty m'.finished_uploads)) m'
      else m' in
    remove_finished told.finished_uploads 0 told >>= (λ done. some done.1))

module _ (c : Connection) where
  -- The end of a file: its message is sent, and the upload is finished; a read that failed counts.
  unfoldable pub end_upload :
      TimeVal → Bool → ℕ → UploadRec → UploadManager → Sockets c → UploadManager × Sockets c
  end_upload now fails p r m k =
      let noted = note_end now p r m in
      let (ret, s) = send_file_data_end c (k r.peer.sockfd) r.file_id in
      let blamed =
        if ret == 0
        then noted
        else record noted { peer_errors = noted.peer_errors ++ r.peer.address ∷ [] } in
      if fails
      then (put_upload p (record r { error_count = add32 r.error_count 1 }) noted, k)
      else (finish p r blamed, put_socket c r.peer.sockfd s k)

  -- What is done with the block that was read
  unfoldable pub pass_block :
      TimeVal → Bool → ℕ → UploadRec → Bytes → UploadManager → Sockets c → UploadManager × Sockets c
  pass_block now fails p r block m k =
      let (ret, s) = send_file_data c (k r.peer.sockfd) r.file_id block in
      let k' = put_socket c r.peer.sockfd s k in
      if not (is_empty block)
      then (note_sent now p (ret == 0) r m, k')
      else if not (r.buflen == r.max_block_size) && not (r.buflen == 0xFFFFFFFF)
      then end_upload now fails p r m k
      else (let r' = record r { error_count = add32 r.error_count 1 } in
          (
            give_up now p r' (
                note (λ objs. update_status p r.buflen now (set_error p objs)) (put_upload p r' m)),
            k,
          ))

  -- The round of one upload
  unfoldable pub send_one :
      TimeVal → (ℕ → Bool) → ℕ → UploadManager → Sockets c → Option (UploadManager × Sockets c)
  send_one now fails p m k = lookup p m.recs >>= (λ r.
      let (r', block) = read_block (fails p) r in some (pass_block now (fails p) p r' block m k))

  -- The loop of a round
  unfoldable pub send_all :
      TimeVal → (ℕ → Bool) → List ℕ → UploadManager → Sockets c → Option (UploadManager × Sockets c)
  send_all now fails [] m k = some (m, k)
  send_all now fails (p ∷ uploads) m k =
      send_one now fails p m k >>= (λ one. send_all now fails uploads one.0 one.1)

  -- `sendPeerData`, with the uploads whose file cannot be read in this round
  unfoldable pub send_peer_data :
      TimeVal → (ℕ → Bool) → UploadManager → Sockets c → Option (UploadManager × Sockets c)
  send_peer_data now fails m k =
      send_all now fails m.uploads m k
      >>= (λ sent. after_round now sent.0 >>= (λ m'. some (m', sent.1)))
