-- ===== src/Upload/Records.antt =====
-- ne_client/nepeeruploadmanager.cpp: `isFileBeingUploaded`, `removePeerUpload`,
-- `removeAllPeerUploads`, `cancelPeerUpload` and `callRegisteredCallback`. `none` is an access to a
-- record that is gone.
use neshare.Base.{
  ℕ, ◌+◌, Bool, true, false, ◌&&◌, ◌||◌, ◌==◌, nat_key, bytes_key, if◌then◌else◌, Bytes, Option,
  none, some, List, [], ◌∷◌, ◌++◌, Dict, lookup, insert, remove, ◌>>=◌,
}
use neshare.Message.{Connection}
use neshare.Message.Signals.{send_file_data_cancel}
use neshare.User.{TimeVal, timer_after}
use neshare.Download.{Peer}
use neshare.Download.Records.{next_time}
use neshare.Upload.{UploadRec, UploadManager}
use neshare.Upload.Progress.{remove_status_obj, set_error}

-- `callRegisteredCallback`
unfoldable pub call_registered_callback : TimeVal → Bool → UploadManager → UploadManager
call_registered_callback now force m =
    if force || timer_after now m.next_callback_time
    then record m {
      next_callback_time = next_time now m.callback_time_delay;
      reports = m.reports ++ m.status_objs ∷ [];
    }
    else m

-- `isFileBeingUploaded`, on the list of uploads
unfoldable pub is_file_being_uploaded : Peer → Bytes → List ℕ → Dict ℕ UploadRec → Option Bool
is_file_being_uploaded peer filename [] recs = some false
is_file_being_uploaded peer filename (p ∷ uploads) recs = lookup p recs >>= (λ r.
    let later = is_file_being_uploaded peer filename uploads recs in
    if r.peer.address == peer.address && r.filename == filename then some true else later)

-- The test of an upload by its peer and file id
unfoldable pub is_upload : ℕ → ℕ → UploadRec → Bool
is_upload peer file_id r = r.peer.address == peer && r.file_id == file_id

-- The first upload with this peer and file id, if there is one
unfoldable pub find_upload : ℕ → ℕ → List ℕ → Dict ℕ UploadRec → Option (Option ℕ)
find_upload peer file_id [] recs = some none
find_upload peer file_id (p ∷ uploads) recs = lookup p recs >>= (λ r.
    let later = find_upload peer file_id uploads recs in
    if is_upload peer file_id r then some (some p) else later)

unfoldable pub erase_upload : ℕ → List ℕ → List ℕ
erase_upload p [] = []
erase_upload p (q ∷ uploads) = if q == p then uploads else q ∷ erase_upload p uploads

unfoldable pub erase_state : ℕ → List (ℕ × Bool) → List (ℕ × Bool)
erase_state p [] = []
erase_state p ((q, cancelled) ∷ states) =
    if q == p then states else (q, cancelled) ∷ erase_state p states

-- The upload is taken out of the lists, and its memory is freed.
unfoldable pub free_upload : ℕ → UploadManager → UploadManager
free_upload p m = record m {
  peer_upload_states = erase_state p m.peer_upload_states;
  uploads = erase_upload p m.uploads;
  status_objs = if m.registered then remove_status_obj p m.status_objs else m.status_objs;
  recs = remove p m.recs;
}

-- `removePeerUpload`
unfoldable pub remove_peer_upload : ℕ → ℕ → UploadManager → Option (ℕ × UploadManager)
remove_peer_upload peer file_id m =
    find_upload peer file_id m.uploads m.recs
    >>= (λ found. some (elim found [ none ↦ (1, m) | some p ↦ (0, free_upload p m) ]))

-- The finished uploads are removed one at a time; the results are added up.
unfoldable pub remove_finished : Dict ℕ ℕ → ℕ → UploadManager → Option (ℕ × UploadManager)
remove_finished [] ret m = some (ret, record m { finished_uploads = [] })
remove_finished ((id, p) ∷ finished) ret m = lookup p m.recs >>= (λ r.
    remove_peer_upload r.peer.address r.file_id m
    >>= (λ one. remove_finished finished (ret + one.0) one.1))

-- An upload is added to those that are finished.
unfoldable pub finish : ℕ → UploadRec → UploadManager → UploadManager
finish p r m = record m { finished_uploads = insert r.file_id p m.finished_uploads }

-- The uploads of a peer are finished, with an error.
unfoldable pub finish_all : Peer → List ℕ → UploadManager → Option UploadManager
finish_all peer [] m = some m
finish_all peer (p ∷ uploads) m = lookup p m.recs >>= (λ r. finish_all peer uploads (
    if r.peer.address == peer.address
    then finish p r (record m {
      status_objs = if m.registered then set_error p m.status_objs else m.status_objs;
    })
    else m))

-- `removeAllPeerUploads`
unfoldable pub remove_all_peer_uploads : Peer → UploadManager → Option (ℕ × UploadManager)
remove_all_peer_uploads peer m =
    finish_all peer m.uploads m >>= (λ m'. remove_finished m'.finished_uploads 0 m')

-- The states with the cancelled flag set for this upload; is there one?
unfoldable pub cancel_states :
    ℕ → ℕ → Dict ℕ UploadRec → List (ℕ × Bool) → Option (Bool × List (ℕ × Bool))
cancel_states peer file_id recs [] = some (false, [])
cancel_states peer file_id recs ((p, cancelled) ∷ states) = lookup p recs >>= (λ r.
    cancel_states peer file_id recs states >>= (λ rest.
      let hit = is_upload peer file_id r in some (hit || rest.0, (p, hit || cancelled) ∷ rest.1)))

module _ (c : Connection) where
  -- The connections by their descriptors
  abbrev pub Sockets : Type 0
  Sockets = ℕ → c.Stream

  unfoldable pub put_socket : ℕ → c.Stream → Sockets → Sockets
  put_socket fd s k t = if t == fd then s else k t

  -- `cancelPeerUpload`; an upload has one state, so the peer is told once.
  unfoldable pub cancel_peer_upload :
      Bool → Peer → ℕ → UploadManager → Sockets → Option (ℕ × UploadManager × Sockets)
  cancel_peer_upload send_cancel_msg peer file_id m k =
      cancel_states peer.address file_id m.recs m.peer_upload_states >>= (λ done. some (
        if done.0 then 0 else 1,
        record m { peer_upload_states = done.1 },
        if done.0 && send_cancel_msg
            then put_socket peer.sockfd (send_file_data_cancel c (k peer.sockfd) file_id).1 k
            else k,
      ))
