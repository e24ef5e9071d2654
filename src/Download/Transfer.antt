-- ===== src/Download/Transfer.antt =====
-- ne_client/nepeerdownloadmanager.cpp: the data that arrives for a download, its end, and the
-- cancelling of downloads; `discardSocketData` of ne_common/neutils.cpp.
use neshare.Base.{
  ℕ, zero, suc, ◌+◌, ◌-◌, ◌^◌, min, Bool, true, false, ◌&&◌, ◌||◌, not, ◌==◌, ltb, nat_key,
  bytes_key, if◌then◌else◌, Bytes, Option, none, some, List, [], ◌∷◌, ◌++◌, Dict, lookup, insert,
  take, length, is_empty, ◌>>=◌, known,
}
use neshare.User.{TimeVal}
use neshare.Message.{Connection}
use neshare.Message.FileData.{
  msg_file_data_send, invalid_file_id, get_word, read_file_data, recv_file_data_end,
}
use neshare.Download.{Peer, DownloadRec, DownloadStatus, DownloadManager, get_download_rec}
use neshare.Download.Progress.{update_status, set_complete, set_cancelled, set_error}
use neshare.Download.Records.{
  or_empty, output_file, remove_peer_download, was_recently_removed, report,
  call_registered_callback,
}

-- The download is marked, and the peer is told when `send_cancel_msg` is set.
unfoldable pub mark_cancelled : Bool → ℕ → DownloadRec → DownloadManager → DownloadManager
mark_cancelled send_cancel_msg p r m = record m {
  cancels_sent =
      if send_cancel_msg then m.cancels_sent ++ (r.peer.sockfd, r.file_id) ∷ [] else m.cancels_sent;
  status_objs = if m.registered then set_cancelled p m.status_objs else m.status_objs;
}

-- The records of one socket, up to the first with another address; is there one that fits?
unfoldable pub cancel_inner :
    Bool → ℕ → (DownloadRec → Bool) → Dict ℕ ℕ → DownloadManager → Option (Bool × DownloadManager)
cancel_inner send ip_addr fits [] m = some (false, m)
cancel_inner send ip_addr fits ((id, p) ∷ inner) m = lookup p m.recs >>= (λ r.
    if r.peer.ip_addr == ip_addr
    then cancel_inner send ip_addr fits inner (if fits r then mark_cancelled send p r m else m)
      >>= (λ rest. some (fits r || rest.0, rest.1))
    else some (false, m))

unfoldable pub cancel_outer :
    Bool
    → ℕ
    → (DownloadRec → Bool)
    → Dict ℕ (Dict ℕ ℕ)
    → DownloadManager
    → Option (Bool × DownloadManager)
cancel_outer send ip_addr fits [] m = some (false, m)
cancel_outer send ip_addr fits ((fd, inner) ∷ map) m =
    cancel_inner send ip_addr fits inner m >>= (λ one.
      cancel_outer send ip_addr fits map one.1 >>= (λ rest. some (one.0 || rest.0, rest.1)))

-- `cancelPeerDownload` with a file name: 0 when a download of it from that address is there
unfoldable pub cancel_by_name : Bool → ℕ → Bytes → DownloadManager → Option (ℕ × DownloadManager)
cancel_by_name send ip_addr filename m =
    cancel_outer send ip_addr (λ r. output_file m filename == r.filename) m.fd_id_map m
    >>= (λ done. some (if done.0 then 0 else 1, done.1))

-- `cancelPeerDownload` with a file id
unfoldable pub cancel_by_id : Bool → ℕ → ℕ → DownloadManager → Option (ℕ × DownloadManager)
cancel_by_id send ip_addr file_id m =
    cancel_outer send ip_addr (λ r. r.file_id == file_id) m.fd_id_map m
    >>= (λ done. some (if done.0 then 0 else 1, done.1))

-- The records of the objects with the cancelled flag
unfoldable pub finished_downloads : List DownloadStatus → List ℕ
finished_downloads [] = []
finished_downloads (o ∷ objs) =
    if o.cancelled then o.download_rec ∷ finished_downloads objs else finished_downloads objs

-- They are removed one at a time; the results are added up.
unfoldable pub remove_each : TimeVal → List ℕ → ℕ → DownloadManager → Option (ℕ × DownloadManager)
remove_each now [] ret m = some (ret, m)
remove_each now (p ∷ ps) ret m = lookup p m.recs >>= (λ r.
    remove_peer_download now r.file_id r.peer.sockfd m
    >>= (λ one. remove_each now ps (ret + one.0) one.1))

-- `removeCancelledDownloads`
unfoldable pub remove_cancelled_downloads : TimeVal → DownloadManager → Option DownloadManager
remove_cancelled_downloads now m =
    let finished = if m.registered then finished_downloads m.status_objs else [] in
    remove_each now finished 0 (if is_empty finished then m else report m) >>= (λ done. some done.1)

-- The records of this peer among those of its socket
unfoldable pub recs_of_peer : Peer → Dict ℕ ℕ → Dict ℕ DownloadRec → Option (List ℕ)
recs_of_peer peer [] recs = some []
recs_of_peer peer ((id, p) ∷ inner) recs = lookup p recs >>= (λ r.
    recs_of_peer peer inner recs
    >>= (λ ps. some (if r.peer.address == peer.address then p ∷ ps else ps)))

-- `removeAllPeerDownloads`: the results are added to 1.
unfoldable pub remove_all_peer_downloads :
    TimeVal → Peer → DownloadManager → Option (ℕ × DownloadManager)
remove_all_peer_downloads now peer m =
    recs_of_peer peer (or_empty (lookup peer.sockfd m.fd_id_map)) m.recs
    >>= (λ ps. remove_each now ps 1 m)

-- `fileExistsLocally`: the size of the file, 0 if there is none
unfoldable pub file_exists_locally : Bytes → DownloadManager → ℕ
file_exists_locally filename m = length (or_empty (lookup (output_file m filename) m.files))

-- `updateStatus` and the callback, if one is registered
unfoldable pub tell : TimeVal → ℕ → ℕ → DownloadManager → Option DownloadManager
tell now p buflen m =
    if m.registered
    then call_registered_callback now p false
        (record m { status_objs = (update_status p buflen now m.status_objs).1 })
    else some m

-- `fwrite` of the data, of which the disk takes at most `room` bytes; a short write cancels the
-- download.
unfoldable pub write_data : ℕ → DownloadRec → Bytes → DownloadManager → Option (ℕ × DownloadManager)
write_data room r bytes m =
    let contents = or_empty (lookup r.filename m.files) in
    let written = record m { files = insert r.filename (contents ++ take room bytes) m.files } in
    if ltb room (length bytes)
    then cancel_by_name false r.peer.ip_addr r.filename written >>= (λ done. some (1, done.1))
    else some (0, written)

-- What is done with the data, or when it cannot be read
unfoldable pub take_data :
    ℕ → ℕ → DownloadRec → Option Bytes → DownloadManager → Option (ℕ × DownloadManager)
take_data room p r (some bytes) m = write_data room r bytes m
take_data room p r none m =
    cancel_by_name false r.peer.ip_addr r.filename
      (record m { status_objs = set_error p m.status_objs })
    >>= (λ done. some (1, done.1))

-- The record stores the length that is announced, and the data is taken.
unfoldable pub receive :
    TimeVal
    → ℕ
    → ℕ
    → DownloadRec
    → ℕ
    → Option Bytes
    → DownloadManager
    → Option (ℕ × DownloadManager)
receive now room p r size bytes m =
    let r' = record r { buflen = size } in
    take_data room p r' bytes (record m { recs = insert p r' m.recs })
    >>= (λ done. tell now p size done.1 >>= (λ m'. some (done.0, m')))

-- The complete flag and the last call of the callback, if one is registered
unfoldable pub tell_complete : TimeVal → ℕ → ℕ → DownloadManager → Option DownloadManager
tell_complete now file_id sockfd m =
    if m.registered
    then elim (get_download_rec file_id sockfd m.fd_id_map) [
      | none ↦ some m
      | some p ↦
          call_registered_callback now p true
            (record m { status_objs = set_complete p m.status_objs })
    ]
    else some m

module _ (c : Connection) where
  -- The loop of `discardSocketData`, which ends when nothing is left or nothing can be read
  unfoldable pub discard_loop : ℕ → ℕ → c.Stream → c.Stream
  discard_loop zero left s = s
  discard_loop (suc fuel) left s =
      let (r, s') = c.read_data s (min 512 left) in
      let rest = discard_loop fuel (left - 512) s' in
      if left == 0 then s else if known r then rest else s'

  -- `discardSocketData`; a length that is negative as an `int` discards nothing.
  unfoldable pub discard_socket_data : ℕ → c.Stream → c.Stream
  discard_socket_data size s = if ltb size (2 ^ 31) then discard_loop size size s else s

  -- `getFileDataSend` after the three words, before the cancelled downloads are removed
  unfoldable pub dispatch_data :
      TimeVal
      → ℕ
      → Peer
      → ℕ × ℕ × ℕ
      → c.Stream
      → DownloadManager
      → Option (ℕ × DownloadManager × c.Stream)
  dispatch_data now room peer (type, file_id, size) s m =
      if type == msg_file_data_send && not (file_id == invalid_file_id)
      then elim (get_download_rec file_id peer.sockfd m.fd_id_map) [
        | some p ↦ lookup p m.recs >>= (λ r.
            let (bytes, s') = read_file_data c s size r.max_block_size in
            receive now room p r size bytes m >>= (λ done. some (done.0, done.1, s')))
        | none ↦
            let (recent, m') = was_recently_removed now file_id m in
            some (if recent == 0 then 1 else 0, m', discard_socket_data size s)
      ]
      else some (1, m, s)

  -- `getFileDataSend`
  unfoldable pub get_file_data_send :
      TimeVal → ℕ → Peer → c.Stream → DownloadManager → Option (ℕ × DownloadManager × c.Stream)
  get_file_data_send now room peer s m =
      let (type, s1) = get_word c s in
      let (file_id, s2) = get_word c s1 in
      let (size, s3) = get_word c s2 in
      dispatch_data now room peer (type, file_id, size) s3 m
      >>= (λ (ret, m', s'). remove_cancelled_downloads now m' >>= (λ m2. some (ret, m2, s')))

  -- `endFileDataSend`
  unfoldable pub end_file_data_send :
      TimeVal → Peer → c.Stream → DownloadManager → Option (ℕ × DownloadManager × c.Stream)
  end_file_data_send now peer s m =
      let (r, s') = recv_file_data_end c s in
      elim r [
        | none ↦ some (1, m, s')
        | some file_id ↦
            if file_id == invalid_file_id
            then some (1, m, s')
            else tell_complete now file_id peer.sockfd m >>= (λ m'.
              remove_peer_download now file_id peer.sockfd m'
              >>= (λ done. some (if done.0 == 0 then 0 else 1, done.1, s')))
      ]
