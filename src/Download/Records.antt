-- ===== src/Download/Records.antt =====
-- ne_client/nepeerdownloadmanager.cpp: `isFileBeingDownloaded`, `addPeerDownload`,
-- `removePeerDownload`, `wasRecentlyRemoved` and `callRegisteredCallback`.
use neshare.Base.{
  ℕ, ◌+◌, ◌/◌, ◌%◌, Bool, true, ◌==◌, nat_key, bytes_key, if◌then◌else◌, Bytes, Option, none, some,
  List, [], ◌∷◌, ◌++◌, Dict, lookup, insert, remove, known, length, is_empty, ◌>>=◌,
}
use neshare.User.{TimeVal, time_zero, timer_after, seconds_from}
use neshare.Download.{Peer, DownloadRec, DownloadStatus, DownloadManager, get_download_rec}
use neshare.Download.Names.{get_formatted_output_filename}
use neshare.Download.Progress.{add_download_status_obj, set_position, remove_status_obj}

-- A map that has nothing for a key is the empty one.
abbrev pub or_empty {ℓ} : {A : Type ℓ} → Option (List A) → List A
or_empty none = []
or_empty (some xs) = xs

-- `m_fdIDMap[sockfd][fileID] = downloadRec`
unfoldable pub put_rec : ℕ → ℕ → ℕ → Dict ℕ (Dict ℕ ℕ) → Dict ℕ (Dict ℕ ℕ)
put_rec file_id sockfd p map = insert sockfd (insert file_id p (or_empty (lookup sockfd map))) map

-- The inner map without the download, or nothing in its place when it was the last
unfoldable pub drop_rec : ℕ → ℕ → Dict ℕ ℕ → Dict ℕ (Dict ℕ ℕ) → Dict ℕ (Dict ℕ ℕ)
drop_rec file_id sockfd inner map =
    if is_empty (remove file_id inner)
    then remove sockfd map
    else insert sockfd (remove file_id inner) map

unfoldable pub output_file : DownloadManager → Bytes → Bytes
output_file m filename = m.save_path ++ get_formatted_output_filename filename

-- `isFileBeingDownloaded`
unfoldable pub is_file_being_downloaded : ℕ → ℕ → Bytes → DownloadManager → Option ℕ
is_file_being_downloaded file_id sockfd filename m =
    elim (get_download_rec file_id sockfd m.fd_id_map) [
      | some p ↦ some p
      | none ↦ lookup filename m.filename_cache_map
    ]

-- A resumed file starts its status at the size that it has.
unfoldable pub started : ℕ → ℕ → Bytes → Bytes → TimeVal → List DownloadStatus → List DownloadStatus
started p filesize filename contents now objs =
    let added = add_download_status_obj p filesize filename now objs in
    if length contents == 0 then added else set_position p (length contents) added

-- `addPeerDownload`, when the file is open and there is memory for its record
unfoldable pub store_download :
    ℕ → ℕ → ℕ → ℕ → Peer → Bytes → TimeVal → DownloadManager → DownloadManager
store_download p file_id max_block_size filesize peer name now m =
    let contents = or_empty (lookup name m.files) in
    record m {
      fd_id_map = put_rec file_id peer.sockfd p m.fd_id_map;
      filename_cache_map = insert name p m.filename_cache_map;
      status_objs =
          if m.registered
          then started p filesize name contents now m.status_objs
          else m.status_objs;
      recs =
          insert p
            (record {
              file_id = file_id;
              max_block_size = max_block_size;
              peer = peer;
              buflen = 0;
              filename = name;
              next_callback_time = time_zero;
            })
            m.recs;
      files = insert name contents m.files;
    }

-- `fopen` with mode "a" creates a file that is not there.
abbrev created : Bytes → DownloadManager → DownloadManager
created name m = record m { files = insert name (or_empty (lookup name m.files)) m.files }

-- `addPeerDownload`. The answers of the system: does `fopen` open the file, does `fseek` succeed, the
-- address of the record if there is memory for it, and the time
unfoldable pub add_peer_download :
    Bool
    → Bool
    → Option ℕ
    → TimeVal
    → ℕ
    → ℕ
    → ℕ
    → Peer
    → Bytes
    → DownloadManager
    → ℕ × DownloadManager
add_peer_download opened sought allocated now file_id max_block_size filesize peer filename m =
    let name = output_file m filename in
    elim (is_file_being_downloaded file_id peer.sockfd name m) [
      | some p ↦ (1, m)
      | none ↦
          if opened
          then if sought
            then elim allocated [
              | none ↦ (1, created name m)
              | some p ↦ (0, store_download p file_id max_block_size filesize peer name now m)
            ]
            else (1, created name m)
          else (1, m)
    ]

-- The assertion that the name is in the cache, and the erasing of it
unfoldable pub erase_name : Bytes → Dict Bytes ℕ → Option (Dict Bytes ℕ)
erase_name name cache = if known (lookup name cache) then some (remove name cache) else none

-- The record is taken out of the maps, and its memory is freed; `none` when the assertion fails.
unfoldable pub erase_download :
    TimeVal → ℕ → ℕ → ℕ → DownloadRec → Dict ℕ ℕ → DownloadManager → Option (ℕ × DownloadManager)
erase_download now file_id sockfd p r inner m =
    erase_name r.filename m.filename_cache_map >>= (λ cache. some (
      0,
      record m {
        fd_id_map = drop_rec file_id sockfd inner m.fd_id_map;
        filename_cache_map = cache;
        file_id_removal_time_map =
            insert r.file_id (seconds_from now 10) m.file_id_removal_time_map;
        status_objs = if m.registered then remove_status_obj p m.status_objs else m.status_objs;
        recs = remove p m.recs;
      },
    ))

-- `removePeerDownload`; `none` is an access to a record that is gone or the failed assertion.
unfoldable pub remove_peer_download :
    TimeVal → ℕ → ℕ → DownloadManager → Option (ℕ × DownloadManager)
remove_peer_download now file_id sockfd m = elim (get_download_rec file_id sockfd m.fd_id_map) [
  | none ↦ some (1, m)
  | some p ↦ lookup p m.recs >>= (λ r. elim (lookup sockfd m.fd_id_map) [
    | none ↦ some (1, m)
    | some inner ↦
        if known (lookup file_id inner)
        then erase_download now file_id sockfd p r inner m
        else some (1, m)
  ])
]

-- `wasRecentlyRemoved`, which also forgets a time that has passed
unfoldable pub was_recently_removed : TimeVal → ℕ → DownloadManager → ℕ × DownloadManager
was_recently_removed now file_id m = elim (lookup file_id m.file_id_removal_time_map) [
  | none ↦ (0, m)
  | some until ↦
      if timer_after until now
      then (1, m)
      else (0, record m { file_id_removal_time_map = remove file_id m.file_id_removal_time_map })
]

-- The time before which the callback is not called again for a record: microseconds are given a
-- number of milliseconds.
unfoldable pub next_time : TimeVal → ℕ → TimeVal
next_time now delay = record { sec = now.sec + delay / 1000; usec = now.usec + delay % 1000 }

-- `(*m_fnptr)(&m_peerDownloadStatus)`
unfoldable pub report : DownloadManager → DownloadManager
report m = record m { reports = m.reports ++ m.status_objs ∷ [] }

-- `callRegisteredCallback` for a record
unfoldable pub call_registered_callback :
    TimeVal → ℕ → Bool → DownloadManager → Option DownloadManager
call_registered_callback now p force m = lookup p m.recs >>= (λ r.
    if (if force then true else timer_after now r.next_callback_time)
    then some (
        report (record m {
          recs =
              insert p (record r { next_callback_time = next_time now m.callback_time_delay })
                m.recs;
        }))
    else some m)
