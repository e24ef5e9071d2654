-- ===== src/Download/Progress.antt =====
-- ne_client/nepeerdownloadstatus.cpp: the progress of each download, which other code reads by its
-- record.
use neshare.Base.{
  ℕ, true, false, ◌==◌, nat_key, if◌then◌else◌, Bytes, Option, none, some, List, [], ◌∷◌, ◌++◌,
  add32, take,
}
use neshare.User.{TimeVal}
use neshare.Download.{DownloadStatus}
use neshare.Download.Names.{get_formatted_filename}

abbrev pub max_data_len : ℕ
max_data_len = 256

-- `addDownloadStatusObj`, when there is memory for the object
unfoldable pub add_download_status_obj :
    ℕ → ℕ → Bytes → TimeVal → List DownloadStatus → List DownloadStatus
add_download_status_obj p total filename now objs =
    objs
    ++ record {
      download_rec = p;
      current_bytes = 0;
      total_bytes = total;
      start_time = now;
      current_time = now;
      filename = take max_data_len (get_formatted_filename filename);
      complete = false;
      error = false;
      cancelled = false;
    }
      ∷ []

-- The first object of this record is changed; the loops of the setters stop there.
unfoldable pub change_first :
    (DownloadStatus → DownloadStatus) → ℕ → List DownloadStatus → List DownloadStatus
change_first f p [] = []
change_first f p (o ∷ objs) = if o.download_rec == p then f o ∷ objs else o ∷ change_first f p objs

-- The object of this record
unfoldable pub find_status : ℕ → List DownloadStatus → Option DownloadStatus
find_status p [] = none
find_status p (o ∷ objs) = if o.download_rec == p then some o else find_status p objs

-- `updateStatus`: 0 when the record has an object
unfoldable pub update_status : ℕ → ℕ → TimeVal → List DownloadStatus → ℕ × List DownloadStatus
update_status p buflen now objs =
    let changed =
      change_first
        (λ o. record o { current_bytes = add32 o.current_bytes buflen; current_time = now }) p
        objs in
    (elim (find_status p objs) [ none ↦ 1 | some o ↦ 0 ], changed)

-- `removeStatusObj`
unfoldable pub remove_status_obj : ℕ → List DownloadStatus → List DownloadStatus
remove_status_obj p [] = []
remove_status_obj p (o ∷ objs) = if o.download_rec == p then objs else o ∷ remove_status_obj p objs

-- `setComplete`
unfoldable pub set_complete : ℕ → List DownloadStatus → List DownloadStatus
set_complete = change_first (λ o. record o { complete = true })

-- `setCancelled`
unfoldable pub set_cancelled : ℕ → List DownloadStatus → List DownloadStatus
set_cancelled = change_first (λ o. record o { cancelled = true })

-- `setError`
unfoldable pub set_error : ℕ → List DownloadStatus → List DownloadStatus
set_error = change_first (λ o. record o { error = true })

-- `setPosition`
unfoldable pub set_position : ℕ → ℕ → List DownloadStatus → List DownloadStatus
set_position p position = change_first (λ o. record o { current_bytes = position }) p
