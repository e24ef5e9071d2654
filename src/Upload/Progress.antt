-- ===== src/Upload/Progress.antt =====
-- ne_client/nepeeruploadstatus.cpp: the progress of each upload.
use neshare.Base.{
  ℕ, true, false, ◌==◌, nat_key, if◌then◌else◌, Bytes, List, [], ◌∷◌, ◌++◌, add32, take,
}
use neshare.User.{TimeVal}
use neshare.Upload.{UploadStatus}
use neshare.Download.Names.{get_formatted_filename}

-- `addUploadStatusObj`, when there is memory for the object
unfoldable pub add_upload_status_obj :
    ℕ → ℕ → Bytes → TimeVal → List UploadStatus → List UploadStatus
add_upload_status_obj p total filename now objs =
    objs
    ++ record {
      upload_rec = p;
      current_bytes = 0;
      total_bytes = total;
      start_time = now;
      current_time = now;
      filename = take 256 (get_formatted_filename filename);
      complete = false;
      error = false;
      cancelled = false;
    }
      ∷ []

-- The first object of this record is changed.
unfoldable pub change_first :
    (UploadStatus → UploadStatus) → ℕ → List UploadStatus → List UploadStatus
change_first f p [] = []
change_first f p (o ∷ objs) = if o.upload_rec == p then f o ∷ objs else o ∷ change_first f p objs

-- `updateStatus`, whose result is not used
unfoldable pub update_status : ℕ → ℕ → TimeVal → List UploadStatus → List UploadStatus
update_status p buflen now =
    change_first
      (λ o. record o { current_bytes = add32 o.current_bytes buflen; current_time = now }) p

-- `removeStatusObj`
unfoldable pub remove_status_obj : ℕ → List UploadStatus → List UploadStatus
remove_status_obj p [] = []
remove_status_obj p (o ∷ objs) = if o.upload_rec == p then objs else o ∷ remove_status_obj p objs

-- `setComplete`
unfoldable pub set_complete : ℕ → List UploadStatus → List UploadStatus
set_complete = change_first (λ o. record o { complete = true })

-- `setCancelled`
unfoldable pub set_cancelled : ℕ → List UploadStatus → List UploadStatus
set_cancelled = change_first (λ o. record o { cancelled = true })

-- `setError`
unfoldable pub set_error : ℕ → List UploadStatus → List UploadStatus
set_error = change_first (λ o. record o { error = true })

-- `setPosition`
unfoldable pub set_position : ℕ → ℕ → List UploadStatus → List UploadStatus
set_position p position = change_first (λ o. record o { current_bytes = position }) p
