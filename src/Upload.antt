-- ===== src/Upload.antt =====
-- ne_client/nepeeruploadmanager.h and .cpp, nepeeruploadstatus.h and .cpp: the uploads of a client. A
-- record of an upload is known by its address, and `recs` is what the addresses point to. What the
-- system and the file manager answer are arguments; what the callback was told is in `reports`, and
-- the peers whose error count was raised are in `peer_errors`.
pub mod Progress
pub mod Records
pub mod Acknowledging
pub mod Sending
pub mod Removal
pub mod Adding
pub mod Blocks
pub mod WholeFile
mod Tests
use neshare.Base.{ℕ, Bool, Bytes, List, Dict}
use neshare.User.{TimeVal}
use neshare.Download.{Peer}

-- `PEER_UPLOAD_REC`; `rest` is what `fread` has not read yet of `fd`.
pub record UploadRec : Type 0 where
  pub file_id : ℕ
  pub max_block_size : ℕ
  pub peer : Peer
  pub buflen : ℕ
  pub rest : Bytes
  pub error_count : ℕ
  pub bytes_remaining : ℕ
  pub filename : Bytes

-- `PEER_UPLOAD_STATUS`
pub record UploadStatus : Type 0 where
  pub upload_rec : ℕ
  pub current_bytes : ℕ
  pub total_bytes : ℕ
  pub start_time : TimeVal
  pub current_time : TimeVal
  pub filename : Bytes
  pub complete : Bool
  pub error : Bool
  pub cancelled : Bool

-- `nePeerUploadManager`; a state is the address of a record with the cancelled flag.
pub record UploadManager : Type 0 where
  pub id : ℕ
  pub callback_time_delay : ℕ
  pub next_callback_time : TimeVal
  pub registered : Bool
  pub status_objs : List UploadStatus
  pub uploads : List ℕ
  pub finished_uploads : Dict ℕ ℕ
  pub peer_upload_states : List (ℕ × Bool)
  pub recs : Dict ℕ UploadRec
  pub peer_errors : List ℕ
  pub reports : List (List UploadStatus)
