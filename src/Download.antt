-- ===== src/Download.antt =====
-- ne_client/nepeerdownloadmanager.h and .cpp, nepeerdownloadstatus.h and .cpp: the downloads of a
-- client. A record of a download is known by its address; the maps hold addresses, and `recs` is
-- what they point to. The time of day, the answers of fopen, malloc and fwrite are arguments. A
-- registered callback is told the status objects; `reports` lists what it was told, and
-- `cancels_sent` the sockets and file ids of the cancellations that were sent. The checksum
-- at the end of a download only makes the source print a warning, and is left out.
pub mod Names
pub mod Progress
pub mod Records
pub mod Transfer
pub mod Maps
pub mod Consistent
pub mod Removal
pub mod Adding
pub mod Updating
pub mod Arrival
pub mod Blocks
pub mod Completion
pub mod Sample
mod Tests
use neshare.Base.{ℕ, Bool, Bytes, List, Dict, Option, ◌>>=◌, lookup, nat_key}
use neshare.User.{TimeVal}

-- What is used of an `nePeer`: its own address in memory, the descriptor and the address of its
-- socket
pub record Peer : Type 0 where
  pub address : ℕ
  pub sockfd : ℕ
  pub ip_addr : ℕ

-- `PEER_DOWNLOAD_REC`; what its `fd` has written is in the file of its name.
pub record DownloadRec : Type 0 where
  pub file_id : ℕ
  pub max_block_size : ℕ
  pub peer : Peer
  pub buflen : ℕ
  pub filename : Bytes
  pub next_callback_time : TimeVal

-- `PEER_DOWNLOAD_STATUS`
pub record DownloadStatus : Type 0 where
  pub download_rec : ℕ
  pub current_bytes : ℕ
  pub total_bytes : ℕ
  pub start_time : TimeVal
  pub current_time : TimeVal
  pub filename : Bytes
  pub complete : Bool
  pub error : Bool
  pub cancelled : Bool

-- `nePeerDownloadManager`, with the records, the files on disk and what the callback was told
pub record DownloadManager : Type 0 where
  pub save_path : Bytes
  pub registered : Bool
  pub callback_time_delay : ℕ
  pub fd_id_map : Dict ℕ (Dict ℕ ℕ)
  pub filename_cache_map : Dict Bytes ℕ
  pub file_id_removal_time_map : Dict ℕ TimeVal
  pub status_objs : List DownloadStatus
  pub recs : Dict ℕ DownloadRec
  pub files : Dict Bytes Bytes
  pub cancels_sent : List (ℕ × ℕ)
  pub reports : List (List DownloadStatus)

-- `getDownloadRec`
unfoldable pub get_download_rec : ℕ → ℕ → Dict ℕ (Dict ℕ ℕ) → Option ℕ
get_download_rec file_id sockfd map = lookup sockfd map >>= (λ inner. lookup file_id inner)
