-- ===== src/Upload/Tests.antt =====
-- Uploads of ne_client/nepeeruploadmanager.cpp on small states.
use neshare.Base.{
  replicate, ℕ, ◌≡◌, refl, true, false, nat_key, bytes_key, Bytes, List, [], ◌∷◌, ◌++◌, none, some,
  Option, lookup, length, arith,
}
use neshare.User.{time_zero}
use neshare.Message.Pipe.{pipe}
use neshare.Download.{DownloadManager, get_download_rec}
use neshare.Download.Records.{or_empty}
use neshare.Download.Removal.{Inv}
use neshare.Download.Transfer.{end_file_data_send}
use neshare.Download.Completion.{arrive}
use neshare.Download.Sample.{peer, file, begun, begun-Ready}
use neshare.Upload.{UploadRec, UploadManager}
use neshare.Upload.Records.{Sockets}
use neshare.Upload.Removal.{Sound, Removed, remove_peer_upload-Sound}
use neshare.Upload.WholeFile.{Sent, upload_rounds-arrive}
use neshare.Upload.Acknowledging.{Answers, verify_valid_upload_file}
use neshare.Upload.Adding.{Added, add_peer_upload-Sound}

-- Six bytes of a file are left, in blocks of four.
abbrev upload : UploadRec
upload = record {
  file_id = 6;
  max_block_size = 4;
  peer = peer;
  buflen = 0;
  rest = 3 ∷ 4 ∷ 5 ∷ 6 ∷ 7 ∷ 8 ∷ [];
  error_count = 0;
  bytes_remaining = 6;
  filename = b'b' ∷ [];
}

abbrev manager : UploadManager
manager = record {
  id = 7;
  callback_time_delay = 1000;
  next_callback_time = time_zero;
  registered = true;
  status_objs = [];
  uploads = 40 ∷ 50 ∷ [];
  finished_uploads = [];
  peer_upload_states = (40, false) ∷ (50, false) ∷ [];
  recs = (40, record upload { file_id = 5 }) ∷ (50, upload) ∷ [];
  peer_errors = [];
  reports = [];
}

abbrev quiet : Sockets pipe
quiet fd = []

manager-Sound : Sound manager
manager-Sound = record {
  dict = (refl, (refl, tt));
  held = (refl, (refl, tt));
  distinct = (refl, (refl, tt));
  states = refl;
}

upload_rounds-arrive_example :
    (bs : List Bytes) × (m' : UploadManager) × (k' : Sockets pipe) × Sent pipe time_zero 100 50
      upload manager quiet bs m' k'
    × (d1 : DownloadManager) × (s1 : Bytes) × (d2 : DownloadManager) × (s2 : Bytes) × (arrive pipe
          time_zero 100 peer
          (length bs)
          (k' 9)
          begun
        ≡ some (d1, s1))
    × (end_file_data_send pipe time_zero peer s1 d1 ≡ some (0, d2, s2))
    × (or_empty (lookup file d2.files) ≡ or_empty (lookup file begun.files) ++ upload.rest)
    × (get_download_rec 6 9 d2.fd_id_map ≡ none)
    × Inv d2
    × (s2 ≡ [])
upload_rounds-arrive_example =
    upload_rounds-arrive pipe (λ t bs. refl) time_zero 100 50 upload manager quiet peer 500 file
      begun (omega arith) (omega arith) (omega arith) refl refl (omega arith) begun-Ready

remove_peer_upload-Sound_example :
    (o : Option ℕ) × (result : ℕ × UploadManager) × Removed 1 6 manager o result
remove_peer_upload-Sound_example = remove_peer_upload-Sound 1 6 manager manager-Sound

abbrev answers : Answers
answers = record {
  real_filename = some (b'c' ∷ []);
  contents = some (1 ∷ 2 ∷ 3 ∷ []);
  opened = true;
  sought = true;
  md5checksum = replicate 16 7;
  address = 60;
  now = time_zero;
}

add_peer_upload-Sound_example :
    (valid : Option (Bytes × Bytes)) × (verify_valid_upload_file answers peer (b'c' ∷ []) manager
      ≡ some valid)
    × (result : ℕ × UploadManager × Sockets pipe) × Added pipe answers peer
        (b'c' ∷ [])
        0
        manager
        quiet
        valid
        result
add_peer_upload-Sound_example =
    add_peer_upload-Sound pipe answers peer (b'c' ∷ []) 0 manager quiet manager-Sound refl
