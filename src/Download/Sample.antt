-- ===== src/Download/Sample.antt =====
-- A download of ne_client/nepeerdownloadmanager.cpp that has begun, for tests.
use neshare.Base.{refl, true, nat_key, bytes_key, Bytes, [], ◌∷◌, some}
use neshare.User.{time_zero}
use neshare.Download.{Peer, DownloadManager, get_download_rec}
use neshare.Download.Names.{get_formatted_output_filename, after_last, is_separator}
use neshare.Download.Progress.{add_download_status_obj, set_position, change_first}
use neshare.Download.Records.{
  put_rec, output_file, is_file_being_downloaded, add_peer_download, store_download, started,
}
use neshare.Download.Transfer.{finished_downloads}
use neshare.Download.Removal.{Inv}
use neshare.Download.Adding.{add_peer_download-Inv}
use neshare.Download.Arrival.{Ready}

abbrev pub peer : Peer
peer = record { address = 1; sockfd = 9; ip_addr = 77 }

abbrev pub start : DownloadManager
start = record {
  save_path = b't' ∷ b'/' ∷ [];
  registered = true;
  callback_time_delay = 1000;
  fd_id_map = [];
  filename_cache_map = [];
  file_id_removal_time_map = [];
  status_objs = [];
  recs = [];
  files = (b't' ∷ b'/' ∷ b'b' ∷ [], 1 ∷ 2 ∷ []) ∷ [];
  cancels_sent = [];
  reports = [];
}

-- The peer gives the name a/b; the file t/b is there with two bytes.
abbrev pub name : Bytes
name = b'a' ∷ b'/' ∷ b'b' ∷ []

abbrev pub file : Bytes
file = b't' ∷ b'/' ∷ b'b' ∷ []

pub start-Inv : Inv start
unfolding get_download_rec
start-Inv = record {
  maps = record { outer = tt; inner = λ s m h. cc };
  names = tt;
  addresses = tt;
  found = λ f s p h. cc;
  held = λ p r h. cc;
  cached = λ n p h. cc;
}

abbrev pub begun : DownloadManager
begun = (add_peer_download true true (some 500) time_zero 6 4 20 peer name start).1

pub begun-Inv : Inv begun
begun-Inv =
    (add_peer_download-Inv true true (some 500) time_zero 6 4 20 peer name start start-Inv
      (λ p h. refl)).0

pub begun-Ready : Ready peer 6 500 file 4 begun
unfolding set_position change_first get_download_rec add_peer_download is_file_being_downloaded
    store_download put_rec output_file get_formatted_output_filename after_last is_separator
    finished_downloads started add_download_status_obj
begun-Ready = record {
  sound = begun-Inv;
  filed = refl;
  open_rec = (
    record {
      file_id = 6;
      max_block_size = 4;
      peer = peer;
      buflen = 0;
      filename = file;
      next_callback_time = time_zero;
    },
    refl,
    refl,
    refl,
  );
  uncancelled = refl;
}
