-- ===== src/Download/Adding.antt =====
-- ne_client/nepeerdownloadmanager.cpp: `addPeerDownload` keeps the maps and the records together.
use neshare.Base.{
  ℕ, ◌≡◌, refl, sym, inl, inr, Bool, true, false, ◌&&◌, ◌==◌, nat_key, bytes_key, Option-cases,
  if◌then◌else◌, Bytes, Option, none, some, lookup, known,
}
use neshare.User.{TimeVal, time_zero}
use neshare.Download.{DownloadRec, DownloadManager, Peer, get_download_rec}
use neshare.Download.Records.{
  output_file, is_file_being_downloaded, add_peer_download, store_download,
}
use neshare.Download.Maps.{none-ne-some, get_download_rec-put_rec}
use neshare.Download.Consistent.{insert-Consistent}
use neshare.Download.Removal.{Inv}

unused :
    (f s : ℕ) (name : Bytes) (m : DownloadManager)
    → is_file_being_downloaded f s name m ≡ none
    → (get_download_rec f s m.fd_id_map ≡ none) × (lookup name m.filename_cache_map ≡ none)
unfolding is_file_being_downloaded
unused f s name m h = elim (Option-cases (get_download_rec f s m.fd_id_map)) [
  | inl e ↦ (e, rw (is_file_being_downloaded, e) at h)
  | inr (p, e) ↦ absurd (none-ne-some (sym (rw (is_file_being_downloaded, e) at h)))
]

store_download-Inv :
    (p f max size : ℕ) (peer : Peer) (name : Bytes) (now : TimeVal) (m : DownloadManager)
    → Inv m
    → lookup p m.recs ≡ none
    → is_file_being_downloaded f peer.sockfd name m ≡ none
    → Inv (store_download p f max size peer name now m)
unfolding store_download
store_download-Inv p f max size peer name now m h fresh idle =
    let (unfiled, unnamed) = unused f peer.sockfd name m idle in
    let r : DownloadRec = record {
      file_id = f;
      max_block_size = max;
      peer = peer;
      buflen = 0;
      filename = name;
      next_callback_time = time_zero;
    } in
    insert-Consistent p r h fresh unfiled unnamed

-- What `addPeerDownload` promises of what it returns and of the state after it
abbrev pub Added :
    Bool → Bool → Option ℕ → ℕ → Peer → Bytes → DownloadManager → ℕ × DownloadManager → Type 0
Added opened sought allocated f peer filename m (ret, m') =
    Inv m'
    × (ret ≡ (
        if known (is_file_being_downloaded f peer.sockfd (output_file m filename) m)
        then 1
        else if opened && (sought && known allocated)
        then 0
        else 1))
    × ((g t : ℕ)
        → get_download_rec g t m'.fd_id_map ≡ (
            if ret == 0 && (peer.sockfd == t && f == g)
            then allocated
            else get_download_rec g t m.fd_id_map))

store_download-filed :
    (p f max size : ℕ) (peer : Peer) (name : Bytes) (now : TimeVal) (m : DownloadManager) (g t : ℕ)
    → get_download_rec g t (store_download p f max size peer name now m).fd_id_map
      ≡ (if peer.sockfd == t && f == g then some p else get_download_rec g t m.fd_id_map)
unfolding store_download
store_download-filed p f max size peer name now m g t =
    get_download_rec-put_rec f peer.sockfd g t p m.fd_id_map

already :
    (opened sought : Bool) (allocated : Option ℕ) (now : TimeVal) (f max size : ℕ) (peer : Peer)
    (filename : Bytes) (m : DownloadManager)
    → Inv m
    → (q : ℕ) → is_file_being_downloaded f peer.sockfd (output_file m filename) m ≡ some q
    → Added opened sought allocated f peer filename m
        (add_peer_download opened sought allocated now f max size peer filename m)
unfolding add_peer_download
already opened sought allocated now f max size peer filename m h q e =
    rw (add_peer_download, e) (h, refl, λ g t. refl)

idle :
    (opened sought : Bool) (allocated : Option ℕ) (now : TimeVal) (f max size : ℕ) (peer : Peer)
    (filename : Bytes) (m : DownloadManager)
    → Inv m
    → ((p : ℕ) → allocated ≡ some p → lookup p m.recs ≡ none)
    → is_file_being_downloaded f peer.sockfd (output_file m filename) m ≡ none
    → Added opened sought allocated f peer filename m
        (add_peer_download opened sought allocated now f max size peer filename m)
unfolding add_peer_download
idle false sought allocated now f max size peer filename m h fresh e =
    rw (add_peer_download, e) (h, refl, λ g t. refl)
idle true false allocated now f max size peer filename m h fresh e =
    rw (add_peer_download, e) (h, refl, λ g t. refl)
idle true true none now f max size peer filename m h fresh e =
    rw (add_peer_download, e) (h, refl, λ g t. refl)
idle true true (some p) now f max size peer filename m h fresh e =
    let name = output_file m filename in
    let sound = store_download-Inv p f max size peer name now m h (fresh p refl) e in
    rw (add_peer_download, e)
      (sound, refl, λ g t. store_download-filed p f max size peer name now m g t)

-- In a sound state, with an address for the record that is not in use, the state after
-- `addPeerDownload` is sound. It returns 0 exactly when the file is not being downloaded, can be
-- opened and there is memory; then the record is found under its file id and socket, and else, as
-- for all other keys, what was found before.
pub add_peer_download-Inv :
    (opened sought : Bool) (allocated : Option ℕ) (now : TimeVal)
    (file_id max_block_size filesize : ℕ) (peer : Peer) (filename : Bytes) (m : DownloadManager)
    → Inv m
    → ((p : ℕ) → allocated ≡ some p → lookup p m.recs ≡ none)
    → Added opened sought allocated file_id peer filename m (
        add_peer_download opened sought allocated now file_id max_block_size filesize peer filename
          m)
add_peer_download-Inv opened sought allocated now f max size peer filename m h fresh =
    elim (Option-cases (is_file_being_downloaded f peer.sockfd (output_file m filename) m)) [
      | inr (q, e) ↦ already opened sought allocated now f max size peer filename m h q e
      | inl e ↦ idle opened sought allocated now f max size peer filename m h fresh e
    ]
