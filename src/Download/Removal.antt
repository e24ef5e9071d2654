-- ===== src/Download/Removal.antt =====
-- ne_client/nepeerdownloadmanager.cpp: adding and removing downloads keeps the maps and the records
-- together.
use neshare.Base.{
  ==_refl, ℕ, ◌≡◌, refl, sym, ◌∙◌, inl, inr, ◌&&◌, ◌==◌, nat_key, bytes_key, nat_beq_iff,
  Bool-cases, Option-cases, if◌then◌else◌, none, some, Dict, lookup, insert, remove, lookup-insert,
  known, arith,
}
use neshare.User.{TimeVal, timer_after, seconds_from}
use neshare.Download.{DownloadRec, DownloadManager, get_download_rec}
use neshare.Download.Records.{
  drop_rec, erase_name, erase_download, remove_peer_download, was_recently_removed,
}
use neshare.Download.Progress.{remove_status_obj}
use neshare.Download.Maps.{none-ne-some, get_download_rec-drop_rec}
use neshare.Download.Consistent.{Consistent, erase-Consistent, named_rec}

abbrev pub Inv : DownloadManager → Type 0
Inv m = Consistent m.fd_id_map m.filename_cache_map m.recs

-- The state without a download
abbrev erased_manager : TimeVal → ℕ → DownloadRec → Dict ℕ ℕ → DownloadManager → DownloadManager
erased_manager now p r inner m = record m {
  fd_id_map = drop_rec r.file_id r.peer.sockfd inner m.fd_id_map;
  filename_cache_map = remove r.filename m.filename_cache_map;
  file_id_removal_time_map = insert r.file_id (seconds_from now 10) m.file_id_removal_time_map;
  status_objs = if m.registered then remove_status_obj p m.status_objs else m.status_objs;
  recs = remove p m.recs;
}

-- What `removePeerDownload` promises
abbrev pub Removed : TimeVal → ℕ → ℕ → DownloadManager → Type 0
Removed now file_id sockfd m =
    (result : ℕ × DownloadManager) × (remove_peer_download now file_id sockfd m ≡ some result)
    × Inv result.1
    × (result.1.files ≡ m.files)
    × (result.0 ≡ (if known (get_download_rec file_id sockfd m.fd_id_map) then 0 else 1))
    × ((g t : ℕ)
        → get_download_rec g t result.1.fd_id_map
          ≡ (if sockfd == t && file_id == g then none else get_download_rec g t m.fd_id_map))
    × ((later : TimeVal)
        → (was_recently_removed later file_id result.1).0 ≡ (
            if known (get_download_rec file_id sockfd m.fd_id_map)
            then if timer_after (seconds_from now 10) later then 1 else 0
            else (was_recently_removed later file_id m).0))

stays_unknown :
    (f s g t : ℕ) (m : DownloadManager)
    → get_download_rec f s m.fd_id_map ≡ none
    → get_download_rec g t m.fd_id_map
      ≡ (if s == t && f == g then none else get_download_rec g t m.fd_id_map)
stays_unknown f s g t m e = elim (Bool-cases (s == t && f == g)) [
  | inl hit ↦
      let sock : s ≡ t = ground (arith, hit, nat_beq_iff s t) in
      let file : f ≡ g = ground (arith, hit, nat_beq_iff f g) in rw (hit, sym sock, sym file) e
  | inr miss ↦ rw miss refl
]

erasing_unknown :
    (now : TimeVal) (f s : ℕ) (m : DownloadManager)
    → Inv m
    → get_download_rec f s m.fd_id_map ≡ none
    → Removed now f s m
unfolding remove_peer_download
erasing_unknown now f s m h e = (
  (1, m),
  rw (remove_peer_download, e) refl,
  h,
  refl,
  rw e refl,
  λ g t. stays_unknown f s g t m e,
  λ later. rw e refl,
)

erase_download-named :
    (now : TimeVal) (p : ℕ) (r : DownloadRec) (inner : Dict ℕ ℕ) (m : DownloadManager)
    → lookup r.filename m.filename_cache_map ≡ some p
    → erase_download now r.file_id r.peer.sockfd p r inner m
      ≡ some (0, erased_manager now p r inner m)
unfolding erase_download erase_name
erase_download-named now p r inner m named = rw (erase_download, erase_name, named) refl

remembered :
    (later : TimeVal) (f : ℕ) (until : TimeVal) (m : DownloadManager)
    → lookup f m.file_id_removal_time_map ≡ some until
    → (was_recently_removed later f m).0 ≡ (if timer_after until later then 1 else 0)
unfolding was_recently_removed
remembered later f until m there = elim (Bool-cases (timer_after until later)) [
  | inl e ↦ rw (was_recently_removed, there, e) refl
  | inr e ↦ rw (was_recently_removed, there, e) refl
]

erasing_known :
    (now : TimeVal) (p : ℕ) (r : DownloadRec) (m : DownloadManager)
    → Inv m
    → lookup p m.recs ≡ some r
    → Removed now r.file_id r.peer.sockfd m
unfolding remove_peer_download get_download_rec
erasing_known now p r m h there =
    let filed = h.held p r there in
    elim (Option-cases (lookup r.peer.sockfd m.fd_id_map)) [
      | inl e ↦ absurd (none-ne-some (rw e at filed))
      | inr (inner, e) ↦
          let inside : lookup r.file_id inner ≡ some p = rw e at filed in
          let named = named_rec p r h there in
          (
            (0, erased_manager now p r inner m),
            rw (remove_peer_download, filed, there, e, inside)
                (erase_download-named now p r inner m named),
            erase-Consistent p r inner h there e,
            refl,
            rw filed refl,
            λ g t. get_download_rec-drop_rec r.file_id r.peer.sockfd g t inner m.fd_id_map h.maps e,
            λ later.
                remembered later r.file_id (seconds_from now 10) (erased_manager now p r inner m) (
                  lookup-insert r.file_id r.file_id (seconds_from now 10) m.file_id_removal_time_map
                  ∙ rw ==_refl refl)
                ∙ rw filed refl,
          )
    ]

-- In a sound state, `removePeerDownload` ends without a failed assertion in a sound state; it returns
-- 0 exactly when the download is there, takes it and no other from the maps, leaves the files, and
-- has its file id count as recently removed for the ten seconds after.
pub remove_peer_download-Inv :
    (now : TimeVal) (file_id sockfd : ℕ) (m : DownloadManager)
    → Inv m
    → Removed now file_id sockfd m
remove_peer_download-Inv now f s m h = elim (Option-cases (get_download_rec f s m.fd_id_map)) [
  | inl e ↦ erasing_unknown now f s m h e
  | inr (p, e) ↦
      let (r, there, id, sock, _) = h.found f s p e in
      rw (sym id, sym sock) (erasing_known now p r m h there)
]
