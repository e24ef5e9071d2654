-- ===== src/Download/Arrival.antt =====
-- ne_client/nepeerdownloadmanager.cpp: the data of a file that is being downloaded arrives in it.
use neshare.Base.{
  add32, ℕ, ◌≤◌, ◌≡◌, refl, ap, ◌∙◌, inl, inr, Bool, true, false, ==_refl, ltb, nat_key, bytes_key,
  Bool-cases, if◌then◌else◌, Bytes, some, List, [], ◌∷◌, ◌++◌, lookup, insert, lookup-insert, take,
  take_all, length, arith,
}
use neshare.User.{TimeVal, timer_after}
use neshare.Download.{Peer, DownloadRec, DownloadStatus, DownloadManager, get_download_rec}
use neshare.Download.Progress.{change_first, update_status}
use neshare.Download.Records.{or_empty, next_time, report, call_registered_callback}
use neshare.Download.Updating.{update-Consistent}
use neshare.Download.Removal.{Inv}
use neshare.Download.Transfer.{finished_downloads, tell, write_data, take_data, receive}

-- The download with this file id from this peer has the record at `p`, which writes to `name` in
-- blocks of at most `max` bytes, and nothing is cancelled.
pub record Ready (peer : Peer) (f p : ℕ) (name : Bytes) (max : ℕ) (m : DownloadManager)
    : Type 0 where
  pub sound : Inv m
  pub filed : get_download_rec f peer.sockfd m.fd_id_map ≡ some p
  pub open_rec :
      (r : DownloadRec) × (lookup p m.recs ≡ some r)
      × (r.filename ≡ name)
      × (r.max_block_size ≡ max)
  pub uncancelled : finished_downloads m.status_objs ≡ []

finished_downloads-change :
    (g : DownloadStatus → DownloadStatus) (p : ℕ) (objs : List DownloadStatus)
    → ((o : DownloadStatus)
        → ((g o).cancelled ≡ o.cancelled) × ((g o).download_rec ≡ o.download_rec))
    → finished_downloads (change_first g p objs) ≡ finished_downloads objs
unfolding finished_downloads change_first
finished_downloads-change g p [] keep = refl
finished_downloads-change g p (o ∷ objs) keep =
    ground (arith, keep o, finished_downloads-change g p objs keep)

finished_downloads-update :
    (p size : ℕ) (now : TimeVal) (objs : List DownloadStatus)
    → finished_downloads (update_status p size now objs).1 ≡ finished_downloads objs
unfolding update_status
finished_downloads-update p size now objs =
    finished_downloads-change
      (λ o. record o { current_bytes = add32 o.current_bytes size; current_time = now }) p objs
      (λ o. (refl, refl))

write_data-whole :
    (room : ℕ) (r : DownloadRec) (name bytes : Bytes) (m : DownloadManager)
    → r.filename ≡ name
    → length bytes ≤ room
    → write_data room r bytes m
      ≡ some (0, record m { files = insert name (or_empty (lookup name m.files) ++ bytes) m.files })
unfolding write_data
write_data-whole room r name bytes m named fits =
    let whole : ltb room (length bytes) ≡ false = ground (arith, fits) in
    let all : take room bytes ≡ bytes = take_all room bytes fits in
    rw (write_data, whole, all, named) refl

quiet :
    (now : TimeVal) (p size : ℕ) (m : DownloadManager)
    → m.registered ≡ false
    → tell now p size m ≡ some m
unfolding tell
quiet now p size m off =
    ap
      (λ (b : Bool).
        if b
        then call_registered_callback now p false
            (record m { status_objs = (update_status p size now m.status_objs).1 })
        else some m)
      off

loud :
    (now : TimeVal) (p size : ℕ) (m : DownloadManager)
    → m.registered ≡ true
    → tell now p size m
      ≡ call_registered_callback now p false
          (record m { status_objs = (update_status p size now m.status_objs).1 })
unfolding tell
loud now p size m on =
    ap
      (λ (b : Bool).
        if b
        then call_registered_callback now p false
            (record m { status_objs = (update_status p size now m.status_objs).1 })
        else some m)
      on

module _ {peer : Peer} {f p : ℕ} {name : Bytes} {max : ℕ} where
  -- The record may change, but for its file id, its peer, its name and its block size.
  pub insert-Ready :
      (r r' : DownloadRec) (m : DownloadManager)
      → Ready peer f p name max m
      → lookup p m.recs ≡ some r
      → r.filename ≡ name
      → r.max_block_size ≡ max
      → r'.file_id ≡ r.file_id
      → r'.peer ≡ r.peer
      → r'.filename ≡ r.filename
      → r'.max_block_size ≡ r.max_block_size
      → Ready peer f p name max (record m { recs = insert p r' m.recs })
  insert-Ready r r' m h there named sized id same_peer same_name same_size = record {
    sound = update-Consistent p r r' h.sound there id same_peer same_name;
    filed = h.filed;
    open_rec =
        (r', lookup-insert p p r' m.recs ∙ rw ==_refl refl, same_name ∙ named, same_size ∙ sized);
    uncancelled = h.uncancelled;
  }

  pub tell-Ready :
      (now : TimeVal) (size : ℕ) (m : DownloadManager)
      → Ready peer f p name max m
      → (m' : DownloadManager) × (tell now p size m ≡ some m')
        × Ready peer f p name max m'
        × (m'.files ≡ m.files)
  unfolding tell call_registered_callback report
  tell-Ready now size m h =
      let (r, there, named, sized) = h.open_rec in
      let m1 : DownloadManager = record m {
        status_objs = (update_status p size now m.status_objs).1;
      } in
      let same = finished_downloads-update p size now m.status_objs in
      let h1 : Ready peer f p name max m1 = record {
        sound = h.sound;
        filed = h.filed;
        open_rec = h.open_rec;
        uncancelled = same ∙ h.uncancelled;
      } in
      elim (Bool-cases m.registered) [
        | inr off ↦ (m, quiet now p size m off, h, refl)
        | inl on ↦ elim (Bool-cases (timer_after now r.next_callback_time)) [
          | inl due ↦
              let r' : DownloadRec = record r {
                next_callback_time = next_time now m.callback_time_delay;
              } in
              let m2 : DownloadManager = record m1 { recs = insert p r' m.recs } in
              let h2 : Ready peer f p name max m2 =
                insert-Ready r r' m1 h1 there named sized refl refl refl refl in
              (
                report m2,
                loud now p size m on ∙ rw (call_registered_callback, there, due) refl,
                record {
                  sound = h2.sound;
                  filed = h2.filed;
                  open_rec = h2.open_rec;
                  uncancelled = h2.uncancelled;
                },
                refl,
              )
          | inr early ↦ (
            m1,
            loud now p size m on ∙ rw (call_registered_callback, there, early) refl,
            h1,
            refl,
          )
        ]
      ]

  -- A write that the disk takes whole, and the call of the callback
  pub receive-Ready :
      (now : TimeVal) (room size : ℕ) (bytes : Bytes) (r : DownloadRec) (m : DownloadManager)
      → Ready peer f p name max m
      → lookup p m.recs ≡ some r
      → r.filename ≡ name
      → r.max_block_size ≡ max
      → length bytes ≤ room
      → (m' : DownloadManager) × (receive now room p r size (some bytes) m ≡ some (0, m'))
        × Ready peer f p name max m'
        × (m'.files ≡ insert name (or_empty (lookup name m.files) ++ bytes) m.files)
  unfolding receive take_data
  receive-Ready now room size bytes r m h there named sized fits =
      let r' : DownloadRec = record r { buflen = size } in
      let m1 : DownloadManager = record m { recs = insert p r' m.recs } in
      let m2 : DownloadManager = record m1 {
        files = insert name (or_empty (lookup name m.files) ++ bytes) m.files;
      } in
      let h1 : Ready peer f p name max m1 =
        insert-Ready r r' m h there named sized refl refl refl refl in
      let h2 : Ready peer f p name max m2 = record {
        sound = h1.sound;
        filed = h1.filed;
        open_rec = h1.open_rec;
        uncancelled = h1.uncancelled;
      } in
      let wrote : write_data room r' bytes m1 ≡ some (0, m2) =
        write_data-whole room r' name bytes m1 named fits in
      let (m', told, ready, kept) = tell-Ready now size m2 h2 in
      (m', rw (receive, take_data, wrote, told) refl, ready, kept)
