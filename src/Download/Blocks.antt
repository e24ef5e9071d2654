-- ===== src/Download/Blocks.antt =====
-- ne_client/nepeerdownloadmanager.cpp: the blocks of a file arrive one after the other, and its end.
use neshare.Base.{
  ℕ, ◌≤◌, ◌<◌, ◌≡◌, refl, ap, ◌∙◌, Bool, true, false, ◌==◌, min, nat_key, bytes_key, if◌then◌else◌,
  Bytes, some, List, [], ◌++◌, lookup, insert, length, arith, ◌>>=◌, word, append_assoc,
}
use neshare.User.{TimeVal}
use neshare.Message.{Connection, htonl, encode}
use neshare.Message.Wire.{read_data-first, ntohl-htonl}
use neshare.Message.FileData.{
  msg_file_data_send, invalid_file_id, file_data_header, get_word, read_file_data,
}
use neshare.Download.{Peer, DownloadManager}
use neshare.Download.Records.{or_empty}
use neshare.Download.Transfer.{
  finished_downloads, remove_each, remove_cancelled_downloads, dispatch_data, get_file_data_send,
}
use neshare.Download.Arrival.{Ready, receive-Ready}

same_branches : (b : Bool) (xs : List ℕ) → (if b then xs else xs) ≡ xs
same_branches true xs = refl
same_branches false xs = refl

remove_cancelled_downloads-none :
    (now : TimeVal) (m : DownloadManager)
    → finished_downloads m.status_objs ≡ []
    → remove_cancelled_downloads now m ≡ some m
unfolding remove_cancelled_downloads remove_each
remove_cancelled_downloads-none now m h =
    rw (remove_cancelled_downloads, h, same_branches m.registered []) refl

module _ (c : Connection) where
  get_word-first :
      (s : c.Stream) (w : ℕ) (rest : Bytes)
      → w < word
      → c.pending s ≡ htonl w ++ rest
      → ((get_word c s).0 ≡ w) × (c.pending (get_word c s).1 ≡ rest)
  unfolding get_word htonl
  get_word-first s w rest small there =
      let (read, after) = read_data-first c s (htonl w) rest there in
      let read' : (c.read_data s 4).0 ≡ some (htonl w) = read in
      (rw read' (ap (λ (r : ℕ × Bytes). r.0) (ntohl-htonl w [] small)), after)

  -- The three words of a header
  dispatched :
      (now : TimeVal) (room : ℕ) (peer : Peer) (s : c.Stream) (m : DownloadManager) (f size : ℕ)
      (rest : Bytes)
      → f < word
      → size < word
      → c.pending s ≡ encode (file_data_header f size) ++ rest
      → (s' : c.Stream) × (c.pending s' ≡ rest)
        × (get_file_data_send c now room peer s m ≡ (
            dispatch_data c now room peer (msg_file_data_send, f, size) s' m
            >>= (λ (ret, m', t). remove_cancelled_downloads now m' >>= (λ m2. some (ret, m2, t)))))
  unfolding get_file_data_send encode file_data_header
  dispatched now room peer s m f size rest small_f small_size there =
      let type = htonl msg_file_data_send in
      let flat : c.pending s ≡ type ++ (htonl f ++ (htonl size ++ rest)) =
        there
        ∙ append_assoc type (htonl f ++ (htonl size ++ [])) rest
        ∙ ap (◌++◌ type) (
            append_assoc (htonl f) (htonl size ++ []) rest
            ∙ ap (◌++◌ (htonl f)) (append_assoc (htonl size) [] rest)) in
      let (w1, p1) =
        get_word-first s msg_file_data_send (htonl f ++ (htonl size ++ rest)) (omega arith) flat in
      let (w2, p2) = get_word-first (get_word c s).1 f (htonl size ++ rest) small_f p1 in
      let (w3, p3) = get_word-first (get_word c (get_word c s).1).1 size rest small_size p2 in
      ((get_word c (get_word c (get_word c s).1).1).1, p3, rw (get_file_data_send, w1, w2, w3) refl)

  -- A block of data
  pub get_file_data_send-Ready :
      (now : TimeVal) (room : ℕ) (peer : Peer) (s : c.Stream) (m : DownloadManager) (f p max : ℕ)
      (name bytes rest : Bytes)
      → Ready peer f p name max m
      → f < invalid_file_id
      → length bytes < word
      → length bytes ≤ max
      → length bytes ≤ room
      → c.pending s ≡ encode (file_data_header f (length bytes)) ++ (bytes ++ rest)
      → (m' : DownloadManager) × (s' : c.Stream) × (get_file_data_send c now room peer s m
          ≡ some (0, m', s'))
        × (c.pending s' ≡ rest)
        × Ready peer f p name max m'
        × (m'.files ≡ insert name (or_empty (lookup name m.files) ++ bytes) m.files)
  unfolding dispatch_data read_file_data
  get_file_data_send-Ready now room peer s m f p max name bytes rest h small size block fits there =
      let (s1, next, run) =
        dispatched now room peer s m f (length bytes) (bytes ++ rest) (omega (arith, small)) size
          there in
      let (r, found, named, sized) = h.open_rec in
      let (read, after) = read_data-first c s1 bytes rest next in
      let (m', received, ready, kept) =
        receive-Ready now room (length bytes) bytes r m h found named sized fits in
      let all : min (length bytes) r.max_block_size ≡ length bytes = omega (arith, block, sized) in
      let valid : (f == invalid_file_id) ≡ false = ground (arith, small) in
      let quiet_end = remove_cancelled_downloads-none now m' ready.uncancelled in
      (
        m',
        (c.read_data s1 (length bytes)).1,
        run
            ∙ rw
                (
                  dispatch_data, valid, h.filed, found, read_file_data, all, read, received,
                  quiet_end,
                )
                refl,
        after,
        ready,
        kept,
      )
