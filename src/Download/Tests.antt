-- ===== src/Download/Tests.antt =====
-- Downloads of ne_client/nepeerdownloadmanager.cpp on small states.
use neshare.Base.{
  ℕ, ◌⊎◌, ◌≡◌, refl, true, false, nat_key, bytes_key, if◌then◌else◌, Bytes, List, [], ◌∷◌, ◌++◌,
  none, some, lookup, arith, drop,
}
use neshare.User.{time_zero}
use neshare.Message.{encode}
use neshare.Message.Pipe.{pipe}
use neshare.Message.FileData.{msg_file_data_send_end}
use neshare.Download.{DownloadManager, get_download_rec}
use neshare.Download.Names.{
  get_formatted_output_filename, get_formatted_output_filename-plain, is_separator, has,
}
use neshare.Download.Records.{or_empty, add_peer_download}
use neshare.Download.Transfer.{end_file_data_send}
use neshare.Download.Removal.{Inv, Removed, remove_peer_download-Inv}
use neshare.Download.Adding.{Added, add_peer_download-Inv}
use neshare.Download.Completion.{wire, joined, arrive, arrive-completes}
use neshare.Download.Sample.{peer, start, name, file, start-Inv, begun, begun-Inv, begun-Ready}

add_peer_download-Inv_example :
    Added true true
      (some 500)
      6
      peer
      name
      start
      (add_peer_download true true (some 500) time_zero 6 4 20 peer name start)
add_peer_download-Inv_example =
    add_peer_download-Inv true true (some 500) time_zero 6 4 20 peer name start start-Inv
      (λ p h. refl)

remove_peer_download-Inv_example : Removed time_zero 6 9 begun
remove_peer_download-Inv_example = remove_peer_download-Inv time_zero 6 9 begun begun-Inv

abbrev blocks : List Bytes
blocks = (5 ∷ 6 ∷ 7 ∷ []) ∷ (8 ∷ []) ∷ []

arrive-completes_example :
    let s = wire 6 blocks ++ encode (msg_file_data_send_end ∷ 6 ∷ []) in
    (m1 : DownloadManager) × (s1 : Bytes) × (m2 : DownloadManager) × (s2 : Bytes) × (arrive pipe
        time_zero 100 peer 2 s begun
      ≡ some (m1, s1))
    × (end_file_data_send pipe time_zero peer s1 m1 ≡ some (0, m2, s2))
    × (or_empty (lookup file m2.files) ≡ or_empty (lookup file begun.files) ++ joined blocks)
    × (get_download_rec 6 9 m2.fd_id_map ≡ none)
    × Inv m2
    × (s2 ≡ [])
arrive-completes_example =
    arrive-completes pipe time_zero 100 peer blocks
      (wire 6 blocks ++ encode (msg_file_data_send_end ∷ 6 ∷ [])) begun 6 500 4 file begun-Ready
      (omega arith)
      (omega arith, omega arith, omega arith, (omega arith, omega arith, omega arith, tt)) refl

get_formatted_output_filename-plain_example :
    let stored = get_formatted_output_filename name in
    ((pre : Bytes) × (name ≡ pre ++ stored)
      × ((pre ≡ [])
          ⊎ ((q : Bytes) × (x b : ℕ) × (pre ≡ x ∷ (q ++ b ∷ [])) × (is_separator b ≡ true))))
    × (has is_separator (drop 1 stored) ≡ false)
    × (has is_separator stored
        ≡ (if has is_separator (drop 1 name) then false else has is_separator name))
get_formatted_output_filename-plain_example = get_formatted_output_filename-plain name
