-- ===== src/Upload/Acknowledging.antt =====
-- ne_client/nepeeruploadmanager.cpp: `addPeerUpload` with `verifyValidUploadFile` and the answers to
-- the peer.
use neshare.Base.{
  ℕ, Bool, false, ◌==◌, nat_key, if◌then◌else◌, Bytes, Option, none, some, [], ◌∷◌, ◌++◌, insert,
  length, take, drop, add32, sub32, ◌>>=◌,
}
use neshare.Message.{Connection}
use neshare.Message.Acks.{Ack, send_file_request_ack, send_file_resume_ack}
use neshare.User.{TimeVal}
use neshare.Download.{Peer}
use neshare.Upload.{UploadRec, UploadManager}
use neshare.Upload.Progress.{add_upload_status_obj, set_position}
use neshare.Upload.Records.{Sockets, put_socket, is_file_being_uploaded}

-- What the file manager, the file system and the allocator answer: the name of the file, its
-- contents if it is there, do `fopen` and `fseek` succeed, the checksum, the address of the record
pub record Answers : Type 0 where
  pub real_filename : Option Bytes
  pub contents : Option Bytes
  pub opened : Bool
  pub sought : Bool
  pub md5checksum : Bytes
  pub address : ℕ
  pub now : TimeVal

abbrev pub invalid_file_request : ℕ
invalid_file_request = 0xFFFFFFFF

-- The answer to a request that is refused; it names no file.
unfoldable pub refusal : Bytes → Ack
refusal sum = record {
  file_send_id = invalid_file_request;
  max_block_size = 0;
  filesize = 0;
  md5checksum = sum;
  filename = [];
}

-- `INVALID_MD5_CHECKSUM`
abbrev pub invalid_md5_checksum : Bytes
invalid_md5_checksum = 0 ∷ 0 ∷ 0 ∷ 0 ∷ 0 ∷ 0 ∷ 0 ∷ 0 ∷ 0 ∷ 0 ∷ 0 ∷ 0 ∷ 0 ∷ 0 ∷ 0 ∷ 0 ∷ []

-- `verifyValidUploadFile`: the name and the contents of the file
unfoldable pub verify_valid_upload_file :
    Answers → Peer → Bytes → UploadManager → Option (Option (Bytes × Bytes))
verify_valid_upload_file a peer filename m =
    is_file_being_uploaded peer filename m.uploads m.recs >>= (λ busy. some (
      if busy
      then none
      else a.real_filename >>= (λ name. a.contents >>= (λ bytes. some (name, bytes)))))

-- The new record, at this position of the file
unfoldable pub new_upload : ℕ → Peer → Bytes → ℕ → Bytes → UploadRec
new_upload id peer filename position bytes = record {
  file_id = id;
  max_block_size = 4096;
  peer = peer;
  buflen = 0;
  rest = drop position bytes;
  error_count = 0;
  bytes_remaining = sub32 (length bytes) position;
  filename = take 255 filename;
}

-- The upload is stored with its status, which starts at the position of a resumed one, and its state.
unfoldable pub store_upload :
    ℕ → UploadRec → ℕ → ℕ → Bytes → TimeVal → UploadManager → UploadManager
store_upload p r size position name now m =
    let added = add_upload_status_obj p size name now m.status_objs in
    record m {
      uploads = m.uploads ++ p ∷ [];
      recs = insert p r m.recs;
      status_objs =
          if m.registered
          then (if position == 0 then added else set_position p position added)
          else m.status_objs;
      peer_upload_states = m.peer_upload_states ++ (p, false) ∷ [];
    }

module _ (c : Connection) where
  -- The answer is that to a request or, behind the start of a file, to a resumption.
  unfoldable pub answer : ℕ → c.Stream → Ack → ℕ × c.Stream
  answer position s a =
      if position == 0 then send_file_request_ack c s a else send_file_resume_ack c s a

  -- `sendAck`, `sendRequestAck` and `sendResumeAck`: when the answer cannot be sent a refusal is tried.
  unfoldable pub send_answer : UploadRec → Bytes → ℕ → ℕ → Bytes → c.Stream → ℕ × c.Stream
  send_answer r sum position size filename s =
      let (ret, s') = answer position s (record {
        file_send_id = r.file_id;
        max_block_size = r.max_block_size;
        filesize = size;
        md5checksum = sum;
        filename = filename;
      }) in
      if ret == 0 then (0, s') else (ret, (answer position s' (refusal invalid_md5_checksum)).1)

  -- What is done with a file that is open
  unfoldable pub open_upload :
      Answers
      → Peer
      → Bytes
      → ℕ
      → Bytes
      → Bytes
      → UploadManager
      → Sockets c
      → ℕ × UploadManager × Sockets c
  open_upload a peer filename position name bytes m k =
      let r = new_upload m.id peer filename position bytes in
      let m' = record m { id = add32 m.id 1 } in
      let (ret, s) = send_answer r a.md5checksum position (length bytes) filename (k peer.sockfd) in
      let k' = put_socket c peer.sockfd s k in
      if a.sought
      then if ret == 0
        then (0, store_upload a.address r (length bytes) position name a.now m', k')
        else (1, m', k')
      else (1, m', k)

  -- `addPeerUpload`
  unfoldable pub add_peer_upload :
      Answers
      → Peer
      → Bytes
      → ℕ
      → UploadManager
      → Sockets c
      → Option (ℕ × UploadManager × Sockets c)
  add_peer_upload a peer filename position m k =
      verify_valid_upload_file a peer filename m >>= (λ valid. some (elim valid [
        | none ↦
            let refused = send_file_request_ack c (k peer.sockfd) (refusal invalid_md5_checksum) in
            (refused.0, m, put_socket c peer.sockfd refused.1 k)
        | some (name, bytes) ↦
            if a.opened then open_upload a peer filename position name bytes m k else (1, m, k)
      ]))
