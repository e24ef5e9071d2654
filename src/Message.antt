-- ===== src/Message.antt =====
-- ne_common/nemsgcommon.h, nemsgconsts.h and the messages below: what goes over a connection. The
-- connection is an `ncSocket` of another library, so it is an interface: a stream with the bytes that
-- are still to be read. A header is a struct of 32-bit words in network order.
pub mod Wire
pub mod Numbers
pub mod Text
pub mod Entries
pub mod FileData
pub mod Signals
pub mod Notices
pub mod Acks
pub mod Pushes
pub mod SignalTrips
pub mod TextTrips
pub mod NoticeTrips
pub mod Pipe
mod Tests
use neshare.Base.{
  ℕ, zero, suc, ◌+◌, ◌*◌, ◌/◌, ◌%◌, ◌≤◌, ◌≡◌, Bool, true, List, [], ◌∷◌, ◌++◌, Option, none, some,
  Bytes, length, take, drop,
}

-- What the messages rely on of `ncSocket::writeData` and `readData`: data that is written can be
-- read, in order, and a read of what is there takes just that.
pub record Connection : Type 1 where
  pub Stream : Type 0
  pub pending : Stream → Bytes
  pub write_data : Stream → Bytes → Bool × Stream
  pub read_data : Stream → ℕ → Option Bytes × Stream
  pub write_data-pending :
      (s : Stream) (bs : Bytes)
      → (write_data s bs).0 ≡ true
      → pending (write_data s bs).1 ≡ pending s ++ bs
  pub read_data-there :
      (s : Stream) (n : ℕ) → n ≤ length (pending s) → (read_data s n).0 ≡ some (take n (pending s))
  pub read_data-pending :
      (s : Stream) (n : ℕ) → n ≤ length (pending s) → pending (read_data s n).1 ≡ drop n (pending s)

-- `htonl` of a word, as it lies in memory
unfoldable pub htonl : ℕ → Bytes
htonl n = n / 16777216 % 256 ∷ n / 65536 % 256 ∷ n / 256 % 256 ∷ n % 256 ∷ []

-- `ntohl` of the next word
unfoldable pub ntohl : Bytes → ℕ × Bytes
ntohl (a ∷ b ∷ c ∷ d ∷ bs) = (((a * 256 + b) * 256 + c) * 256 + d, bs)
ntohl bs = (0, [])

-- The words of a header, one after the other.
unfoldable pub encode : List ℕ → Bytes
encode [] = []
encode (w ∷ ws) = htonl w ++ encode ws

unfoldable pub decode : ℕ → Bytes → List ℕ
decode zero bs = []
decode (suc n) bs = let (w, rest) = ntohl bs in w ∷ decode n rest
