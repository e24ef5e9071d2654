-- ===== src/Message/Pipe.antt =====
-- A connection that holds what was written until it is read, for tests.
use neshare.Base.{
  ℕ, ◌≤◌, ◌≡◌, refl, true, ◌++◌, Option, none, some, arith, if◌then◌else◌, Bytes, length, take,
  drop, leb,
}
use neshare.Message.{Connection}

abbrev pub pipe_read : Bytes → ℕ → Option Bytes × Bytes
pipe_read s n = (if leb n (length s) then some (take n s) else none, drop n s)

pub pipe_read-there : (s : Bytes) (n : ℕ) → n ≤ length s → (pipe_read s n).0 ≡ some (take n s)
pipe_read-there s n there = ground (arith, there)

abbrev pub pipe : Connection
pipe = record {
  Stream = Bytes;
  pending = λ s. s;
  write_data = λ s bs. (true, s ++ bs);
  read_data = pipe_read;
  write_data-pending = λ s bs ok. refl;
  read_data-there = pipe_read-there;
  read_data-pending = λ s n there. refl;
}
