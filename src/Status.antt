-- ===== src/Status.antt =====
-- ne_server/neserverstatus.h and .cpp: the counters that every user manager shares. A call holds
-- the mutex from its first read to its last write. The `int` arguments are not negative.
use neshare.Base.{ℕ, add32, sub32}

pub record ServerStatus : Type 0 where
  pub total_num_users : ℕ
  pub total_num_user_files : ℕ
  pub total_sizeof_files_in_mb : ℕ

unfoldable pub new : ServerStatus
new = record { total_num_users = 0; total_num_user_files = 0; total_sizeof_files_in_mb = 0 }

unfoldable pub inc_num_users : ServerStatus → ℕ → ServerStatus
inc_num_users s n = record s { total_num_users = add32 s.total_num_users n }

unfoldable pub inc_num_user_files : ServerStatus → ℕ → ServerStatus
inc_num_user_files s n = record s { total_num_user_files = add32 s.total_num_user_files n }

unfoldable pub inc_total_sizeof_files_in_mb : ServerStatus → ℕ → ServerStatus
inc_total_sizeof_files_in_mb s n = record s {
  total_sizeof_files_in_mb = add32 s.total_sizeof_files_in_mb n;
}

unfoldable pub dec_num_users : ServerStatus → ℕ → ServerStatus
dec_num_users s n = record s { total_num_users = sub32 s.total_num_users n }

unfoldable pub dec_num_user_files : ServerStatus → ℕ → ServerStatus
dec_num_user_files s n = record s { total_num_user_files = sub32 s.total_num_user_files n }

unfoldable pub dec_total_sizeof_files_in_mb : ServerStatus → ℕ → ServerStatus
dec_total_sizeof_files_in_mb s n = record s {
  total_sizeof_files_in_mb = sub32 s.total_sizeof_files_in_mb n;
}
