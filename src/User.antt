-- ===== src/User.antt =====
-- ne_server/neuser.h and .cpp: one connected user. The time of day is an argument of the calls that
-- read it; seconds do not overflow. The socket is its descriptor and its address; the manager that
-- the user belongs to is known from where the user is kept.
pub mod Times
mod Tests
use neshare.Base.{
  ℕ, zero, suc, ◌+◌, Bool, true, false, Option, none, some, ltb, ◌==◌, if◌then◌else◌, nat_key,
}

-- `struct timeval`
pub record TimeVal : Type 0 where
  pub sec : ℕ
  pub usec : ℕ

-- What the server reads of an `ncSocket`.
pub record Socket : Type 0 where
  pub sockfd : ℕ
  pub ip_addr : ℕ

-- `affinity_value` is `none` for -1.
pub record User : Type 0 where
  pub connection : ℕ
  pub firewalled : ℕ
  pub control_port : ℕ
  pub error_count : ℕ
  pub original_ttl : ℕ
  pub affinity_value : Option ℕ
  pub disconnecting : Bool
  pub valid_file_list : Bool
  pub ttl : TimeVal
  pub ping_time : TimeVal
  pub status_time : TimeVal
  pub sock : Option Socket

abbrev pub time_zero : TimeVal
time_zero = record { sec = 0; usec = 0 }

-- `timercmp(a, b, >)`
unfoldable pub timer_after : TimeVal → TimeVal → Bool
timer_after a b = if a.sec == b.sec then ltb b.usec a.usec else ltb b.sec a.sec

unfoldable pub seconds_from : TimeVal → ℕ → TimeVal
seconds_from now s = record now { sec = now.sec + s }

unfoldable pub new : User
new = record {
  connection = 0;
  firewalled = 0;
  control_port = 0;
  error_count = 0;
  original_ttl = 0;
  affinity_value = none;
  disconnecting = false;
  valid_file_list = true;
  ttl = time_zero;
  ping_time = time_zero;
  status_time = time_zero;
  sock = none;
}

unfoldable pub reset_ttl : User → TimeVal → User
unfolding seconds_from
reset_ttl u now = record u { ttl = seconds_from now u.original_ttl }

unfoldable pub initialize : User → Option Socket → ℕ → ℕ → ℕ → ℕ → TimeVal → ℕ × User
unfolding reset_ttl
initialize u none connection ttl firewall port now = (1, u)
initialize u (some s) connection ttl firewall port now = (
  0,
  reset_ttl
      (record u {
        connection = connection;
        firewalled = firewall;
        control_port = port;
        error_count = 0;
        original_ttl = ttl;
        sock = some s;
        ttl = time_zero;
        ping_time = time_zero;
        status_time = time_zero;
      })
      now,
)

unfoldable pub is_ttl_expired : User → TimeVal → Bool
unfolding timer_after
is_ttl_expired u now = timer_after now u.ttl

unfoldable pub is_ping_time : User → TimeVal → Bool
unfolding timer_after
is_ping_time u now = timer_after now u.ping_time

unfoldable pub is_status_time : User → TimeVal → Bool
unfolding timer_after
is_status_time u now = timer_after now u.status_time

unfoldable pub set_ping_time : User → TimeVal → ℕ → User
unfolding seconds_from
set_ping_time u now s = record u { ping_time = seconds_from now s }

unfoldable pub set_status_time : User → TimeVal → ℕ → User
unfolding seconds_from
set_status_time u now s = record u { status_time = seconds_from now s }

unfoldable pub set_file_list_invalid : User → User
set_file_list_invalid u = record u { valid_file_list = false }

unfoldable pub set_disconnecting : User → User
set_disconnecting u = record u { disconnecting = true }

unfoldable pub set_affinity_value : User → Option ℕ → User
set_affinity_value u v = record u { affinity_value = v }

unfoldable pub increment_error_count : User → User
increment_error_count u = record u { error_count = u.error_count + 1 }
