-- ===== src/User/Times.antt =====
-- When a user times out, and when a ping or a status message is due.
use neshare.Base.{ℕ, ◌+◌, ◌*◌, ◌<◌, ◌≤◌, ◌≡◌, ◌↔◌, refl, true, false, none, some, arith}
use neshare.User.{
  TimeVal, Socket, User, new, timer_after, seconds_from, initialize, reset_ttl, is_ttl_expired,
  is_ping_time, is_status_time, set_ping_time, set_status_time,
}

-- A time in microseconds.
abbrev pub micros : TimeVal → ℕ
micros t = t.sec * 1000000 + t.usec

timer_after_lem :
    (a b : TimeVal)
    → a.usec < 1000000
    → b.usec < 1000000
    → (timer_after a b ≡ true) ↔ (micros b < micros a)
unfolding timer_after
timer_after_lem a b h k = (λ e. ground arith, λ e. ground arith)

-- The comparison with a time that was set `s` seconds ahead.
timer-seconds :
    (now later : TimeVal) (s : ℕ)
    → now.usec < 1000000
    → later.usec < 1000000
    → (timer_after later (seconds_from now s) ≡ true) ↔ (micros now + s * 1000000 < micros later)
unfolding seconds_from
timer-seconds now later s h k =
    let (to, from) = timer_after_lem later (seconds_from now s) k h in
    (λ e. omega (arith, to e), λ e. from (omega arith))

-- After a reset a user times out exactly when more than its time to live has passed.
pub reset_ttl-expires :
    (u : User) (now later : TimeVal)
    → now.usec < 1000000
    → later.usec < 1000000
    → (is_ttl_expired (reset_ttl u now) later ≡ true)
      ↔ (micros now + u.original_ttl * 1000000 < micros later)
unfolding is_ttl_expired reset_ttl
reset_ttl-expires u now later h k = timer-seconds now later u.original_ttl h k

-- A ping is due exactly when more than the delay that was set has passed, and so is a status
-- message; setting one of the two times leaves the other as it was.
pub ping_and_status-due :
    (u : User) (now later : TimeVal) (s : ℕ)
    → now.usec < 1000000
    → later.usec < 1000000
    → let p = set_ping_time u now s in
      let q = set_status_time u now s in
      ((is_ping_time p later ≡ true) ↔ (micros now + s * 1000000 < micros later))
      × ((is_status_time q later ≡ true) ↔ (micros now + s * 1000000 < micros later))
      × (is_status_time p later ≡ is_status_time u later)
      × (is_ping_time q later ≡ is_ping_time u later)
unfolding is_ping_time is_status_time set_ping_time set_status_time
ping_and_status-due u now later s h k =
    (timer-seconds now later s h k, timer-seconds now later s h k, refl, refl)

-- A new user that is given a socket has a valid file list, takes messages, has no handler, has not
-- timed out while the time to live lasts, and is due for a ping and a status message at any time
-- after 0. Without a socket `initialize` fails and changes nothing.
initialize_lem :
    (s : Socket) (connection ttl firewall port : ℕ) (now later : TimeVal)
    → now.usec < 1000000
    → later.usec < 1000000
    → 0 < micros later
    → micros later ≤ micros now + ttl * 1000000
    → let (ret, u) = initialize new (some s) connection ttl firewall port now in
      (ret ≡ 0)
      × (u.sock ≡ some s)
      × (u.valid_file_list ≡ true)
      × (u.disconnecting ≡ false)
      × (u.affinity_value ≡ none)
      × (is_ttl_expired u later ≡ false)
      × (is_ping_time u later ≡ true)
      × (is_status_time u later ≡ true)
      × (initialize new none connection ttl firewall port now ≡ (1, new))
unfolding initialize new is_ttl_expired is_ping_time is_status_time
initialize_lem s connection ttl firewall port now later h k pos live =
    (refl, refl, refl, refl, refl, ground arith, ground arith, ground arith, refl)
