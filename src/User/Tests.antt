-- ===== src/User/Tests.antt =====
-- A user with a time to live of 60 seconds.
use neshare.Base.{◌+◌, ◌*◌, ◌<◌, ◌≡◌, ◌↔◌, refl, true, some, arith}
use neshare.User.Times.{micros, reset_ttl-expires, ping_and_status-due}
use neshare.User.{
  TimeVal, Socket, User, new, initialize, reset_ttl, is_ttl_expired, is_ping_time, is_status_time,
  set_ping_time, set_status_time,
}

abbrev sock : Socket
sock = record { sockfd = 5; ip_addr = 0x0100007f }

abbrev noon : TimeVal
noon = record { sec = 43200; usec = 5 }

abbrev soon : TimeVal
soon = record { sec = 43259; usec = 999999 }

abbrev late : TimeVal
late = record { sec = 43260; usec = 6 }

abbrev guest : User
unfolding new initialize
guest = (initialize new (some sock) 6 60 0 4000 noon).1

guest_times_out : is_ttl_expired guest late ≡ true
unfolding guest is_ttl_expired
guest_times_out = refl

reset_ttl-expires_example :
    (is_ttl_expired (reset_ttl guest noon) late ≡ true)
    ↔ (micros noon + guest.original_ttl * 1000000 < micros late)
reset_ttl-expires_example = reset_ttl-expires guest noon late (omega arith) (omega arith)

ping_and_status-due_example :
    let p = set_ping_time guest noon 60 in
    let q = set_status_time guest noon 60 in
    ((is_ping_time p late ≡ true) ↔ (micros noon + 60 * 1000000 < micros late))
    × ((is_status_time q late ≡ true) ↔ (micros noon + 60 * 1000000 < micros late))
    × (is_status_time p late ≡ is_status_time guest late)
    × (is_ping_time q late ≡ is_ping_time guest late)
ping_and_status-due_example = ping_and_status-due guest noon late 60 (omega arith) (omega arith)
