-- ===== src/UserManager/Tests.antt =====
-- A manager over file lists that are only their counters, with one user that logs in, is locked,
-- removed while it is locked, and unlocked.
use neshare.Base.{
  not, add32, List, ℕ, ◌≡◌, refl, sym, true, false, ◌&&◌, [], ◌∷◌, Option, none, some, ltb,
  if◌then◌else◌, nat_key, lookup, known, some-inj, length,
}
use neshare.DiskMem.{Answer}
use neshare.Status.{ServerStatus}
use neshare.Status
use neshare.User.{User, TimeVal, Socket, set_file_list_invalid, set_ping_time, set_status_time}
use neshare.User
use neshare.UserManager.Interface.{Catalog, sizeof_file_in_mb}
use neshare.UserManager.LifeLocks.{Inv}
use neshare.UserManager.Login.{log_in, reject_new_user, log_in-Inv}
use neshare.UserManager.Removal.{remove_user-Inv}
use neshare.UserManager.History.{Reach, Step, Reach-Inv}
use neshare.UserManager.Entries.{add_entry_to_user, store_entry, place_entry, count_entry}
use neshare.UserManager.Counters.{Counted, add_entry_to_user-Counted, remove_user-Counted}
use neshare.UserManager.{
  UserManager, Config, new, get_user, add_user, find_user, remove_entries_from_user, remove_user,
  mark_invalid, finish_removal, remove_entries_from_list, detach_user, find_in, matches_user,
  lock_user_life, unlock_user_life,
}

-- A file is its size, and a list is the number of its files with their megabytes.
abbrev totals : Catalog
totals = record {
  FileList = ℕ × ℕ;
  UserFile = ℕ;
  Shared = Unit {0};
  new_list = (0, 0);
  num_user_files = λ l. l.0;
  total_sizeof_user_files = λ l. l.1;
  make_file = λ s user name size os. (some size, s);
  filesize = λ f. f;
  drop_file = λ s f. s;
  add_user_file = λ s l f. (0, (add32 l.0 1, add32 l.1 (sizeof_file_in_mb f)), s);
  empty_list = λ s l. ((0, 0), s);
  remove_entries = λ s user l. (0, s);
  merge_entries = λ s user l. (0, s);
  filesize-make_file = λ s user name size os f e. some-inj (sym e);
  new_list-counts = (refl, refl);
  add_user_file-counts = λ s l f e. (refl, refl);
  add_user_file-fails = λ s l f e. absurd (e refl);
  empty_list-counts = λ s l. (refl, refl);
  remove_entries_succeeds = λ s user l. refl;
}

abbrev config : Config
config = record { user_ping_delay = 30; user_status_delay = 60; min_user_shared_file_limit = 0 }

abbrev now : TimeVal
now = record { sec = 1000; usec = 0 }

abbrev sock : Socket
sock = record { sockfd = 5; ip_addr = 0x0100007f }

abbrev guest : User
unfolding User.new User.initialize
guest = (User.initialize User.new (some sock) 6 60 0 4000 now).1

-- What a test computes with.
program : Unit {0}
unfolding new get_user add_user find_user remove_entries_from_user remove_user mark_invalid
    finish_removal lock_user_life remove_entries_from_list detach_user find_in matches_user
    unlock_user_life log_in reject_new_user guest set_file_list_invalid Status.new
program = tt

abbrev start : UserManager totals
start = new totals 2 Status.new tt

abbrev or_start : Option (ℕ × UserManager totals) → UserManager totals
or_start none = start
or_start (some r) = r.1

abbrev or_same : UserManager totals → Option (UserManager totals) → UserManager totals
or_same m none = m
or_same m (some r) = r

abbrev joined : UserManager totals
unfolding program
joined = or_start (log_in totals start 7 guest config now true)

abbrev locked : UserManager totals
unfolding joined
locked = or_same joined (lock_user_life totals joined 7)

abbrev removed : UserManager totals
unfolding locked
removed = or_start (remove_user totals locked 7)

abbrev gone : UserManager totals
unfolding removed
gone = or_same removed (unlock_user_life totals removed 7)

-- The object outlives its removal until the lock is given back.
life_of_7 :
    (known (lookup 7 removed.user_map) ≡ false)
    × (lookup 7 removed.user_lock_life_map ≡ some 0x80000001)
    × (known (lookup 7 removed.users) ≡ true)
    × (known (lookup 7 gone.users) ≡ false)
    × (gone.user_lock_life_map ≡ [])
unfolding gone
life_of_7 = (refl, refl, refl, refl, refl)

find_user_7 : find_user totals joined 0x0100007f 4000 5 ≡ some (some 7)
unfolding joined
find_user_7 = refl

joined-Reach : Reach totals joined []
unfolding joined
joined-Reach =
    Reach.next (Reach.starts 2 Status.new tt) (Step.adds 7 guest sock config now refl refl refl)

-- The parts of a removal, one after the other
abbrev marked : UserManager totals → UserManager totals
unfolding program
marked m = or_same m (mark_invalid totals m 7)

abbrev cleared : UserManager totals → UserManager totals
unfolding program
cleared m = or_start (remove_entries_from_user totals m 7)

abbrev raced : UserManager totals
unfolding joined
raced = or_start (remove_user totals joined 7)

-- Another thread removes the user that a login has just added.
raced-Reach : Reach totals raced []
unfolding raced
raced-Reach =
    Reach.next
      (Reach.next (Reach.next joined-Reach (Step.marks {m' = marked joined} 7 refl))
        (Step.removes_entries {m' = cleared (marked joined)} 7 0 refl))
      (Step.finishes 7 0 0 refl)

-- The thread of the login then accesses an object that is gone.
login_comes_late : mark_invalid totals raced 7 ≡ none
unfolding raced
login_comes_late = refl

abbrev held_7 : List ℕ
held_7 = 7 ∷ []

remove_user-Inv_example :
    (r : ℕ × UserManager totals) × (remove_user totals joined 7 ≡ some r)
    × Inv totals r.1 []
    × (known (lookup 7 r.1.user_map) ≡ false)
    × (r.0 ≡ (if known (lookup 7 joined.user_map) then 0 else 1))
    × (r.1.erased_accesses ≡ (
        if known (lookup 7 joined.user_map)
        then 7 ∷ joined.erased_accesses
        else joined.erased_accesses))
unfolding joined
remove_user-Inv_example = remove_user-Inv totals joined [] 7 refl (Reach-Inv totals joined-Reach)

log_in-Inv_example :
    (r : ℕ × UserManager totals) × (log_in totals joined 8 guest config now false ≡ some r)
    × Inv totals r.1 []
    × (known (lookup 8 r.1.user_map) ≡ (ltb (length joined.user_map) joined.max_users && false))
    × (r.1.erased_accesses ≡ (
        if ltb (length joined.user_map) joined.max_users && not false
        then 8 ∷ joined.erased_accesses
        else joined.erased_accesses))
unfolding joined
log_in-Inv_example =
    log_in-Inv totals joined [] 8 guest sock config now false refl refl
      (Reach-Inv totals joined-Reach)

joined-Counted : Counted totals Status.new joined
unfolding joined
joined-Counted = record { users = refl; files = refl; size = refl }

abbrev no_answer : Answer
no_answer = record { opened = none; mapped = none }

abbrev sharing : UserManager totals
unfolding joined add_entry_to_user store_entry place_entry count_entry
sharing = or_start (add_entry_to_user totals joined 7 (b'a' ∷ []) 3145728 no_answer)

add_entry_to_user-Counted_example : Counted totals Status.new sharing
unfolding sharing
add_entry_to_user-Counted_example =
    add_entry_to_user-Counted totals Status.new joined 7 (b'a' ∷ []) 3145728 no_answer
      {r = (0, sharing)} refl joined-Counted

sharing_counts : sharing.server_status.total_sizeof_files_in_mb ≡ 3
unfolding sharing
sharing_counts = refl

remove_user-Counted_example : Counted totals Status.new (or_start (remove_user totals sharing 7))
unfolding sharing
remove_user-Counted_example =
    remove_user-Counted totals Status.new sharing 7
      {r = (0, or_start (remove_user totals sharing 7))} refl add_entry_to_user-Counted_example
