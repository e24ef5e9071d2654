-- ===== src/UserManager.antt =====
-- ne_server/neusermanager.h and .cpp: the users of one manager, their file lists, and the life locks
-- by which a thread keeps a user object alive. `removeUser` locks the mutex twice, so it is the
-- composition of its parts, between which other threads can run (UserManager/History);
-- `addEntryToUser` and the login are taken as runs with no other call in between.
-- Users are addresses into `users`, the objects that are allocated; `none` is an access to an object
-- that is gone, or a failed assertion on its socket. `removeUser` also empties a list that it has
-- erased, which is an access to freed memory: what that does is undefined, so it is recorded in
-- `erased_accesses`, and the model goes on as if it changed nothing.
pub mod Interface
pub mod LifeWord
pub mod LifeLocks
pub mod Removal
pub mod Login
pub mod History
pub mod Entries
pub mod Counters
mod Tests
use neshare.Base.{
  ℕ, zero, suc, ◌+◌, ◌%◌, ◌/◌, ◌^◌, Bool, true, false, ◌&&◌, List, [], ◌∷◌, Option, none, some, ltb,
  ◌==◌, if◌then◌else◌, nat_key, Bytes, Dict, lookup, insert, remove, keys, length, known, ◌>>=◌,
  not,
}
use neshare.DiskMem.{Answer}
use neshare.Status.{
  ServerStatus, inc_num_users, inc_num_user_files, inc_total_sizeof_files_in_mb, dec_num_users,
  dec_num_user_files, dec_total_sizeof_files_in_mb,
}
use neshare.User.{
  TimeVal, Socket, User, set_file_list_invalid, set_ping_time, set_status_time, is_ping_time,
  is_status_time,
}
use Interface.{Catalog, sizeof_file_in_mb}
use LifeWord.{ul_add_ref, ul_drop_ref, ul_set_delete_bit, ul_can_unlock_user, ul_can_delete_user}

-- The part of the configuration that the managers read.
pub record Config : Type 0 where
  pub user_ping_delay : ℕ
  pub user_status_delay : ℕ
  pub min_user_shared_file_limit : ℕ

-- The change that `lockUserLife` makes to its map.
lock_life : ℕ → Dict ℕ ℕ → Dict ℕ ℕ
unfolding ul_add_ref
lock_life u life = elim (lookup u life) [
  | none ↦ insert u 1 life
  | some w ↦ insert u (ul_add_ref w) life
]

module _ (c : Catalog) where
  open c use {FileList, Shared}

  -- `shared` and `status` stand for the global structures that the managers share.
  pub record UserManager : Type 0 where
    pub max_users : ℕ
    pub users : Dict ℕ User
    pub user_map : Dict ℕ FileList
    pub user_cache_map : Dict ℕ ℕ
    pub user_lock_life_map : Dict ℕ ℕ
    pub server_status : ServerStatus
    pub shared : Shared
    pub erased_accesses : List ℕ

  unfoldable pub new : ℕ → ServerStatus → Shared → UserManager
  new max_users status shared = record {
    max_users = max_users;
    users = [];
    user_map = [];
    user_cache_map = [];
    user_lock_life_map = [];
    server_status = status;
    shared = shared;
    erased_accesses = [];
  }

  -- An access to a user object whose socket is asserted.
  pub get_user : UserManager → ℕ → Option (User × Socket)
  get_user m u = do user ← lookup u m.users; sock ← user.sock; some (user, sock)

  -- `addUser`: 0 when the user was added.
  pub add_user : UserManager → ℕ → Config → TimeVal → Option (ℕ × UserManager)
  unfolding get_user set_ping_time set_status_time inc_num_users
  add_user m u config now = do
    (user, _) ← get_user m u
    some (
        if ltb (length m.user_map) m.max_users && not (known (lookup u m.user_map))
        then (
          0,
          record m {
            user_map = insert u c.new_list m.user_map;
            users =
                insert u
                  (set_status_time (set_ping_time user now config.user_ping_delay) now
                    config.user_status_delay)
                  m.users;
            server_status = inc_num_users m.server_status 1;
          },
        )
        else (1, m))

  -- The test of `findUser` on one user.
  matches_user : UserManager → ℕ → ℕ → ℕ → ℕ → Option Bool
  unfolding get_user
  matches_user m ip port id u = do
    (user, sock) ← get_user m u
    some (sock.sockfd == id && sock.ip_addr == ip && user.control_port == port)

  find_in : UserManager → ℕ → ℕ → ℕ → List ℕ → Option (Option ℕ)
  find_in m ip port id [] = some none
  find_in m ip port id (u ∷ us) =
      let rest = find_in m ip port id us in
      do hit ← matches_user m ip port id u; if hit then some (some u) else rest

  -- `findUser`: the first user of the map with this address, control port and descriptor.
  pub find_user : UserManager → ℕ → ℕ → ℕ → Option (Option ℕ)
  find_user m ip port id = find_in m ip port id (keys m.user_map)

  -- `removeEntriesFromUser` on the list that the user has.
  remove_entries_from_list : UserManager → ℕ → FileList → ℕ × UserManager
  unfolding dec_num_user_files dec_total_sizeof_files_in_mb
  remove_entries_from_list m u list =
      let status =
        dec_total_sizeof_files_in_mb (dec_num_user_files m.server_status (c.num_user_files list))
          (c.total_sizeof_user_files list) in
      let (failed, shared) = c.remove_entries m.shared u list in
      let (emptied, shared') = c.empty_list shared list in
      if failed == 0
      then (
        0,
        record m {
          server_status = status;
          shared = shared';
          user_map = insert u emptied m.user_map;
        },
      )
      else (1, record m { server_status = status; shared = shared })

  pub remove_entries_from_user : UserManager → ℕ → Option (ℕ × UserManager)
  remove_entries_from_user m u = do
    _ ← get_user m u
    elim (lookup u m.user_map) [
      | none ↦ some (1, m)
      | some list ↦ some (remove_entries_from_list m u list)
    ]

  -- The first part of `removeUser`, without the mutex
  pub mark_invalid : UserManager → ℕ → Option UserManager
  unfolding get_user set_file_list_invalid
  mark_invalid m u = do
    (user, _) ← get_user m u
    some (record m { users = insert u (set_file_list_invalid user) m.users })

  -- What the last part of `removeUser` does with a user that is in the map: its entry is erased, the
  -- erased list is accessed, and the object is deleted unless a life lock keeps it.
  detach_user : UserManager → ℕ → Socket → UserManager
  unfolding dec_num_users ul_set_delete_bit
  detach_user m u sock =
      let m' = record m {
        server_status = dec_num_users m.server_status 1;
        user_cache_map = remove sock.sockfd m.user_cache_map;
        user_map = remove u m.user_map;
        erased_accesses = u ∷ m.erased_accesses;
      } in
      elim (lookup u m.user_lock_life_map) [
        | none ↦ record m' { users = remove u m.users }
        | some w ↦ record m' {
          user_lock_life_map = insert u (ul_set_delete_bit w) m.user_lock_life_map;
        }
      ]

  -- The last part of `removeUser`, under the mutex: an object that is not in the map is not accessed.
  pub finish_removal : UserManager → ℕ → ℕ → Option (ℕ × UserManager)
  unfolding get_user detach_user
  finish_removal m u ret =
      let found : Option (ℕ × UserManager) =
        get_user m u >>= (λ r. some (0, detach_user m u r.1)) in
      if known (lookup u m.user_map) then found else some (ret, m)

  -- `removeUser` when no other thread comes between its parts
  pub remove_user : UserManager → ℕ → Option (ℕ × UserManager)
  unfolding mark_invalid remove_entries_from_user finish_removal
  remove_user m u = do
    m1 ← mark_invalid m u
    (ret, m2) ← remove_entries_from_user m1 u
    finish_removal m2 u ret

  -- `lockUserLife`
  pub lock_user_life : UserManager → ℕ → Option UserManager
  unfolding get_user lock_life
  lock_user_life m u = do
    _ ← get_user m u
    some (record m { user_lock_life_map = lock_life u m.user_lock_life_map })

  -- `unlockUserLife` on an entry: the object of a removed user is deleted with its last lock.
  release_life : UserManager → ℕ → ℕ → UserManager
  unfolding ul_drop_ref ul_can_delete_user ul_can_unlock_user
  release_life m u w =
      let w' = ul_drop_ref w in
      let life = remove u m.user_lock_life_map in
      if ul_can_delete_user w'
      then record m { user_lock_life_map = life; users = remove u m.users }
      else (if ul_can_unlock_user w'
          then record m { user_lock_life_map = life }
          else record m { user_lock_life_map = insert u w' m.user_lock_life_map })

  -- `unlockUserLife`
  pub unlock_user_life : UserManager → ℕ → Option UserManager
  unfolding get_user release_life
  unlock_user_life m u = do
    _ ← get_user m u
    elim (lookup u m.user_lock_life_map) [ none ↦ some m | some w ↦ some (release_life m u w) ]
