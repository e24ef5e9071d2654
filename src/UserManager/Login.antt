-- ===== src/UserManager/Login.antt =====
-- The part of `processLoginMessage` (ne_server/neshareserverthreads.cpp) that concerns the manager,
-- and `rejectNewUser` (ne_server/neserverutils.cpp). Messages that are sent on the way change no
-- state; whether the login ack could be sent is an argument.
use neshare.Base.{
  refl, not, ◌∷◌, ℕ, ◌<◌, ◌≤◌, ◌≡◌, ◌∙◌, ◌⊎◌, inl, inr, Bool, true, ◌&&◌, List, Option, none, some,
  arith, ltb, ◌==◌, if◌then◌else◌, nat_key, nat_beq_iff, Dict, lookup, insert, remove, known, ◌>>=◌,
  IsDict, lookup-insert, lookup-remove, insert-IsDict, remove-IsDict, count, length, Bool-cases,
}
use neshare.Status.{inc_num_users}
use neshare.User.{User, Socket, TimeVal, set_file_list_invalid, set_ping_time, set_status_time}
use neshare.UserManager.Interface.{Catalog}
use neshare.UserManager.LifeLocks.{Inv, get_user-eq}
use neshare.UserManager.Removal.{remove_user-Inv}
use neshare.UserManager.{
  UserManager, Config, mark_invalid, finish_removal, get_user, add_user, remove_entries_from_user,
  remove_user,
}

module _ (c : Catalog) where
  unfoldable pub reject_new_user : UserManager c → ℕ → Option (UserManager c)
  reject_new_user m u = do
    (failed, m') ← remove_user c m u
    some (if failed == 0 then m' else record m' { users = remove u m'.users })

  -- A new object at `u`, added to the manager; 0 when it stays.
  unfoldable pub log_in :
      UserManager c → ℕ → User → Config → TimeVal → Bool → Option (ℕ × UserManager c)
  log_in m u user config now ack_sent = do
    (failed, m') ← add_user c (record m { users = insert u user m.users }) u config now
    let rejected : Option (ℕ × UserManager c) = do m'' ← reject_new_user m' u; some (1, m'')
    if failed == 0 && ack_sent then some (0, m') else rejected

  -- Only what the table of objects answers matters.
  pub same_users-Inv :
      (m : UserManager c) (holds : List ℕ) (users : Dict ℕ User)
      → IsDict users
      → ((j : ℕ) → lookup j users ≡ lookup j m.users)
      → Inv c m holds
      → Inv c (record m { users = users }) holds
  same_users-Inv m holds users d e v = record {
    users = d;
    map = v.map;
    life = v.life;
    few = v.few;
    entry = v.entry;
    alive = λ j. rw (e j) (v.alive j);
    sockets = λ j. rw (e j) (v.sockets j);
  }

  -- An object that is not there is in no map and has no lock.
  pub absent :
      (m : UserManager c) (holds : List ℕ) (u : ℕ)
      → lookup u m.users ≡ none
      → Inv c m holds
      → (lookup u m.user_map ≡ none) × (count u holds ≡ 0)
  absent m holds u e v = (ground (arith, v.alive u), ground (arith, v.alive u))

  pub add_user-Inv :
      (m : UserManager c) (holds : List ℕ) (u : ℕ) (user : User) (sock : Socket) (config : Config)
      (now : TimeVal)
      → lookup u m.users ≡ none
      → user.sock ≡ some sock
      → Inv c m holds
      → let m0 = record m { users = insert u user m.users } in
        (m' : UserManager c) × (((add_user c m0 u config now ≡ some (0, m'))
            × Inv c m' holds
            × (known (lookup u m'.user_map) ≡ true)
            × (m'.erased_accesses ≡ m.erased_accesses)
            × (length m.user_map < m.max_users))
          ⊎ ((add_user c m0 u config now ≡ some (1, m0)) × (m.max_users ≤ length m.user_map)))
  unfolding add_user get_user set_ping_time set_status_time
  add_user-Inv m holds u user sock config now e s v =
      let (unmapped, unlocked) = absent m holds u e v in
      let users = insert u user m.users in
      let user' =
        set_status_time (set_ping_time user now config.user_ping_delay) now
          config.user_status_delay in
      let look : lookup u users ≡ some user =
        ground (arith, lookup-insert u u user m.users, nat_beq_iff u u) in
      elim (Bool-cases (ltb (length m.user_map) m.max_users)) [
        | inr full ↦ (record m { users = users }, inr (rw look (rw s (rw full)), ground arith))
        | inl room ↦ (
          record m {
            users = insert u user' users;
            user_map = insert u c.new_list m.user_map;
            server_status = inc_num_users m.server_status 1;
          },
          inl (
            rw look (rw s (rw room (rw unmapped))),
            record {
              users = insert-IsDict u user' users (insert-IsDict u user m.users v.users);
              map = insert-IsDict u c.new_list m.user_map v.map;
              life = v.life;
              few = v.few;
              entry = λ j.
                  ground
                    (arith, v.entry j, lookup-insert u j c.new_list m.user_map, nat_beq_iff u j);
              alive = λ j. ground (
                arith,
                v.alive j,
                lookup-insert u j c.new_list m.user_map,
                lookup-insert u j user' users,
                lookup-insert u j user m.users,
                nat_beq_iff u j,
              );
              sockets = λ j. ground (
                arith,
                v.sockets j,
                lookup-insert u j user' users,
                lookup-insert u j user m.users,
                nat_beq_iff u j,
              );
            },
            ground (arith, lookup-insert u u c.new_list m.user_map, nat_beq_iff u u),
            refl,
            ground arith,
          ),
        )
      ]

  -- A user that could not be added is rejected without a trace but for its object, which goes.
  pub reject-absent :
      (m : UserManager c) (u : ℕ) (user : User) (sock : Socket)
      → IsDict m.users
      → lookup u m.users ≡ none
      → lookup u m.user_map ≡ none
      → user.sock ≡ some sock
      → (users : Dict ℕ User) × (reject_new_user (record m { users = insert u user m.users }) u
          ≡ some (record m { users = users }))
        × IsDict users
        × ((j : ℕ) → lookup j users ≡ lookup j m.users)
  unfolding reject_new_user remove_user mark_invalid finish_removal remove_entries_from_user
      set_file_list_invalid
  reject-absent m u user sock d e unmapped s =
      let users = insert u user m.users in
      let users' = insert u (set_file_list_invalid user) users in
      let look : lookup u users ≡ some user =
        ground (arith, lookup-insert u u user m.users, nat_beq_iff u u) in
      let look' : lookup u users' ≡ some (set_file_list_invalid user) =
        ground (arith, lookup-insert u u (set_file_list_invalid user) users, nat_beq_iff u u) in
      let m0 = record m { users = users } in
      let m1 = record m { users = users' } in
      let get = get_user-eq c m0 u user sock look s in
      let get' = get_user-eq c m1 u (set_file_list_invalid user) sock look' s in
      let d' =
        insert-IsDict u (set_file_list_invalid user) users (insert-IsDict u user m.users d) in
      (
        remove u users',
        rw get (rw get' (rw unmapped (rw unmapped))),
        remove-IsDict u users' d',
        λ j. ground (
          arith,
          e,
          nat_beq_iff u j,
          lookup-remove u j users' d',
          lookup-insert u j (set_file_list_invalid user) users,
          lookup-insert u j user m.users,
        ),
      )

  -- A login with a new object, when no other thread calls the manager in between, accesses no user
  -- object that is gone, keeps the invariant, and leaves the user in the map just when there is room
  -- and the acknowledgement could be sent. Just when it could not be sent although there was room,
  -- the list of the user is accessed after it was erased.
  pub log_in-Inv :
      (m : UserManager c) (holds : List ℕ) (u : ℕ) (user : User) (sock : Socket) (config : Config)
      (now : TimeVal) (ack_sent : Bool)
      → lookup u m.users ≡ none
      → user.sock ≡ some sock
      → Inv c m holds
      → (r : ℕ × UserManager c) × (log_in m u user config now ack_sent ≡ some r)
        × Inv c r.1 holds
        × (known (lookup u r.1.user_map) ≡ (ltb (length m.user_map) m.max_users && ack_sent))
        × (r.1.erased_accesses ≡ (
            if ltb (length m.user_map) m.max_users && not ack_sent
            then u ∷ m.erased_accesses
            else m.erased_accesses))
  unfolding log_in reject_new_user
  log_in-Inv m holds u user sock config now ack_sent e s v =
      let (m', added) = add_user-Inv m holds u user sock config now e s v in
      elim added [
        | inr (run, full) ↦
            let (users, gone, d, same) =
              reject-absent m u user sock v.users e (absent m holds u e v).0 s in
            (
              (1, record m { users = users }),
              rw run (rw gone),
              same_users-Inv m holds users d same v,
              ground (arith, (absent m holds u e v).0),
              ground (arith, full),
            )
        | inl (run, v', there, kept, room) ↦ elim (Bool-cases ack_sent) [
          | inl sent ↦ ((0, m'), rw run (rw sent), v', ground arith, rw sent (ground (arith, kept)))
          | inr lost ↦
              let here : known (lookup u m'.users) ≡ true = ground (arith, v'.alive u) in
              let (r, gone, v'', out, ret, erased) = remove_user-Inv c m' holds u here v' in
              let zero : r.0 ≡ 0 = ret ∙ rw there in
              (
                (1, r.1),
                rw run (rw lost (rw (gone, reject_new_user) (rw zero))),
                v'',
                out ∙ ground arith,
                erased ∙ rw there (ground (arith, kept, room, lost)),
              )
        ]
      ]
