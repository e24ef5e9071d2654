-- ===== src/UserManager/Counters.antt =====
-- The shared counters follow what the managers hold.
use neshare.Base.{
  ℕ, ◌+◌, ◌%◌, ◌≡◌, refl, ap, inl, inr, [], ◌∷◌, Option, none, some, arith, ◌==◌, nat_key,
  nat_beq_iff, lookup, insert, Dict, bind_const-eq-some, bind-eq-some, some-inj, sum_by,
  sum_by-insert_old, sum_by-remove, lookup-insert, Bool-cases, Option-cases, word, Bytes,
}
use neshare.DiskMem.{Answer}
use neshare.Status.{ServerStatus}
use neshare.User.{User, Socket, set_file_list_invalid}
use neshare.UserManager.Interface.{Catalog}
use neshare.UserManager.Entries.{
  count_entry, place_entry, store_entry, drop_entry, add_entry_to_user,
}
use neshare.UserManager.{
  UserManager, mark_invalid, finish_removal, get_user, remove_entries_from_list,
  remove_entries_from_user, detach_user, remove_user,
}

module _ (c : Catalog) where
  abbrev pub one_each : c.FileList → ℕ
  one_each l = 1

  -- The counters show `b`, what the other managers count, plus the users, files and megabytes of
  -- this manager, modulo 2^32.
  pub record Counted (b : ServerStatus) (m : UserManager c) : Type 0 where
    pub users :
        m.server_status.total_num_users ≡ (b.total_num_users + sum_by one_each m.user_map) % word
    pub files :
        m.server_status.total_num_user_files
        ≡ (b.total_num_user_files + sum_by c.num_user_files m.user_map) % word
    pub size :
        m.server_status.total_sizeof_files_in_mb
        ≡ (b.total_sizeof_files_in_mb + sum_by c.total_sizeof_user_files m.user_map) % word

  place_entry-Counted :
      (b : ServerStatus) (m : UserManager c) (u : ℕ) (shared : c.Shared) (file : c.UserFile)
      → Counted b m
      → Counted b (place_entry c m u shared file (c.filesize file) (lookup u m.user_map)).1
  unfolding place_entry count_entry drop_entry
  place_entry-Counted b m u shared file v = elim (Option-cases (lookup u m.user_map)) [
    | inl e ↦ rw (e, place_entry) (record { users = v.users; files = v.files; size = v.size })
    | inr (list, e) ↦
        let r = c.add_user_file shared list file in
        let list' = r.1 in
        let map = m.user_map in
        elim (Bool-cases (r.0 == 0)) [
          | inl ok ↦
              let (n, s) = c.add_user_file-counts shared list file (ground arith) in
              let one = sum_by-insert_old one_each u list' list map e in
              let files = sum_by-insert_old c.num_user_files u list' list map e in
              let size = sum_by-insert_old c.total_sizeof_user_files u list' list map e in
              rw (e, place_entry)
                (rw ok (record {
                  users = omega (arith, v.users);
                  files = omega (arith, v.files);
                  size = omega (arith, v.size);
                }))
          | inr bad ↦
              let same = c.add_user_file-fails shared list file (λ z. ground arith) in
              let one = sum_by-insert_old one_each u list' list map e in
              let files = sum_by-insert_old c.num_user_files u list' list map e in
              let size = sum_by-insert_old c.total_sizeof_user_files u list' list map e in
              rw (e, place_entry)
                (rw bad (record {
                  users = omega (arith, v.users);
                  files = omega (arith, v.files, ap c.num_user_files same);
                  size = omega (arith, v.size, ap c.total_sizeof_user_files same);
                }))
        ]
  ]

  shared-Counted :
      (b : ServerStatus) (m : UserManager c) (shared : c.Shared)
      → Counted b m
      → Counted b (record m { shared = shared })
  shared-Counted b m shared v = record { users = v.users; files = v.files; size = v.size }

  store_entry-Counted :
      (b : ServerStatus) (m : UserManager c) (u filesize : ℕ) (made : Option c.UserFile × c.Shared)
      → ((f : c.UserFile) → made.0 ≡ some f → c.filesize f ≡ filesize)
      → Counted b m
      → Counted b (store_entry c m u filesize made).1
  unfolding store_entry
  store_entry-Counted b m u filesize (none, shared) size v = shared-Counted b m shared v
  store_entry-Counted b m u filesize (some file, shared) size v =
      rw (← size file refl) (place_entry-Counted b m u shared file v)

  -- An entry that is added is counted once, with its size in megabytes, and an entry that is refused
  -- is not counted.
  pub add_entry_to_user-Counted :
      (b : ServerStatus) (m : UserManager c) (u : ℕ) (name : Bytes) (filesize : ℕ) (os : Answer)
      {r : ℕ × UserManager c}
      → add_entry_to_user c m u name filesize os ≡ some r
      → Counted b m
      → Counted b r.1
  unfolding add_entry_to_user
  add_entry_to_user-Counted b m u [] filesize os run v =
      rw (← bind_const-eq-some (get_user c m u) run) v
  add_entry_to_user-Counted b m u (x ∷ xs) filesize os run v =
      rw (← bind_const-eq-some (get_user c m u) run) (
        store_entry-Counted b m u filesize (c.make_file m.shared u (x ∷ xs) filesize os)
          (c.filesize-make_file m.shared u (x ∷ xs) filesize os) v)

  remove_entries_from_list-Counted :
      (b : ServerStatus) (m : UserManager c) (u : ℕ) (list : c.FileList)
      → lookup u m.user_map ≡ some list
      → Counted b m
      → Counted b (remove_entries_from_list c m u list).1
  unfolding remove_entries_from_list
  remove_entries_from_list-Counted b m u list e v =
      let emptied = (c.empty_list (c.remove_entries m.shared u list).1 list).0 in
      let (n, s) = c.empty_list-counts (c.remove_entries m.shared u list).1 list in
      let one = sum_by-insert_old one_each u emptied list m.user_map e in
      let files = sum_by-insert_old c.num_user_files u emptied list m.user_map e in
      let size = sum_by-insert_old c.total_sizeof_user_files u emptied list m.user_map e in
      rw (c.remove_entries_succeeds m.shared u list) (record {
        users = omega (arith, v.users);
        files = omega (arith, v.files);
        size = omega (arith, v.size);
      })

  detach_user-Counted :
      (b : ServerStatus) (m : UserManager c) (u : ℕ) (sock : Socket) (list : c.FileList)
      → lookup u m.user_map ≡ some list
      → c.num_user_files list ≡ 0
      → c.total_sizeof_user_files list ≡ 0
      → Counted b m
      → Counted b (detach_user c m u sock)
  unfolding detach_user
  detach_user-Counted b m u sock list e n s v =
      let one = sum_by-remove one_each u list m.user_map e in
      let files = sum_by-remove c.num_user_files u list m.user_map e in
      let size = sum_by-remove c.total_sizeof_user_files u list m.user_map e in
      record { users = ground arith; files = ground arith; size = ground arith }

  remove_entries_from_list-lookup :
      (m : UserManager c) (u : ℕ) (list : c.FileList)
      → (l : c.FileList) × (lookup u (remove_entries_from_list c m u list).1.user_map ≡ some l)
        × (c.num_user_files l ≡ 0)
        × (c.total_sizeof_user_files l ≡ 0)
  unfolding remove_entries_from_list
  remove_entries_from_list-lookup m u list =
      let shared = (c.remove_entries m.shared u list).1 in
      let emptied = (c.empty_list shared list).0 in
      let (n, s) = c.empty_list-counts shared list in
      (
        emptied,
        rw (c.remove_entries_succeeds m.shared u list)
            (ground (arith, lookup-insert u u emptied m.user_map, nat_beq_iff u u)),
        n,
        s,
      )

  users-Counted :
      (b : ServerStatus) (m : UserManager c) (users : Dict ℕ User)
      → Counted b m
      → Counted b (record m { users = users })
  users-Counted b m users v = record { users = v.users; files = v.files; size = v.size }

  -- After its entries are removed the user's list, if it has one, counts nothing.
  pub remove_entries_from_user-Counted :
      (b : ServerStatus) (m : UserManager c) (u : ℕ) (r : ℕ × UserManager c)
      → remove_entries_from_user c m u ≡ some r
      → Counted b m
      → Counted b r.1
        × ((l : c.FileList)
            → lookup u r.1.user_map ≡ some l
            → (c.num_user_files l ≡ 0) × (c.total_sizeof_user_files l ≡ 0))
  unfolding remove_entries_from_user
  remove_entries_from_user-Counted b m u r run v =
      let (_, _, rest) = bind-eq-some (get_user c m u) _ run in
      elim (Option-cases (lookup u m.user_map)) [
        | inl e ↦
            let same : (1, m) ≡ r = some-inj (rw e at rest) in rw (← same) (v, λ l f. ground arith)
        | inr (list, e) ↦
            let same : remove_entries_from_list c m u list ≡ r = some-inj (rw e at rest) in
            let (l', look, n, s) = remove_entries_from_list-lookup m u list in
            rw (← same) (
              remove_entries_from_list-Counted b m u list e v,
              λ l f. let eq : l' ≡ l = cc in rw (← eq) (n, s),
            )
      ]

  mark_invalid-Counted :
      (b : ServerStatus) (m : UserManager c) (u : ℕ) {m' : UserManager c}
      → mark_invalid c m u ≡ some m'
      → Counted b m
      → Counted b m'
  unfolding mark_invalid
  mark_invalid-Counted b m u run v =
      let ((user, _), _, rest) = bind-eq-some (get_user c m u) _ run in
      rw (← some-inj rest) (users-Counted b m (insert u (set_file_list_invalid user) m.users) v)

  finish_removal-Counted :
      (b : ServerStatus) (m : UserManager c) (u ret : ℕ) {r : ℕ × UserManager c}
      → finish_removal c m u ret ≡ some r
      → ((l : c.FileList)
          → lookup u m.user_map ≡ some l
          → (c.num_user_files l ≡ 0) × (c.total_sizeof_user_files l ≡ 0))
      → Counted b m
      → Counted b r.1
  unfolding finish_removal
  finish_removal-Counted b m u ret {r} run none_left v = elim (Option-cases (lookup u m.user_map)) [
    | inl e ↦ let same : (ret, m) ≡ r = some-inj (rw e at run) in rw (← same) v
    | inr (l, e) ↦
        let ((user, sock), _, last) = bind-eq-some (get_user c m u) _ (rw e at run) in
        let same : (0, detach_user c m u sock) ≡ r = some-inj last in
        let (n, s) = none_left l e in rw (← same) (detach_user-Counted b m u sock l e n s v)
  ]

  -- A user that is removed takes itself, its files and their megabytes from the counters, each once;
  -- the removal of a user that is not in the map changes no counter.
  pub remove_user-Counted :
      (b : ServerStatus) (m : UserManager c) (u : ℕ) {r : ℕ × UserManager c}
      → remove_user c m u ≡ some r
      → Counted b m
      → Counted b r.1
  unfolding remove_user
  remove_user-Counted b m u {r} run v =
      let (m1, marked, rest) = bind-eq-some (mark_invalid c m u) _ run in
      let (r2, ran, last) = bind-eq-some (remove_entries_from_user c m1 u) _ rest in
      let (v2, none_left) =
        remove_entries_from_user-Counted b m1 u r2 ran (mark_invalid-Counted b m u marked v) in
      finish_removal-Counted b r2.1 u r2.0 last none_left v2
