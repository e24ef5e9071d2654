-- ===== src/UserManager/Removal.antt =====
-- Removing a user: its entries, its place in the map, and the object unless a lock holds it.
use neshare.Base.{
  ap, Dict, ◌∷◌, ℕ, ◌/◌, ◌%◌, ◌+◌, ◌≡◌, refl, ◌∙◌, inl, inr, true, false, ◌&&◌, List, none, some,
  arith, ◌==◌, if◌then◌else◌, nat_key, nat_beq_iff, lookup, insert, remove, known, IsDict,
  lookup-insert, lookup-remove, insert-IsDict, remove-IsDict, count, Bool-cases, Option-cases,
}
use neshare.User.{User, Socket, set_file_list_invalid}
use neshare.UserManager.Interface.{Catalog}
use neshare.UserManager.LifeWord.{life_entry, user_life_dead}
use neshare.UserManager.{
  UserManager, mark_invalid, finish_removal, remove_entries_from_list, remove_entries_from_user,
  detach_user, remove_user,
}
use neshare.UserManager.LifeLocks.{Inv, get_user-usable, count-le-length}

module _ (c : Catalog) where
  -- An object that is there may be changed, but for its socket.
  set_user-Inv :
      (m : UserManager c) (holds : List ℕ) (u : ℕ) (user user' : User)
      → lookup u m.users ≡ some user
      → user'.sock ≡ user.sock
      → Inv c m holds
      → Inv c (record m { users = insert u user' m.users }) holds
  set_user-Inv m holds u user user' e s v = record {
    users = insert-IsDict u user' m.users v.users;
    map = v.map;
    life = v.life;
    few = v.few;
    entry = v.entry;
    alive = λ j. ground (arith, lookup-insert u j user' m.users, v.alive j, nat_beq_iff u j);
    sockets = λ j. ground (arith, lookup-insert u j user' m.users, v.sockets j, nat_beq_iff u j);
  }

  remove_entries_from_list-Inv :
      (m : UserManager c) (holds : List ℕ) (u : ℕ) (list : c.FileList)
      → known (lookup u m.user_map) ≡ true
      → Inv c m holds
      → let m' = (remove_entries_from_list c m u list).1 in
        Inv c m' holds
        × ((j : ℕ) → known (lookup j m'.user_map) ≡ known (lookup j m.user_map))
        × (m'.users ≡ m.users)
        × (m'.erased_accesses ≡ m.erased_accesses)
  unfolding remove_entries_from_list
  remove_entries_from_list-Inv m holds u list h v =
      let emptied = (c.empty_list (c.remove_entries m.shared u list).1 list).0 in
      let map' = insert u emptied m.user_map in
      let same : (j : ℕ) → known (lookup j map') ≡ known (lookup j m.user_map) =
        λ j. ground (arith, lookup-insert u j emptied m.user_map, nat_beq_iff u j) in
      rw (c.remove_entries_succeeds m.shared u list) (
        record {
          users = v.users;
          map = insert-IsDict u emptied m.user_map v.map;
          life = v.life;
          few = v.few;
          entry = λ j. rw (same j) (v.entry j);
          alive = λ j. rw (same j) (v.alive j);
          sockets = v.sockets;
        },
        same,
        refl,
        refl,
      )

  remove_entries_from_list-succeeds :
      (m : UserManager c) (u : ℕ) (list : c.FileList) → (remove_entries_from_list c m u list).0 ≡ 0
  unfolding remove_entries_from_list
  remove_entries_from_list-succeeds m u list = rw (c.remove_entries_succeeds m.shared u list)

  -- A removed user stays as long as a lock holds it, and no longer.
  detach_user-entry :
      (m : UserManager c) (holds : List ℕ) (u : ℕ) (sock : Socket)
      → known (lookup u m.user_map) ≡ true
      → Inv c m holds
      → let m' = detach_user c m u sock in
        let n = count u holds in
        ((j : ℕ)
          → lookup j m'.user_lock_life_map
            ≡ (if u == j then life_entry n false else lookup j m.user_lock_life_map))
        × ((j : ℕ) → lookup j m'.users ≡ (if u == j && n == 0 then none else lookup j m.users))
        × IsDict m'.user_lock_life_map
        × IsDict m'.users
        × (m'.user_map ≡ remove u m.user_map)
        × (m'.erased_accesses ≡ u ∷ m.erased_accesses)
  unfolding detach_user
  detach_user-entry m holds u sock h v = elim (Option-cases (lookup u m.user_lock_life_map)) [
    | inl e ↦ (
      λ j. ground (arith, v.entry u, nat_beq_iff u j),
      λ j. ground (arith, v.entry u, lookup-remove u j m.users v.users),
      ground (arith, v.life),
      ground (arith, remove-IsDict u m.users v.users),
      ground arith,
      ground arith,
    )
    | inr (w, e) ↦
        let marked = if w / user_life_dead % 2 == 0 then w + user_life_dead else w in
        let small = count-le-length u holds in
        (
          λ j.
              ground
                (arith, small, v.few, v.entry u, lookup-insert u j marked m.user_lock_life_map),
          λ j. ground (arith, v.entry u),
          ground (arith, insert-IsDict u marked m.user_lock_life_map v.life),
          ground (arith, v.users),
          ground arith,
          ground arith,
        )
  ]

  detach_user-Inv :
      (m : UserManager c) (holds : List ℕ) (u : ℕ) (sock : Socket)
      → known (lookup u m.user_map) ≡ true
      → Inv c m holds
      → Inv c (detach_user c m u sock) holds
        × (known (lookup u (detach_user c m u sock).user_map) ≡ false)
        × ((detach_user c m u sock).erased_accesses ≡ u ∷ m.erased_accesses)
  detach_user-Inv m holds u sock h v =
      let (entry, users, dl, du, map, erased) = detach_user-entry m holds u sock h v in
      let gone = λ (j : ℕ). lookup-remove u j m.user_map v.map in
      (
        record {
          users = du;
          map = rw map (remove-IsDict u m.user_map v.map);
          life = dl;
          few = v.few;
          entry = λ j. rw map (ground (arith, entry j, v.entry j, gone j, nat_beq_iff u j));
          alive = λ j. rw map (ground (arith, users j, v.alive j, gone j, nat_beq_iff u j));
          sockets = λ j. ground (arith, users j, v.sockets j);
        },
        rw map (ground (arith, gone u)),
        erased,
      )

  pub remove_entries_from_user-Inv :
      (m : UserManager c) (holds : List ℕ) (u : ℕ)
      → known (lookup u m.users) ≡ true
      → Inv c m holds
      → (r : ℕ × UserManager c) × (remove_entries_from_user c m u ≡ some r)
        × Inv c r.1 holds
        × ((j : ℕ) → known (lookup j r.1.user_map) ≡ known (lookup j m.user_map))
        × (r.1.users ≡ m.users)
        × (r.0 ≡ (if known (lookup u m.user_map) then 0 else 1))
        × (r.1.erased_accesses ≡ m.erased_accesses)
  unfolding remove_entries_from_user
  remove_entries_from_user-Inv m holds u h v =
      let (_, get, _, _) = get_user-usable c m u (v.sockets u ∙ h) in
      elim (Option-cases (lookup u m.user_map)) [
        | inl e ↦ ((1, m), rw get (rw e), v, λ j. refl, refl, rw e, refl)
        | inr (list, e) ↦
            let (inv, map, users, erased) = remove_entries_from_list-Inv m holds u list (rw e) v in
            (
              remove_entries_from_list c m u list,
              rw get (rw e),
              inv,
              map,
              users,
              rw e (remove_entries_from_list-succeeds m u list),
              erased,
            )
      ]

  pub mark_invalid-Inv :
      (m : UserManager c) (holds : List ℕ) (u : ℕ)
      → known (lookup u m.users) ≡ true
      → Inv c m holds
      → (m' : UserManager c) × (mark_invalid c m u ≡ some m')
        × Inv c m' holds
        × (m'.user_map ≡ m.user_map)
        × (known (lookup u m'.users) ≡ true)
        × (m'.erased_accesses ≡ m.erased_accesses)
  unfolding mark_invalid set_file_list_invalid
  mark_invalid-Inv m holds u h v =
      let ((user, sock), get, look, has) = get_user-usable c m u (v.sockets u ∙ h) in
      let user' = set_file_list_invalid user in
      (
        record m { users = insert u user' m.users },
        rw get refl,
        set_user-Inv m holds u user user' look refl v,
        refl,
        ground (arith, lookup-insert u u user' m.users),
        refl,
      )

  -- The last part of a removal, whoever came before: it accesses no object that is gone.
  pub finish_removal-Inv :
      (m : UserManager c) (holds : List ℕ) (u ret : ℕ)
      → Inv c m holds
      → let here = known (lookup u m.user_map) in
        (r : ℕ × UserManager c) × (finish_removal c m u ret ≡ some r)
        × Inv c r.1 holds
        × (known (lookup u r.1.user_map) ≡ false)
        × (r.0 ≡ (if here then 0 else ret))
        × (r.1.erased_accesses ≡ (if here then u ∷ m.erased_accesses else m.erased_accesses))
  unfolding finish_removal
  finish_removal-Inv m holds u ret v = elim (Bool-cases (known (lookup u m.user_map))) [
    | inr e ↦ ((ret, m), rw e refl, v, e, rw e refl, rw e refl)
    | inl e ↦
        let there : known (lookup u m.users) ≡ true = ground (arith, v.alive u, e) in
        let ((user, sock), get, _, _) = get_user-usable c m u (v.sockets u ∙ there) in
        let (v', gone, erased) = detach_user-Inv m holds u sock e v in
        ((0, detach_user c m u sock), rw (e, get) refl, v', gone, rw e refl, rw e erased)
  ]

  -- Removing a user whose object is there, when no other thread calls the manager in between, accesses
  -- no user object that is gone, keeps the invariant of the life locks, takes the user from the map,
  -- and returns 0 just when it was in the map. Just then its list is accessed after it was erased.
  pub remove_user-Inv :
      (m : UserManager c) (holds : List ℕ) (u : ℕ)
      → known (lookup u m.users) ≡ true
      → Inv c m holds
      → let here = known (lookup u m.user_map) in
        (r : ℕ × UserManager c) × (remove_user c m u ≡ some r)
        × Inv c r.1 holds
        × (known (lookup u r.1.user_map) ≡ false)
        × (r.0 ≡ (if here then 0 else 1))
        × (r.1.erased_accesses ≡ (if here then u ∷ m.erased_accesses else m.erased_accesses))
  unfolding remove_user
  remove_user-Inv m holds u h v =
      let (m1, marked, v1, map1, there, erased1) = mark_invalid-Inv m holds u h v in
      let (r2, run2, v2, map2, _, ret, erased2) =
        remove_entries_from_user-Inv m1 holds u there v1 in
      let (r, run, v3, gone, zero, erased) = finish_removal-Inv r2.1 holds u r2.0 v2 in
      let same : known (lookup u r2.1.user_map) ≡ known (lookup u m.user_map) =
        map2 u ∙ ap (λ (x : Dict ℕ c.FileList). known (lookup u x)) map1 in
      let ret' : r2.0 ≡ (if known (lookup u m.user_map) then 0 else 1) = rw map1 at ret in
      (
        r,
        rw marked (rw run2 run),
        v3,
        gone,
        zero ∙ rw same (ground (arith, ret')),
        erased ∙ rw (same, erased2, erased1) refl,
      )
