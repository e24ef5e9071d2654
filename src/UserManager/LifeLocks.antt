-- ===== src/UserManager/LifeLocks.antt =====
-- Life locks: threads lock, unlock and remove users in any order.
use neshare.Base.{
  ℕ, ◌%◌, ◌^◌, ◌+◌, ◌-◌, ◌<◌, ◌≤◌, ◌≡◌, sym, ◌∙◌, ◌⊎◌, inl, inr, Bool, true, false, ◌&&◌, ◌||◌, not,
  List, [], ◌∷◌, Option, none, some, arith, ltb, ◌==◌, if◌then◌else◌, nat_key, nat_beq_iff, Dict,
  lookup, known, IsDict, lookup-insert, lookup-remove, insert-IsDict, remove-IsDict, count,
  contains, erase, count-erase, contains-count, length, Option-cases,
}
use neshare.User.{User, Socket}
use neshare.UserManager.Interface.{Catalog}
use neshare.UserManager.LifeWord.{ul_add_ref, life_entry, user_life_dead}
use neshare.UserManager.{
  UserManager, get_user, lock_life, lock_user_life, release_life, unlock_user_life,
}

-- A user object that is there and has its socket.
abbrev pub usable : Option User → Bool
usable none = false
usable (some u) = known u.sock

pub count-le-length : (u : ℕ) (xs : List ℕ) → count u xs ≤ length xs
count-le-length u [] = omega arith
count-le-length u (x ∷ xs) = ground (arith, count-le-length u xs)

-- A new lock adds one to the count, or starts it at 1.
lock_life-entry :
    (u : ℕ) (life : Dict ℕ ℕ) (n : ℕ) (present : Bool)
    → n + 1 < user_life_dead
    → lookup u life ≡ life_entry n present
    → (0 < n) ⊎ (present ≡ true)
    → (j : ℕ)
    → lookup j (lock_life u life) ≡ (if u == j then life_entry (n + 1) present else lookup j life)
unfolding lock_life
lock_life-entry u life n present few e live j = elim (Option-cases (lookup u life)) [
  | inl g ↦ ground (arith, lookup-insert u j 1 life)
  | inr (w, g) ↦ ground (arith, lookup-insert u j ((w + 1) % 2 ^ 32) life)
]

lock_life-IsDict : (u : ℕ) (life : Dict ℕ ℕ) → IsDict life → IsDict (lock_life u life)
unfolding lock_life
lock_life-IsDict u life d = elim (Option-cases (lookup u life)) [
  | inl g ↦ rw (g, lock_life) (insert-IsDict u 1 life d)
  | inr (w, g) ↦ rw (g, lock_life) (insert-IsDict u (ul_add_ref w) life d)
]

module _ (c : Catalog) where
  -- `holds` lists the user of each lock that is taken and not yet given back.
  pub record Inv (m : UserManager c) (holds : List ℕ) : Type 0 where
    pub users : IsDict m.users
    pub map : IsDict m.user_map
    pub life : IsDict m.user_lock_life_map
    pub few : length holds < user_life_dead
    pub entry :
        (u : ℕ)
        → lookup u m.user_lock_life_map ≡ life_entry (count u holds) (known (lookup u m.user_map))
    pub alive :
        (u : ℕ) → known (lookup u m.users) ≡ (known (lookup u m.user_map) || ltb 0 (count u holds))
    pub sockets : (u : ℕ) → usable (lookup u m.users) ≡ known (lookup u m.users)

  pub get_user-eq :
      (m : UserManager c) (u : ℕ) (user : User) (sock : Socket)
      → lookup u m.users ≡ some user
      → user.sock ≡ some sock
      → get_user c m u ≡ some (user, sock)
  unfolding get_user
  get_user-eq m u user sock e f = ground arith

  -- A user that is in the map or locked can be accessed.
  pub get_user-usable :
      (m : UserManager c) (u : ℕ)
      → usable (lookup u m.users) ≡ true
      → (r : User × Socket) × (get_user c m u ≡ some r)
        × (lookup u m.users ≡ some r.0)
        × (r.0.sock ≡ some r.1)
  unfolding get_user
  get_user-usable m u h = elim (Option-cases (lookup u m.users)) [
    | inl e ↦ ground arith
    | inr (user, e) ↦ elim (Option-cases user.sock) [
      | inl f ↦ ground arith
      | inr (sock, f) ↦ ((user, sock), rw (e, get_user) (rw f), e, f)
    ]
  ]

  present :
      {m : UserManager c} {holds : List ℕ} (u : ℕ)
      → known (lookup u m.users) ≡ true
      → Inv m holds
      → (0 < count u holds) ⊎ (known (lookup u m.user_map) ≡ true)
  present {m} {holds} u h v = ground (arith, v.alive u)

  pub lock_user_life-Inv :
      (m : UserManager c) (holds : List ℕ) (u : ℕ)
      → length holds + 1 < user_life_dead
      → known (lookup u m.users) ≡ true
      → Inv m holds
      → (m' : UserManager c) × (lock_user_life c m u ≡ some m') × Inv m' (u ∷ holds)
  unfolding lock_user_life
  lock_user_life-Inv m holds u few h v =
      let (_, get, _, _) = get_user-usable m u (v.sockets u ∙ h) in
      (
        record m { user_lock_life_map = lock_life u m.user_lock_life_map },
        rw get,
        record {
          users = v.users;
          map = v.map;
          life = lock_life-IsDict u m.user_lock_life_map v.life;
          few = omega arith;
          entry = λ j. ground (
            arith,
            lock_life-entry u m.user_lock_life_map (count u holds) (known (lookup u m.user_map))
                (omega (arith, count-le-length u holds)) (v.entry u) (present u h v) j,
            v.entry j,
            nat_beq_iff u j,
          );
          alive = λ j. ground (arith, v.alive j, v.alive u, nat_beq_iff u j);
          sockets = v.sockets;
        },
      )

  -- The last lock of a removed user takes the object with it; any other unlock keeps it.
  release_life-entry :
      (m : UserManager c) (u w n : ℕ) (present : Bool)
      → IsDict m.user_lock_life_map
      → IsDict m.users
      → 0 < n
      → n < user_life_dead
      → lookup u m.user_lock_life_map ≡ some w
      → some w ≡ life_entry n present
      → let m' = release_life c m u w in
        ((j : ℕ)
          → lookup j m'.user_lock_life_map
            ≡ (if u == j then life_entry (n - 1) present else lookup j m.user_lock_life_map))
        × ((j : ℕ)
            → lookup j m'.users
              ≡ (if u == j && not present && n == 1 then none else lookup j m.users))
        × IsDict m'.user_lock_life_map
        × IsDict m'.users
        × (m'.user_map ≡ m.user_map)
  unfolding release_life
  release_life-entry m u w n present dl du pos few e is =
      let life = m.user_lock_life_map in
      let w' = (w + (2 ^ 32 - 1)) % 2 ^ 32 in
      (
        λ j. ground (arith, lookup-remove u j life dl, lookup-insert u j w' life),
        λ j. ground (arith, lookup-remove u j m.users du),
        ground (arith, remove-IsDict u life dl, insert-IsDict u w' life dl),
        ground (arith, remove-IsDict u m.users du),
        ground arith,
      )

  length-erase-le : (u : ℕ) (xs : List ℕ) → length (erase u xs) ≤ length xs
  length-erase-le u [] = omega arith
  length-erase-le u (x ∷ xs) = ground (arith, length-erase-le u xs)

  release_life-Inv :
      (m : UserManager c) (holds : List ℕ) (u w : ℕ)
      → contains u holds ≡ true
      → lookup u m.user_lock_life_map ≡ some w
      → Inv m holds
      → Inv (release_life c m u w) (erase u holds)
  release_life-Inv m holds u w h e v =
      let n = count u holds in
      let p = known (lookup u m.user_map) in
      let (entry, users, dl, du, same) =
        release_life-entry m u w n p v.life v.users (contains-count u holds h)
          (omega (arith, count-le-length u holds, v.few)) e (sym e ∙ v.entry u) in
      record {
        users = du;
        map = rw same v.map;
        life = dl;
        few = omega (arith, length-erase-le u holds, v.few);
        entry = λ j.
            rw same (ground (arith, entry j, v.entry j, nat_beq_iff u j, count-erase u j holds h));
        alive = λ j.
            rw same (ground (arith, users j, v.alive j, nat_beq_iff u j, count-erase u j holds h));
        sockets = λ j. ground (arith, users j, v.sockets j);
      }

  pub unlock_user_life-Inv :
      (m : UserManager c) (holds : List ℕ) (u : ℕ)
      → contains u holds ≡ true
      → Inv m holds
      → (m' : UserManager c) × (unlock_user_life c m u ≡ some m') × Inv m' (erase u holds)
  unfolding unlock_user_life
  unlock_user_life-Inv m holds u h v =
      let here : known (lookup u m.users) ≡ true =
        ground (arith, v.alive u, contains-count u holds h) in
      let (_, get, _, _) = get_user-usable m u (v.sockets u ∙ here) in
      elim (Option-cases (lookup u m.user_lock_life_map)) [
        | inl e ↦ absurd (ground (arith, v.entry u, contains-count u holds h))
        | inr (w, e) ↦ (release_life c m u w, rw get (rw e), release_life-Inv m holds u w h e v)
      ]
