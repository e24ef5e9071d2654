-- ===== src/UserManager/History.antt =====
-- Every interleaving of the critical sections of logins, locks, unlocks and removals by the threads of
-- the server: a login adds its user in one step, and each part of a removal is a step of its own.
use neshare.Base.{
  ℕ, ◌+◌, ◌<◌, ◌≡◌, refl, sym, ap, ◌∙◌, true, List, [], ◌∷◌, Option, none, some, arith, nat_key,
  insert, lookup, known, contains, erase, length, inl, inr, Option-cases, some-inj,
}
use neshare.Status.{ServerStatus}
use neshare.User.{User, Socket, TimeVal}
use neshare.UserManager.Interface.{Catalog}
use neshare.UserManager.LifeWord.{user_life_dead}
use neshare.UserManager.LifeLocks.{Inv, lock_user_life-Inv, unlock_user_life-Inv}
use neshare.UserManager.Removal.{mark_invalid-Inv, remove_entries_from_user-Inv, finish_removal-Inv}
use neshare.UserManager.Login.{reject_new_user, add_user-Inv, absent, reject-absent, same_users-Inv}
use neshare.UserManager.{
  UserManager, Config, new, get_user, add_user, lock_user_life, unlock_user_life, mark_invalid,
  remove_entries_from_user, finish_removal,
}

module _ (c : Catalog) where
  -- A manager with the list of the locks that threads hold. A new object that cannot be added is
  -- rejected by the thread that made it, which alone knows it. Any thread may take a part of a removal
  -- or a lock at any time; the steps are those that access no object that is gone. A lock that is held
  -- is given back once, and fewer than 2^31 are held at once. A login that is rejected after it was
  -- added goes through the parts of a removal; not a step is the `delete` with which `rejectNewUser`
  -- follows when another thread has taken the user from the map before, and which heeds no lock.
  pub data Step : UserManager c → List ℕ → UserManager c → List ℕ → Type 0 where
    adds :
        {m m' : UserManager c} {holds : List ℕ} (u : ℕ) (user : User) (sock : Socket)
        (config : Config) (now : TimeVal)
        → lookup u m.users ≡ none
        → user.sock ≡ some sock
        → add_user c (record m { users = insert u user m.users }) u config now ≡ some (0, m')
        → Step m holds m' holds
    rejects :
        {m m' : UserManager c} {holds : List ℕ} (u : ℕ) (user : User) (sock : Socket)
        → lookup u m.users ≡ none
        → user.sock ≡ some sock
        → reject_new_user c (record m { users = insert u user m.users }) u ≡ some m'
        → Step m holds m' holds
    locks :
        {m m' : UserManager c} {holds : List ℕ} (u : ℕ)
        → length holds + 1 < user_life_dead
        → lock_user_life c m u ≡ some m'
        → Step m holds m' (u ∷ holds)
    unlocks :
        {m m' : UserManager c} {holds : List ℕ} (u : ℕ)
        → contains u holds ≡ true
        → unlock_user_life c m u ≡ some m'
        → Step m holds m' (erase u holds)
    marks :
        {m m' : UserManager c} {holds : List ℕ} (u : ℕ)
        → mark_invalid c m u ≡ some m'
        → Step m holds m' holds
    removes_entries :
        {m m' : UserManager c} {holds : List ℕ} (u ret : ℕ)
        → remove_entries_from_user c m u ≡ some (ret, m')
        → Step m holds m' holds
    finishes :
        {m m' : UserManager c} {holds : List ℕ} (u ret ret' : ℕ)
        → finish_removal c m u ret ≡ some (ret', m')
        → Step m holds m' holds

  pub data Reach : UserManager c → List ℕ → Type 0 where
    starts : (max_users : ℕ) (s : ServerStatus) (sh : c.Shared) → Reach (new c max_users s sh) []
    next :
        {m m' : UserManager c} {holds holds' : List ℕ}
        → Reach m holds
        → Step m holds m' holds'
        → Reach m' holds'

  same_result :
      {A : Type 0} (x y : A) (P : A → Type 0) {o : Option A} → o ≡ some x → o ≡ some y → P x → P y
  same_result x y P e f h = let same : x ≡ y = cc in rw same at h

  one-ne-zero : {A : Type 0} {o : Option (ℕ × A)} {x y : A} → o ≡ some (1, x) → o ≡ some (0, y) → ⊥
  one-ne-zero {A} {o} {x} {y} h g =
      let same : (1, x) ≡ (0, y) = some-inj (sym h ∙ g) in
      let one : ◌≡◌ {A = ℕ} 1 0 = ap (λ (r : ℕ × A). r.0) same in absurd (omega (arith, one))

  get_user-none : (m : UserManager c) (u : ℕ) → lookup u m.users ≡ none → get_user c m u ≡ none
  unfolding get_user
  get_user-none m u e = rw e refl

  -- The calls that access an object begin with it.
  gone :
      (m : UserManager c) (u : ℕ)
      → lookup u m.users ≡ none
      → (lock_user_life c m u ≡ none)
        × (unlock_user_life c m u ≡ none)
        × (mark_invalid c m u ≡ none)
        × (remove_entries_from_user c m u ≡ none)
  unfolding lock_user_life unlock_user_life mark_invalid remove_entries_from_user
  gone m u e =
      let none_there = get_user-none m u e in
      (rw none_there refl, rw none_there refl, rw none_there refl, rw none_there refl)

  -- A call that was made on an object met it.
  met :
      {A : Type 0} (m : UserManager c) (u : ℕ) (o : Option A) (x : A)
      → o ≡ some x
      → (lookup u m.users ≡ none → o ≡ none)
      → known (lookup u m.users) ≡ true
  met m u o x run without = elim (Option-cases (lookup u m.users)) [
    | inl e ↦ let no = without e in absurd cc
    | inr (user, e) ↦ rw e refl
  ]

  Step-Inv :
      {m m' : UserManager c} {holds holds' : List ℕ}
      → Step m holds m' holds'
      → Inv c m holds
      → Inv c m' holds'
  Step-Inv (adds {m} {m'} {holds} u user sock config now e s run) v =
      let (m1, added) = add_user-Inv c m holds u user sock config now e s v in
      elim added [
        | inl (run', v', _, _, _) ↦
            same_result (0, m1) (0, m') (λ (r : ℕ × UserManager c). Inv c r.1 holds) run' run v'
        | inr (run', _) ↦ absurd (one-ne-zero run' run)
      ]
  Step-Inv (rejects {m} {m'} {holds} u user sock e s run) v =
      let (users, run', d, same) =
        reject-absent c m u user sock v.users e (absent c m holds u e v).0 s in
      same_result (record m { users = users }) m' (λ (r : UserManager c). Inv c r holds) run' run
        (same_users-Inv c m holds users d same v)
  Step-Inv (locks {m} {m'} {holds} u few run) v =
      let h = met m u (lock_user_life c m u) m' run (λ e. (gone m u e).0) in
      let (r, run', v') = lock_user_life-Inv c m holds u few h v in
      same_result r m' (λ (r : UserManager c). Inv c r (u ∷ holds)) run' run v'
  Step-Inv (unlocks {m} {m'} {holds} u h run) v =
      let (r, run', v') = unlock_user_life-Inv c m holds u h v in
      same_result r m' (λ (r : UserManager c). Inv c r (erase u holds)) run' run v'
  Step-Inv (marks {m} {m'} {holds} u run) v =
      let h = met m u (mark_invalid c m u) m' run (λ e. (gone m u e).2) in
      let (r, run', v', _, _, _) = mark_invalid-Inv c m holds u h v in
      same_result r m' (λ (r : UserManager c). Inv c r holds) run' run v'
  Step-Inv (removes_entries {m} {m'} {holds} u ret run) v =
      let h = met m u (remove_entries_from_user c m u) (ret, m') run (λ e. (gone m u e).3) in
      let (r, run', v', _, _, _, _) = remove_entries_from_user-Inv c m holds u h v in
      same_result r (ret, m') (λ (r : ℕ × UserManager c). Inv c r.1 holds) run' run v'
  Step-Inv (finishes {m} {m'} {holds} u ret ret' run) v =
      let (r, run', v', _, _, _) = finish_removal-Inv c m holds u ret v in
      same_result r (ret', m') (λ (r : ℕ × UserManager c). Inv c r.1 holds) run' run v'

  new-Inv : (max_users : ℕ) (s : ServerStatus) (sh : c.Shared) → Inv c (new c max_users s sh) []
  unfolding new
  new-Inv max_users s sh = record {
    users = tt;
    map = tt;
    life = tt;
    few = omega arith;
    entry = λ u. refl;
    alive = λ u. refl;
    sockets = λ u. refl;
  }

  pub Reach-Inv : {m : UserManager c} {holds : List ℕ} → Reach m holds → Inv c m holds
  Reach-Inv (starts max_users s sh) = new-Inv max_users s sh
  Reach-Inv (next r st) = Step-Inv st (Reach-Inv r)
