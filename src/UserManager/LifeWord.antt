-- ===== src/UserManager/LifeWord.antt =====
-- The reference counts of the life locks, `unsigned long` words whose top bit marks a removed user
-- (the macros of ne_server/neusermanager.h).
use neshare.Base.{
  ℕ, ◌+◌, ◌%◌, ◌/◌, Bool, Option, none, some, ◌==◌, if◌then◌else◌, nat_key, add32, sub32,
}

-- `NE_USER_LIFE_DEAD`
abbrev pub user_life_dead : ℕ
user_life_dead = 0x80000000

unfoldable pub ul_add_ref : ℕ → ℕ
ul_add_ref w = add32 w 1

unfoldable pub ul_drop_ref : ℕ → ℕ
ul_drop_ref w = sub32 w 1

-- `w | 0x80000000`: the top bit is set and the others stay.
unfoldable pub ul_set_delete_bit : ℕ → ℕ
ul_set_delete_bit w = if w / user_life_dead % 2 == 0 then w + user_life_dead else w

-- `(w & ~0x80000000) == 0`
unfoldable pub ul_can_unlock_user : ℕ → Bool
ul_can_unlock_user w = w % user_life_dead == 0

unfoldable pub ul_can_delete_user : ℕ → Bool
ul_can_delete_user w = w == user_life_dead

-- The entry of a user that `n` locks hold, who is still in the map or no longer is.
abbrev pub life_entry : ℕ → Bool → Option ℕ
life_entry n present = if n == 0 then none else some (if present then n else n + user_life_dead)
