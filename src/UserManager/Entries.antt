-- ===== src/UserManager/Entries.antt =====
-- The entries of a user's file list: `addEntryToUser` and `mergeEntriesToKeywordMap`.
use neshare.Base.{
  ℕ, ◌&&◌, not, [], ◌∷◌, Option, none, some, ltb, ◌==◌, if◌then◌else◌, nat_key, Bytes, lookup,
  insert, ◌>>=◌,
}
use neshare.DiskMem.{Answer}
use neshare.Status.{inc_num_user_files, inc_total_sizeof_files_in_mb}
use neshare.UserManager.Interface.{Catalog, sizeof_file_in_mb}
use neshare.UserManager.{UserManager, Config, get_user}

-- The values that `mergeEntriesToKeywordMap` returns: 0, 1 and -1.
pub data Merged : Type 0 where
  merged failed too_few : Merged

module _ (c : Catalog) where
  -- The new file is in the list that was found, and is counted.
  unfoldable pub count_entry : UserManager c → ℕ → c.FileList → ℕ → UserManager c
  unfolding inc_num_user_files inc_total_sizeof_files_in_mb sizeof_file_in_mb
  count_entry m u list filesize = record m {
    user_map = insert u list m.user_map;
    server_status =
        inc_total_sizeof_files_in_mb (inc_num_user_files m.server_status 1)
          (sizeof_file_in_mb filesize);
  }

  -- The file is destroyed and its memory freed.
  unfoldable pub drop_entry : UserManager c → c.Shared → c.UserFile → UserManager c
  drop_entry m shared file = record m { shared = c.drop_file shared file }

  -- The file that was made is added to the list of the user, or dropped.
  unfoldable pub place_entry :
      UserManager c → ℕ → c.Shared → c.UserFile → ℕ → Option c.FileList → ℕ × UserManager c
  place_entry m u shared file filesize none = (1, drop_entry m shared file)
  place_entry m u shared file filesize (some list) =
      let (bad, list', shared') = c.add_user_file shared list file in
      if bad == 0
      then (0, count_entry (record m { shared = shared' }) u list' filesize)
      else (1, drop_entry (record m { user_map = insert u list' m.user_map }) shared' file)

  unfoldable pub store_entry :
      UserManager c → ℕ → ℕ → Option c.UserFile × c.Shared → ℕ × UserManager c
  store_entry m u filesize (none, shared) = (1, record m { shared = shared })
  store_entry m u filesize (some file, shared) =
      place_entry m u shared file filesize (lookup u m.user_map)

  -- `addEntryToUser`
  unfoldable pub add_entry_to_user :
      UserManager c → ℕ → Bytes → ℕ → Answer → Option (ℕ × UserManager c)
  add_entry_to_user m u [] filesize os = do _ ← get_user c m u; some (0, m)
  add_entry_to_user m u (b ∷ bs) filesize os = do
    _ ← get_user c m u
    some (store_entry m u filesize (c.make_file m.shared u (b ∷ bs) filesize os))

  -- `mergeEntriesToKeywordMap` on the list that was found
  unfoldable pub merge_list : UserManager c → ℕ → c.FileList → Config → Merged × UserManager c
  merge_list m u list config =
      let limit = config.min_user_shared_file_limit in
      let (bad, shared) = c.merge_entries m.shared u list in
      if not (limit == 0) && ltb (c.total_sizeof_user_files list) limit
      then (too_few, m)
      else (if bad == 0 then merged else failed, record m { shared = shared })

  unfoldable pub merge_entries_to_keyword_map :
      UserManager c → ℕ → Config → Option (Merged × UserManager c)
  merge_entries_to_keyword_map m u config = do
    _ ← get_user c m u
    some
        (elim (lookup u m.user_map) [ none ↦ (failed, m) | some list ↦ merge_list m u list config ])
