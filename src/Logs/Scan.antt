-- ===== src/Logs/Scan.antt =====
-- services/realtime_backup_logs.py, _scan_recent_entries: the newest entries of a log, read from its end
-- in chunks.
pub mod Exact
pub mod Walk
use new_backup_center.Base.{
  ℕ, zero, suc, ◌+◌, ◌-◌, ◌*◌, max, Bool, true, false, not, ◌&&◌, ◌||◌, Option, none, some, String,
  List, [], ◌∷◌, ◌++◌, length, str_eq, str_or_empty, ltb, leb, take, drop, reverse, if◌then◌else◌,
}
use new_backup_center.Logs.Store.{Item, Raw, entry, broken}

-- The entries found so far, the newest first, the highest number among them, and whether an entry that
-- is known already has been met.
pub record Found : Type 0 where
  pub entries_reversed : List Item
  pub last_seq : ℕ
  pub reached_boundary : Bool

-- `not tenant_id or str(item.get("tenant_id") or "") == tenant_id`
unfoldable pub is_wanted : Option String → Item → Bool
is_wanted tenant_id item =
    str_eq (str_or_empty tenant_id) ""
    || str_eq (str_or_empty item.tenant_id) (str_or_empty tenant_id)

-- `seq_field` picks the number of an entry.
module _ (seq_field : Item → ℕ) (after_seq limit : ℕ) (tenant_id : Option String) where
  abbrev pub with_item : Item → Found → Found
  with_item item found = record found {
    entries_reversed = found.entries_reversed ++ (item ∷ []);
    last_seq = if ltb found.last_seq (seq_field item) then seq_field item else found.last_seq;
  }

  -- The inner loop, over the entries of a chunk from its end.
  unfoldable pub walk : List Raw → Found → Found
  unfolding is_wanted
  walk [] found = found
  walk (broken ∷ raws) found = walk raws found
  walk (entry item ∷ raws) found =
      let after = with_item item found in
      let rest = walk raws after in
      let skipped = walk raws found in
      if leb (seq_field item) after_seq
      then record found { reached_boundary = true }
      else if not (is_wanted tenant_id item)
      then skipped
      else if leb limit (length after.entries_reversed)
      then after
      else rest

  -- The condition of the outer loop, without the one on its place.
  unfoldable pub goes_on : Found → Bool
  goes_on found = ltb (length found.entries_reversed) limit && not found.reached_boundary

  -- The outer loop; `stop` is `end + 1`. Each chunk has at least one entry, so `stop` chunks suffice.
  unfoldable pub chunks : (fuel chunk_size stop : ℕ) → List Raw → Found → Found
  unfolding walk goes_on
  chunks zero chunk_size stop raws found = found
  chunks (suc fuel) chunk_size stop raws found =
      let start = stop - chunk_size in
      let found' = walk (reverse (take (stop - start) (drop start raws))) found in
      let rest = chunks fuel chunk_size start raws found' in
      if ltb 0 stop && goes_on found then rest else found

  -- `latest_seq` is what the counter of the log says, 0 where it says nothing.
  unfoldable pub scan_recent_entries : (latest_seq : ℕ) → List Raw → List Item × ℕ
  unfolding chunks
  scan_recent_entries latest_seq raws =
      let total = length raws in
      let found =
        chunks total (max (limit * 4) 500) total raws
          (record { entries_reversed = []; last_seq = after_seq; reached_boundary = false }) in
      if ltb 0 latest_seq && leb latest_seq after_seq
      then ([], latest_seq)
      else (reverse found.entries_reversed, found.last_seq)
