-- ===== src/Saves/Diff.antt =====
-- Previews of services/saves.py: `_group_conflict_ids`, `_is_conflict`, `_diff_entries` and
-- `_manifests_from_diff`, with the `direction` text as a data type.
pub mod Laws
use romcloud.Base.{
  String, Bool, true, false, ◌&&◌, ◌||◌, not, Option, none, some, List, [], ◌∷◌, ◌++◌, string_eq,
  contains, if◌then◌else◌, keep_if,
}
use romcloud.Base.Dict.{Dict, keys, lookup, insert}
use romcloud.Base.Keys.{sorted_set}
use romcloud.Saves.Model.{
  SaveArtifact, Manifest, Policy, SaveChangeKind, added, changed, removed, unchanged, SaveDiffEntry,
}
use romcloud.Saves.Groups.{
  same_artifact, group_manifest, same_manifest, group_id, paths_in, group_paths, all_paths,
}

-- `direction`, "upload" or "download"
pub data Direction : Type 0 where
  upload download : Direction

-- `_is_conflict`
unfoldable pub is_conflict : Option SaveArtifact → Option SaveArtifact → Option SaveArtifact → Bool
unfolding same_artifact
is_conflict local remote baseline =
    if same_artifact local remote
    then false
    else not (same_artifact local baseline) && not (same_artifact remote baseline)

-- The condition on one group in `_group_conflict_ids`.
unfoldable pub is_group_conflict : List SaveArtifact → List SaveArtifact → List SaveArtifact → Bool
is_group_conflict local remote baseline =
    not (same_manifest local remote)
    && not (same_manifest local baseline)
    && not (same_manifest remote baseline)

-- `_group_conflict_ids`; a frozenset is the list of its elements.
unfoldable pub group_conflict_ids : Manifest → Manifest → Manifest → Policy → List String
unfolding is_group_conflict group_manifest
group_conflict_ids local remote baseline policy =
    let groups : Dict String (List String) =
      group_paths policy [] (all_paths local remote baseline) in
    keep_if
      (λ g.
        let ps = paths_in policy g groups in
        is_group_conflict (group_manifest local ps) (group_manifest remote ps)
          (group_manifest baseline ps))
      (keys groups)

-- The `if` chain on the two artifacts of a path in `_diff_entries`.
unfoldable pub change_of : Option SaveArtifact → Option SaveArtifact → SaveChangeKind
change_of (some n) none = added
change_of none (some o) = removed
change_of none none = if not (same_artifact none none) then changed else unchanged
change_of (some n) (some o) = if not (same_artifact (some n) (some o)) then changed else unchanged

module _ (new_side old_side baseline : Manifest) (direction : Direction) (policy : Policy) where
  -- `group_conflicts`
  abbrev pub group_conflicts : List String
  group_conflicts = group_conflict_ids new_side old_side baseline policy

  unfoldable pub diff_entry : String → SaveDiffEntry
  diff_entry path =
      let n = lookup path new_side in
      let o = lookup path old_side in
      let local : Option SaveArtifact = elim direction [ upload ↦ n | download ↦ o ] in
      let remote : Option SaveArtifact = elim direction [ upload ↦ o | download ↦ n ] in
      record {
        relative_path = path;
        change = change_of n o;
        local = local;
        remote = remote;
        conflict =
            contains group_conflicts (group_id policy path)
            || is_conflict local remote (lookup path baseline);
      }

  diff_all : List String → List SaveDiffEntry
  diff_all [] = []
  diff_all (p ∷ ps) = diff_entry p ∷ diff_all ps

  -- `_diff_entries`
  unfoldable pub diff_entries : List SaveDiffEntry
  unfolding diff_all
  diff_entries = diff_all (sorted_set (keys new_side ++ keys old_side))

-- `if artifact is not None: side[path] = artifact`
abbrev pub put_some : String → Option SaveArtifact → Manifest → Manifest
put_some p none m = m
put_some p (some a) m = insert p a m

-- `_manifests_from_diff`, of the entries of a diff
unfoldable pub manifests_from_diff : List SaveDiffEntry → Manifest × Manifest → Manifest × Manifest
unfolding insert
manifests_from_diff [] sides = sides
manifests_from_diff (e ∷ es) (local, remote) =
    manifests_from_diff es
      (put_some e.relative_path e.local local, put_some e.relative_path e.remote remote)
