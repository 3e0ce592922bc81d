-- ===== src/Saves/Reconcile.antt =====
-- `_reconcile_plan`, the two baselines and the desired sides of services/saves.py. Logging is left
-- out; the group's own `setdefault` loops are in `Saves.Groups`.
pub mod Entries
pub mod Sides
pub mod Decides
pub mod Applied
pub mod Settles
use romcloud.Base.{
  ℕ, ◌+◌, String, Bool, ◌&&◌, not, Option, none, some, List, [], ◌∷◌, ◌++◌, ◌==◌, string_eq,
  contains, map, if◌then◌else◌,
}
use romcloud.Base.Dict.{Dict, keys, lookup, assign, keep_keys, update}
use romcloud.Base.Keys.{sorted, sort_by}
use romcloud.Saves.Model.{
  SaveArtifact, Manifest, Policy, SaveReconcileAction, upload, download, conflict, unchanged,
  SaveReconcileEntry, ScanReport, SaveReconcilePlan,
}
use romcloud.Saves.Groups.{
  group_manifest, same_manifest, is_incomplete_local_materialization, group_id, paths_in,
  group_paths, all_paths,
}

-- The `if` chain on one group's manifests. `repair` is `group_id in repair_local_group_ids`.
unfoldable pub group_action :
    Bool → List SaveArtifact → List SaveArtifact → List SaveArtifact → SaveReconcileAction
group_action repair local remote baseline =
    if same_manifest local remote
    then unchanged
    else if repair && is_incomplete_local_materialization local remote baseline
    then download
    else if same_manifest remote baseline
    then upload
    else if same_manifest local baseline
    then download
    else conflict

module _ (policy : Policy) (repair : List String) (local remote baseline : Manifest) where
  -- The action of a group with these paths.
  unfoldable pub action_for : String → List String → SaveReconcileAction
  unfolding group_action
  action_for g ps =
      group_action (contains repair g) (group_manifest local ps) (group_manifest remote ps)
        (group_manifest baseline ps)

  abbrev pub entry_at : SaveReconcileAction → String → SaveReconcileEntry
  entry_at action p = record {
    relative_path = p;
    action = action;
    local = lookup p local;
    remote = lookup p remote;
    baseline = lookup p baseline;
  }

  -- `for group_id in sorted(groups): … for path in group_paths: entries.append(…)`
  unfoldable pub group_entries : Dict String (List String) → List String → List SaveReconcileEntry
  unfolding action_for
  group_entries groups [] = []
  group_entries groups (g ∷ gs) =
      let ps = paths_in policy g groups in
      map (entry_at (action_for g ps)) ps ++ group_entries groups gs

  abbrev pub groups : Dict String (List String)
  groups = group_paths policy [] (all_paths local remote baseline)

  unfoldable pub plan_entries : List SaveReconcileEntry
  unfolding group_entries sort_by
  plan_entries =
      sort_by (λ (e : SaveReconcileEntry). e.relative_path)
        (group_entries groups (sorted (keys groups)))

unfoldable pub reconcile_plan :
    Policy → List String → ScanReport → ScanReport → Manifest → SaveReconcilePlan
unfolding plan_entries
reconcile_plan policy repair local_report remote_report baseline = record {
  entries = plan_entries policy repair local_report.artifacts remote_report.artifacts baseline;
  excluded_files = local_report.excluded_files + remote_report.excluded_files;
  excluded_bytes = local_report.excluded_bytes + remote_report.excluded_bytes;
}

-- What `_reconciled_baseline` assigns for an entry.
unfoldable pub baseline_value : SaveReconcileEntry → Option SaveArtifact
baseline_value e = elim e.action [
  | conflict ↦ e.baseline
  | upload ↦ e.local
  | _ ↦ elim e.remote [ none ↦ e.local | some a ↦ some a ]
]

unfoldable pub assign_all :
    (SaveReconcileEntry → Option SaveArtifact) → Manifest → List SaveReconcileEntry → Manifest
unfolding assign
assign_all value m [] = m
assign_all value m (e ∷ es) = assign_all value (assign e.relative_path (value e) m) es

-- `_reconciled_baseline`, with `existing or {}` as the first argument
unfoldable pub reconciled_baseline : Manifest → List SaveReconcileEntry → Manifest
unfolding assign_all baseline_value
reconciled_baseline existing entries = assign_all baseline_value existing entries

unfoldable pub upload_only_value : SaveReconcileEntry → Option SaveArtifact
upload_only_value e = elim e.action [
  | upload ↦ e.local
  | unchanged ↦ elim e.local [ none ↦ e.remote | some a ↦ some a ]
  | _ ↦ e.baseline
]

-- `_upload_only_reconciled_baseline`
unfoldable pub upload_only_reconciled_baseline : Manifest → List SaveReconcileEntry → Manifest
unfolding assign_all upload_only_value
upload_only_reconciled_baseline existing entries = assign_all upload_only_value existing entries

-- The loop of `_reconcile_once` that builds the two desired sides from a plan.
unfoldable pub desired_sides :
    Bool → List SaveReconcileEntry → Manifest × Manifest → Manifest × Manifest
unfolding assign
desired_sides upload_only [] sides = sides
desired_sides upload_only (e ∷ es) (local, remote) = desired_sides upload_only es (elim e.action [
  | upload ↦ (local, assign e.relative_path e.local remote)
  | download ↦
      if upload_only then (local, remote) else (assign e.relative_path e.remote local, remote)
  | _ ↦ (local, remote)
])

-- `_manifest_for_groups`
unfoldable pub manifest_for_groups : Policy → List String → Manifest → Manifest
unfolding keep_keys group_id
manifest_for_groups policy gs m = keep_keys (λ p. contains gs (group_id policy p)) m

-- `_replace_selected_groups`
unfoldable pub replace_selected_groups :
    Policy → Option (List String) → Manifest → Manifest → Manifest
unfolding keep_keys update group_id
replace_selected_groups policy none complete selected = selected
replace_selected_groups policy (some gs) complete selected =
    update (keep_keys (λ p. not (contains gs (group_id policy p))) complete) selected
