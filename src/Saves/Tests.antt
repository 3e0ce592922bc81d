-- ===== src/Saves/Tests.antt =====
-- A pass over five save files, two of them in one group, and the theorems at this input.
use romcloud.Base.{
  String, ◌≡◌, ◌≢◌, ◌↔◌, refl, true, false, ◌||◌, ◌⊎◌, none, some, List, [], ◌∷◌, map, ◌==◌,
  string_eq, contains, All, if◌then◌else◌, arith, option_eq,
}
use romcloud.Base.Dict.{keys, lookup, is_some}
use romcloud.Base.Keys.{sorted, dedup}
use romcloud.Saves.Model.{
  SaveArtifact, Manifest, Policy, SaveReconcileAction, upload, download, conflict, unchanged,
  SaveReconcileEntry, ScanReport,
}
use romcloud.Saves.Groups.{group_id, group_paths, same_manifest, group_manifest}
use romcloud.Saves.Groups.Laws.{IsManifest}
use romcloud.Saves.Reconcile.{
  reconcile_plan, desired_sides, reconciled_baseline, upload_only_reconciled_baseline,
}
use romcloud.Saves.Reconcile.Entries.{paths}
use romcloud.Saves.Diff.{diff_entries, manifests_from_diff, group_conflict_ids}
use romcloud.Saves.Diff as Diff
use romcloud.Saves.Diff.Laws.{manifests_from_diff-diff_entries, group_conflict_ids-reconcile_plan}
use romcloud.Saves.Reconcile.Decides.{IsDecision, reconcile_plan-Decides, reconcile_plan-one_action}
use romcloud.Saves.Reconcile.Applied.{
  Applied, Uploaded, reconcile_plan-Applied, reconcile_plan-Uploaded,
}
use romcloud.Saves.Reconcile.Settles.{reconcile_plan-settles}

abbrev file : String → String → SaveArtifact
file path hash = record { relative_path = path; size_bytes = 512; content_hash = hash }

-- The save and the state of game `a` are one group.
abbrev policy : Policy
policy = record {
  group_for_path = λ p.
      if p == "a.sav" || p == "a.state"
      then some
          (record { group_id = "game-a"; layout_id = "retroarch"; system = "snes"; shared = false })
      else none;
}

abbrev on_device : Manifest
on_device =
    ("a.sav", file "a.sav" "new")
    ∷ ("a.state", file "a.state" "old")
    ∷ ("b.sav", file "b.sav" "old")
    ∷ ("c.sav", file "c.sav" "mine")
    ∷ []

abbrev on_server : Manifest
on_server =
    ("a.sav", file "a.sav" "old")
    ∷ ("a.state", file "a.state" "old")
    ∷ ("c.sav", file "c.sav" "yours")
    ∷ []

abbrev agreed : Manifest
agreed =
    ("a.sav", file "a.sav" "old")
    ∷ ("a.state", file "a.state" "old")
    ∷ ("b.sav", file "b.sav" "old")
    ∷ []

abbrev report : Manifest → ScanReport
report m = record { artifacts = m; excluded_files = 1; excluded_bytes = 64 }

keyed : (m : Manifest) → All (λ entry. entry.1.relative_path ≡ entry.0) m → IsManifest m
unfolding lookup
keyed [] h = record { at = λ p a found. cc }
keyed ((q, b) ∷ m) h = record { at = λ p a found. ground (arith, found, h.0, (keyed m h.1).at p a) }

on_device-keyed : IsManifest on_device
on_device-keyed = keyed on_device (refl, (refl, (refl, (refl, tt))))

on_server-keyed : IsManifest on_server
on_server-keyed = keyed on_server (refl, (refl, (refl, tt)))

agreed-keyed : IsManifest agreed
agreed-keyed = keyed agreed (refl, (refl, (refl, tt)))

abbrev entries : List SaveReconcileEntry
entries = (reconcile_plan policy [] (report on_device) (report on_server) agreed).entries

actions :
    map (λ (e : SaveReconcileEntry). e.action) entries ≡ upload ∷ upload ∷ download ∷ conflict ∷ []
unfolding reconcile_plan sorted keys group_paths dedup string_eq lookup same_manifest group_manifest
actions = refl

abbrev sides : Manifest × Manifest
sides = desired_sides false entries (on_device, on_server)

Decides_example :
    ((p : String)
      → contains (paths entries) p ≡ (
          is_some (lookup p on_device)
          || is_some (lookup p on_server)
          || is_some (lookup p agreed)))
    × All (IsDecision policy [] on_device on_server agreed) entries
Decides_example =
    reconcile_plan-Decides policy [] (report on_device) (report on_server) agreed on_device-keyed
      on_server-keyed agreed-keyed

one_action_example :
    All
      (λ e.
        All
          (λ e'.
            (group_id policy e.relative_path ≢ group_id policy e'.relative_path)
            ⊎ (e.action ≡ e'.action))
          entries)
      entries
one_action_example =
    reconcile_plan-one_action policy [] (report on_device) (report on_server) agreed

Applied_example : All (Applied sides (reconciled_baseline agreed entries)) entries
Applied_example =
    reconcile_plan-Applied policy [] (report on_device) (report on_server) agreed on_device-keyed
      on_server-keyed agreed-keyed

Uploaded_example :
    ((desired_sides true entries (on_device, on_server)).0 ≡ on_device)
    × All
        (Uploaded
          (desired_sides true entries (on_device, on_server)).1
          (upload_only_reconciled_baseline agreed entries))
        entries
Uploaded_example =
    reconcile_plan-Uploaded policy [] (report on_device) (report on_server) agreed on_device-keyed
      on_server-keyed agreed-keyed

settles_again_example :
    All
      (λ e. (e.action ≡ unchanged) ⊎ (e.action ≡ conflict))
      (reconcile_plan policy []
        (report sides.0)
        (report sides.1)
        (reconciled_baseline agreed entries)).entries
settles_again_example =
    reconcile_plan-settles policy [] (report on_device) (report on_server) (report sides.0)
      (report sides.1) agreed (reconciled_baseline agreed entries) on_device-keyed on_server-keyed
      agreed-keyed (λ p. refl) (λ p. refl) (λ p. refl)

-- The deleted `b.sav` stays in the baseline.
stale : lookup "b.sav" (reconciled_baseline agreed entries) ≡ some (file "b.sav" "old")
unfolding reconciled_baseline reconcile_plan sorted keys group_paths dedup string_eq lookup
    same_manifest group_manifest
stale = refl

-- So a copy that another device restores is deleted: its plan entry is an upload of no file.
restored :
    (reconcile_plan policy []
      (report [])
      (report (("b.sav", file "b.sav" "old") ∷ []))
      (("b.sav", file "b.sav" "old") ∷ [])).entries
    ≡ record {
      relative_path = "b.sav";
      action = upload;
      local = none;
      remote = some (file "b.sav" "old");
      baseline = some (file "b.sav" "old");
    }
      ∷ []
unfolding reconcile_plan sorted keys group_paths dedup string_eq lookup same_manifest group_manifest
restored = refl

manifests_from_diff_example :
    let shown : Manifest × Manifest =
      manifests_from_diff (diff_entries on_device on_server agreed Diff.upload policy) ([], []) in
    (lookup "b.sav" shown.0 ≡ lookup "b.sav" on_device)
    × (lookup "b.sav" shown.1 ≡ lookup "b.sav" on_server)
manifests_from_diff_example =
    manifests_from_diff-diff_entries on_device on_server agreed Diff.upload policy "b.sav"

group_conflict_ids_example :
    All
      (λ e.
        (contains
            (group_conflict_ids on_device on_server agreed policy)
            (group_id policy e.relative_path)
          ≡ true)
        ↔ (e.action ≡ SaveReconcileAction.conflict))
      entries
group_conflict_ids_example =
    group_conflict_ids-reconcile_plan policy (report on_device) (report on_server) agreed
