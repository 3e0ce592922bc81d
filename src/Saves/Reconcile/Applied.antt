-- ===== src/Saves/Reconcile/Applied.antt =====
-- What applying a reconcile plan leaves on the two sides, and what the next baseline records of it.
use romcloud.Base.{
  String, ◌≡◌, none, some, ◌≢◌, Bool, true, false, none, List, arith, string_eq, All, All-weaken,
  option_eq,
}
use romcloud.Base.Dict.{lookup}
use romcloud.Saves.Model.{
  Manifest, Policy, SaveReconcileAction, upload, download, conflict, unchanged, SaveReconcileEntry,
  ScanReport,
}
use romcloud.Saves.Groups.{group_id}
use romcloud.Saves.Groups.Laws.{IsManifest, Agree}
use romcloud.Saves.Reconcile.{
  plan_entries, reconcile_plan, desired_sides, reconciled_baseline, upload_only_reconciled_baseline,
  baseline_value, upload_only_value,
}
use romcloud.Saves.Reconcile.Entries.{
  decided, action_at, IsDecided-plan_entries, contains-paths-plan_entries,
}
use romcloud.Saves.Reconcile.Sides.{
  lookup-assign_all, lookup-desired_local, lookup-desired_remote, local_value, remote_value,
  desired_sides-upload_only,
}
use romcloud.Saves.Reconcile.Decides.{
  Decides, group_action-Decides, uncovered, in_sync, repaired, local_changed, remote_changed,
  both_changed,
}

module _ (policy : Policy) (repair : List String) (local remote baseline : Manifest) where
  abbrev pub entries : List SaveReconcileEntry
  entries = plan_entries policy repair local remote baseline

  abbrev pub at : String → SaveReconcileEntry
  at p = decided policy repair local remote baseline p

  pub applied_local :
      (p : String)
      → lookup p (desired_sides false entries (local, remote)).0
        ≡ local_value policy repair local remote baseline (at p) (lookup p local)
  applied_local p = ground (
    arith,
    lookup-desired_local policy repair local remote baseline entries
        (IsDecided-plan_entries policy repair local remote baseline) local remote p,
    contains-paths-plan_entries policy repair local remote baseline p,
    uncovered policy repair local remote baseline p,
  )

  pub applied_remote :
      (u : Bool) (p : String)
      → lookup p (desired_sides u entries (local, remote)).1
        ≡ remote_value policy repair local remote baseline (at p) (lookup p remote)
  applied_remote u p = ground (
    arith,
    lookup-desired_remote policy repair local remote baseline u entries
        (IsDecided-plan_entries policy repair local remote baseline) local remote p,
    contains-paths-plan_entries policy repair local remote baseline p,
    uncovered policy repair local remote baseline p,
  )

  pub recorded :
      (p : String) → lookup p (reconciled_baseline baseline entries) ≡ baseline_value (at p)
  unfolding reconciled_baseline baseline_value
  recorded p = ground (
    arith,
    lookup-assign_all policy repair local remote baseline baseline_value baseline entries
        (IsDecided-plan_entries policy repair local remote baseline) p,
    contains-paths-plan_entries policy repair local remote baseline p,
    uncovered policy repair local remote baseline p,
  )

  pub recorded-upload_only :
      (p : String)
      → lookup p (upload_only_reconciled_baseline baseline entries) ≡ upload_only_value (at p)
  unfolding upload_only_reconciled_baseline upload_only_value
  recorded-upload_only p = ground (
    arith,
    lookup-assign_all policy repair local remote baseline upload_only_value baseline entries
        (IsDecided-plan_entries policy repair local remote baseline) p,
    contains-paths-plan_entries policy repair local remote baseline p,
    uncovered policy repair local remote baseline p,
  )

  Agree-unchanged :
      {g : String} {a : SaveReconcileAction}
      → Decides policy repair local remote baseline g a
      → a ≡ unchanged
      → Agree policy g local remote
  Agree-unchanged (in_sync agree) e = agree
  Agree-unchanged (repaired ne gap) e = cc
  Agree-unchanged (local_changed ne whole rb) e = cc
  Agree-unchanged (remote_changed ne whole rb lb) e = cc
  Agree-unchanged (both_changed ne whole rb lb) e = cc

  module _ (hl : IsManifest local) (hr : IsManifest remote) (hb : IsManifest baseline) where
    in_sync_at :
        (p : String)
        → action_at policy repair local remote baseline p ≡ unchanged
        → lookup p local ≡ lookup p remote
    in_sync_at p e = ground (
      arith,
      Agree-unchanged
          (group_action-Decides policy repair local remote baseline hl hr hb (group_id policy p)) e
          p,
    )

    -- After the plan, the sides agree at a path whose group is no conflict, and hold what they held
    -- at one whose group is.
    pub applied_at :
        (p : String)
        → let l' : Manifest = (desired_sides false entries (local, remote)).0 in
          let r' : Manifest = (desired_sides false entries (local, remote)).1 in
          (action_at policy repair local remote baseline p ≢ conflict → lookup p l' ≡ lookup p r')
          × (action_at policy repair local remote baseline p ≡ conflict
              → (lookup p l' ≡ lookup p local)
                × (lookup p r' ≡ lookup p remote)
                × (lookup p (reconciled_baseline baseline entries) ≡ lookup p baseline))
    unfolding baseline_value
    applied_at p = ground (arith, applied_local p, applied_remote false p, recorded p, in_sync_at p)

-- What a bidirectional pass leaves for an entry, on the two sides and in the next baseline.
unfoldable pub Applied : Manifest × Manifest → Manifest → SaveReconcileEntry → Type 0
Applied sides next e =
    let l = lookup e.relative_path sides.0 in
    let r = lookup e.relative_path sides.1 in
    let b = lookup e.relative_path next in
    elim e.action [
      | upload ↦ (l ≡ e.local) × (r ≡ e.local) × (b ≡ e.local)
      | download ↦
          (l ≡ e.remote) × (r ≡ e.remote) × (b ≡ elim e.remote [ none ↦ e.local | some a ↦ some a ])
      | unchanged ↦ (l ≡ e.local) × (r ≡ e.local) × (b ≡ e.local)
      | conflict ↦ (l ≡ e.local) × (r ≡ e.remote) × (b ≡ e.baseline)
    ]

-- What an upload-only pass leaves for an entry, on the remote side and in the next baseline.
unfoldable pub Uploaded : Manifest → Manifest → SaveReconcileEntry → Type 0
Uploaded remote next e =
    let r = lookup e.relative_path remote in
    let b = lookup e.relative_path next in
    elim e.action [
      | upload ↦ (r ≡ e.local) × (b ≡ e.local)
      | download ↦ (r ≡ e.remote) × (b ≡ e.baseline)
      | unchanged ↦ (r ≡ e.local) × (b ≡ e.local)
      | conflict ↦ (r ≡ e.remote) × (b ≡ e.baseline)
    ]

-- After a bidirectional pass, where each of the three manifests stores its artifacts under their
-- own paths, both sides and the baseline hold the local artifact at a path that was uploaded or
-- unchanged, and keep what they held at a path in conflict. At a downloaded path both sides hold
-- what the remote side held, and so does the baseline, except that it holds the local artifact
-- where the remote side held none, though both sides have no file there any more.
pub reconcile_plan-Applied :
    (policy : Policy) (repair : List String) (l r : ScanReport) (baseline : Manifest)
    → IsManifest l.artifacts
    → IsManifest r.artifacts
    → IsManifest baseline
    → let es : List SaveReconcileEntry = (reconcile_plan policy repair l r baseline).entries in
      All
        (Applied
          (desired_sides false es (l.artifacts, r.artifacts))
          (reconciled_baseline baseline es))
        es
unfolding reconcile_plan Applied baseline_value
reconcile_plan-Applied policy repair l r baseline hl hr hb =
    All-weaken _ _
      (λ e d. rw d (
        ground (
          arith,
          applied_local policy repair l.artifacts r.artifacts baseline e.relative_path,
          applied_remote policy repair l.artifacts r.artifacts baseline false e.relative_path,
          recorded policy repair l.artifacts r.artifacts baseline e.relative_path,
          in_sync_at policy repair l.artifacts r.artifacts baseline hl hr hb e.relative_path,
        )))
      (plan_entries policy repair l.artifacts r.artifacts baseline)
      (IsDecided-plan_entries policy repair l.artifacts r.artifacts baseline)

-- An upload-only pass, where each of the three manifests stores its artifacts under their own
-- paths, changes no local file. At a path that was uploaded or unchanged the remote side and the
-- baseline hold the local artifact afterwards, and they keep what they held at every other path
-- of the plan.
pub reconcile_plan-Uploaded :
    (policy : Policy) (repair : List String) (l r : ScanReport) (baseline : Manifest)
    → IsManifest l.artifacts
    → IsManifest r.artifacts
    → IsManifest baseline
    → let es : List SaveReconcileEntry = (reconcile_plan policy repair l r baseline).entries in
      let sides : Manifest × Manifest = desired_sides true es (l.artifacts, r.artifacts) in
      (sides.0 ≡ l.artifacts)
      × All (Uploaded sides.1 (upload_only_reconciled_baseline baseline es)) es
unfolding reconcile_plan Uploaded upload_only_value
reconcile_plan-Uploaded policy repair l r baseline hl hr hb = (
  desired_sides-upload_only (plan_entries policy repair l.artifacts r.artifacts baseline)
      l.artifacts r.artifacts,
  All-weaken _ _
      (λ e d. rw d (
        ground (
          arith,
          applied_remote policy repair l.artifacts r.artifacts baseline true e.relative_path,
          recorded-upload_only policy repair l.artifacts r.artifacts baseline e.relative_path,
          in_sync_at policy repair l.artifacts r.artifacts baseline hl hr hb e.relative_path,
        )))
      (plan_entries policy repair l.artifacts r.artifacts baseline)
      (IsDecided-plan_entries policy repair l.artifacts r.artifacts baseline),
)
