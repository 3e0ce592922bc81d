-- ===== src/Saves/Reconcile/Decides.antt =====
-- What a reconcile plan decides for each path, and what applying it and recording it leaves.
use romcloud.Base.{
  String, ◌≡◌, ◌≢◌, ◌⊎◌, refl, sym, ◌∙◌, ap, Bool, true, false, ◌||◌, ◌&&◌, none, List, ◌++◌, arith,
  string_eq, contains, All, All-weaken, Bool-cases, inl, inr, option_eq, contains-append,
}
use romcloud.Base.Dict.{lookup, keys, contains-keys, is_some}
use romcloud.Base.Keys.{contains-sorted_set}
use romcloud.Saves.Model.{
  SaveArtifact, Manifest, Policy, SaveReconcileAction, upload, download, conflict, unchanged,
  SaveReconcileEntry, ScanReport,
}
use romcloud.Saves.Groups.{
  group_id, all_paths, same_manifest, group_manifest, is_incomplete_local_materialization,
}
use romcloud.Saves.Groups.Laws.{IsManifest, Agree, same_manifest_iff}
use romcloud.Saves.Reconcile.{plan_entries, reconcile_plan, group_action, action_for}
use romcloud.Saves.Reconcile.Entries.{
  paths, known, IsDecided-plan_entries, contains-paths-plan_entries,
}

module _ (policy : Policy) (repair : List String) (local remote baseline : Manifest) where
  -- The group is to be repaired: its remote files are the baseline's, its local files are a strict
  -- part of them, and none of these was changed.
  abbrev pub incomplete : String → Bool
  incomplete g =
      contains repair g
      && is_incomplete_local_materialization
          (group_manifest local (known policy repair local remote baseline g))
          (group_manifest remote (known policy repair local remote baseline g))
          (group_manifest baseline (known policy repair local remote baseline g))

  -- The action for a group, by which sides agree on the group's paths.
  pub data Decides (g : String) : SaveReconcileAction → Type 0 where
    in_sync : Agree policy g local remote → Decides g unchanged
    repaired : ¬ Agree policy g local remote → incomplete g ≡ true → Decides g download
    local_changed :
        ¬ Agree policy g local remote
        → incomplete g ≡ false
        → Agree policy g remote baseline
        → Decides g upload
    remote_changed :
        ¬ Agree policy g local remote
        → incomplete g ≡ false
        → ¬ Agree policy g remote baseline
        → Agree policy g local baseline
        → Decides g download
    both_changed :
        ¬ Agree policy g local remote
        → incomplete g ≡ false
        → ¬ Agree policy g remote baseline
        → ¬ Agree policy g local baseline
        → Decides g conflict

  -- An entry carries what the three manifests hold at its path and the action for its group.
  abbrev pub IsDecision : SaveReconcileEntry → Type 0
  IsDecision e =
      (e.local ≡ lookup e.relative_path local)
      × (e.remote ≡ lookup e.relative_path remote)
      × (e.baseline ≡ lookup e.relative_path baseline)
      × Decides (group_id policy e.relative_path) e.action

  pub uncovered :
      (p : String)
      → contains (all_paths local remote baseline) p ≡ false
      → (lookup p local ≡ none) × (lookup p remote ≡ none) × (lookup p baseline ≡ none)
  uncovered p h = ground (
    arith,
    contains-sorted_set (keys local ++ keys remote ++ keys baseline) p,
    contains-append (keys local ++ keys remote) (keys baseline) p,
    contains-append (keys local) (keys remote) p,
    contains-keys local p,
    contains-keys remote p,
    contains-keys baseline p,
  )

  module _ (hl : IsManifest local) (hr : IsManifest remote) (hb : IsManifest baseline) where
    pub group_action-Decides :
        (g : String)
        → Decides g (
            action_for policy repair local remote baseline g
              (known policy repair local remote baseline g))
    unfolding action_for group_action
    group_action-Decides g =
        let ps : List String = all_paths local remote baseline in
        let lr =
          same_manifest_iff policy g local remote ps hl hr
            λ p h. ((uncovered p h).0, (uncovered p h).1) in
        let rb =
          same_manifest_iff policy g remote baseline ps hr hb
            λ p h. ((uncovered p h).1, (uncovered p h).2) in
        let lb =
          same_manifest_iff policy g local baseline ps hl hb
            λ p h. ((uncovered p h).0, (uncovered p h).2) in
        let l : List SaveArtifact =
          group_manifest local (known policy repair local remote baseline g) in
        let r : List SaveArtifact =
          group_manifest remote (known policy repair local remote baseline g) in
        let b : List SaveArtifact =
          group_manifest baseline (known policy repair local remote baseline g) in
        elim (Bool-cases (same_manifest l r)) [
          | inl same ↦ rw same (in_sync (lr.0 same))
          | inr apart ↦
              let ne : ¬ Agree policy g local remote = λ agree. ground (arith, lr.1 agree) in
              rw apart (elim (Bool-cases (incomplete g)) [
                | inl gap ↦ rw gap (repaired ne gap)
                | inr whole ↦ rw whole (elim (Bool-cases (same_manifest r b)) [
                  | inl rb_same ↦ rw rb_same (local_changed ne whole (rb.0 rb_same))
                  | inr rb_apart ↦
                      let rb_ne : ¬ Agree policy g remote baseline =
                        λ agree. ground (arith, rb.1 agree) in
                      rw rb_apart (elim (Bool-cases (same_manifest l b)) [
                        | inl lb_same ↦ rw lb_same (remote_changed ne whole rb_ne (lb.0 lb_same))
                        | inr lb_apart ↦
                            rw lb_apart
                              (both_changed ne whole rb_ne λ agree. ground (arith, lb.1 agree))
                      ])
                ])
              ])
        ]

-- The plan has an entry for exactly the paths that some side or the baseline holds. Each entry
-- carries what the three hold there, and the action that the agreement of the three on the whole
-- group of the path decides, where each manifest stores its artifacts under their own paths.
pub reconcile_plan-Decides :
    (policy : Policy) (repair : List String) (l r : ScanReport) (baseline : Manifest)
    → IsManifest l.artifacts
    → IsManifest r.artifacts
    → IsManifest baseline
    → let es : List SaveReconcileEntry = (reconcile_plan policy repair l r baseline).entries in
      ((p : String)
        → contains (paths es) p ≡ (
            is_some (lookup p l.artifacts)
            || is_some (lookup p r.artifacts)
            || is_some (lookup p baseline)))
      × All (IsDecision policy repair l.artifacts r.artifacts baseline) es
unfolding reconcile_plan
reconcile_plan-Decides policy repair l r baseline hl hr hb = (
  λ p.
      contains-paths-plan_entries policy repair l.artifacts r.artifacts baseline p
      ∙ ground (
        arith,
        contains-sorted_set (keys l.artifacts ++ keys r.artifacts ++ keys baseline) p,
        contains-append (keys l.artifacts ++ keys r.artifacts) (keys baseline) p,
        contains-append (keys l.artifacts) (keys r.artifacts) p,
        contains-keys l.artifacts p,
        contains-keys r.artifacts p,
        contains-keys baseline p,
      ),
  All-weaken _ _
      (λ e is_decided. rw is_decided (
        refl,
        refl,
        refl,
        group_action-Decides policy repair l.artifacts r.artifacts baseline hl hr hb
            (group_id policy e.relative_path),
      ))
      (plan_entries policy repair l.artifacts r.artifacts baseline)
      (IsDecided-plan_entries policy repair l.artifacts r.artifacts baseline),
)

-- The files of a group always move together: of any two entries of a plan, the paths are in
-- different groups or the actions are the same.
pub reconcile_plan-one_action :
    (policy : Policy) (repair : List String) (l r : ScanReport) (baseline : Manifest)
    → let es : List SaveReconcileEntry = (reconcile_plan policy repair l r baseline).entries in
      All
        (λ e.
          All
            (λ e'.
              (group_id policy e.relative_path ≢ group_id policy e'.relative_path)
              ⊎ (e.action ≡ e'.action))
            es)
        es
unfolding reconcile_plan
reconcile_plan-one_action policy repair l r baseline =
    let es : List SaveReconcileEntry =
      plan_entries policy repair l.artifacts r.artifacts baseline in
    let all_decided = IsDecided-plan_entries policy repair l.artifacts r.artifacts baseline in
    All-weaken _ _
      (λ e d.
        All-weaken _ _
          (λ e' d'.
            elim (string_eq.dec (group_id policy e.relative_path)
              (group_id policy e'.relative_path)) [
                | yes same ↦ inr (
                    ap (λ (x : SaveReconcileEntry). x.action) d
                    ∙ ap
                        (λ g.
                          action_for policy repair l.artifacts r.artifacts baseline g
                            (known policy repair l.artifacts r.artifacts baseline g))
                        same
                    ∙ sym (ap (λ (x : SaveReconcileEntry). x.action) d'))
                | no other ↦ inl other
              ])
          es all_decided)
      es all_decided
