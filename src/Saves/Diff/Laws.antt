-- ===== src/Saves/Diff/Laws.antt =====
-- A preview shows the snapshots that it was made from, and its conflicts are the plan's.
use romcloud.Base.{
  String, ◌≡◌, ◌↔◌, list_eq, refl, ◌∙◌, Bool, true, false, ◌||◌, ◌&&◌, List, [], ◌∷◌, ◌++◌, ◌==◌,
  arith, string_eq, contains, keep_if, any, All, All-weaken, if◌then◌else◌, option_eq,
  contains-append, contains-keep_if,
}
use romcloud.Base.Dict.{Dict, keys, lookup, lookup-insert, lookup-nil, contains-keys, is_some}
use romcloud.Base.Keys.{sorted_set, contains-sorted_set}
use romcloud.Saves.Model.{SaveArtifact, Manifest, Policy, conflict, ScanReport}
use romcloud.Saves.Groups.{
  group_id, all_paths, same_manifest, group_manifest, group_paths, paths_in,
}
use romcloud.Saves.Groups.Laws.{group_paths-eq, contains-keys-group_paths}
use romcloud.Saves.Diff.{
  Direction, upload, download, diff_entry, diff_all, diff_entries, manifests_from_diff,
  is_group_conflict, group_conflict_ids,
}
use romcloud.Saves.Reconcile.{plan_entries, reconcile_plan, group_action, action_for}
use romcloud.Saves.Reconcile.Entries.{known, IsDecided-plan_entries}

module _ (new_side old_side baseline : Manifest) (direction : Direction) (policy : Policy) where
  abbrev local_side : Manifest
  local_side = elim direction [ upload ↦ new_side | download ↦ old_side ]

  abbrev remote_side : Manifest
  remote_side = elim direction [ upload ↦ old_side | download ↦ new_side ]

  lookup-manifests_from_diff :
      (ps : List String) (l r : Manifest) (p : String)
      → (lookup p
            (manifests_from_diff (diff_all new_side old_side baseline direction policy ps) (l, r)).0
          ≡ (if contains ps p && is_some (lookup p local_side)
              then lookup p local_side
              else lookup p l))
        × (lookup p
              (manifests_from_diff
                (diff_all new_side old_side baseline direction policy ps)
                (l, r)).1
            ≡ (if contains ps p && is_some (lookup p remote_side)
                then lookup p remote_side
                else lookup p r))
  unfolding manifests_from_diff diff_all diff_entry
  lookup-manifests_from_diff [] l r p = (refl, refl)
  lookup-manifests_from_diff (q ∷ ps) l r p = elim direction [
    | upload ↦ elim (string_eq.dec p q) [
      | yes same ↦ grind (arith, same, lookup-manifests_from_diff ps, lookup-insert)
      | no other ↦ grind (arith, other, lookup-manifests_from_diff ps, lookup-insert)
    ]
    | download ↦ elim (string_eq.dec p q) [
      | yes same ↦ grind (arith, same, lookup-manifests_from_diff ps, lookup-insert)
      | no other ↦ grind (arith, other, lookup-manifests_from_diff ps, lookup-insert)
    ]
  ]

  absent :
      (p : String)
      → contains (sorted_set (keys new_side ++ keys old_side)) p
        ≡ (is_some (lookup p new_side) || is_some (lookup p old_side))
  absent p = ground (
    arith,
    contains-sorted_set (keys new_side ++ keys old_side) p,
    contains-append (keys new_side) (keys old_side) p,
    contains-keys new_side p,
    contains-keys old_side p,
  )

-- The two manifests recovered from a preview hold at every path what the local and the remote side
-- held when the preview was made, in either direction.
pub manifests_from_diff-diff_entries :
    (new_side old_side baseline : Manifest) (direction : Direction) (policy : Policy) (p : String)
    → let sides : Manifest × Manifest =
        manifests_from_diff (diff_entries new_side old_side baseline direction policy) ([], []) in
      (lookup p sides.0
        ≡ elim direction [ upload ↦ lookup p new_side | download ↦ lookup p old_side ])
      × (lookup p sides.1
          ≡ elim direction [ upload ↦ lookup p old_side | download ↦ lookup p new_side ])
unfolding diff_entries
manifests_from_diff-diff_entries n o b direction policy p =
    let table =
      lookup-manifests_from_diff n o b direction policy (sorted_set (keys n ++ keys o)) [] [] p in
    elim direction [
      | upload ↦ ground (
        arith,
        lookup-manifests_from_diff n o b upload policy (sorted_set (keys n ++ keys o)) [] [] p,
        absent n o b upload policy p,
        lookup-nil {V = SaveArtifact} p,
      )
      | download ↦ ground (
        arith,
        lookup-manifests_from_diff n o b download policy (sorted_set (keys n ++ keys o)) [] [] p,
        absent n o b download policy p,
        lookup-nil {V = SaveArtifact} p,
      )
    ]

keep_if-none : (p : String → Bool) (xs : List String) → any p xs ≡ false → keep_if p xs ≡ []
unfolding keep_if any
keep_if-none p [] h = refl
keep_if-none p (x ∷ xs) h = ground (arith, keep_if-none p xs)

module _ (policy : Policy) (local remote baseline : Manifest) where
  abbrev in_conflict : String → Bool
  in_conflict g =
      is_group_conflict (group_manifest local (known policy [] local remote baseline g))
        (group_manifest remote (known policy [] local remote baseline g))
        (group_manifest baseline (known policy [] local remote baseline g))

  unknown :
      (g : String)
      → any (λ p. g == group_id policy p) (all_paths local remote baseline) ≡ false
      → in_conflict g ≡ false
  unfolding is_group_conflict group_manifest same_manifest
  unknown g h =
      rw (keep_if-none (λ p. g == group_id policy p) (all_paths local remote baseline) h) refl

  contains-group_conflict_ids :
      (g : String) → contains (group_conflict_ids local remote baseline policy) g ≡ in_conflict g
  unfolding group_conflict_ids
  contains-group_conflict_ids g =
      let groups : Dict String (List String) =
        group_paths policy [] (all_paths local remote baseline) in
      contains-keep_if
        (λ h.
          is_group_conflict (group_manifest local (paths_in policy h groups))
            (group_manifest remote (paths_in policy h groups))
            (group_manifest baseline (paths_in policy h groups)))
        (keys groups) g
      ∙ rw (group_paths-eq policy g (all_paths local remote baseline)) (
          ground (
            arith,
            unknown g,
            contains-keys-group_paths policy g [] (all_paths local remote baseline),
            lookup-nil {V = List String} g,
          ))

  conflict_iff :
      (g : String)
      → (contains (group_conflict_ids local remote baseline policy) g ≡ true) ↔ (
          action_for policy [] local remote baseline g (known policy [] local remote baseline g)
          ≡ conflict)
  unfolding action_for group_action is_group_conflict
  conflict_iff g = ground (arith, contains-group_conflict_ids g)

-- The preview's groups in conflict are those of the plan that repairs no group: an entry of the plan
-- is a conflict exactly when its group is among them.
pub group_conflict_ids-reconcile_plan :
    (policy : Policy) (l r : ScanReport) (baseline : Manifest)
    → All
        (λ e.
          (contains
              (group_conflict_ids l.artifacts r.artifacts baseline policy)
              (group_id policy e.relative_path)
            ≡ true)
          ↔ (e.action ≡ conflict))
        (reconcile_plan policy [] l r baseline).entries
unfolding reconcile_plan
group_conflict_ids-reconcile_plan policy l r baseline =
    All-weaken _ _
      (λ e d.
        rw d
          (conflict_iff policy l.artifacts r.artifacts baseline (group_id policy e.relative_path)))
      (plan_entries policy [] l.artifacts r.artifacts baseline)
      (IsDecided-plan_entries policy [] l.artifacts r.artifacts baseline)
