-- ===== src/Saves/Reconcile/Settles.antt =====
-- A second reconciliation after a pass moves no file.
use romcloud.Base.{
  String, ◌≡◌, ◌≢◌, refl, ap, false, ◌⊎◌, inl, inr, List, [], arith, string_eq, All, All-weaken,
  option_eq,
}
use romcloud.Base.Dict.{lookup}
use romcloud.Saves.Model.{
  Manifest, Policy, SaveReconcileAction, conflict, unchanged, SaveReconcileEntry, ScanReport,
}
use romcloud.Saves.Groups.{group_id}
use romcloud.Saves.Groups.Laws.{IsManifest, Agree}
use romcloud.Saves.Reconcile.{
  plan_entries, reconcile_plan, desired_sides, action_for, reconciled_baseline, baseline_value,
}
use romcloud.Saves.Reconcile.Entries.{known, action_at, IsDecided-plan_entries}
use romcloud.Saves.Reconcile.Decides.{
  Decides, group_action-Decides, in_sync, repaired, local_changed, remote_changed, both_changed,
}
use romcloud.Saves.Reconcile.Applied.{entries, applied_local, applied_remote, recorded, applied_at}

conflict_or : (a : SaveReconcileAction) → (a ≡ conflict) ⊎ (a ≢ conflict)
conflict_or a = ground arith

module _ (policy : Policy) (repair : List String) (local remote baseline : Manifest) where
  diverged :
      {g : String} {a : SaveReconcileAction}
      → Decides policy repair local remote baseline g a
      → a ≡ conflict
      → (¬ Agree policy g remote baseline) × (¬ Agree policy g local baseline)
  diverged (in_sync agree) e = cc
  diverged (repaired ne gap) e = cc
  diverged (local_changed ne whole rb) e = cc
  diverged (remote_changed ne whole rb lb) e = cc
  diverged (both_changed ne whole rb lb) e = (rb, lb)

module _ (policy : Policy) (repair : List String) (local remote baseline l' r' b' : Manifest)
    (hl : IsManifest local) (hr : IsManifest remote) (hb : IsManifest baseline)
    (applied_l : (p : String)
      → lookup p l'
        ≡ lookup p
            (desired_sides false (entries policy repair local remote baseline) (local, remote)).0)
    (applied_r : (p : String)
      → lookup p r'
        ≡ lookup p
            (desired_sides false (entries policy repair local remote baseline) (local, remote)).1)
    (kept : (p : String)
      → lookup p b'
        ≡ lookup p
            (reconciled_baseline baseline (entries policy repair local remote baseline))) where
  first : String → SaveReconcileAction
  first p = action_at policy repair local remote baseline p

  same_first : (p q : String) → group_id policy p ≡ group_id policy q → first p ≡ first q
  unfolding first
  same_first p q same =
      ap
        (λ g.
          action_for policy repair local remote baseline g
            (known policy repair local remote baseline g))
        same

  -- In a group that was no conflict the sides agree.
  settled : (p : String) → first p ≢ conflict → Agree policy (group_id policy p) l' r'
  unfolding first
  settled p h q = elim (string_eq.dec (group_id policy p) (group_id policy q)) [
    | yes same ↦ ground (
      arith,
      same,
      same_first p q same,
      applied_l q,
      applied_r q,
      applied_at policy repair local remote baseline hl hr hb q,
    )
    | no other ↦ ground (arith, other)
  ]

  -- In a group that was a conflict nothing moved.
  waiting :
      (p : String)
      → first p ≡ conflict
      → (q : String) → group_id policy p ≡ group_id policy q
      → (lookup q l' ≡ lookup q local)
        × (lookup q r' ≡ lookup q remote)
        × (lookup q b' ≡ lookup q baseline)
  unfolding first
  waiting p h q same = ground (
    arith,
    same_first p q same,
    applied_l q,
    applied_r q,
    kept q,
    applied_at policy repair local remote baseline hl hr hb q,
  )

  IsManifest-l' : IsManifest l'
  IsManifest-l' = record {
    at = λ p a found. ground (
      arith,
      found,
      applied_l p,
      applied_local policy repair local remote baseline p,
      hl.at p a,
      hr.at p a,
    );
  }

  IsManifest-r' : IsManifest r'
  IsManifest-r' = record {
    at = λ p a found. ground (
      arith,
      found,
      applied_r p,
      applied_remote policy repair local remote baseline false p,
      hl.at p a,
      hr.at p a,
    );
  }

  IsManifest-b' : IsManifest b'
  unfolding baseline_value
  IsManifest-b' = record {
    at = λ p a found. ground (
      arith,
      found,
      kept p,
      recorded policy repair local remote baseline p,
      hl.at p a,
      hr.at p a,
      hb.at p a,
    );
  }

  still_apart :
      (p : String)
      → ¬ Agree policy (group_id policy p) l' r'
      → (¬ Agree policy (group_id policy p) r' b') × (¬ Agree policy (group_id policy p) l' b')
  unfolding first
  still_apart p ne = elim (conflict_or (first p)) [
    | inl c ↦
        let apart =
          diverged policy repair local remote baseline
            (group_action-Decides policy repair local remote baseline hl hr hb (group_id policy p))
            c in
        (
          λ agree. apart.0 λ q. ground (arith, agree q, waiting p c q),
          λ agree. apart.1 λ q. ground (arith, agree q, waiting p c q),
        )
    | inr other ↦ absurd (ne (settled p other))
  ]

  quiet :
      (p : String) {a : SaveReconcileAction}
      → Decides policy [] l' r' b' (group_id policy p) a
      → (a ≡ unchanged) ⊎ (a ≡ conflict)
  quiet p (in_sync agree) = inl refl
  quiet p (repaired ne gap) = ground (arith, gap)
  quiet p (local_changed ne whole rb) = absurd ((still_apart p ne).0 rb)
  quiet p (remote_changed ne whole rb lb) = absurd ((still_apart p ne).1 lb)
  quiet p (both_changed ne whole rb lb) = inr refl

-- Once a bidirectional pass has been applied and its baseline stored, a second pass over the same
-- state with no group to repair moves no file: each entry is unchanged or a conflict. The three
-- manifests of the first pass store their artifacts under their own paths.
pub reconcile_plan-settles :
    (policy : Policy) (repair : List String) (l r l' r' : ScanReport) (baseline b' : Manifest)
    → IsManifest l.artifacts
    → IsManifest r.artifacts
    → IsManifest baseline
    → let es : List SaveReconcileEntry = (reconcile_plan policy repair l r baseline).entries in
      let sides : Manifest × Manifest = desired_sides false es (l.artifacts, r.artifacts) in
      ((p : String) → lookup p l'.artifacts ≡ lookup p sides.0)
      → ((p : String) → lookup p r'.artifacts ≡ lookup p sides.1)
      → ((p : String) → lookup p b' ≡ lookup p (reconciled_baseline baseline es))
      → All
          (λ e. (e.action ≡ unchanged) ⊎ (e.action ≡ conflict))
          (reconcile_plan policy [] l' r' b').entries
unfolding reconcile_plan
reconcile_plan-settles policy repair l r l' r' baseline b' hl hr hb al ar kept =
    let la = l.artifacts in
    let ra = r.artifacts in
    let la' = l'.artifacts in
    let ra' = r'.artifacts in
    All-weaken _ _
      (λ e d. rw d (
        quiet policy repair la ra baseline la' ra' b' hl hr hb al ar kept e.relative_path (
          group_action-Decides policy [] la' ra' b'
            (IsManifest-l' policy repair la ra baseline la' ra' b' hl hr hb al ar kept)
            (IsManifest-r' policy repair la ra baseline la' ra' b' hl hr hb al ar kept)
            (IsManifest-b' policy repair la ra baseline la' ra' b' hl hr hb al ar kept)
            (group_id policy e.relative_path))))
      (plan_entries policy [] la' ra' b') (IsDecided-plan_entries policy [] la' ra' b')
