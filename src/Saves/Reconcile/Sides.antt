-- ===== src/Saves/Reconcile/Sides.antt =====
-- What the two desired sides and the next baselines hold at each path, by the entry decided for it.
use romcloud.Base.{
  String, ◌≡◌, refl, ◌∙◌, ap, Bool, true, false, Option, List, [], ◌∷◌, arith, string_eq, contains,
  All, if◌then◌else◌, option_eq,
}
use romcloud.Base.Dict.{lookup, assign, lookup-assign}
use romcloud.Saves.Model.{SaveArtifact, Manifest, Policy, upload, download, SaveReconcileEntry}
use romcloud.Saves.Reconcile.{assign_all, desired_sides}
use romcloud.Saves.Reconcile.Entries.{paths, decided, IsDecided}

module _ (policy : Policy) (repair : List String) (local remote baseline : Manifest) where
  abbrev pub at : String → SaveReconcileEntry
  at p = decided policy repair local remote baseline p

  pub lookup-assign_all :
      (value : SaveReconcileEntry → Option SaveArtifact) (m : Manifest)
      (es : List SaveReconcileEntry)
      → All (IsDecided policy repair local remote baseline) es
      → (p : String)
      → lookup p (assign_all value m es) ≡ (
          if contains (paths es) p
          then value (decided policy repair local remote baseline p)
          else lookup p m)
  unfolding assign_all
  lookup-assign_all value m [] h p = refl
  lookup-assign_all value m (e ∷ es) h p =
      lookup-assign_all value (assign e.relative_path (value e) m) es h.1 p
      ∙ rw (lookup-assign p e.relative_path (value e) m) (elim (string_eq.dec p e.relative_path) [
        | yes same ↦ ground (arith, same, ap value (h.0))
        | no other ↦ ground (arith, other)
      ])

  abbrev pub local_value : SaveReconcileEntry → Option SaveArtifact → Option SaveArtifact
  local_value e o = elim e.action [ download ↦ e.remote | _ ↦ o ]

  abbrev pub remote_value : SaveReconcileEntry → Option SaveArtifact → Option SaveArtifact
  remote_value e o = elim e.action [ upload ↦ e.local | _ ↦ o ]

  pub lookup-desired_local :
      (es : List SaveReconcileEntry)
      → All (IsDecided policy repair local remote baseline) es
      → (l r : Manifest) (p : String)
      → lookup p (desired_sides false es (l, r)).0
        ≡ (if contains (paths es) p then local_value (at p) (lookup p l) else lookup p l)
  unfolding desired_sides
  lookup-desired_local [] h l r p = refl
  lookup-desired_local (e ∷ es) h l r p = elim (string_eq.dec p e.relative_path) [
    | yes same ↦ grind (
      arith,
      same,
      h.0,
      lookup-desired_local es (h.1),
      lookup-assign p e.relative_path e.remote l,
    )
    | no other ↦ grind (
      arith,
      other,
      h.0,
      lookup-desired_local es (h.1),
      lookup-assign p e.relative_path e.remote l,
    )
  ]

  pub lookup-desired_remote :
      (upload_only : Bool) (es : List SaveReconcileEntry)
      → All (IsDecided policy repair local remote baseline) es
      → (l r : Manifest) (p : String)
      → lookup p (desired_sides upload_only es (l, r)).1
        ≡ (if contains (paths es) p then remote_value (at p) (lookup p r) else lookup p r)
  unfolding desired_sides
  lookup-desired_remote u [] h l r p = refl
  lookup-desired_remote u (e ∷ es) h l r p = elim (string_eq.dec p e.relative_path) [
    | yes same ↦ grind (
      arith,
      same,
      h.0,
      lookup-desired_remote u es (h.1),
      lookup-assign p e.relative_path e.local r,
    )
    | no other ↦ grind (
      arith,
      other,
      h.0,
      lookup-desired_remote u es (h.1),
      lookup-assign p e.relative_path e.local r,
    )
  ]

pub desired_sides-upload_only :
    (es : List SaveReconcileEntry) (l r : Manifest) → (desired_sides true es (l, r)).0 ≡ l
unfolding desired_sides
desired_sides-upload_only [] l r = refl
desired_sides-upload_only (e ∷ es) l r = grind (arith, desired_sides-upload_only es)
