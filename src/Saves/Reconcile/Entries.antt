-- ===== src/Saves/Reconcile/Entries.antt =====
-- The entries of a reconcile plan are one per path, each with the action of its path's group.
use romcloud.Base.{
  String, ◌≡◌, refl, sym, ◌∙◌, ap, Bool, true, ◌||◌, ◌&&◌, List, [], ◌∷◌, ◌++◌, map, ◌==◌, arith,
  string_eq, contains, keep_if, any, All, All-append, contains-keep_if, option_eq,
}
use romcloud.Base.Dict.{keys, lookup-nil}
use romcloud.Base.Keys.{sorted, contains-sorted, All-sort_by, contains-sort_by}
use romcloud.Saves.Model.{Manifest, Policy, SaveReconcileAction, SaveReconcileEntry}
use romcloud.Saves.Groups.{group_id, paths_in, all_paths}
use romcloud.Saves.Groups.Laws.{group_paths-eq, contains-keys-group_paths}
use romcloud.Saves.Reconcile.{action_for, entry_at, group_entries, groups, plan_entries}

abbrev pub paths : List SaveReconcileEntry → List String
paths es = map (λ (e : SaveReconcileEntry). e.relative_path) es

or_assoc : (a b c : Bool) → (a || (b || c)) ≡ ((a || b) || c)
or_assoc a b c = ground arith

module _ (policy : Policy) (repair : List String) (local remote baseline : Manifest) where
  -- The known paths of a group.
  abbrev pub known : String → List String
  known g = keep_if (λ p. g == group_id policy p) (all_paths local remote baseline)

  -- The action of the group of a path.
  abbrev pub action_at : String → SaveReconcileAction
  action_at p =
      action_for policy repair local remote baseline (group_id policy p) (known (group_id policy p))

  abbrev pub decided : String → SaveReconcileEntry
  decided p = entry_at policy repair local remote baseline (action_at p) p

  -- An entry is the one its path is decided to have.
  abbrev pub IsDecided : SaveReconcileEntry → Type 0
  IsDecided e = e ≡ decided e.relative_path

  decided-group :
      (g : String) (ps : List String)
      → All
          (λ p.
            decided p
            ≡ entry_at policy repair local remote baseline
                (action_for policy repair local remote baseline g (known g))
                p)
          (keep_if (λ p. g == group_id policy p) ps)
  unfolding keep_if
  decided-group g [] = tt
  decided-group g (p ∷ ps) = elim (string_eq.dec g (group_id policy p)) [
    | yes same ↦ ground (arith, decided-group g ps, same)
    | no other ↦ ground (arith, decided-group g ps, other)
  ]

  IsDecided-group :
      (g : String) (ps : List String) (action : SaveReconcileAction)
      → All (λ p. decided p ≡ entry_at policy repair local remote baseline action p) ps
      → All IsDecided (map (entry_at policy repair local remote baseline action) ps)
  IsDecided-group g [] action h = tt
  IsDecided-group g (p ∷ ps) action h = (sym (h.0), IsDecided-group g ps action h.1)

  paths_in-groups :
      (g : String) → paths_in policy g (groups policy repair local remote baseline) ≡ known g
  paths_in-groups g = group_paths-eq policy g (all_paths local remote baseline)

  IsDecided-group_entries :
      (gs : List String)
      → All IsDecided (
          group_entries policy repair local remote baseline
            (groups policy repair local remote baseline)
            gs)
  unfolding group_entries
  IsDecided-group_entries [] = tt
  IsDecided-group_entries (g ∷ gs) =
      All-append IsDecided _ _
        (rw (paths_in-groups g)
          (IsDecided-group g (known g) _ (decided-group g (all_paths local remote baseline))))
        (IsDecided-group_entries gs)

  pub IsDecided-plan_entries : All IsDecided (plan_entries policy repair local remote baseline)
  unfolding plan_entries
  IsDecided-plan_entries =
      All-sort_by (λ (e : SaveReconcileEntry). e.relative_path) IsDecided _
        (IsDecided-group_entries (sorted (keys (groups policy repair local remote baseline))))

  contains-paths-append :
      (action : SaveReconcileAction) (ps : List String) (rest : List SaveReconcileEntry)
      (p : String)
      → contains (paths (map (entry_at policy repair local remote baseline action) ps ++ rest)) p
        ≡ (contains ps p || contains (paths rest) p)
  contains-paths-append action [] rest p = refl
  contains-paths-append action (q ∷ ps) rest p =
      rw (contains-paths-append action ps rest p) (or_assoc (p == q) (contains ps p) _)

  contains-paths-group_entries :
      (gs : List String) (p : String)
      → contains
          (paths (
            group_entries policy repair local remote baseline
              (groups policy repair local remote baseline)
              gs))
          p
        ≡ any (λ g. contains (known g) p) gs
  unfolding group_entries any
  contains-paths-group_entries [] p = refl
  contains-paths-group_entries (g ∷ gs) p = rw (paths_in-groups g) (
      contains-paths-append _ (known g) _ p
      ∙ ap (λ b. contains (known g) p || b) (contains-paths-group_entries gs p))

  any-known :
      (gs : List String) (p : String)
      → any (λ g. contains (known g) p) gs
        ≡ (contains gs (group_id policy p) && contains (all_paths local remote baseline) p)
  unfolding any
  any-known [] p = refl
  any-known (g ∷ gs) p = elim (string_eq.dec (group_id policy p) g) [
    | yes same ↦ ground (
      arith,
      same,
      any-known gs p,
      contains-keep_if (λ q. g == group_id policy q) (all_paths local remote baseline) p,
    )
    | no other ↦ ground (
      arith,
      other,
      any-known gs p,
      contains-keep_if (λ q. g == group_id policy q) (all_paths local remote baseline) p,
    )
  ]

  pub any-in-group :
      (ps : List String) (p : String)
      → contains ps p ≡ true
      → any (λ q. group_id policy p == group_id policy q) ps ≡ true
  unfolding any
  any-in-group [] p h = cc
  any-in-group (q ∷ ps) p h = ground (arith, any-in-group ps p)

  -- The plan has an entry for a path exactly when some side knows the path.
  pub contains-paths-plan_entries :
      (p : String)
      → contains (paths (plan_entries policy repair local remote baseline)) p
        ≡ contains (all_paths local remote baseline) p
  unfolding plan_entries
  contains-paths-plan_entries p =
      contains-sort_by (λ (e : SaveReconcileEntry). e.relative_path)
        (group_entries policy repair local remote baseline
          (groups policy repair local remote baseline)
          (sorted (keys (groups policy repair local remote baseline))))
        p
      ∙ contains-paths-group_entries (sorted (keys (groups policy repair local remote baseline))) p
      ∙ any-known (sorted (keys (groups policy repair local remote baseline))) p
      ∙ ground (
        arith,
        contains-sorted (keys (groups policy repair local remote baseline)) (group_id policy p),
        contains-keys-group_paths policy (group_id policy p) [] (all_paths local remote baseline),
        any-in-group (all_paths local remote baseline) p,
        lookup-nil {V = List String} (group_id policy p),
      )
