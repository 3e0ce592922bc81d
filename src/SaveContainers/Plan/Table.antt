-- ===== src/SaveContainers/Plan/Table.antt =====
-- What one domain id sees of the three-way loop: the loop against the pointwise table.
use romcloud.Base.{
  String, ◌≡◌, refl, Option, none, some, List, [], ◌∷◌, ◌++◌, ◌==◌, string_eq, option_eq, contains,
  if◌then◌else◌, arith, Distinct, map, sym, ap, ◌∙◌,
}
use mathlib.Core.List.{append-nil, append_assoc}
use romcloud.Base.Dict.{Dict, lookup, lookup-assign}
use romcloud.SaveContainers.Model.{
  LogicalDomainState, domain_eq, DomainAction, use_local, use_remote, conflict, DomainDecision,
}
use romcloud.SaveContainers.Plan.{
  Planning, merge_action, apply_action, advance, settle, merge_step, merge_loop,
}

-- The value that a side, the other side or the baseline ends with, by the action of the domain.
abbrev pub merged_local :
    DomainAction → Option LogicalDomainState → Option LogicalDomainState → Option LogicalDomainState
merged_local use_remote l r = r
merged_local _ l r = l

abbrev pub merged_remote :
    DomainAction → Option LogicalDomainState → Option LogicalDomainState → Option LogicalDomainState
merged_remote use_local l r = l
merged_remote _ l r = r

abbrev pub merged_base :
    DomainAction
    → Option LogicalDomainState
    → Option LogicalDomainState
    → Option LogicalDomainState
    → Option LogicalDomainState
merged_base conflict base l r = base
merged_base use_remote base l r = r
merged_base _ base l r = l

lookup-advance :
    (j d : String) (o : Option LogicalDomainState) (p : Planning)
    → lookup j (advance d o p).next_domains ≡ (if j == d then o else lookup j p.next_domains)
unfolding advance
lookup-advance j d none p = lookup-assign j d none p.next_domains
lookup-advance j d (some v) p = lookup-assign j d (some v) p.next_domains

module _ (local_map remote_map baseline_map : Dict String LogicalDomainState) where
  abbrev pub action_at : String → DomainAction
  action_at d = merge_action (lookup d baseline_map) (lookup d local_map) (lookup d remote_map)

  module _ (j d : String) (p : Planning) where
    abbrev stepped : Planning
    stepped = merge_step local_map remote_map baseline_map d p

    desired_local-merge_step : lookup j stepped.desired_local ≡ (
        if j == d
        then merged_local (action_at d) (lookup j p.desired_local) (lookup d remote_map)
        else lookup j p.desired_local)
    unfolding merge_step apply_action settle advance
    desired_local-merge_step =
        ground (arith, lookup-assign j d (lookup d remote_map) p.desired_local)

    desired_remote-merge_step : lookup j stepped.desired_remote ≡ (
        if j == d
        then merged_remote (action_at d) (lookup d local_map) (lookup j p.desired_remote)
        else lookup j p.desired_remote)
    unfolding merge_step apply_action settle advance
    desired_remote-merge_step =
        ground (arith, lookup-assign j d (lookup d local_map) p.desired_remote)

    next_domains-merge_step : lookup j stepped.next_domains ≡ (
        if j == d
        then merged_base
            (action_at d)
            (lookup j p.next_domains)
            (lookup d local_map)
            (lookup d remote_map)
        else lookup j p.next_domains)
    unfolding merge_step apply_action settle
    next_domains-merge_step = grind (arith, lookup-advance)

  -- Every domain of the list is settled by its own action, and no other is touched.
  module _ (j : String) where
    pub desired_local-merge_loop :
        (ds : List String) (p : Planning)
        → Distinct ds
        → lookup j (merge_loop local_map remote_map baseline_map ds p).desired_local ≡ (
            if contains ds j
            then merged_local (action_at j) (lookup j p.desired_local) (lookup j remote_map)
            else lookup j p.desired_local)
    unfolding merge_loop
    desired_local-merge_loop [] p u = refl
    desired_local-merge_loop (d ∷ ds) p u =
        ground
          (arith, desired_local-merge_loop ds (stepped d d p) u.1, desired_local-merge_step j d p)

    pub desired_remote-merge_loop :
        (ds : List String) (p : Planning)
        → Distinct ds
        → lookup j (merge_loop local_map remote_map baseline_map ds p).desired_remote ≡ (
            if contains ds j
            then merged_remote (action_at j) (lookup j local_map) (lookup j p.desired_remote)
            else lookup j p.desired_remote)
    unfolding merge_loop
    desired_remote-merge_loop [] p u = refl
    desired_remote-merge_loop (d ∷ ds) p u =
        ground
          (arith, desired_remote-merge_loop ds (stepped d d p) u.1, desired_remote-merge_step j d p)

    pub next_domains-merge_loop :
        (ds : List String) (p : Planning)
        → Distinct ds
        → lookup j (merge_loop local_map remote_map baseline_map ds p).next_domains ≡ (
            if contains ds j
            then merged_base
                (action_at j)
                (lookup j p.next_domains)
                (lookup j local_map)
                (lookup j remote_map)
            else lookup j p.next_domains)
    unfolding merge_loop
    next_domains-merge_loop [] p u = refl
    next_domains-merge_loop (d ∷ ds) p u =
        ground
          (arith, next_domains-merge_loop ds (stepped d d p) u.1, next_domains-merge_step j d p)

  abbrev pub decision_at : String → DomainDecision
  decision_at d = record {
    merge_domain_id = d;
    action = action_at d;
    baseline = lookup d baseline_map;
    local = lookup d local_map;
    remote = lookup d remote_map;
  }

  decisions-merge_step :
      (d : String) (p : Planning) → (stepped d d p).decisions ≡ p.decisions ++ decision_at d ∷ []
  unfolding merge_step apply_action settle advance
  decisions-merge_step d p = ground arith

  pub decisions-merge_loop :
      (ds : List String) (p : Planning)
      → (merge_loop local_map remote_map baseline_map ds p).decisions
        ≡ p.decisions ++ map decision_at ds
  unfolding merge_loop
  decisions-merge_loop [] p = sym (append-nil p.decisions)
  decisions-merge_loop (d ∷ ds) p =
      decisions-merge_loop ds (stepped d d p)
      ∙ ap (λ (ds' : List DomainDecision). ds' ++ map decision_at ds) (decisions-merge_step d p)
      ∙ append_assoc p.decisions (decision_at d ∷ []) (map decision_at ds)
