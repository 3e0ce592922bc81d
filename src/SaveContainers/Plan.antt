-- ===== src/SaveContainers/Plan.antt =====
-- `_assert_compatible` and `plan_container_reconcile` of core/save_containers.py. A loop over sorted
-- domain ids is a recursion on their list; its local variables are the record `Planning`.
pub mod Table
pub mod Keyed
pub mod Merge
pub mod ThreeWay
pub mod Converge
pub mod Tombstones
pub mod Bootstrap
use romcloud.Base.{
  ℕ, String, Bool, true, false, ◌&&◌, Option, none, some, List, [], ◌∷◌, ◌++◌, ◌==◌, string_eq,
  nat_eq, option_eq, contains, if◌then◌else◌, keep_if, not,
}
use romcloud.Base.Dict.{Dict, keys, lookup, assign}
use romcloud.Base.Keys.{sorted, sorted_set, dedup}
use romcloud.SaveContainers.Model.{
  Result, ok, opaque_error, adapter_version_mismatch, ◌>>=◌, ContainerSnapshot, LogicalDomainState,
  domain_eq, ContainerBaseline, DomainAction, converged, use_local, use_remote, conflict,
  DomainDecision, ContainerReconcilePlan,
}
use romcloud.SaveContainers.Domains.{snapshot_to_domains, domain_map_of}
use romcloud.SaveContainers.Domains.Lookup.{values}

-- The tuples that `_assert_compatible` compares are equal.
unfoldable pub same_identity : ContainerSnapshot → ContainerSnapshot → Bool
same_identity a b =
    a.container_id == b.container_id
    && a.adapter_id == b.adapter_id
    && a.schema_version == b.schema_version
    && a.format_variant == b.format_variant

unfoldable pub matches_baseline : ContainerSnapshot → ContainerBaseline → Bool
matches_baseline a b =
    a.container_id == b.container_id
    && a.adapter_id == b.adapter_id
    && a.schema_version == b.schema_version
    && a.format_variant == b.format_variant

unfoldable pub assert_compatible :
    ContainerSnapshot → ContainerSnapshot → Option ContainerBaseline → Result (Unit {0})
unfolding same_identity matches_baseline
assert_compatible local remote none =
    if same_identity local remote then ok tt else opaque_error adapter_version_mismatch
assert_compatible local remote (some b) =
    if same_identity local remote && matches_baseline local b
    then ok tt
    else opaque_error adapter_version_mismatch

pub record Planning : Type 0 where
  pub decisions : List DomainDecision
  pub desired_local : Dict String LogicalDomainState
  pub desired_remote : Dict String LogicalDomainState
  pub next_domains : Dict String LogicalDomainState
  pub next_tombstones : List String

-- The `if` chain of the bootstrap loop.
unfoldable pub bootstrap_action :
    Option LogicalDomainState → Option LogicalDomainState → DomainAction
bootstrap_action l r =
    if l == r
    then converged
    else elim r [ none ↦ use_local | some rv ↦ elim l [ none ↦ use_remote | some lv ↦ conflict ] ]

-- The `if` chain of the three-way loop.
unfoldable pub merge_action :
    Option LogicalDomainState → Option LogicalDomainState → Option LogicalDomainState → DomainAction
merge_action base l r =
    if l == r
    then converged
    else if l == base
    then use_remote
    else if r == base
    then use_local
    else conflict

-- `set.add` and `set.discard`
unfoldable pub add : String → List String → List String
add d ds = if contains ds d then ds else d ∷ ds

unfoldable pub discard : String → List String → List String
discard d ds = keep_if (λ j. not (j == d)) ds

-- `selected`, where the action is not a conflict
abbrev pub selected :
    DomainAction → Option LogicalDomainState → Option LogicalDomainState → Option LogicalDomainState
selected use_remote l r = r
selected _ l r = l

-- `next_domains` and `next_tombstones` after a turn of the three-way loop
unfoldable pub advance : String → Option LogicalDomainState → Planning → Planning
unfolding assign add discard
advance d none p = record p {
  next_domains = assign d none p.next_domains;
  next_tombstones = add d p.next_tombstones;
}
advance d (some v) p = record p {
  next_domains = assign d (some v) p.next_domains;
  next_tombstones = discard d p.next_tombstones;
}

-- `if action is not DomainAction.CONFLICT` of the three-way loop
unfoldable pub settle :
    String
    → DomainAction
    → Option LogicalDomainState
    → Option LogicalDomainState
    → Planning
    → Planning
unfolding advance
settle d conflict l r p = p
settle d a l r p = advance d (selected a l r) p

-- `if selected is not None` of the bootstrap loop
unfoldable pub record_agreed : String → Option LogicalDomainState → Planning → Planning
unfolding assign
record_agreed d none p = p
record_agreed d (some v) p = record p { next_domains = assign d (some v) p.next_domains }

unfoldable pub establish :
    String
    → DomainAction
    → Option LogicalDomainState
    → Option LogicalDomainState
    → Planning
    → Planning
unfolding record_agreed
establish d conflict l r p = p
establish d a l r p = record_agreed d (selected a l r) p

module _ (local_map remote_map : Dict String LogicalDomainState) where
  -- What one turn of either loop does to the two desired sides, after its action is known.
  unfoldable pub apply_action : String → DomainAction → Planning → Planning
  unfolding assign
  apply_action d use_local p = record p {
    desired_remote = assign d (lookup d local_map) p.desired_remote;
  }
  apply_action d use_remote p = record p {
    desired_local = assign d (lookup d remote_map) p.desired_local;
  }
  apply_action d _ p = p

  unfoldable pub bootstrap_step : String → Planning → Planning
  unfolding apply_action bootstrap_action establish
  bootstrap_step d p =
      let l = lookup d local_map in
      let r = lookup d remote_map in
      let action = bootstrap_action l r in
      let q = apply_action d action p in
      let decided = record q {
        decisions =
            q.decisions
            ++ record {
              merge_domain_id = d;
              action = action;
              baseline = none;
              local = l;
              remote = r;
            }
              ∷ [];
      } in
      establish d action l r decided

  unfoldable pub bootstrap_loop : List String → Planning → Planning
  unfolding bootstrap_step
  bootstrap_loop [] p = p
  bootstrap_loop (d ∷ ds) p = bootstrap_loop ds (bootstrap_step d p)

  module _ (baseline_map : Dict String LogicalDomainState) where
    unfoldable pub merge_step : String → Planning → Planning
    unfolding apply_action merge_action settle
    merge_step d p =
        let base = lookup d baseline_map in
        let l = lookup d local_map in
        let r = lookup d remote_map in
        let action = merge_action base l r in
        let q = apply_action d action p in
        let decided = record q {
          decisions =
              q.decisions
              ++ record {
                merge_domain_id = d;
                action = action;
                baseline = base;
                local = l;
                remote = r;
              }
                ∷ [];
        } in
        settle d action l r decided

    unfoldable pub merge_loop : List String → Planning → Planning
    unfolding merge_step
    merge_loop [] p = p
    merge_loop (d ∷ ds) p = merge_loop ds (merge_step d p)

-- `tuple(d[key] for key in sorted(d))`
abbrev pub sorted_values : Dict String LogicalDomainState → List LogicalDomainState
sorted_values m = values m (sorted (keys m))

abbrev pub plan_of : ContainerSnapshot → ContainerBaseline → Planning → ContainerReconcilePlan
plan_of local next p = record {
  container_id = local.container_id;
  decisions = p.decisions;
  desired_local = sorted_values p.desired_local;
  desired_remote = sorted_values p.desired_remote;
  next_baseline = next;
}

-- The branch for `baseline is None`.
unfoldable pub bootstrap_plan : ContainerSnapshot → ContainerSnapshot → ContainerReconcilePlan
unfolding bootstrap_loop
bootstrap_plan local remote =
    let local_map = domain_map_of (snapshot_to_domains local) in
    let remote_map = domain_map_of (snapshot_to_domains remote) in
    let p =
      bootstrap_loop local_map remote_map (sorted_set (keys local_map ++ keys remote_map)) (record {
        decisions = [];
        desired_local = local_map;
        desired_remote = remote_map;
        next_domains = [];
        next_tombstones = [];
      }) in
    plan_of local
      (record {
        container_id = local.container_id;
        adapter_id = local.adapter_id;
        schema_version = local.schema_version;
        format_variant = local.format_variant;
        domains = sorted_values p.next_domains;
        tombstones = [];
      })
      p

-- The branch with a baseline.
unfoldable pub merge_plan :
    ContainerSnapshot → ContainerSnapshot → ContainerBaseline → ContainerReconcilePlan
unfolding merge_loop
merge_plan local remote baseline =
    let local_map = domain_map_of (snapshot_to_domains local) in
    let remote_map = domain_map_of (snapshot_to_domains remote) in
    let baseline_map = domain_map_of baseline.domains in
    let all_domains =
      sorted_set (keys baseline_map ++ baseline.tombstones ++ keys local_map ++ keys remote_map) in
    let p = merge_loop local_map remote_map baseline_map all_domains (record {
      decisions = [];
      desired_local = local_map;
      desired_remote = remote_map;
      next_domains = baseline_map;
      next_tombstones = dedup baseline.tombstones;
    }) in
    plan_of local
      (record {
        container_id = baseline.container_id;
        adapter_id = baseline.adapter_id;
        schema_version = baseline.schema_version;
        format_variant = baseline.format_variant;
        domains = sorted_values p.next_domains;
        tombstones = sorted p.next_tombstones;
      })
      p

-- The properties `conflicts`, `local_changes` and `remote_changes` of a plan.
abbrev pub is_conflict : DomainDecision → Bool
is_conflict x = elim x.action [ conflict ↦ true | _ ↦ false ]

abbrev pub is_use_remote : DomainDecision → Bool
is_use_remote x = elim x.action [ use_remote ↦ true | _ ↦ false ]

abbrev pub is_use_local : DomainDecision → Bool
is_use_local x = elim x.action [ use_local ↦ true | _ ↦ false ]

unfoldable pub conflicts : ContainerReconcilePlan → List DomainDecision
conflicts plan = keep_if is_conflict plan.decisions

unfoldable pub local_changes : ContainerReconcilePlan → List DomainDecision
local_changes plan = keep_if is_use_remote plan.decisions

unfoldable pub remote_changes : ContainerReconcilePlan → List DomainDecision
remote_changes plan = keep_if is_use_local plan.decisions

unfoldable pub plan_container_reconcile :
    ContainerSnapshot → ContainerSnapshot → Option ContainerBaseline → Result ContainerReconcilePlan
unfolding assert_compatible bootstrap_plan merge_plan
plan_container_reconcile local remote none =
    assert_compatible local remote none >>= λ _. ok (bootstrap_plan local remote)
plan_container_reconcile local remote (some b) =
    assert_compatible local remote (some b) >>= λ _. ok (merge_plan local remote b)
