-- ===== src/SaveContainers/Tests.antt =====
-- Two memory cards with three games: runs of the planner, and its theorems at these inputs.
use romcloud.Base.{
  String, ◌≡◌, refl, true, none, some, List, [], ◌∷◌, map, arith, string_eq, nat_eq, option_eq,
  contains, false, ◌≢◌, keep_if, string_dec,
}
use romcloud.Base.Dict.{lookup, insert}
use romcloud.Base.Keys.{dedup, sort_by}
use romcloud.SaveContainers.Model.{
  ok, ContainerEntry, ContainerSnapshot, domain_eq, ContainerBaseline, DomainAction, converged,
  use_local, use_remote, conflict, DomainDecision, ContainerReconcilePlan,
}
use romcloud.SaveContainers.Domains.{snapshot_to_domains, domain_map_of}
use romcloud.SaveContainers.Plan.{
  merge_plan, bootstrap_plan, plan_container_reconcile, conflicts, local_changes, remote_changes,
}
use romcloud.SaveContainers.Plan.Merge.{domain_in, domain_of}
use romcloud.SaveContainers.Plan.ThreeWay.{Merged, plan_container_reconcile-Merged}
use romcloud.SaveContainers.Plan.Bootstrap.{Bootstrapped, plan_container_reconcile-Bootstrapped}
use romcloud.SaveContainers.Plan.Converge.{
  conflicts-nil_converges, plan_container_reconcile-settles,
}
use romcloud.SaveContainers.Plan.Tombstones.{
  IsDisjoint, known, next_baseline-IsDisjoint, next_baseline-known,
}
use romcloud.SaveContainers.Target.{local_side, target_snapshot}
use romcloud.SaveContainers.Target.Total.{target_snapshot-ok}

abbrev save : String → String → String → ContainerEntry
save id domain hash = record {
  identity = id;
  merge_domain_id = domain;
  canonical_hash = hash;
  size_bytes = 8192;
  locator = "1";
}

abbrev card : List ContainerEntry → ContainerSnapshot
card es = record {
  container_id = "card";
  adapter_id = "ps1";
  schema_version = 1;
  format_variant = "raw";
  entries = es;
}

-- Game `a` changed on this device, game `b` was deleted on the other, game `c` is the same.
abbrev here : ContainerSnapshot
here = card (save "a1" "a" "new" ∷ save "b1" "b" "old" ∷ save "c1" "c" "old" ∷ [])

abbrev there : ContainerSnapshot
there = card (save "a1" "a" "old" ∷ save "c1" "c" "old" ∷ [])

abbrev shared : ContainerBaseline
shared = record {
  container_id = "card";
  adapter_id = "ps1";
  schema_version = 1;
  format_variant = "raw";
  domains =
      snapshot_to_domains
        (card (save "a1" "a" "old" ∷ save "b1" "b" "old" ∷ save "c1" "c" "old" ∷ []));
  tombstones = "z" ∷ [];
}

abbrev plan : ContainerReconcilePlan
plan = merge_plan here there shared

planned : plan_container_reconcile here there (some shared) ≡ ok plan
unfolding plan_container_reconcile string_eq nat_eq
planned = refl

actions : List DomainDecision → List DomainAction
actions ds = map (λ d. d.action) ds

plan_actions : actions plan.decisions ≡ use_local ∷ use_remote ∷ converged ∷ converged ∷ []
unfolding actions merge_plan snapshot_to_domains string_eq option_eq domain_eq dedup domain_map_of
    sort_by
plan_actions = refl

Merged_example :
    Merged
      (domain_of "b" shared.domains)
      (domain_in "b" here)
      (domain_in "b" there)
      (domain_of "b" plan.desired_local)
      (domain_of "b" plan.desired_remote)
      (domain_of "b" plan.next_baseline.domains)
Merged_example = plan_container_reconcile-Merged here there shared plan planned "b"

first : ContainerReconcilePlan
unfolding bootstrap_plan snapshot_to_domains string_eq option_eq domain_eq
first = bootstrap_plan here there

first_planned : plan_container_reconcile here there none ≡ ok first
unfolding plan_container_reconcile first nat_eq
first_planned = refl

-- Without a baseline the two versions of game `a` are a conflict.
first_actions : actions first.decisions ≡ conflict ∷ use_local ∷ converged ∷ []
unfolding actions first dedup domain_map_of sort_by
first_actions = refl

Bootstrapped_example :
    Bootstrapped
      (domain_in "a" here)
      (domain_in "a" there)
      (domain_of "a" first.desired_local)
      (domain_of "a" first.desired_remote)
      (domain_of "a" first.next_baseline.domains)
Bootstrapped_example = plan_container_reconcile-Bootstrapped here there first first_planned "a"

no_conflicts : conflicts plan ≡ []
unfolding conflicts merge_plan snapshot_to_domains string_eq option_eq domain_eq keep_if dedup
    domain_map_of sort_by
no_conflicts = refl

converges_example :
    (domain_of "b" plan.desired_local ≡ domain_of "b" plan.desired_remote)
    × (domain_of "b" plan.next_baseline.domains ≡ domain_of "b" plan.desired_local)
converges_example = conflicts-nil_converges here there shared plan planned no_conflicts "b"

abbrev settled : ContainerSnapshot
settled = card (save "a1" "a" "new" ∷ save "c1" "c" "old" ∷ [])

applied_local : (d : String) → domain_in d settled ≡ domain_of d plan.desired_local
unfolding domain_map_of merge_plan snapshot_to_domains string_eq option_eq domain_eq dedup sort_by
applied_local d = refl

applied_remote : (d : String) → domain_in d settled ≡ domain_of d plan.desired_remote
unfolding domain_map_of merge_plan snapshot_to_domains string_eq option_eq domain_eq dedup sort_by
applied_remote d = refl

abbrev again : ContainerReconcilePlan
again = merge_plan settled settled plan.next_baseline

planned_again : plan_container_reconcile settled settled (some plan.next_baseline) ≡ ok again
unfolding plan_container_reconcile string_eq nat_eq
planned_again = refl

settles_example : (local_changes again ≡ []) × (remote_changes again ≡ [])
settles_example =
    plan_container_reconcile-settles here there shared plan planned settled settled again
      applied_local applied_remote planned_again

only_z : (d : String) → d ≢ "z" → contains shared.tombstones d ≡ false
only_z d n = ground arith

z_absent : domain_of "z" shared.domains ≡ none
unfolding domain_map_of lookup snapshot_to_domains string_eq insert sort_by
z_absent = refl

shared-IsDisjoint : IsDisjoint shared
shared-IsDisjoint d = elim (string_dec d "z") [
  | yes p ↦ rw p (ground (arith, z_absent))
  | no n ↦ ground (arith, only_z d)
]

IsDisjoint_example : IsDisjoint plan.next_baseline
IsDisjoint_example = next_baseline-IsDisjoint here there shared plan planned shared-IsDisjoint

known_b : known shared "b" ≡ true
unfolding domain_map_of lookup snapshot_to_domains string_eq insert
known_b = refl

known_example : known plan.next_baseline "b" ≡ true
known_example = next_baseline-known here there shared plan planned "b" known_b

target_snapshot_example :
    (s : ContainerSnapshot) × (target_snapshot plan here there local_side ≡ ok s)
target_snapshot_example = target_snapshot-ok here there (some shared) plan local_side planned
