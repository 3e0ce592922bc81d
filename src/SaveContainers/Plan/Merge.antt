-- ===== src/SaveContainers/Plan/Merge.antt =====
-- The three-way planner as a client sees it: what the maps of a plan hold at each domain.
use romcloud.Base.{
  String, ◌≡◌, ◌≢◌, ◌∙◌, true, false, Option, none, some, List, [], ◌++◌, map, arith, string_eq,
  contains, Distinct, contains-append, option_eq,
}
use romcloud.Base.Dict.{Dict, keys, lookup, contains-keys}
use romcloud.Base.Keys.{dedup, sorted_set, contains-sorted_set, Distinct-sorted_set}
use romcloud.SaveContainers.Model.{
  ok, ContainerSnapshot, LogicalDomainState, domain_eq, ContainerBaseline, DomainAction, converged,
  ContainerReconcilePlan,
}
use romcloud.SaveContainers.Domains.{snapshot_to_domains, domain_map_of}
use romcloud.SaveContainers.Domains.Lookup.{IsKeyed-domain_map_of, lookup-domain_map_of-values}
use romcloud.SaveContainers.Plan.{
  Planning, merge_action, merge_loop, merge_plan, plan_container_reconcile,
}
use romcloud.SaveContainers.Plan.Table.{
  merged_local, merged_remote, merged_base, desired_local-merge_loop, desired_remote-merge_loop,
  next_domains-merge_loop, decisions-merge_loop, decision_at,
}
use romcloud.SaveContainers.Plan.Keyed.{AllKeyed, merge_loop-AllKeyed}

-- What a snapshot, a baseline and a plan hold for a domain.
abbrev pub domain_in : String → ContainerSnapshot → Option LogicalDomainState
domain_in d s = lookup d (domain_map_of (snapshot_to_domains s))

abbrev pub domain_of : String → List LogicalDomainState → Option LogicalDomainState
domain_of d ds = lookup d (domain_map_of ds)

module _ (local remote : ContainerSnapshot) (b : ContainerBaseline) where
  abbrev pub lm : Dict String LogicalDomainState
  lm = domain_map_of (snapshot_to_domains local)

  abbrev pub rm : Dict String LogicalDomainState
  rm = domain_map_of (snapshot_to_domains remote)

  abbrev pub bm : Dict String LogicalDomainState
  bm = domain_map_of b.domains

  abbrev pub all_domains : List String
  all_domains = sorted_set (keys bm ++ b.tombstones ++ keys lm ++ keys rm)

  -- A domain that the loop passes over is on no side.
  pub absent :
      (d : String)
      → contains all_domains d ≡ false
      → (lookup d bm ≡ none) × (lookup d lm ≡ none) × (lookup d rm ≡ none)
  absent d h = ground (
    arith,
    contains-sorted_set (keys bm ++ b.tombstones ++ keys lm ++ keys rm) d,
    contains-append (keys bm ++ b.tombstones ++ keys lm) (keys rm) d,
    contains-append (keys bm ++ b.tombstones) (keys lm) d,
    contains-append (keys bm) b.tombstones d,
    contains-keys bm d,
    contains-keys lm d,
    contains-keys rm d,
  )

  abbrev pub start : Planning
  start = record {
    decisions = [];
    desired_local = lm;
    desired_remote = rm;
    next_domains = bm;
    next_tombstones = dedup b.tombstones;
  }

  abbrev pub ended : Planning
  ended = merge_loop lm rm bm all_domains start

  ended-AllKeyed : AllKeyed ended
  ended-AllKeyed =
      merge_loop-AllKeyed lm rm (IsKeyed-domain_map_of (snapshot_to_domains local))
        (IsKeyed-domain_map_of (snapshot_to_domains remote)) bm all_domains start
        (record {
          local = IsKeyed-domain_map_of (snapshot_to_domains local);
          remote = IsKeyed-domain_map_of (snapshot_to_domains remote);
          next = IsKeyed-domain_map_of b.domains;
        })

  abbrev pub action : String → DomainAction
  action d = merge_action (lookup d bm) (lookup d lm) (lookup d rm)

  unique : Distinct all_domains
  unique = Distinct-sorted_set (keys bm ++ b.tombstones ++ keys lm ++ keys rm)

  module _ (d : String) where
    pub lookup-desired_local :
        lookup d ended.desired_local ≡ merged_local (action d) (lookup d lm) (lookup d rm)
    lookup-desired_local =
        ground (arith, desired_local-merge_loop lm rm bm d all_domains start unique, absent d)

    pub lookup-desired_remote :
        lookup d ended.desired_remote ≡ merged_remote (action d) (lookup d lm) (lookup d rm)
    lookup-desired_remote =
        ground (arith, desired_remote-merge_loop lm rm bm d all_domains start unique, absent d)

    pub desired_local-merge_plan :
        domain_of d (merge_plan local remote b).desired_local
        ≡ merged_local (action d) (lookup d lm) (lookup d rm)
    unfolding merge_plan
    desired_local-merge_plan =
        lookup-domain_map_of-values ended.desired_local d ended-AllKeyed.local
        ∙ lookup-desired_local

    pub desired_remote-merge_plan :
        domain_of d (merge_plan local remote b).desired_remote
        ≡ merged_remote (action d) (lookup d lm) (lookup d rm)
    unfolding merge_plan
    desired_remote-merge_plan =
        lookup-domain_map_of-values ended.desired_remote d ended-AllKeyed.remote
        ∙ lookup-desired_remote

    pub next_baseline-merge_plan :
        domain_of d (merge_plan local remote b).next_baseline.domains
        ≡ merged_base (action d) (lookup d bm) (lookup d lm) (lookup d rm)
    unfolding merge_plan
    next_baseline-merge_plan =
        lookup-domain_map_of-values ended.next_domains d ended-AllKeyed.next
        ∙ ground (arith, next_domains-merge_loop lm rm bm d all_domains start unique, absent d)

  pub decisions-merge_plan :
      (merge_plan local remote b).decisions ≡ map (decision_at lm rm bm) all_domains
  unfolding merge_plan
  decisions-merge_plan = decisions-merge_loop lm rm bm all_domains start

  pub contains-all_domains : (d : String) → action d ≢ converged → contains all_domains d ≡ true
  unfolding merge_action
  contains-all_domains d h = ground (arith, absent d)

  -- A plan that is returned is the plan of the branch.
  pub plan-eq-merge_plan :
      (plan : ContainerReconcilePlan)
      → plan_container_reconcile local remote (some b) ≡ ok plan
      → plan ≡ merge_plan local remote b
  unfolding plan_container_reconcile
  plan-eq-merge_plan plan h = ground arith
