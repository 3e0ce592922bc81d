-- ===== src/SaveContainers/Plan/Bootstrap.antt =====
-- The planner without a baseline: what the maps of its plan hold at each domain.
use romcloud.Base.{
  String, ◌≡◌, ◌≢◌, refl, ◌∙◌, none, some, Option, List, [], ◌∷◌, ◌++◌, arith, option_eq, string_eq,
  ◌==◌, contains, if◌then◌else◌, Distinct, contains-append, true, false, Option-cases, inl, inr,
}
use romcloud.Base.Dict.{Dict, keys, lookup, lookup-assign, contains-keys, lookup-nil}
use romcloud.Base.Keys.{sorted_set, contains-sorted_set, Distinct-sorted_set}
use romcloud.SaveContainers.Model.{
  ok, ContainerSnapshot, LogicalDomainState, domain_eq, DomainAction, use_remote, conflict,
  ContainerReconcilePlan,
}
use romcloud.SaveContainers.Domains.{snapshot_to_domains, domain_map_of}
use romcloud.SaveContainers.Domains.Lookup.{
  IsKeyed-nil, IsKeyed-domain_map_of, lookup-domain_map_of-values,
}
use romcloud.SaveContainers.Plan.{
  Planning, bootstrap_action, apply_action, record_agreed, establish, bootstrap_step,
  bootstrap_loop, bootstrap_plan, plan_container_reconcile,
}
use romcloud.SaveContainers.Plan.Table.{merged_local, merged_remote}
use romcloud.SaveContainers.Plan.Keyed.{AllKeyed, bootstrap_loop-AllKeyed}
use romcloud.SaveContainers.Plan.Merge.{domain_in, domain_of}

-- `Bootstrapped l r l' r' base'`: with no common ancestor the sides `l` and `r` become `l'` and
-- `r'`, and the first ancestor is `base'`.
pub data Bootstrapped (l r l' r' base' : Option LogicalDomainState) : Type 0 where
  agreed : l ≡ r → l' ≡ l → r' ≡ r → base' ≡ l → Bootstrapped l r l' r' base'
  only_local : l ≢ r → r ≡ none → l' ≡ l → r' ≡ l → base' ≡ l → Bootstrapped l r l' r' base'
  only_remote : l ≢ r → l ≡ none → l' ≡ r → r' ≡ r → base' ≡ r → Bootstrapped l r l' r' base'
  ambiguous :
      l ≢ r → l ≢ none → r ≢ none → l' ≡ l → r' ≡ r → base' ≡ none → Bootstrapped l r l' r' base'

-- What a turn records for its domain, where nothing was recorded before.
abbrev recorded :
    DomainAction → Option LogicalDomainState → Option LogicalDomainState → Option LogicalDomainState
recorded conflict l r = none
recorded use_remote l r = r
recorded _ l r = l

lookup-record_agreed :
    (j d : String) (o : Option LogicalDomainState) (p : Planning)
    → lookup d p.next_domains ≡ none
    → lookup j (record_agreed d o p).next_domains ≡ (if j == d then o else lookup j p.next_domains)
unfolding record_agreed
lookup-record_agreed j d none p fresh = ground arith
lookup-record_agreed j d (some v) p fresh = lookup-assign j d (some v) p.next_domains

module _ (lm rm : Dict String LogicalDomainState) where
  abbrev pub action_at : String → DomainAction
  action_at d = bootstrap_action (lookup d lm) (lookup d rm)

  module _ (j d : String) (p : Planning) where
    abbrev stepped : Planning
    stepped = bootstrap_step lm rm d p

    desired_local-bootstrap_step : lookup j stepped.desired_local ≡ (
        if j == d
        then merged_local (action_at d) (lookup j p.desired_local) (lookup d rm)
        else lookup j p.desired_local)
    unfolding bootstrap_step apply_action establish record_agreed
    desired_local-bootstrap_step = ground (arith, lookup-assign j d (lookup d rm) p.desired_local)

    desired_remote-bootstrap_step : lookup j stepped.desired_remote ≡ (
        if j == d
        then merged_remote (action_at d) (lookup d lm) (lookup j p.desired_remote)
        else lookup j p.desired_remote)
    unfolding bootstrap_step apply_action establish record_agreed
    desired_remote-bootstrap_step = ground (arith, lookup-assign j d (lookup d lm) p.desired_remote)

    next_domains-bootstrap_step :
        lookup d p.next_domains ≡ none
        → lookup j stepped.next_domains ≡ (
            if j == d
            then recorded (action_at d) (lookup d lm) (lookup d rm)
            else lookup j p.next_domains)
    unfolding bootstrap_step apply_action establish
    next_domains-bootstrap_step fresh = grind (arith, lookup-record_agreed)

  module _ (j : String) where
    abbrev looped : List String → Planning → Planning
    looped ds p = bootstrap_loop lm rm ds p

    desired_local-bootstrap_loop :
        (ds : List String) (p : Planning)
        → Distinct ds
        → lookup j (looped ds p).desired_local ≡ (
            if contains ds j
            then merged_local (action_at j) (lookup j p.desired_local) (lookup j rm)
            else lookup j p.desired_local)
    unfolding bootstrap_loop
    desired_local-bootstrap_loop [] p u = refl
    desired_local-bootstrap_loop (d ∷ ds) p u = ground (
      arith,
      desired_local-bootstrap_loop ds (stepped d d p) u.1,
      desired_local-bootstrap_step j d p,
    )

    desired_remote-bootstrap_loop :
        (ds : List String) (p : Planning)
        → Distinct ds
        → lookup j (looped ds p).desired_remote ≡ (
            if contains ds j
            then merged_remote (action_at j) (lookup j lm) (lookup j p.desired_remote)
            else lookup j p.desired_remote)
    unfolding bootstrap_loop
    desired_remote-bootstrap_loop [] p u = refl
    desired_remote-bootstrap_loop (d ∷ ds) p u = ground (
      arith,
      desired_remote-bootstrap_loop ds (stepped d d p) u.1,
      desired_remote-bootstrap_step j d p,
    )

    next_domains-bootstrap_loop :
        (ds : List String) (p : Planning)
        → Distinct ds
        → ((d : String) → contains ds d ≡ true → lookup d p.next_domains ≡ none)
        → lookup j (looped ds p).next_domains ≡ (
            if contains ds j
            then recorded (action_at j) (lookup j lm) (lookup j rm)
            else lookup j p.next_domains)
    unfolding bootstrap_loop
    next_domains-bootstrap_loop [] p u fresh = refl
    next_domains-bootstrap_loop (d ∷ ds) p u fresh = ground (
      arith,
      next_domains-bootstrap_loop ds (stepped d d p) u.1
          (λ e m. ground (arith, fresh e, fresh d, next_domains-bootstrap_step e d p)),
      fresh d,
      next_domains-bootstrap_step j d p,
    )

Bootstrapped-bootstrap_action :
    (l r l' r' base' : Option LogicalDomainState)
    → l' ≡ merged_local (bootstrap_action l r) l r
    → r' ≡ merged_remote (bootstrap_action l r) l r
    → base' ≡ recorded (bootstrap_action l r) l r
    → Bootstrapped l r l' r' base'
unfolding bootstrap_action
Bootstrapped-bootstrap_action l r l' r' base' p q s = elim (option_eq.dec l r) [
  | yes same ↦ agreed same (ground arith) (ground arith) (ground arith)
  | no differ ↦ elim (Option-cases r) [
    | inl gone ↦ only_local differ gone (ground arith) (ground arith) (ground arith)
    | inr (rv, there) ↦ elim (Option-cases l) [
      | inl gone ↦ only_remote differ gone (ground arith) (ground arith) (ground arith)
      | inr (lv, here) ↦
          ambiguous differ (λ e. cc) (λ e. cc) (ground arith) (ground arith) (ground arith)
    ]
  ]
]

module _ (local remote : ContainerSnapshot) where
  abbrev pub lm : Dict String LogicalDomainState
  lm = domain_map_of (snapshot_to_domains local)

  abbrev pub rm : Dict String LogicalDomainState
  rm = domain_map_of (snapshot_to_domains remote)

  abbrev pub all_domains : List String
  all_domains = sorted_set (keys lm ++ keys rm)

  absent :
      (d : String) → contains all_domains d ≡ false → (lookup d lm ≡ none) × (lookup d rm ≡ none)
  absent d h = ground (
    arith,
    contains-sorted_set (keys lm ++ keys rm) d,
    contains-append (keys lm) (keys rm) d,
    contains-keys lm d,
    contains-keys rm d,
  )

  abbrev pub start : Planning
  start = record {
    decisions = [];
    desired_local = lm;
    desired_remote = rm;
    next_domains = [];
    next_tombstones = [];
  }

  abbrev pub ended : Planning
  ended = bootstrap_loop lm rm all_domains start

  ended-AllKeyed : AllKeyed ended
  ended-AllKeyed =
      bootstrap_loop-AllKeyed lm rm (IsKeyed-domain_map_of (snapshot_to_domains local))
        (IsKeyed-domain_map_of (snapshot_to_domains remote)) all_domains start
        (record {
          local = IsKeyed-domain_map_of (snapshot_to_domains local);
          remote = IsKeyed-domain_map_of (snapshot_to_domains remote);
          next = IsKeyed-nil;
        })

  unique : Distinct all_domains
  unique = Distinct-sorted_set (keys lm ++ keys rm)

  module _ (d : String) where
    pub lookup-desired_local :
        lookup d ended.desired_local ≡ merged_local (action_at lm rm d) (lookup d lm) (lookup d rm)
    lookup-desired_local =
        ground (arith, desired_local-bootstrap_loop lm rm d all_domains start unique, absent d)

    pub lookup-desired_remote :
        lookup d ended.desired_remote
        ≡ merged_remote (action_at lm rm d) (lookup d lm) (lookup d rm)
    lookup-desired_remote =
        ground (arith, desired_remote-bootstrap_loop lm rm d all_domains start unique, absent d)

  Bootstrapped-bootstrap_plan :
      (d : String)
      → Bootstrapped
          (lookup d lm)
          (lookup d rm)
          (domain_of d (bootstrap_plan local remote).desired_local)
          (domain_of d (bootstrap_plan local remote).desired_remote)
          (domain_of d (bootstrap_plan local remote).next_baseline.domains)
  unfolding bootstrap_plan bootstrap_action
  Bootstrapped-bootstrap_plan d =
      Bootstrapped-bootstrap_action _ _ _ _ _
        (lookup-domain_map_of-values ended.desired_local d ended-AllKeyed.local
          ∙ lookup-desired_local d)
        (lookup-domain_map_of-values ended.desired_remote d ended-AllKeyed.remote
          ∙ lookup-desired_remote d)
        (lookup-domain_map_of-values ended.next_domains d ended-AllKeyed.next
          ∙ ground (
            arith,
            next_domains-bootstrap_loop lm rm d all_domains start unique
                (λ e m. lookup-nil {V = LogicalDomainState} e),
            absent d,
            lookup-nil {V = LogicalDomainState} d,
          ))

-- A plan made without a baseline treats every domain by the bootstrap rule: one-sided domains are
-- copied to the other side, equal ones are kept, and two different versions of one domain are left
-- alone on both sides and enter no baseline.
pub plan_container_reconcile-Bootstrapped :
    (local remote : ContainerSnapshot) (plan : ContainerReconcilePlan)
    → plan_container_reconcile local remote none ≡ ok plan
    → (d : String)
    → Bootstrapped
        (domain_in d local)
        (domain_in d remote)
        (domain_of d plan.desired_local)
        (domain_of d plan.desired_remote)
        (domain_of d plan.next_baseline.domains)
unfolding plan_container_reconcile
plan_container_reconcile-Bootstrapped local remote plan h d =
    let e : plan ≡ bootstrap_plan local remote = ground arith in
    rw e (Bootstrapped-bootstrap_plan local remote d)
