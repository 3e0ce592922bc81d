-- ===== src/SaveContainers/Plan/ThreeWay.antt =====
-- The three-way rule, stated without the planner, and that the planner follows it.
use romcloud.Base.{String, ◌≡◌, ◌≢◌, some, Option, arith, option_eq, string_eq}
use romcloud.SaveContainers.Model.{
  ok, ContainerSnapshot, LogicalDomainState, domain_eq, ContainerBaseline, ContainerReconcilePlan,
}
use romcloud.SaveContainers.Plan.{merge_action, plan_container_reconcile}
use romcloud.SaveContainers.Plan.Table.{merged_local, merged_remote, merged_base}
use romcloud.SaveContainers.Plan.Merge.{
  domain_in, domain_of, desired_local-merge_plan, desired_remote-merge_plan,
  next_baseline-merge_plan, plan-eq-merge_plan,
}

-- `Merged base l r l' r' base'`: from the common ancestor `base`, the sides `l` and `r` become `l'`
-- and `r'`, and the next ancestor is `base'`.
pub data Merged (base l r l' r' base' : Option LogicalDomainState) : Type 0 where
  agreed : l ≡ r → l' ≡ l → r' ≡ r → base' ≡ l → Merged base l r l' r' base'
  only_remote_changed : l ≢ r → l ≡ base → l' ≡ r → r' ≡ r → base' ≡ r → Merged base l r l' r' base'
  only_local_changed :
      l ≢ r → l ≢ base → r ≡ base → l' ≡ l → r' ≡ l → base' ≡ l → Merged base l r l' r' base'
  both_changed :
      l ≢ r → l ≢ base → r ≢ base → l' ≡ l → r' ≡ r → base' ≡ base → Merged base l r l' r' base'

Merged-merge_action :
    (base l r l' r' base' : Option LogicalDomainState)
    → l' ≡ merged_local (merge_action base l r) l r
    → r' ≡ merged_remote (merge_action base l r) l r
    → base' ≡ merged_base (merge_action base l r) base l r
    → Merged base l r l' r' base'
unfolding merge_action
Merged-merge_action base l r l' r' base' p q s = elim (option_eq.dec l r) [
  | yes same ↦ agreed same (ground arith) (ground arith) (ground arith)
  | no differ ↦ elim (option_eq.dec l base) [
    | yes kept ↦ only_remote_changed differ kept (ground arith) (ground arith) (ground arith)
    | no l_new ↦ elim (option_eq.dec r base) [
      | yes kept ↦ only_local_changed differ l_new kept (ground arith) (ground arith) (ground arith)
      | no r_new ↦ both_changed differ l_new r_new (ground arith) (ground arith) (ground arith)
    ]
  ]
]

-- A plan made with a baseline treats every domain, listed or not, by the three-way rule: from what
-- the baseline and the two snapshots hold for it to what the plan's two desired sides and its next
-- baseline hold for it.
pub plan_container_reconcile-Merged :
    (local remote : ContainerSnapshot) (b : ContainerBaseline) (plan : ContainerReconcilePlan)
    → plan_container_reconcile local remote (some b) ≡ ok plan
    → (d : String)
    → Merged
        (domain_of d b.domains)
        (domain_in d local)
        (domain_in d remote)
        (domain_of d plan.desired_local)
        (domain_of d plan.desired_remote)
        (domain_of d plan.next_baseline.domains)
plan_container_reconcile-Merged local remote b plan h d =
    rw (plan-eq-merge_plan local remote b plan h) (
      Merged-merge_action _ _ _ _ _ _ (desired_local-merge_plan local remote b d)
        (desired_remote-merge_plan local remote b d) (next_baseline-merge_plan local remote b d))
