-- ===== src/SaveContainers/Plan/Converge.antt =====
-- A plan with a baseline and without conflicts makes the sides equal, and a second pass after a plan
-- with a baseline changes nothing.
use romcloud.Base.{
  String, ◌≡◌, ◌≢◌, refl, sym, ◌∙◌, ap, Bool, true, false, some, List, [], ◌∷◌, map, arith,
  option_eq, string_eq, contains, keep_if, ◌⊎◌,
}
use romcloud.SaveContainers.Model.{
  ok, ContainerSnapshot, domain_eq, ContainerBaseline, converged, conflict, DomainDecision,
  ContainerReconcilePlan,
}
use romcloud.SaveContainers.Plan.{
  merge_action, merge_plan, plan_container_reconcile, conflicts, local_changes, remote_changes,
  is_conflict, is_use_remote, is_use_local,
}
use romcloud.SaveContainers.Plan.Table.{decision_at}
use romcloud.SaveContainers.Plan.Merge.{
  lm, rm, bm, all_domains, action, domain_in, domain_of, desired_local-merge_plan,
  desired_remote-merge_plan, next_baseline-merge_plan, decisions-merge_plan, contains-all_domains,
  plan-eq-merge_plan,
}

none_kept :
    (p : DomainDecision → Bool) (f : String → DomainDecision) (ds : List String) (d : String)
    → keep_if p (map f ds) ≡ []
    → contains ds d ≡ true
    → p (f d) ≡ false
unfolding keep_if
none_kept p f [] d h m = cc
none_kept p f (e ∷ ds) d h m = ground (arith, none_kept p f ds d)

keep_if-eq-nil :
    (p : DomainDecision → Bool) (f : String → DomainDecision)
    → ((d : String) → p (f d) ≡ false)
    → (ds : List String) → keep_if p (map f ds) ≡ []
unfolding keep_if
keep_if-eq-nil p f h [] = refl
keep_if-eq-nil p f h (d ∷ ds) = ground (arith, h d, keep_if-eq-nil p f h ds)

module _ (local remote : ContainerSnapshot) (b : ContainerBaseline) where
  action-ne-conflict :
      conflicts (merge_plan local remote b) ≡ [] → (d : String) → action local remote b d ≢ conflict
  unfolding conflicts
  action-ne-conflict h d e = ground (
    arith,
    contains-all_domains local remote b d,
    none_kept is_conflict (decision_at (lm local remote b) (rm local remote b) (bm local remote b))
        (all_domains local remote b) d
        (ap (keep_if is_conflict) (sym (decisions-merge_plan local remote b)) ∙ h),
  )

  converged_at :
      (d : String)
      → action local remote b d ≢ conflict
      → (domain_of d (merge_plan local remote b).desired_local
          ≡ domain_of d (merge_plan local remote b).desired_remote)
        × (domain_of d (merge_plan local remote b).next_baseline.domains
            ≡ domain_of d (merge_plan local remote b).desired_local)
  unfolding merge_action
  converged_at d h = ground (
    arith,
    desired_local-merge_plan local remote b d,
    desired_remote-merge_plan local remote b d,
    next_baseline-merge_plan local remote b d,
  )

-- A plan that was made with a baseline and has no conflicts leaves every domain the same on both
-- desired sides and in the next baseline.
pub conflicts-nil_converges :
    (local remote : ContainerSnapshot) (b : ContainerBaseline) (plan : ContainerReconcilePlan)
    → plan_container_reconcile local remote (some b) ≡ ok plan
    → conflicts plan ≡ []
    → (d : String)
    → (domain_of d plan.desired_local ≡ domain_of d plan.desired_remote)
      × (domain_of d plan.next_baseline.domains ≡ domain_of d plan.desired_local)
conflicts-nil_converges local remote b plan h none_left d =
    let e = plan-eq-merge_plan local remote b plan h in
    rw e (converged_at local remote b d (action-ne-conflict local remote b (rw e at none_left) d))

-- Planning again from a plan's own desired sides and next baseline.
module _ (local remote local' remote' : ContainerSnapshot) (b b' : ContainerBaseline)
    (applied_local : (d : String)
      → domain_in d local' ≡ domain_of d (merge_plan local remote b).desired_local)
    (applied_remote : (d : String)
      → domain_in d remote' ≡ domain_of d (merge_plan local remote b).desired_remote)
    (kept : (d : String)
      → domain_of d b'.domains
        ≡ domain_of d (merge_plan local remote b).next_baseline.domains) where
  second_action :
      (d : String)
      → (action local' remote' b' d ≡ converged) ⊎ (action local' remote' b' d ≡ conflict)
  unfolding merge_action
  second_action d = ground (
    arith,
    applied_local d,
    applied_remote d,
    kept d,
    desired_local-merge_plan local remote b d,
    desired_remote-merge_plan local remote b d,
    next_baseline-merge_plan local remote b d,
  )

  second_quiet :
      (local_changes (merge_plan local' remote' b') ≡ [])
      × (remote_changes (merge_plan local' remote' b') ≡ [])
  unfolding local_changes remote_changes
  second_quiet = (
    ap (keep_if is_use_remote) (decisions-merge_plan local' remote' b')
        ∙ keep_if-eq-nil is_use_remote
            (decision_at (lm local' remote' b') (rm local' remote' b') (bm local' remote' b'))
            (λ d. ground (arith, second_action d)) (all_domains local' remote' b'),
    ap (keep_if is_use_local) (decisions-merge_plan local' remote' b')
        ∙ keep_if-eq-nil is_use_local
            (decision_at (lm local' remote' b') (rm local' remote' b') (bm local' remote' b'))
            (λ d. ground (arith, second_action d)) (all_domains local' remote' b'),
  )

-- Once both sides hold what a plan that was made with a baseline desired for them, planning again
-- with the plan's next baseline asks for no change on either side, whether or not the first plan had
-- conflicts.
pub plan_container_reconcile-settles :
    (local remote : ContainerSnapshot) (b : ContainerBaseline) (plan : ContainerReconcilePlan)
    → plan_container_reconcile local remote (some b) ≡ ok plan
    → (local' remote' : ContainerSnapshot) (plan' : ContainerReconcilePlan)
    → ((d : String) → domain_in d local' ≡ domain_of d plan.desired_local)
    → ((d : String) → domain_in d remote' ≡ domain_of d plan.desired_remote)
    → plan_container_reconcile local' remote' (some plan.next_baseline) ≡ ok plan'
    → (local_changes plan' ≡ []) × (remote_changes plan' ≡ [])
plan_container_reconcile-settles local remote b plan h local' remote' plan' hl hr h' =
    let e = plan-eq-merge_plan local remote b plan h in
    rw (plan-eq-merge_plan local' remote' plan.next_baseline plan' h') (
      second_quiet local remote local' remote' b plan.next_baseline (λ d. rw (← e) (hl d))
        (λ d. rw (← e) (hr d)) (λ d. rw (← e) refl))
