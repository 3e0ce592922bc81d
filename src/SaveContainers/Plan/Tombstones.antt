-- ===== src/SaveContainers/Plan/Tombstones.antt =====
-- The tombstones of a baseline: what the three-way loop does to them.
use romcloud.Base.{
  String, ◌≡◌, refl, ◌∙◌, Bool, true, false, not, ◌&&◌, ◌||◌, some, none, Option, List, [], ◌∷◌,
  ◌++◌, arith, option_eq, string_eq, ◌==◌, contains, if◌then◌else◌, Distinct, contains-keep_if,
  contains-append,
}
use romcloud.Base.Dict.{Dict, lookup, keys, is_some}
use romcloud.Base.Keys.{contains-dedup, contains-sorted, contains-sorted_set, Distinct-sorted_set}
use romcloud.SaveContainers.Model.{
  ok, ContainerSnapshot, LogicalDomainState, domain_eq, ContainerBaseline, DomainAction, conflict,
  ContainerReconcilePlan,
}
use romcloud.SaveContainers.Plan.{
  Planning, selected, add, discard, advance, settle, apply_action, merge_action, merge_step,
  merge_loop, merge_plan, plan_container_reconcile,
}
use romcloud.SaveContainers.Plan.Merge.{
  lm, rm, bm, all_domains, start, action, domain_of, next_baseline-merge_plan, plan-eq-merge_plan,
  absent,
}

contains-add : (d j : String) (ds : List String) → contains (add d ds) j ≡ (j == d || contains ds j)
unfolding add
contains-add d j ds = ground arith

contains-advance :
    (d j : String) (o : Option LogicalDomainState) (p : Planning)
    → contains (advance d o p).next_tombstones j
      ≡ (if j == d then not (is_some o) else contains p.next_tombstones j)
unfolding advance discard
contains-advance d j none p = ground (arith, contains-add d j p.next_tombstones)
contains-advance d j (some v) p =
    contains-keep_if (λ i. not (i == d)) p.next_tombstones j ∙ ground arith

-- Whether a domain is a tombstone afterwards, by its action.
abbrev buried : DomainAction → Option LogicalDomainState → Option LogicalDomainState → Bool → Bool
buried conflict l r before = before
buried a l r before = not (is_some (selected a l r))

module _ (lm rm bm : Dict String LogicalDomainState) where
  abbrev action_of : String → DomainAction
  action_of d = merge_action (lookup d bm) (lookup d lm) (lookup d rm)

  next_tombstones-merge_step :
      (j d : String) (p : Planning)
      → contains (merge_step lm rm bm d p).next_tombstones j ≡ (
          if j == d
          then buried (action_of d) (lookup d lm) (lookup d rm) (contains p.next_tombstones j)
          else contains p.next_tombstones j)
  unfolding merge_step settle apply_action
  next_tombstones-merge_step j d p = grind (arith, contains-advance)

  next_tombstones-merge_loop :
      (j : String) (ds : List String) (p : Planning)
      → Distinct ds
      → contains (merge_loop lm rm bm ds p).next_tombstones j ≡ (
          if contains ds j
          then buried (action_of j) (lookup j lm) (lookup j rm) (contains p.next_tombstones j)
          else contains p.next_tombstones j)
  unfolding merge_loop
  next_tombstones-merge_loop j [] p u = refl
  next_tombstones-merge_loop j (d ∷ ds) p u = ground (
    arith,
    next_tombstones-merge_loop j ds (merge_step lm rm bm d p) u.1,
    next_tombstones-merge_step j d p,
  )

module _ (local remote : ContainerSnapshot) (b : ContainerBaseline) (d : String) where
  abbrev listed : List String
  listed =
      keys (bm local remote b)
      ++ b.tombstones
      ++ keys (lm local remote b)
      ++ keys (rm local remote b)

  tombstones-merge_plan : contains (merge_plan local remote b).next_baseline.tombstones d ≡ (
      if contains (all_domains local remote b) d
      then buried
          (action local remote b d)
          (lookup d (lm local remote b))
          (lookup d (rm local remote b))
          (contains b.tombstones d)
      else contains b.tombstones d)
  unfolding merge_plan
  tombstones-merge_plan =
      contains-sorted
        (merge_loop (lm local remote b) (rm local remote b) (bm local remote b)
          (all_domains local remote b) (start local remote b)).next_tombstones
        d
      ∙ next_tombstones-merge_loop (lm local remote b) (rm local remote b) (bm local remote b) d
          (all_domains local remote b) (start local remote b) (Distinct-sorted_set listed)
      ∙ rw (contains-dedup b.tombstones d) refl

  tombstone-all_domains :
      contains (all_domains local remote b) d ≡ false → contains b.tombstones d ≡ false
  tombstone-all_domains h = ground (
    arith,
    contains-sorted_set listed d,
    contains-append (keys (bm local remote b) ++ b.tombstones ++ keys (lm local remote b))
        (keys (rm local remote b)) d,
    contains-append (keys (bm local remote b) ++ b.tombstones) (keys (lm local remote b)) d,
    contains-append (keys (bm local remote b)) b.tombstones d,
  )

-- No domain is both present in a baseline and a tombstone of it.
abbrev pub IsDisjoint : ContainerBaseline → Type 0
IsDisjoint b = (d : String) → (contains b.tombstones d && is_some (domain_of d b.domains)) ≡ false

-- A domain that a baseline has seen, present or deleted.
abbrev pub known : ContainerBaseline → String → Bool
known b d = is_some (domain_of d b.domains) || contains b.tombstones d

-- The next baseline of a plan keeps domains and tombstones apart if the baseline did.
pub next_baseline-IsDisjoint :
    (local remote : ContainerSnapshot) (b : ContainerBaseline) (plan : ContainerReconcilePlan)
    → plan_container_reconcile local remote (some b) ≡ ok plan
    → IsDisjoint b
    → IsDisjoint plan.next_baseline
next_baseline-IsDisjoint local remote b plan h apart d =
    rw (plan-eq-merge_plan local remote b plan h) (
      ground (
        arith,
        apart d,
        tombstones-merge_plan local remote b d,
        tombstone-all_domains local remote b d,
        next_baseline-merge_plan local remote b d,
      ))

-- A domain that a baseline has seen, as a domain or as a tombstone, stays known to the next
-- baseline of every plan.
pub next_baseline-known :
    (local remote : ContainerSnapshot) (b : ContainerBaseline) (plan : ContainerReconcilePlan)
    → plan_container_reconcile local remote (some b) ≡ ok plan
    → (d : String) → known b d ≡ true
    → known plan.next_baseline d ≡ true
next_baseline-known local remote b plan h d seen = rw (plan-eq-merge_plan local remote b plan h) (
    ground (
      arith,
      tombstones-merge_plan local remote b d,
      tombstone-all_domains local remote b d,
      next_baseline-merge_plan local remote b d,
      absent local remote b d,
    ))
