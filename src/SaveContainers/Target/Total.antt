-- ===== src/SaveContainers/Target/Total.antt =====
-- Every plan can be rehydrated: `target_snapshot` never raises on the snapshots it was made from.
use mathlib.Core.Path.{subst}
use mathlib.Core.List.{append-nil}
use romcloud.Base.{
  String, ◌≡◌, true, Option, none, some, List, [], ◌∷◌, ◌++◌, arith, string_eq, nat_eq, find, All,
  All-weaken, option_eq, ◌⊎◌, inl, inr, sym, ◌∙◌,
}
use romcloud.Base.Dict.{Dict, lookup}
use romcloud.Base.Keys.{sort_by}
use romcloud.SaveContainers.Model.{
  ok, ContainerEntry, ContainerSnapshot, LogicalDomainState, domain_eq, ContainerBaseline,
  ContainerReconcilePlan,
}
use romcloud.SaveContainers.Domains.{entry_state, snapshot_to_domains, domain_map_of}
use romcloud.SaveContainers.Plan.{merge_plan, bootstrap_plan, plan_container_reconcile}
use romcloud.SaveContainers.Plan.Merge
use romcloud.SaveContainers.Plan.Bootstrap
use romcloud.SaveContainers.Target.{
  Side, local_side, remote_side, is_match, target_snapshot, desired,
}
use romcloud.SaveContainers.Target.Found.{
  Found, Held, HeldMap, target_entries-ok, HeldMap-domain_map_of, All-values,
  Held-snapshot_to_domains,
}

-- An entry stands for its own logical state, wherever it is in the list.
own_match : (e : ContainerEntry) → is_match e.merge_domain_id (entry_state e) e ≡ true
unfolding is_match
own_match e = ground arith

Found-later :
    (e x : ContainerEntry) (obs : List ContainerEntry)
    → Found obs e.merge_domain_id (entry_state e)
    → Found (x ∷ obs) e.merge_domain_id (entry_state e)
unfolding find
Found-later e x obs h = ground arith

Found-before :
    (xs ys : List ContainerEntry) (e : ContainerEntry)
    → Found ys e.merge_domain_id (entry_state e)
    → Found (xs ++ ys) e.merge_domain_id (entry_state e)
Found-before [] ys e h = h
Found-before (x ∷ xs) ys e h = Found-later e x (xs ++ ys) (Found-before xs ys e h)

Found-within :
    (xs ys : List ContainerEntry) → All (λ e. Found (xs ++ ys) e.merge_domain_id (entry_state e)) xs
unfolding find
Found-within [] ys = tt
Found-within (x ∷ xs) ys = (
  ground (arith, own_match x),
  All-weaken (λ e. Found (xs ++ ys) e.merge_domain_id (entry_state e))
      (λ e. Found (x ∷ (xs ++ ys)) e.merge_domain_id (entry_state e))
      (λ e. Found-later e x (xs ++ ys)) xs (Found-within xs ys),
)

Found-remote :
    (xs ys : List ContainerEntry) → All (λ e. Found (xs ++ ys) e.merge_domain_id (entry_state e)) ys
Found-remote [] ys =
    subst (λ l. All (λ e. Found l e.merge_domain_id (entry_state e)) ys) (append-nil ys)
      (Found-within ys [])
Found-remote (x ∷ xs) ys =
    All-weaken (λ e. Found (xs ++ ys) e.merge_domain_id (entry_state e))
      (λ e. Found (x ∷ (xs ++ ys)) e.merge_domain_id (entry_state e))
      (λ e. Found-later e x (xs ++ ys)) ys (Found-remote xs ys)

module _ (local remote : ContainerSnapshot) where
  abbrev observed : List ContainerEntry
  observed = local.entries ++ remote.entries

  local-HeldMap : HeldMap observed (domain_map_of (snapshot_to_domains local))
  local-HeldMap =
      HeldMap-domain_map_of observed (snapshot_to_domains local)
        (Held-snapshot_to_domains observed local (Found-within local.entries remote.entries))

  remote-HeldMap : HeldMap observed (domain_map_of (snapshot_to_domains remote))
  remote-HeldMap =
      HeldMap-domain_map_of observed (snapshot_to_domains remote)
        (Held-snapshot_to_domains observed remote (Found-remote local.entries remote.entries))

  -- A map that holds at each key what one of the two sides holds there is held.
  HeldMap-sides :
      (m : Dict String LogicalDomainState)
      → ((k : String)
          → (lookup k m ≡ Merge.domain_in k local) ⊎ (lookup k m ≡ Merge.domain_in k remote))
      → HeldMap observed m
  HeldMap-sides m same k v found = elim (same k) [
    | inl e ↦ local-HeldMap k v (sym e ∙ found)
    | inr e ↦ remote-HeldMap k v (sym e ∙ found)
  ]

  merge-Held :
      (b : ContainerBaseline) (side : Side)
      → All (Held observed) (desired (merge_plan local remote b) side)
  unfolding merge_plan
  merge-Held b local_side =
      All-values observed _ _
        (HeldMap-sides _ (λ k. ground (arith, Merge.lookup-desired_local local remote b k)))
  merge-Held b remote_side =
      All-values observed _ _
        (HeldMap-sides _ (λ k. ground (arith, Merge.lookup-desired_remote local remote b k)))

  bootstrap-Held : (side : Side) → All (Held observed) (desired (bootstrap_plan local remote) side)
  unfolding bootstrap_plan
  bootstrap-Held local_side =
      All-values observed _ _
        (HeldMap-sides _ (λ k. ground (arith, Bootstrap.lookup-desired_local local remote k)))
  bootstrap-Held remote_side =
      All-values observed _ _
        (HeldMap-sides _ (λ k. ground (arith, Bootstrap.lookup-desired_remote local remote k)))

  plan-Held :
      (b : Option ContainerBaseline) (plan : ContainerReconcilePlan) (side : Side)
      → plan_container_reconcile local remote b ≡ ok plan
      → All (Held observed) (desired plan side)
  unfolding plan_container_reconcile
  plan-Held none plan side h =
      let e : plan ≡ bootstrap_plan local remote = ground arith in rw e (bootstrap-Held side)
  plan-Held (some b) plan side h =
      let e : plan ≡ merge_plan local remote b = ground arith in rw e (merge-Held b side)

-- For every plan that the planner returns, with a baseline or without, and for both sides, the
-- target snapshot is built: each planned entry is among the entries of the two snapshots.
pub target_snapshot-ok :
    (local remote : ContainerSnapshot) (b : Option ContainerBaseline)
    (plan : ContainerReconcilePlan) (side : Side)
    → plan_container_reconcile local remote b ≡ ok plan
    → (s : ContainerSnapshot) × (target_snapshot plan local remote side ≡ ok s)
unfolding target_snapshot
target_snapshot-ok local remote b plan side h =
    let (es, found) =
      target_entries-ok (observed local remote) (desired plan side)
        (plan-Held local remote b plan side h) in
    (record local { entries = sort_by (λ (e : ContainerEntry). e.identity) es }, ground arith)
