-- ===== src/SaveContainers/Plan/Keyed.antt =====
-- Both loops keep their maps keyed by domain id.
use romcloud.Base.{String, ◌≡◌, refl, Option, none, some, List, [], ◌∷◌, string_eq}
use romcloud.Base.Dict.{Dict, lookup, assign}
use romcloud.SaveContainers.Model.{
  LogicalDomainState, DomainAction, converged, use_local, use_remote, conflict,
}
use romcloud.SaveContainers.Domains.Lookup.{IsKeyed, IsKeyed-assign}
use romcloud.SaveContainers.Plan.{
  Planning, apply_action, advance, settle, record_agreed, establish, merge_action, bootstrap_action,
  merge_step, merge_loop, bootstrap_step, bootstrap_loop,
}

pub record AllKeyed (p : Planning) : Type 0 where
  pub local : IsKeyed p.desired_local
  pub remote : IsKeyed p.desired_remote
  pub next : IsKeyed p.next_domains

next_domains-advance :
    (d : String) (o : Option LogicalDomainState) (p : Planning)
    → (advance d o p).next_domains ≡ assign d o p.next_domains
unfolding advance
next_domains-advance d none p = refl
next_domains-advance d (some v) p = refl

module _ (lm rm : Dict String LogicalDomainState) (hl : IsKeyed lm) (hr : IsKeyed rm)
    (d : String) where
  apply_action-AllKeyed :
      (a : DomainAction) (p : Planning) → AllKeyed p → AllKeyed (apply_action lm rm d a p)
  unfolding apply_action
  apply_action-AllKeyed use_local p h = record {
    local = h.local;
    remote = IsKeyed-assign d lm p.desired_remote hl h.remote;
    next = h.next;
  }
  apply_action-AllKeyed use_remote p h = record {
    local = IsKeyed-assign d rm p.desired_local hr h.local;
    remote = h.remote;
    next = h.next;
  }
  apply_action-AllKeyed _ p h = h

  advance-AllKeyed :
      (m : Dict String LogicalDomainState)
      → IsKeyed m
      → (o : Option LogicalDomainState) → lookup d m ≡ o
      → (p : Planning) → AllKeyed p
      → AllKeyed (advance d o p)
  unfolding advance
  advance-AllKeyed m hm none e p h = record {
    local = h.local;
    remote = h.remote;
    next = rw e at (IsKeyed-assign d m p.next_domains hm h.next);
  }
  advance-AllKeyed m hm (some v) e p h = record {
    local = h.local;
    remote = h.remote;
    next = rw e at (IsKeyed-assign d m p.next_domains hm h.next);
  }

  settle-AllKeyed :
      (a : DomainAction) (p : Planning)
      → AllKeyed p
      → AllKeyed (settle d a (lookup d lm) (lookup d rm) p)
  unfolding settle
  settle-AllKeyed conflict p h = h
  settle-AllKeyed converged p h = advance-AllKeyed lm hl _ refl p h
  settle-AllKeyed use_local p h = advance-AllKeyed lm hl _ refl p h
  settle-AllKeyed use_remote p h = advance-AllKeyed rm hr _ refl p h

  record_agreed-AllKeyed :
      (m : Dict String LogicalDomainState)
      → IsKeyed m
      → (o : Option LogicalDomainState) → lookup d m ≡ o
      → (p : Planning) → AllKeyed p
      → AllKeyed (record_agreed d o p)
  unfolding record_agreed
  record_agreed-AllKeyed m hm none e p h = h
  record_agreed-AllKeyed m hm (some v) e p h = record {
    local = h.local;
    remote = h.remote;
    next = rw e at (IsKeyed-assign d m p.next_domains hm h.next);
  }

  establish-AllKeyed :
      (a : DomainAction) (p : Planning)
      → AllKeyed p
      → AllKeyed (establish d a (lookup d lm) (lookup d rm) p)
  unfolding establish
  establish-AllKeyed conflict p h = h
  establish-AllKeyed converged p h = record_agreed-AllKeyed lm hl _ refl p h
  establish-AllKeyed use_local p h = record_agreed-AllKeyed lm hl _ refl p h
  establish-AllKeyed use_remote p h = record_agreed-AllKeyed rm hr _ refl p h

module _ (lm rm : Dict String LogicalDomainState) (hl : IsKeyed lm) (hr : IsKeyed rm) where
  pub bootstrap_loop-AllKeyed :
      (ds : List String) (p : Planning) → AllKeyed p → AllKeyed (bootstrap_loop lm rm ds p)
  unfolding bootstrap_loop bootstrap_step
  bootstrap_loop-AllKeyed [] p h = h
  bootstrap_loop-AllKeyed (d ∷ ds) p h = bootstrap_loop-AllKeyed ds _ (
      establish-AllKeyed lm rm hl hr d (bootstrap_action (lookup d lm) (lookup d rm)) _ (
        let k =
          apply_action-AllKeyed lm rm hl hr d (bootstrap_action (lookup d lm) (lookup d rm)) p h in
        record { local = k.local; remote = k.remote; next = k.next }))

  pub merge_loop-AllKeyed :
      (bm : Dict String LogicalDomainState) (ds : List String) (p : Planning)
      → AllKeyed p
      → AllKeyed (merge_loop lm rm bm ds p)
  unfolding merge_loop merge_step
  merge_loop-AllKeyed bm [] p h = h
  merge_loop-AllKeyed bm (d ∷ ds) p h = merge_loop-AllKeyed bm ds _ (
      settle-AllKeyed lm rm hl hr d (merge_action (lookup d bm) (lookup d lm) (lookup d rm)) _ (
        let k =
          apply_action-AllKeyed lm rm hl hr d
            (merge_action (lookup d bm) (lookup d lm) (lookup d rm)) p h in
        record { local = k.local; remote = k.remote; next = k.next }))
