-- ===== src/SaveContainers/Target.antt =====
-- `target_snapshot` of core/save_containers.py. Its `side` argument is the type `Side`, so the
-- `ValueError` for other texts does not arise.
pub mod Found
pub mod Total
use romcloud.Base.{
  String, Bool, ◌&&◌, Option, none, some, List, [], ◌∷◌, ◌++◌, ◌==◌, string_eq, nat_eq, find,
}
use romcloud.Base.Keys.{sort_by}
use romcloud.SaveContainers.Model.{
  Result, ok, opaque_error, validation_failure, ◌>>=◌, ContainerEntry, ContainerSnapshot,
  LogicalEntryState, LogicalDomainState, ContainerReconcilePlan,
}

pub data Side : Type 0 where
  local_side remote_side : Side

-- The condition of the comprehension `matches`.
unfoldable pub is_match : String → LogicalEntryState → ContainerEntry → Bool
is_match domain logical e =
    e.identity == logical.identity
    && e.merge_domain_id == domain
    && e.canonical_hash == logical.canonical_hash
    && e.size_bytes == logical.size_bytes

-- `matches[0]`, or the error where there is none
unfoldable pub first_match :
    List ContainerEntry → String → LogicalEntryState → Result ContainerEntry
unfolding is_match find
first_match observed domain logical = elim (find (is_match domain logical) observed) [
  | none ↦ opaque_error validation_failure
  | some e ↦ ok e
]

unfoldable pub domain_entries :
    List ContainerEntry → String → List LogicalEntryState → Result (List ContainerEntry)
unfolding first_match
domain_entries observed domain [] = ok []
domain_entries observed domain (l ∷ ls) = do
  e ← first_match observed domain l
  es ← domain_entries observed domain ls
  ok (e ∷ es)

unfoldable pub target_entries :
    List ContainerEntry → List LogicalDomainState → Result (List ContainerEntry)
unfolding domain_entries
target_entries observed [] = ok []
target_entries observed (d ∷ ds) = do
  es ← domain_entries observed d.merge_domain_id d.entries
  rest ← target_entries observed ds
  ok (es ++ rest)

abbrev pub desired : ContainerReconcilePlan → Side → List LogicalDomainState
desired plan local_side = plan.desired_local
desired plan remote_side = plan.desired_remote

unfoldable pub target_snapshot :
    ContainerReconcilePlan → ContainerSnapshot → ContainerSnapshot → Side → Result ContainerSnapshot
unfolding target_entries sort_by
target_snapshot plan local remote side = do
  entries ← target_entries (local.entries ++ remote.entries) (desired plan side)
  ok (record local { entries = sort_by (λ (e : ContainerEntry). e.identity) entries })
