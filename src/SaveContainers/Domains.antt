-- ===== src/SaveContainers/Domains.antt =====
-- `domain_map`, `snapshot_to_domains` and `_domain_map` of core/save_containers.py.
pub mod Lookup
use romcloud.Base.{String, none, some, List, [], ◌∷◌, ◌++◌, map, string_eq}
use romcloud.Base.Dict.{Dict, keys, lookup, insert}
use romcloud.Base.Keys.{sorted, sort_by}
use romcloud.SaveContainers.Model.{
  ContainerEntry, ContainerSnapshot, LogicalEntryState, LogicalDomainState,
}

-- `domains.setdefault(entry.merge_domain_id, []).append(entry)`
unfoldable pub add_entry :
    Dict String (List ContainerEntry) → ContainerEntry → Dict String (List ContainerEntry)
add_entry domains e =
    insert e.merge_domain_id
      ((elim (lookup e.merge_domain_id domains) [ none ↦ [] | some es ↦ es ]) ++ e ∷ []) domains

unfoldable pub add_entries :
    Dict String (List ContainerEntry) → List ContainerEntry → Dict String (List ContainerEntry)
unfolding add_entry
add_entries domains [] = domains
add_entries domains (e ∷ es) = add_entries (add_entry domains e) es

-- `ContainerSnapshot.domain_map`, before each group is sorted
unfoldable pub domain_map : ContainerSnapshot → Dict String (List ContainerEntry)
unfolding add_entries
domain_map snapshot = add_entries [] snapshot.entries

abbrev pub entry_state : ContainerEntry → LogicalEntryState
entry_state e = record {
  identity = e.identity;
  canonical_hash = e.canonical_hash;
  size_bytes = e.size_bytes;
}

-- `tuple(d[key] for key in keys)`, where a key is in `d`
unfoldable pub values_at {ℓ} : {V : Type ℓ} → Dict String V → List String → List (String × V)
values_at d [] = []
values_at d (k ∷ ks) =
    let rest = values_at d ks in elim (lookup k d) [ none ↦ rest | some v ↦ (k, v) ∷ rest ]

-- `sorted(d.items())`
unfoldable pub sorted_items {ℓ} : {V : Type ℓ} → Dict String V → List (String × V)
unfolding values_at sorted keys lookup
sorted_items d = values_at d (sorted (keys d))

unfoldable pub domain_state : String × List ContainerEntry → LogicalDomainState
domain_state (domain_id, es) = record {
  merge_domain_id = domain_id;
  entries = map entry_state (sort_by (λ e. e.identity) es);
}

unfoldable pub snapshot_to_domains : ContainerSnapshot → List LogicalDomainState
unfolding domain_map sorted_items domain_state
snapshot_to_domains snapshot = map domain_state (sorted_items (domain_map snapshot))

unfoldable pub by_domain :
    Dict String LogicalDomainState → List LogicalDomainState → Dict String LogicalDomainState
by_domain m [] = m
by_domain m (d ∷ ds) = by_domain (insert d.merge_domain_id d m) ds

-- `_domain_map`
unfoldable pub domain_map_of : List LogicalDomainState → Dict String LogicalDomainState
unfolding by_domain
domain_map_of = by_domain []
