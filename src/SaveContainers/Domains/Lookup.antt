-- ===== src/SaveContainers/Domains/Lookup.antt =====
-- A list of domains read back as a map: what `_domain_map` finds in a sorted tuple of values.
use romcloud.Base.{
  String, ◌≡◌, refl, ◌&&◌, some, List, [], ◌∷◌, arith, Distinct, contains, string_eq, if◌then◌else◌,
  map, inl, inr, Option-cases,
}
use romcloud.Base.Dict.{
  Dict, keys, lookup, insert, assign, lookup-nil, lookup-insert, lookup-assign, is_some,
  contains-keys, Distinct-keys-insert, Distinct-keys-assign,
}
use romcloud.Base.Keys.{sorted, Distinct-sorted, contains-sorted}
use romcloud.SaveContainers.Model.{LogicalDomainState}
use romcloud.SaveContainers.Domains.{by_domain, domain_map_of, values_at}

-- A map whose values are stored under their own domain ids, each key once.
pub record IsKeyed (m : Dict String LogicalDomainState) : Type 0 where
  pub at : (k : String) (v : LogicalDomainState) → lookup k m ≡ some v → v.merge_domain_id ≡ k
  pub once : Distinct (keys m)

pub IsKeyed-insert :
    (v : LogicalDomainState) (m : Dict String LogicalDomainState)
    → IsKeyed m
    → IsKeyed (insert v.merge_domain_id v m)
IsKeyed-insert v m h = record {
  at = λ k w found. ground (arith, lookup-insert k v.merge_domain_id v m, h.at k w);
  once = Distinct-keys-insert v.merge_domain_id v m h.once;
}

-- Writing what another keyed map holds at a key keeps a map keyed.
pub IsKeyed-assign :
    (k : String) (from m : Dict String LogicalDomainState)
    → IsKeyed from
    → IsKeyed m
    → IsKeyed (assign k (lookup k from) m)
IsKeyed-assign k from m f h = record {
  at = λ j w found. ground (arith, lookup-assign j k (lookup k from) m, h.at j w, f.at j w);
  once = Distinct-keys-assign k (lookup k from) m h.once;
}

pub IsKeyed-nil : IsKeyed []
unfolding keys
IsKeyed-nil = record { at = λ k v found. cc (lookup-nil {V = LogicalDomainState} k); once = tt }

IsKeyed-by_domain :
    (ds : List LogicalDomainState) (m : Dict String LogicalDomainState)
    → IsKeyed m
    → IsKeyed (by_domain m ds)
unfolding by_domain
IsKeyed-by_domain [] m h = h
IsKeyed-by_domain (d ∷ ds) m h =
    IsKeyed-by_domain ds (insert d.merge_domain_id d m) (IsKeyed-insert d m h)

pub IsKeyed-domain_map_of : (ds : List LogicalDomainState) → IsKeyed (domain_map_of ds)
unfolding domain_map_of
IsKeyed-domain_map_of ds = IsKeyed-by_domain ds [] IsKeyed-nil

-- `tuple(m[key] for key in keys)`
abbrev pub values : Dict String LogicalDomainState → List String → List LogicalDomainState
values m ks = map (λ (_, v). v) (values_at m ks)

lookup-by_domain-values :
    (m acc : Dict String LogicalDomainState) (ks : List String) (k : String)
    → IsKeyed m
    → Distinct ks
    → lookup k (by_domain acc (values m ks))
      ≡ (if contains ks k && is_some (lookup k m) then lookup k m else lookup k acc)
unfolding by_domain values_at
lookup-by_domain-values m acc [] k keyed distinct = refl
lookup-by_domain-values m acc (j ∷ ks) k keyed distinct = elim (Option-cases (lookup j m)) [
  | inl absent ↦
      rw (absent, values_at) (ground (arith, lookup-by_domain-values m acc ks k keyed distinct.1))
  | inr (v, found) ↦
      rw (found, values_at)
        (ground (
          arith,
          lookup-by_domain-values m (insert v.merge_domain_id v acc) ks k keyed distinct.1,
          keyed.at j v found,
          lookup-insert k v.merge_domain_id v acc,
        ))
]

-- Reading the sorted tuple of a map's values gives the map back.
pub lookup-domain_map_of-values :
    (m : Dict String LogicalDomainState) (k : String)
    → IsKeyed m
    → lookup k (domain_map_of (values m (sorted (keys m)))) ≡ lookup k m
unfolding domain_map_of
lookup-domain_map_of-values m k keyed = ground (
  arith,
  lookup-by_domain-values m [] (sorted (keys m)) k keyed (Distinct-sorted (keys m) keyed.once),
  contains-sorted (keys m) k,
  contains-keys m k,
  lookup-nil {V = LogicalDomainState} k,
)
