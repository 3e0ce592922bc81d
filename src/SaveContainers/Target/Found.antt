-- ===== src/SaveContainers/Target/Found.antt =====
-- A plan made from two snapshots can always be rehydrated from their entries.
use romcloud.Base.{
  String, ◌≡◌, refl, true, some, List, [], ◌∷◌, ◌++◌, map, arith, string_eq, nat_eq, find, All, inl,
  inr, Option-cases, All-append, All-map,
}
use mathlib.Core.Path.{subst}
use romcloud.Base.Dict.{Dict, lookup, insert, keys, lookup-insert, lookup-nil, is_some}
use romcloud.Base.Keys.{sorted, sort_by, All-sort_by}
use romcloud.SaveContainers.Model.{
  ok, ContainerEntry, ContainerSnapshot, LogicalEntryState, LogicalDomainState,
}
use romcloud.SaveContainers.Domains.{
  add_entry, add_entries, domain_map, entry_state, values_at, sorted_items, domain_state,
  snapshot_to_domains, by_domain, domain_map_of,
}
use romcloud.SaveContainers.Domains.Lookup.{values}
use romcloud.SaveContainers.Target.{is_match, first_match, domain_entries, target_entries}

module _ (observed : List ContainerEntry) where
  -- An observed entry stands for the logical one.
  abbrev pub Found : String → LogicalEntryState → Type 0
  Found domain l = is_some (find (is_match domain l) observed) ≡ true

  -- Every logical entry of the domain has an observed entry.
  abbrev pub Held : LogicalDomainState → Type 0
  Held d = All (Found d.merge_domain_id) d.entries

  domain_entries-ok :
      (domain : String) (ls : List LogicalEntryState)
      → All (Found domain) ls
      → (es : List ContainerEntry) × (domain_entries observed domain ls ≡ ok es)
  unfolding domain_entries first_match
  domain_entries-ok domain [] h = ([], refl)
  domain_entries-ok domain (l ∷ ls) h =
      let (es, rest) = domain_entries-ok domain ls h.1 in
      elim (Option-cases (find (is_match domain l) observed)) [
        | inl none_found ↦ absurd (ground arith)
        | inr (e, found) ↦ (e ∷ es, ground arith)
      ]

  pub target_entries-ok :
      (ds : List LogicalDomainState)
      → All Held ds
      → (es : List ContainerEntry) × (target_entries observed ds ≡ ok es)
  unfolding target_entries
  target_entries-ok [] h = ([], refl)
  target_entries-ok (d ∷ ds) h =
      let (es, here) = domain_entries-ok d.merge_domain_id d.entries h.0 in
      let (rest, there) = target_entries-ok ds h.1 in (es ++ rest, ground arith)

  -- The maps whose domains are held.
  abbrev pub HeldMap : Dict String LogicalDomainState → Type 0
  HeldMap m = (k : String) (v : LogicalDomainState) → lookup k m ≡ some v → Held v

  HeldMap-insert :
      (d : LogicalDomainState) (m : Dict String LogicalDomainState)
      → Held d
      → HeldMap m
      → HeldMap (insert d.merge_domain_id d m)
  HeldMap-insert d m h k j v found = elim (string_eq.dec j d.merge_domain_id) [
    | yes p ↦ subst Held {x = d} {y = v} (ground (arith, lookup-insert j d.merge_domain_id d m)) h
    | no n ↦ k j v (ground (arith, lookup-insert j d.merge_domain_id d m))
  ]

  HeldMap-by_domain :
      (ds : List LogicalDomainState) (m : Dict String LogicalDomainState)
      → All Held ds
      → HeldMap m
      → HeldMap (by_domain m ds)
  unfolding by_domain
  HeldMap-by_domain [] m h k = k
  HeldMap-by_domain (d ∷ ds) m h k =
      HeldMap-by_domain ds (insert d.merge_domain_id d m) h.1 (HeldMap-insert d m h.0 k)

  pub HeldMap-domain_map_of :
      (ds : List LogicalDomainState) → All Held ds → HeldMap (domain_map_of ds)
  unfolding domain_map_of
  HeldMap-domain_map_of ds h =
      HeldMap-by_domain ds [] h (λ k v found. cc (lookup-nil {V = LogicalDomainState} k))

  pub All-values :
      (m : Dict String LogicalDomainState) (ks : List String) → HeldMap m → All Held (values m ks)
  unfolding values_at
  All-values m [] h = tt
  All-values m (k ∷ ks) h = elim (Option-cases (lookup k m)) [
    | inl gone ↦ rw (gone, values_at) (All-values m ks h)
    | inr (v, found) ↦ rw (found, values_at) (h k v found, All-values m ks h)
  ]

  -- The entries of one domain, in the map that groups them.
  abbrev Grouped : Dict String (List ContainerEntry) → Type 0
  Grouped m =
      (k : String) (es : List ContainerEntry)
      → lookup k m ≡ some es
      → All (λ e. Found k (entry_state e)) es

  Grouped-insert :
      (k : String) (es : List ContainerEntry) (m : Dict String (List ContainerEntry))
      → All (λ e. Found k (entry_state e)) es
      → Grouped m
      → Grouped (insert k es m)
  Grouped-insert k es m h g j es' found = elim (string_eq.dec j k) [
    | yes p ↦ rw p (
        subst (λ l. All (λ e. Found k (entry_state e)) l) {x = es} {y = es'}
          (ground (arith, lookup-insert j k es m)) h)
    | no n ↦ g j es' (ground (arith, lookup-insert j k es m))
  ]

  Grouped-add_entry :
      (m : Dict String (List ContainerEntry)) (e : ContainerEntry)
      → Found e.merge_domain_id (entry_state e)
      → Grouped m
      → Grouped (add_entry m e)
  unfolding add_entry
  Grouped-add_entry m e h g = elim (Option-cases (lookup e.merge_domain_id m)) [
    | inl gone ↦ rw (gone, add_entry) (Grouped-insert e.merge_domain_id (e ∷ []) m (h, tt) g)
    | inr (es, found) ↦
        rw (found, add_entry)
          (Grouped-insert e.merge_domain_id (es ++ e ∷ []) m
            (All-append (λ x. Found e.merge_domain_id (entry_state x)) es (e ∷ [])
              (g e.merge_domain_id es found) (h, tt))
            g)
  ]

  Grouped-add_entries :
      (es : List ContainerEntry) (m : Dict String (List ContainerEntry))
      → All (λ e. Found e.merge_domain_id (entry_state e)) es
      → Grouped m
      → Grouped (add_entries m es)
  unfolding add_entries
  Grouped-add_entries [] m h g = g
  Grouped-add_entries (e ∷ es) m h g =
      Grouped-add_entries es (add_entry m e) h.1 (Grouped-add_entry m e h.0 g)

  Held-domain_states :
      (m : Dict String (List ContainerEntry)) (ks : List String)
      → Grouped m
      → All Held (map domain_state (values_at m ks))
  unfolding values_at domain_state
  Held-domain_states m [] g = tt
  Held-domain_states m (k ∷ ks) g = elim (Option-cases (lookup k m)) [
    | inl gone ↦ rw (gone, values_at) (Held-domain_states m ks g)
    | inr (es, found) ↦
        rw (found, values_at)
          (
            All-map (Found k) entry_state (sort_by (λ (e : ContainerEntry). e.identity) es) (
                All-sort_by (λ (e : ContainerEntry). e.identity) (λ e. Found k (entry_state e)) es
                  (g k es found)),
            Held-domain_states m ks g,
          )
  ]

  pub Held-snapshot_to_domains :
      (s : ContainerSnapshot)
      → All (λ e. Found e.merge_domain_id (entry_state e)) s.entries
      → All Held (snapshot_to_domains s)
  unfolding snapshot_to_domains domain_map sorted_items
  Held-snapshot_to_domains s h =
      Held-domain_states (add_entries [] s.entries) (sorted (keys (add_entries [] s.entries))) (
        Grouped-add_entries s.entries [] h
          (λ k es found. cc (lookup-nil {V = List ContainerEntry} k)))
