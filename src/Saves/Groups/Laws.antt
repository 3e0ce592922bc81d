-- ===== src/Saves/Groups/Laws.antt =====
-- The paths of a group are the paths with its id, in order, and two group manifests are equal
-- exactly when the sides agree at every path of the group.
use romcloud.Base.{
  String, ◌≡◌, ◌↔◌, refl, sym, ◌∙◌, ap, true, false, ◌||◌, Option, none, some, List, [], ◌∷◌, ◌++◌,
  ◌==◌, string_eq, list_eq, contains, keep_if, find, if◌then◌else◌, arith, any, inl, inr,
  Option-cases, contains-keep_if,
}
use romcloud.Base.Dict.{
  Dict, keys, lookup, insert, lookup-insert, lookup-nil, contains-keys, is_some,
}
use romcloud.Saves.Model.{SaveArtifact, artifact_eq, Manifest, Policy}
use romcloud.Saves.Groups.{group_manifest, same_manifest, group_id, paths_in, group_paths}
use mathlib.Core.List.{append_assoc, append-nil}

-- Every artifact of a manifest is stored under its own path.
pub record IsManifest (m : Manifest) : Type 0 where
  pub at : (p : String) (a : SaveArtifact) → lookup p m ≡ some a → a.relative_path ≡ p

find-group_manifest :
    (m : Manifest) (ps : List String) (p : String)
    → IsManifest m
    → find (λ (a : SaveArtifact). p == a.relative_path) (group_manifest m ps)
      ≡ (if contains ps p then lookup p m else none)
unfolding find group_manifest
find-group_manifest m [] p h = refl
find-group_manifest m (q ∷ ps) p h = elim (Option-cases (lookup q m)) [
  | inl gone ↦ ground (arith, gone, find-group_manifest m ps p h)
  | inr (a, found) ↦ ground (arith, found, h.at q a found, find-group_manifest m ps p h)
]

group_manifest-eq :
    (m n : Manifest) (ps : List String)
    → ((p : String)
        → (if contains ps p then lookup p m else none)
          ≡ (if contains ps p then lookup p n else none))
    → group_manifest m ps ≡ group_manifest n ps
unfolding group_manifest
group_manifest-eq m n [] h = refl
group_manifest-eq m n (q ∷ qs) h =
    ground (arith, h q, group_manifest-eq m n qs (λ p. ground (arith, h p)))

-- The two manifests of a list of paths are equal exactly when the sides agree at each of them.
pub group_manifest-eq_iff :
    (m n : Manifest) (ps : List String)
    → IsManifest m
    → IsManifest n
    → (group_manifest m ps ≡ group_manifest n ps) ↔ (
        (p : String)
        → (if contains ps p then lookup p m else none)
          ≡ (if contains ps p then lookup p n else none))
group_manifest-eq_iff m n ps hm hn = (
  λ e p.
      sym (find-group_manifest m ps p hm)
      ∙ ap (find (λ (a : SaveArtifact). p == a.relative_path)) e
      ∙ find-group_manifest n ps p hn,
  group_manifest-eq m n ps,
)

module _ (policy : Policy) where
  paths_in-group_paths :
      (g : String) (groups : Dict String (List String)) (ps : List String)
      → paths_in policy g (group_paths policy groups ps)
        ≡ paths_in policy g groups ++ keep_if (λ p. g == group_id policy p) ps
  unfolding group_paths keep_if
  paths_in-group_paths g groups [] = sym (append-nil (paths_in policy g groups))
  paths_in-group_paths g groups (p ∷ ps) =
      paths_in-group_paths g
        (insert (group_id policy p) (paths_in policy (group_id policy p) groups ++ p ∷ []) groups)
        ps
      ∙ ground (
        arith,
        lookup-insert g (group_id policy p) (paths_in policy (group_id policy p) groups ++ p ∷ [])
            groups,
        append_assoc (paths_in policy g groups) (p ∷ []) (keep_if (λ q. g == group_id policy q) ps),
      )

  -- The paths that are grouped under `g` are those whose group is `g`, in order.
  pub group_paths-eq :
      (g : String) (ps : List String)
      → paths_in policy g (group_paths policy [] ps) ≡ keep_if (λ p. g == group_id policy p) ps
  group_paths-eq g ps =
      paths_in-group_paths g [] ps ∙ ground (arith, lookup-nil {V = List String} g)

  pub contains-keys-group_paths :
      (g : String) (groups : Dict String (List String)) (ps : List String)
      → contains (keys (group_paths policy groups ps)) g
        ≡ (is_some (lookup g groups) || any (λ p. g == group_id policy p) ps)
  unfolding group_paths any
  contains-keys-group_paths g groups [] = ground (arith, contains-keys groups g)
  contains-keys-group_paths g groups (p ∷ ps) = ground (
    arith,
    contains-keys-group_paths g
        (insert (group_id policy p) (paths_in policy (group_id policy p) groups ++ p ∷ []) groups)
        ps,
    lookup-insert g (group_id policy p) (paths_in policy (group_id policy p) groups ++ p ∷ [])
        groups,
  )

  -- What a side holds at a path, as far as group `g` sees it.
  abbrev pub seen : String → Manifest → String → Option SaveArtifact
  seen g m p = if g == group_id policy p then lookup p m else none

  -- The sides agree at every path of group `g`.
  abbrev pub Agree : String → Manifest → Manifest → Type 0
  Agree g m n = (p : String) → seen g m p ≡ seen g n p

  -- `_same_manifest` on the group's manifests decides `Agree`, if the paths cover both sides.
  pub same_manifest_iff :
      (g : String) (m n : Manifest) (ps : List String)
      → IsManifest m
      → IsManifest n
      → ((p : String) → contains ps p ≡ false → (lookup p m ≡ none) × (lookup p n ≡ none))
      → let gs = keep_if (λ p. g == group_id policy p) ps in
        (same_manifest (group_manifest m gs) (group_manifest n gs) ≡ true) ↔ Agree g m n
  unfolding same_manifest
  same_manifest_iff g m n ps hm hn cover =
      let gs : List String = keep_if (λ p. g == group_id policy p) ps in
      let equal_iff = group_manifest-eq_iff m n gs hm hn in
      (
        λ same p. ground (
          arith,
          equal_iff.0 (ground arith) p,
          contains-keep_if (λ q. g == group_id policy q) ps p,
          cover p,
        ),
        λ agree. ground (
          arith,
          equal_iff.1
              λ p. ground (arith, agree p, contains-keep_if (λ q. g == group_id policy q) ps p),
        ),
      )
