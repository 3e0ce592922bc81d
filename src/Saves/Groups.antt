-- ===== src/Saves/Groups.antt =====
-- `_group_id`, `_group_manifest`, and the dictionaries of paths by group of services/saves.py.
pub mod Laws
use romcloud.Base.{
  String, ◌<>◌, Bool, ◌&&◌, not, Option, none, some, List, [], ◌∷◌, ◌++◌, ◌==◌, string_eq, nat_eq,
  list_eq, contains, keep_if, all, length, ltb, leb, if◌then◌else◌, false, true,
}
use romcloud.Base.Dict.{Dict, keys, lookup, insert}
use romcloud.Base.Keys.{sorted_set}
use romcloud.Saves.Model.{SaveArtifact, artifact_eq, Manifest, Policy}

-- `_same_artifact`
unfoldable pub same_artifact : Option SaveArtifact → Option SaveArtifact → Bool
same_artifact none none = true
same_artifact none (some r) = false
same_artifact (some l) none = false
same_artifact (some l) (some r) =
    l.relative_path == r.relative_path
    && l.size_bytes == r.size_bytes
    && l.content_hash == r.content_hash

-- `_group_manifest`
unfoldable pub group_manifest : Manifest → List String → List SaveArtifact
group_manifest m [] = []
group_manifest m (p ∷ ps) =
    let rest = group_manifest m ps in elim (lookup p m) [ none ↦ rest | some a ↦ a ∷ rest ]

-- `_same_manifest`
unfoldable pub same_manifest : List SaveArtifact → List SaveArtifact → Bool
unfolding list_eq artifact_eq
same_manifest l r = l == r

-- `{artifact.relative_path: artifact for artifact in artifacts}`
unfoldable pub by_path : Manifest → List SaveArtifact → Manifest
by_path m [] = m
by_path m (a ∷ artifacts) = by_path (insert a.relative_path a m) artifacts

-- `_is_incomplete_local_materialization`
unfoldable pub is_incomplete_local_materialization :
    List SaveArtifact → List SaveArtifact → List SaveArtifact → Bool
unfolding same_manifest same_artifact by_path all
is_incomplete_local_materialization local remote baseline =
    ltb 0 (length remote)
    && ltb 0 (length baseline)
    && ltb (length local) (length baseline)
    && same_manifest remote baseline
    && all
        (λ (a : SaveArtifact).
          same_artifact (lookup a.relative_path (by_path [] baseline)) (some a))
        local

module _ (policy : Policy) where
  -- `_group_id`
  unfoldable pub group_id : String → String
  group_id path = elim (policy.group_for_path path) [
    | none ↦ "unsupported:" <> path
    | some d ↦ d.group_id
  ]

  -- `groups.get(group, [])`
  abbrev pub paths_in : String → Dict String (List String) → List String
  paths_in g groups = elim (lookup g groups) [ none ↦ [] | some ps ↦ ps ]

  -- `groups.setdefault(_group_id(policy, path), []).append(path)` for each path
  unfoldable pub group_paths : Dict String (List String) → List String → Dict String (List String)
  unfolding group_id insert
  group_paths groups [] = groups
  group_paths groups (p ∷ ps) =
      group_paths (insert (group_id p) (paths_in (group_id p) groups ++ p ∷ []) groups) ps

-- `sorted(set(local) | set(remote) | set(baseline))`
abbrev pub all_paths : Manifest → Manifest → Manifest → List String
all_paths local remote baseline = sorted_set (keys local ++ keys remote ++ keys baseline)
