-- ===== src/Cache/Service.antt =====
-- Eviction, removal of files, admission without a coordinator, and pinning in services/cache.py.
-- The disk is a parameter: `delete_path` removes the file of a member below the cache's root, and
-- `delete_container` the recorded path of an entry without members; both leave a link alone.
pub mod Laws
pub mod Pins
pub mod Owners
mod Tests
use romcloud.Base.{
  ℕ, ◌+◌, ◌-◌, String, Bool, true, false, not, ◌&&◌, ◌||◌, Option, none, some, List, [], ◌∷◌, ◌++◌,
  ◌==◌, string_eq, nat_eq, contains, if◌then◌else◌, ltb, leb,
}
use romcloud.Cache.Model.{
  CacheStatus, incomplete, CacheEntry, is_evictable, CacheMember, CachePolicy,
}
use romcloud.Cache.Repository.{
  Tables, delete, get, list_members, owner_count, list_evictable_lru, total_size, upsert,
  set_pinned,
}

-- `_has_space_for`
unfoldable pub has_space_for : CachePolicy → ℕ → ℕ → ℕ → Bool
has_space_for policy total free needed =
    leb (total + needed) policy.max_size_bytes && leb (needed + policy.min_free_bytes) free

-- The paths of the members that `_remove_files` deletes: those of the last owner.
unfoldable pub last_owned : Tables → List CacheMember → List String
unfolding owner_count
last_owned t [] = []
last_owned t (m ∷ ms) =
    let rest = last_owned t ms in
    if ltb 1 (owner_count m.relative_path t) then rest else m.relative_path ∷ rest

-- What the service asks of the disk, the catalogue and the locks.
pub record Ports (Disk : Type 0) : Type 0 where
  pub free_bytes : Disk → ℕ
  pub delete_path : String → Disk → Disk
  pub delete_container : CacheEntry → Disk → Disk
  pub has_game : String → Bool
  -- `self._storage`, with `fits_current` of the coordinator
  pub storage : Option (ℕ → Tables → Disk → Bool)
  pub lock_is_free : CacheEntry → Bool

module _ {Disk : Type 0} (ports : Ports Disk) (policy : CachePolicy) where
  unfoldable pub delete_paths : List String → Disk → Disk
  delete_paths [] disk = disk
  delete_paths (p ∷ ps) disk = delete_paths ps (ports.delete_path p disk)

  -- `_remove_files`
  unfoldable pub remove_files : CacheEntry → Tables → Disk → Disk
  unfolding last_owned list_members delete_paths
  remove_files e t disk =
      if ports.has_game e.game_id
      then (elim (list_members e.game_id t) [
        | [] ↦ ports.delete_container e disk
        | m ∷ ms ↦ delete_paths (last_owned t (m ∷ ms)) disk
      ])
      else ports.delete_container e disk

  -- `enough`, where `_admission_locked` is `locked`
  unfoldable pub is_enough : Bool → ℕ → Tables → Disk → Bool
  unfolding has_space_for total_size
  is_enough locked needed t disk =
      let plain = has_space_for policy (total_size t) (ports.free_bytes disk) needed in
      elim ports.storage [ none ↦ plain | some fits ↦ if locked then fits needed t disk else plain ]

  -- The asset locks are asked for only with a coordinator and for a known game.
  unfoldable pub can_lock : CacheEntry → Bool
  can_lock e = elim ports.storage [
    | none ↦ true
    | some fits ↦ not (ports.has_game e.game_id) || ports.lock_is_free e
  ]

  -- The entry that a turn of the loop of `evict` removes.
  unfoldable pub victim : List String → CacheEntry → Tables → Option CacheEntry
  unfolding get is_evictable can_lock
  victim protected c t = if contains protected c.game_id then none else elim (get c.game_id t) [
    | none ↦ none
    | some e ↦ if is_evictable e && can_lock e then some e else none
  ]

  -- The loop of `evict` over the snapshot of candidates, with `protected` for the protected and
  -- the launching games: the evicted ids, the tables and the disk.
  unfoldable pub evict_loop :
      Bool → ℕ → List String → List CacheEntry → Tables → Disk → List String × Tables × Disk
  unfolding is_enough victim remove_files delete
  evict_loop locked needed protected [] t disk = ([], t, disk)
  evict_loop locked needed protected (c ∷ cs) t disk =
      if is_enough locked needed t disk then ([], t, disk) else elim (victim protected c t) [
        | none ↦ evict_loop locked needed protected cs t disk
        | some e ↦
            let (ids, t', disk') =
              evict_loop locked needed protected cs (delete e.game_id t) (remove_files e t disk) in
            (e.game_id ∷ ids, t', disk')
      ]

  -- `evict`
  unfoldable pub evict : Bool → ℕ → List String → Tables → Disk → List String × Tables × Disk
  unfolding evict_loop list_evictable_lru
  evict locked needed protected t disk =
      evict_loop locked needed protected (list_evictable_lru t) t disk

  -- `_ensure_space`: `none` is `InsufficientSpaceError`.
  unfoldable pub ensure_space : ℕ → List String → Tables → Disk → Option (Tables × Disk)
  unfolding evict has_space_for total_size
  ensure_space needed protected t disk =
      if ltb policy.max_size_bytes needed
      then none
      else let plain : Tables → Disk → Bool =
          λ t disk. has_space_for policy (total_size t) (ports.free_bytes disk) needed in
        let (ids, t', disk') = evict false needed protected t disk in
        if plain t disk then some (t, disk) else if plain t' disk' then some (t', disk') else none
