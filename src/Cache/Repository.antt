-- ===== src/Cache/Repository.antt =====
-- `CacheRepository` of infrastructure/repositories/cache.py: the rows of `cache_entries` by game and
-- the rows of `cache_members`, which a deleted entry takes along (`ON DELETE CASCADE`).
use romcloud.Base.{
  ℕ, ◌+◌, String, Bool, true, false, not, ◌&&◌, Option, none, some, List, [], ◌∷◌, ◌++◌, ◌==◌,
  string_eq, nat_eq, keep_if, map, if◌then◌else◌, ltb, leb, length,
}
use romcloud.Base.Dict.{Dict, lookup, insert, erase}
use romcloud.Base.Keys.{dedup, str_le}
use romcloud.Cache.Model.{CacheStatus, CacheEntry, is_evictable, CacheMember}

-- A row of `cache_entries`.
pub record EntryRow : Type 0 where
  pub entry : CacheEntry
  pub membership_resolved : Bool

pub record Tables : Type 0 where
  pub entries : Dict String EntryRow
  pub members : List CacheMember

-- The fields of a `GameAsset` that the repository stores.
pub record GameAsset : Type 0 where
  pub relative_path : String
  pub size_bytes : Option ℕ
  pub is_primary : Bool

-- `UPDATE cache_entries SET f WHERE game_id = ?`
unfoldable pub update_entry : String → (EntryRow → EntryRow) → Tables → Tables
unfolding lookup insert
update_entry game_id f t = elim (lookup game_id t.entries) [
  | none ↦ t
  | some row ↦ record t { entries = insert game_id (f row) t.entries }
]

-- The upsert of `save`; the membership of a complete entry is seeded by another transaction step.
unfoldable pub upsert : CacheEntry → Tables → Tables
unfolding lookup insert
upsert e t = elim (lookup e.game_id t.entries) [
  | none ↦ record t {
    entries = insert e.game_id (record { entry = e; membership_resolved = false }) t.entries;
  }
  | some row ↦ record t { entries = insert e.game_id (record row { entry = e }) t.entries }
]

-- `update_status`, `update_cache_path`, `update_last_accessed` and `set_pinned`
abbrev pub update_status : String → CacheStatus → Tables → Tables
update_status game_id status t =
    update_entry game_id (λ r. record r { entry = record r.entry { status = status } }) t

abbrev pub update_cache_path : String → String → Tables → Tables
update_cache_path game_id cache_path t =
    update_entry game_id (λ r. record r { entry = record r.entry { cache_path = cache_path } }) t

abbrev pub update_last_accessed : String → ℕ → Tables → Tables
update_last_accessed game_id dt t =
    update_entry game_id (λ r. record r { entry = record r.entry { last_accessed = dt } }) t

abbrev pub set_pinned : String → Bool → Tables → Tables
set_pinned game_id pinned t =
    update_entry game_id (λ r. record r { entry = record r.entry { is_pinned = pinned } }) t

-- `WHERE game_id = ?`
abbrev pub is_of : String → CacheMember → Bool
is_of game_id m = m.game_id == game_id

-- `delete`
unfoldable pub delete : String → Tables → Tables
unfolding erase keep_if
delete game_id t = record {
  entries = erase game_id t.entries;
  members = keep_if (λ m. not (is_of game_id m)) t.members;
}

-- `get`
unfoldable pub get : String → Tables → Option CacheEntry
unfolding lookup
get game_id t = elim (lookup game_id t.entries) [ none ↦ none | some row ↦ some (row.entry) ]

-- `ORDER BY is_primary DESC, relative_path`
unfoldable pub member_first : CacheMember → CacheMember → Bool
unfolding str_le
member_first m n =
    if m.is_primary
    then (if n.is_primary then str_le m.relative_path n.relative_path else true)
    else (if n.is_primary then false else str_le m.relative_path n.relative_path)

unfoldable pub insert_member : CacheMember → List CacheMember → List CacheMember
unfolding member_first
insert_member m [] = m ∷ []
insert_member m (n ∷ ns) =
    let rest = insert_member m ns in if member_first m n then m ∷ n ∷ ns else n ∷ rest

unfoldable pub sort_members : List CacheMember → List CacheMember
unfolding insert_member
sort_members [] = []
sort_members (m ∷ ms) = insert_member m (sort_members ms)

-- `list_members`
unfoldable pub list_members : String → Tables → List CacheMember
unfolding sort_members keep_if
list_members game_id t = sort_members (keep_if (is_of game_id) t.members)

-- `owner_count`
unfoldable pub owner_count : String → Tables → ℕ
unfolding keep_if
owner_count path t = length (keep_if (λ (m : CacheMember). m.relative_path == path) t.members)

-- `ORDER BY last_accessed ASC`
unfoldable pub insert_lru : CacheEntry → List CacheEntry → List CacheEntry
insert_lru e [] = e ∷ []
insert_lru e (f ∷ fs) =
    let rest = insert_lru e fs in
    if leb e.last_accessed f.last_accessed then e ∷ f ∷ fs else f ∷ rest

unfoldable pub entries_where : (CacheEntry → Bool) → Dict String EntryRow → List CacheEntry
unfolding insert_lru
entries_where p [] = []
entries_where p ((k, row) ∷ rows) =
    let rest = entries_where p rows in if p row.entry then insert_lru row.entry rest else rest

-- `list_evictable_lru`: `status = 'complete' AND is_pinned = 0`
unfoldable pub list_evictable_lru : Tables → List CacheEntry
unfolding entries_where is_evictable
list_evictable_lru t = entries_where is_evictable t.entries

-- `MAX(size_bytes)` of a path
unfoldable pub largest : String → List CacheMember → ℕ
largest path [] = 0
largest path (m ∷ ms) =
    let rest = largest path ms in
    if m.relative_path == path && ltb rest m.size_bytes then m.size_bytes else rest

-- `SUM` over the groups of `GROUP BY relative_path`
unfoldable pub sum_largest : List CacheMember → List String → ℕ
unfolding largest
sum_largest ms [] = 0
sum_largest ms (p ∷ ps) = largest p ms + sum_largest ms ps

-- `total_size`
unfoldable pub total_size : Tables → ℕ
unfolding sum_largest dedup
total_size t = sum_largest t.members (dedup (map (λ (m : CacheMember). m.relative_path) t.members))

-- The rows that `replace_membership` inserts; `actual_sizes.get(path, 0)` is `actual`.
abbrev pub new_members : String → (String → ℕ) → List GameAsset → List CacheMember
new_members game_id actual assets =
    map
      (λ (a : GameAsset). record {
        game_id = game_id;
        relative_path = a.relative_path;
        expected_size = a.size_bytes;
        size_bytes = actual a.relative_path;
        is_primary = a.is_primary;
      })
      assets

-- `replace_membership`, for an entry that exists and assets with different paths, as the keys of
-- the two tables ask; else the statement raises and nothing changes.
unfoldable pub replace_membership : String → (String → ℕ) → List GameAsset → Tables → Option Tables
unfolding lookup insert keep_if dedup
replace_membership game_id actual assets t =
    let ps : List String = map (λ (a : GameAsset). a.relative_path) assets in
    elim (lookup game_id t.entries) [
      | none ↦ (elim assets [
        | [] ↦ some (record t { members = keep_if (λ m. not (is_of game_id m)) t.members })
        | a ∷ more ↦ none
      ])
      | some row ↦
          if length (dedup ps) == length ps
          then some (record {
            entries = insert game_id (record row { membership_resolved = true }) t.entries;
            members =
                keep_if (λ m. not (is_of game_id m)) t.members ++ new_members game_id actual assets;
          })
          else none
    ]
