-- ===== src/Downloads/Partials.antt =====
-- The partial data of downloads: `discard_partial`, `cleanup_stale_partials` and `_is_protected` of
-- services/download_manager.py. The staged assets are the rows of `cache_staging_assets`; a lock of
-- the operating system is the function `can_lock`. Times are native numbers, in seconds, so an
-- `updated_at` in the future counts as now.
pub mod Protects
pub mod Discards
mod Tests
use romcloud.Base.{
  ℕ, suc, ◌+◌, ◌-◌, String, Bool, true, false, not, ◌&&◌, ◌||◌, Option, none, some, List, [], ◌∷◌,
  ◌++◌, map, ◌==◌, string_eq, option_eq, contains, any, keep_if, if◌then◌else◌, ltb,
}
use romcloud.Base.Dict.{Dict, lookup, insert}
use romcloud.Cache.Model.{CacheMember}
use romcloud.Downloads.Model.{
  DownloadState, queued, running, paused, interrupted, verifying, failed, cancelled, complete,
  DownloadItem, state_eq,
}
use romcloud.Downloads.Repository.{Table, get, list_all, update_progress}
use romcloud.Downloads.Manager.{Reply, returned, value_error, integrity_error}

pub record StagingAsset : Type 0 where
  pub relative_path : String
  pub system : String
  pub updated_at : ℕ

-- What the two calls read of a catalogue game: its files, and whether the name of its primary file
-- is that of a descriptor.
pub record StagedGame : Type 0 where
  pub asset_paths : List String
  pub has_descriptor : Bool
  pub system : String

-- `INTERRUPTED_RETENTION` and `FAILED_RETENTION`: 30 days.
abbrev pub long_retention : ℕ
long_retention = 2_592_000

-- `CANCELLED_RETENTION`: 7 days.
abbrev pub short_retention : ℕ
short_retention = 604_800

unfoldable pub retention : DownloadState → Option ℕ
retention interrupted = some long_retention
retention failed = some long_retention
retention cancelled = some short_retention
retention _ = none

-- `_is_protected`
unfoldable pub is_protected : ℕ → DownloadItem → Bool
unfolding retention
is_protected now item = elim item.state [
  | queued ↦ true
  | running ↦ true
  | verifying ↦ true
  | paused ↦ true
  | _ ↦ elim (retention item.state) [
    | none ↦ false
    | some maximum ↦ ltb (now - item.updated_at) maximum
  ]
]

-- `owner_game_ids` of `StagingRepository`
unfoldable pub owner_game_ids : List CacheMember → String → List String
unfolding keep_if
owner_game_ids members path =
    map (λ member. member.game_id) (keep_if (λ member. member.relative_path == path) members)

-- `xs & ys` is not empty.
unfoldable pub overlaps : List String → List String → Bool
unfolding any
overlaps xs ys = any (contains ys) xs

-- The variables of the first loop of `cleanup_stale_partials`.
pub record Protection : Type 0 where
  pub protected_games : List String
  pub protected_paths : List String
  pub unresolved_descriptor_systems : List String
  pub expired_retention : Dict String ℕ

unfoldable pub protect_game :
    (String → Option StagedGame) → DownloadItem → String → Protection → Protection
protect_game games item game_id p = elim (games game_id) [
  | none ↦ record p { protected_games = game_id ∷ p.protected_games }
  | some game ↦ record p {
    protected_games = game_id ∷ p.protected_games;
    protected_paths = game.asset_paths ++ p.protected_paths;
    unresolved_descriptor_systems =
        if item.state == queued && game.has_descriptor
        then game.system ∷ p.unresolved_descriptor_systems
        else p.unresolved_descriptor_systems;
  }
]

-- `expired_retention.get(key, default)`
unfoldable pub expired_or : ℕ → String → Protection → ℕ
unfolding lookup
expired_or default key p = elim (lookup key p.expired_retention) [ none ↦ default | some n ↦ n ]

abbrev pub larger : ℕ → ℕ → ℕ
larger m n = if ltb m n then n else m

unfoldable pub expire_game : String → ℕ → Protection → Protection
unfolding expired_or insert
expire_game game_id maximum p = record p {
  expired_retention = insert game_id (larger (expired_or 0 game_id p) maximum) p.expired_retention;
}

unfoldable pub protect_item :
    (String → Option StagedGame) → ℕ → DownloadItem → Protection → Protection
unfolding protect_game expire_game retention
protect_item games now item p = elim item.game_id [
  | none ↦ p
  | some game_id ↦ if item.state == complete then p else elim (retention item.state) [
    | none ↦ protect_game games item game_id p
    | some maximum ↦
        if ltb (now - item.updated_at) maximum
        then protect_game games item game_id p
        else expire_game game_id maximum p
  ]
]

unfoldable pub protect_all :
    (String → Option StagedGame) → ℕ → List DownloadItem → Protection → Protection
unfolding protect_item
protect_all games now [] p = p
protect_all games now (item ∷ items) p = protect_all games now items (protect_item games now item p)

unfoldable pub is_kept : List CacheMember → Protection → StagingAsset → Bool
unfolding overlaps owner_game_ids
is_kept members p asset =
    contains p.protected_paths asset.relative_path
    || (overlaps (owner_game_ids members asset.relative_path) p.protected_games
        || contains p.unresolved_descriptor_systems asset.system)

-- `max(…, default=INTERRUPTED_RETENTION)` over the owners
unfoldable pub required_age : Protection → List String → ℕ
unfolding expired_or
required_age p [] = long_retention
required_age p (owner ∷ []) = expired_or long_retention owner p
required_age p (owner ∷ (next ∷ owners)) =
    larger (expired_or long_retention owner p) (required_age p (next ∷ owners))

-- Whether the second loop removes the asset.
unfoldable pub is_stale :
    List CacheMember → (StagingAsset → Bool) → ℕ → Protection → StagingAsset → Bool
unfolding is_kept required_age
is_stale members can_lock now p asset =
    not (is_kept members p asset)
    && (not (
          ltb (now - asset.updated_at)
            (required_age p (owner_game_ids members asset.relative_path)))
        && can_lock asset)

unfoldable pub cleanup_loop : (StagingAsset → Bool) → List StagingAsset → ℕ → ℕ × List StagingAsset
cleanup_loop stale [] cleaned = (cleaned, [])
cleanup_loop stale (asset ∷ assets) cleaned =
    let rest = cleanup_loop stale assets (if stale asset then suc cleaned else cleaned) in
    (rest.0, if stale asset then rest.1 else asset ∷ rest.1)

abbrev pub no_protection : Protection
no_protection = record {
  protected_games = [];
  protected_paths = [];
  unresolved_descriptor_systems = [];
  expired_retention = [];
}

-- How many assets are removed, and the ones that stay.
unfoldable pub cleanup_stale_partials :
    (String → Option StagedGame)
    → List CacheMember
    → (StagingAsset → Bool)
    → ℕ
    → Table
    → List StagingAsset
    → ℕ × List StagingAsset
unfolding protect_all cleanup_loop is_stale list_all
cleanup_stale_partials games members can_lock now items assets =
    cleanup_loop
      (is_stale members can_lock now (protect_all games now (list_all items) no_protection)) assets
      0

-- The test of `discard_partial` that lets an asset be.
unfoldable pub is_spared :
    List CacheMember → String → List String → List String → StagingAsset → Bool
unfolding owner_game_ids overlaps keep_if
is_spared members game_id direct_paths protected_games asset =
    let owners = owner_game_ids members asset.relative_path in
    (not (contains owners game_id) && not (contains direct_paths asset.relative_path))
    || overlaps (keep_if (λ owner. not (owner == game_id)) owners) protected_games

-- The loop of `discard_partial`: whether it came to its end, and the assets that are left. An asset
-- that cannot be locked raises, and what comes behind it stays.
unfoldable pub discard_loop :
    (StagingAsset → Bool) → (StagingAsset → Bool) → List StagingAsset → Bool × List StagingAsset
discard_loop spared can_lock [] = (true, [])
discard_loop spared can_lock (asset ∷ assets) =
    let rest = discard_loop spared can_lock assets in
    if spared asset
    then (rest.0, asset ∷ rest.1)
    else if can_lock asset
    then rest
    else (false, asset ∷ assets)

-- `other.id != item.id and other.game_id is not None and self._is_protected(other, now)`
unfoldable pub is_other : ℕ → String → DownloadItem → Bool
unfolding is_protected
is_other now item_id other =
    not (other.id == item_id) && (not (other.game_id == none) && is_protected now other)

unfoldable pub game_ids : List DownloadItem → List String
game_ids [] = []
game_ids (item ∷ items) =
    let rest = game_ids items in elim item.game_id [ none ↦ rest | some g ↦ g ∷ rest ]

abbrev pub direct_paths_of : Option StagedGame → List String
direct_paths_of none = []
direct_paths_of (some game) = game.asset_paths

-- `RuntimeError` of a lock that another process holds is the reply `none`. `retained` stands for
-- `stats_for_game(…)["retained_bytes"]` of the assets that are left.
unfoldable pub discard_game :
    (String → Option StagedGame)
    → List CacheMember
    → (StagingAsset → Bool)
    → (List StagingAsset → ℕ)
    → ℕ
    → DownloadItem
    → String
    → List DownloadItem
    → Table
    → List StagingAsset
    → Option (Reply (Unit {0})) × (Table × List StagingAsset)
unfolding discard_loop is_spared game_ids update_progress
discard_game games members can_lock retained now item game_id others t assets =
    if contains (game_ids others) game_id
    then (some value_error, (t, assets))
    else (let done =
          discard_loop
            (is_spared members game_id (direct_paths_of (games game_id)) (game_ids others)) can_lock
            assets in
        if not done.0
        then (none, (t, done.1))
        else elim (update_progress item.id now (retained done.1) item.bytes_total t) [
          | none ↦ (some integrity_error, (t, done.1))
          | some t' ↦ (some (returned tt), (t', done.1))
        ])

unfoldable pub discard_partial :
    (String → Option StagedGame)
    → List CacheMember
    → (StagingAsset → Bool)
    → (List StagingAsset → ℕ)
    → ℕ
    → String
    → Table
    → List StagingAsset
    → Option (Reply (Unit {0})) × (Table × List StagingAsset)
unfolding discard_game is_other list_all keep_if get update_progress
discard_partial games members can_lock retained now item_id t assets = elim (get item_id t) [
  | none ↦ (some value_error, (t, assets))
  | some item ↦
      if not (contains (paused ∷ interrupted ∷ failed ∷ cancelled ∷ []) item.state)
      then (some value_error, (t, assets))
      else elim item.game_id [
        | none ↦ elim (update_progress item.id now 0 item.bytes_total t) [
          | none ↦ (some integrity_error, (t, assets))
          | some t' ↦ (some (returned tt), (t', assets))
        ]
        | some game_id ↦
            discard_game games members can_lock retained now item game_id
              (keep_if (is_other now item.id) (list_all t)) t assets
      ]
]
