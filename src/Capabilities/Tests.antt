-- ===== src/Capabilities/Tests.antt =====
-- A device that is offline, with a provider that cannot store saves.
use romcloud.Base.{
  ◌<>◌, String, ◌≡◌, ◌≢◌, true, false, ◌&&◌, not, none, some, [], ◌∷◌, contains, ◌⊎◌, arith,
}
use romcloud.Capabilities.{
  connected, offline, save_sync, game_download, capability_eq, offline_blocked, CapabilityPolicy,
  decision, allows, require,
}
use romcloud.Capabilities.Laws.{allows-offline, require-allows}

abbrev policy : CapabilityPolicy
policy = record {
  game_access_mode = "cached";
  operating_mode = offline;
  blocked_capabilities = save_sync ∷ [];
  blocked_reason = none;
}

connected-apart : connected ≢ offline
connected-apart = ground arith

offline_example :
    (allows (record policy { operating_mode = connected }) game_download
      ≡ not (contains policy.blocked_capabilities game_download))
    × (allows policy game_download ≡ (
        allows (record policy { operating_mode = connected }) game_download
        && not (contains offline_blocked game_download)))
offline_example = allows-offline policy connected game_download connected-apart

require_example :
    ((allows policy save_sync ≡ true) × (require policy save_sync "Sync" ≡ none))
    ⊎ ((allows policy save_sync ≡ false)
        × ((reason : String) × ((decision policy save_sync).reason ≡ some reason)
            × (require policy save_sync "Sync" ≡ some ("Sync" <> ": " <> reason))))
require_example = require-allows policy save_sync "Sync"
