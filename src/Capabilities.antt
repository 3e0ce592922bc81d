-- ===== src/Capabilities.antt =====
-- The capability policy of core/capabilities.py. `CapabilityUnavailableError` is its message.
pub mod Laws
mod Tests
use romcloud.Base.{
  String, ◌<>◌, Bool, true, false, ◌&&◌, Eq, Option, none, some, List, [], ◌∷◌, ◌==◌, string_eq,
  contains, if◌then◌else◌,
}

pub data OperatingMode : Type 0 where
  connected cache offline : OperatingMode

pub data Capability : Type 0 where
  offline_mode cached_launch cache_status cache_manage game_download catalog_refresh library_sync
        save_sync update_network remote_validation local_settings local_diagnostics
        connection_recovery :
      Capability

capability_dec : Discrete Capability
capability_dec = hlevel

instance unfoldable pub capability_eq : Eq Capability
unfolding capability_dec
capability_eq = record { dec = capability_dec }

-- `_OFFLINE_BLOCKED`
abbrev pub offline_blocked : List Capability
offline_blocked =
    game_download ∷ catalog_refresh ∷ library_sync ∷ save_sync ∷ update_network ∷ remote_validation
    ∷ []

pub record CapabilityDecision : Type 0 where
  pub allowed : Bool
  pub reason : Option String

pub record CapabilityPolicy : Type 0 where
  pub game_access_mode : String
  pub operating_mode : OperatingMode
  pub blocked_capabilities : List Capability
  pub blocked_reason : Option String

-- `offline`, with `offline_mode_supported`, which is always true
unfoldable pub is_offline : CapabilityPolicy → Bool
is_offline p = elim p.operating_mode [ offline ↦ true | _ ↦ false ]

-- `self.blocked_reason or …`: an empty text is false.
unfoldable pub reason_or_default : Option String → String
reason_or_default none = "Unavailable with the configured storage provider."
reason_or_default (some r) =
    if r == "" then "Unavailable with the configured storage provider." else r

unfoldable pub decision : CapabilityPolicy → Capability → CapabilityDecision
unfolding is_offline reason_or_default
decision p c =
    if contains p.blocked_capabilities c
    then record { allowed = false; reason = some (reason_or_default p.blocked_reason) }
    else if is_offline p && contains offline_blocked c
    then record {
      allowed = false;
      reason =
          some "Unavailable while Offline is active. Switch to Cached Storage or Direct first.";
    }
    else record { allowed = true; reason = none }

unfoldable pub allows : CapabilityPolicy → Capability → Bool
unfolding decision
allows p c = (decision p c).allowed

-- `require`: the message of the error, where it raises
unfoldable pub require : CapabilityPolicy → Capability → String → Option String
unfolding decision
require p c operation =
    let d = decision p c in
    if d.allowed
    then none
    else some (operation <> ": " <> elim d.reason [ none ↦ "None" | some r ↦ r ])
