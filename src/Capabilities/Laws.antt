-- ===== src/Capabilities/Laws.antt =====
-- What the operating mode changes, and when a guard raises.
use romcloud.Base.{
  String, ◌<>◌, ◌≡◌, ◌≢◌, refl, true, false, ◌&&◌, not, none, some, contains, arith, Bool-cases,
  inl, inr, string_eq, ◌⊎◌,
}
use romcloud.Capabilities.{
  OperatingMode, connected, cache, offline, Capability, capability_eq, offline_blocked,
  CapabilityPolicy, is_offline, reason_or_default, decision, allows, require,
}

-- Going offline takes away exactly the capabilities of the offline list: in a mode that is not
-- offline, a capability is allowed if and only if the policy does not block it; offline, it is
-- allowed if and only if it is allowed in that mode and is not on the list.
pub allows-offline :
    (p : CapabilityPolicy) (mode : OperatingMode) (c : Capability)
    → mode ≢ offline
    → (allows (record p { operating_mode = mode }) c ≡ not (contains p.blocked_capabilities c))
      × (allows (record p { operating_mode = offline }) c
          ≡ (allows (record p { operating_mode = mode }) c && not (contains offline_blocked c)))
unfolding allows decision is_offline
allows-offline p connected c h = (ground (arith, h), ground (arith, h))
allows-offline p cache c h = (ground (arith, h), ground (arith, h))
allows-offline p offline c h = ground (arith, h)

-- A guard raises exactly for what the policy does not allow, and its message then names the
-- operation and the reason that the decision shows.
pub require-allows :
    (p : CapabilityPolicy) (c : Capability) (operation : String)
    → ((allows p c ≡ true) × (require p c operation ≡ none))
      ⊎ ((allows p c ≡ false)
          × ((reason : String) × ((decision p c).reason ≡ some reason)
              × (require p c operation ≡ some (operation <> ": " <> reason))))
unfolding allows require decision
require-allows p c operation = elim (Bool-cases (contains p.blocked_capabilities c)) [
  | inl blocked ↦ inr (
    ground (arith, blocked),
    (reason_or_default p.blocked_reason, ground (arith, blocked), ground (arith, blocked)),
  )
  | inr free ↦ elim (Bool-cases (is_offline p && contains offline_blocked c)) [
    | inl away ↦ inr (
      ground (arith, free, away),
      (
        "Unavailable while Offline is active. Switch to Cached Storage or Direct first.",
        rw (decision, free, away) refl,
        rw (require, decision, free, away) refl,
      ),
    )
    | inr near ↦ inl (ground (arith, free, near), ground (arith, free, near))
  ]
]
