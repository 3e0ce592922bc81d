-- ===== src/Cache/Coordination/Reads.antt =====
-- What the numbers that a call of `admit` has read still say while other processes move.
use romcloud.Base.{
  ℕ, ◌+◌, ◌≤◌, String, ◌≡◌, refl, false, true, Option, none, some, string_eq, arith, ◌⊎◌, inl, inr,
}
use romcloud.Base.Dict.{lookup, sum_values, sum_values-≤}
use romcloud.Cache.Coordination.{
  Limits, Attempt, Phase, reclaiming, reading_final, reading_staging, reading_reserved,
  reading_free, deciding, evicting, active_reserved,
}
use romcloud.Cache.Coordination.Steps.{Process, World, is_between}
use romcloud.Cache.Coordination.Quota.{promised, IsSound}

-- The growth that all running processes may still cause, and what they hold reserved in memory.
abbrev pub growth : World → ℕ
growth w = sum_values promised w.running

abbrev reserved_of : Process → ℕ
reserved_of p = p.lease.reserved

abbrev pub in_memory : World → ℕ
in_memory w = sum_values reserved_of w.running

abbrev pub used : World → ℕ
used w = w.storage.final + w.storage.staging + growth w

-- The reservations were read after the staged bytes, and the free bytes after the reservations.
abbrev pub Holds : Phase → World → Type 0
Holds reclaiming w = Unit
Holds reading_final w = Unit
Holds (reading_staging final) w = w.storage.final ≤ final + w.adopted
Holds (reading_reserved final staging) w =
    used w ≤ final + staging + active_reserved w.storage + w.adopted
Holds (reading_free final staging reserved) w =
    (used w ≤ final + staging + reserved + w.adopted) × (in_memory w ≤ reserved)
Holds (deciding final staging reserved free) w =
    (used w ≤ final + staging + reserved + w.adopted)
    × (growth w + free ≤ reserved + w.storage.free)
Holds evicting w = Unit

abbrev pub Reads : Option Attempt → World → Type 0
Reads none w = Unit
Reads (some a) w = (lookup a.id w.running ≡ none) × Holds a.phase w

-- A step that frees what it lets others use, and does not take from the rows while they are read.
pub record IsCalm (between : Type 0) (v w : World) : Type 0 where
  pub final : w.storage.final + v.adopted ≤ v.storage.final + w.adopted
  pub used : used w + v.adopted ≤ used v + w.adopted
  pub rows : between ⊎ (active_reserved v.storage ≤ active_reserved w.storage)
  pub free : growth w + v.storage.free ≤ growth v + w.storage.free
  pub memory : in_memory w ≤ in_memory v

Holds-IsCalm :
    (a : Attempt) (ph : Phase) (v w : World)
    → a.phase ≡ ph
    → IsCalm (is_between (some a) ≡ false) v w
    → Holds ph v
    → Holds ph w
Holds-IsCalm a reclaiming v w at c h = tt
Holds-IsCalm a reading_final v w at c h = tt
Holds-IsCalm a (reading_staging final) v w at c h = omega (arith, h, c.final)
Holds-IsCalm a (reading_reserved final staging) v w at c h = elim c.rows [
  | inl not_between ↦ let impossible : true ≡ false = rw at at not_between in absurd cc
  | inr more ↦ omega (arith, h, c.used, more)
]
Holds-IsCalm a (reading_free final staging reserved) v w at c (h, k) =
    (omega (arith, h, c.used), omega (arith, k, c.memory))
Holds-IsCalm a (deciding final staging reserved free) v w at c (h, k) =
    (omega (arith, h, c.used), omega (arith, k, c.free))
Holds-IsCalm a evicting v w at c h = tt

-- A calm step under which no id begins to run keeps what is read.
pub Reads-IsCalm :
    (o : Option Attempt) (v w : World)
    → ((id : String) → lookup id v.running ≡ none → lookup id w.running ≡ none)
    → IsCalm (is_between o ≡ false) v w
    → Reads o v
    → Reads o w
Reads-IsCalm none v w fresh c r = tt
Reads-IsCalm (some a) v w fresh c (new, h) = (fresh a.id new, Holds-IsCalm a a.phase v w refl c h)

pub growth-in_memory : (limits : Limits) (w : World) → IsSound limits w → growth w ≤ in_memory w
growth-in_memory limits w sound =
    sum_values-≤ promised reserved_of w.running w.running sound.distinct_running
      sound.distinct_running λ j q at. (q, at, omega arith)
