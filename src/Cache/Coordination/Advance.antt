-- ===== src/Cache/Coordination/Advance.antt =====
-- A call of `admit` keeps the invariant from one phase to the next, whatever moves in between.
use romcloud.Base.{ℕ, ◌≡◌, refl, Bool, true, false, none, string_eq, arith, Bool-cases, inl, inr}
use romcloud.Base.Dict.{lookup}
use romcloud.Cache.Coordination.{
  Limits, Attempt, Phase, reclaiming, reading_final, reading_staging, reading_reserved,
  reading_free, deciding, evicting, fits, decide, admit_phase,
}
use romcloud.Cache.Coordination.Steps.{World, held, proceed}
use romcloud.Cache.Coordination.Quota.{IsSound}
use romcloud.Cache.Coordination.Reads.{Holds, Reads, growth-in_memory}
use romcloud.Cache.Coordination.Keeps.{
  fits-limits, growth-≤, in_memory-≤, reclaim_stale-IsSound, admitted-IsSound,
}

-- The invariant, and what a call of `admit` has read.
abbrev pub IsSafe : Limits → World → Type 0
IsSafe limits w = IsSound limits w × Reads w.admitting w

module _ (limits : Limits) (w : World) (sound : IsSound limits w) (a : Attempt)
    (fresh : lookup a.id w.running ≡ none) where
  decide-IsSafe :
      (final staging reserved free : ℕ)
      → Holds (deciding final staging reserved free) w
      → (b : Bool) → fits limits a.row.reserved_bytes final staging reserved free ≡ b
      → IsSafe limits (proceed (decide b a w.storage) w)
  unfolding decide
  decide-IsSafe final staging reserved free (h, k) true fit = elim (Bool-cases a.is_second) [
    | inl second ↦
        let (quota, reserve) =
          fits-limits limits a.row.reserved_bytes final staging reserved free fit in
        rw (decide, second)
          (
            admitted-IsSound limits w sound a fresh (omega (arith, h, quota))
                (omega (arith, k, reserve)),
            tt,
          )
    | inr first ↦ rw (decide, first) (sound, (fresh, tt))
  ]
  decide-IsSafe final staging reserved free (h, k) false fit = elim (Bool-cases a.is_second) [
    | inl second ↦ rw (decide, second) (sound, tt)
    | inr first ↦ elim (Bool-cases a.can_evict) [
      | inl evicts ↦ rw (decide, first, evicts) (sound, (fresh, tt))
      | inr keeps ↦ rw (decide, first, keeps) (sound, (fresh, tt))
    ]
  ]

  pub admit_phase-IsSafe :
      (ph : Phase)
      → Holds ph w
      → IsSafe limits (proceed (admit_phase limits (held w) ph a w.storage) w)
  unfolding admit_phase
  admit_phase-IsSafe reclaiming h = (reclaim_stale-IsSound limits w sound, (fresh, tt))
  admit_phase-IsSafe reading_final h = (sound, (fresh, omega arith))
  admit_phase-IsSafe (reading_staging final) h =
      (sound, (fresh, omega (arith, h, growth-≤ limits w sound)))
  admit_phase-IsSafe (reading_reserved final staging) h =
      (sound, (fresh, (h, in_memory-≤ limits w sound)))
  admit_phase-IsSafe (reading_free final staging reserved) (h, k) =
      (sound, (fresh, (h, omega (arith, k, growth-in_memory limits w sound))))
  admit_phase-IsSafe (deciding final staging reserved free) h =
      decide-IsSafe final staging reserved free h _ refl
  admit_phase-IsSafe evicting h = (sound, (fresh, tt))
