-- ===== src/Cache/Tests.antt =====
-- A process in a small cache that still has the row of a dead one, and the theorems at this run.
use mathlib.Core.Path.{subst}
use romcloud.Base.{
  ℕ, zero, suc, ◌≤◌, ◌<◌, ◌+◌, ◌≡◌, refl, true, false, none, some, [], ◌∷◌, string_eq, arith,
  Option-cases, inl, inr,
}
use romcloud.Base.Dict.{lookup, insert, keys, sum_values, keep_keys}
use romcloud.Cache.Coordination.{
  Reservation, Storage, Limits, ReservationLease, reclaiming, admit, admit_phase, decide, fits,
  reclaim_stale, active_reserved, update_granularity,
}
use romcloud.Cache.Coordination.Steps.{
  World, held, become, proceed, write, evict_bytes, Reach, locking, advancing, evicted, writing,
  here, then_step,
}
use romcloud.Cache.Coordination.Quota.{promised}
use romcloud.Cache.Coordination.Advance.{IsSafe}
use romcloud.Cache.Coordination.Safety.{Reach-within_limits, Reach-durable}

abbrev limits : Limits
limits = record { max_size_bytes = 1000; min_free_bytes = 100 }

abbrev row : Reservation
row = record {
  download_item_id = none;
  game_id = some "chrono";
  owner_kind = "cli";
  owner_instance_id = "host";
  reserved_bytes = 300;
}

-- A full cache, and the row of a process that is gone.
abbrev start : World
start = record {
  storage = record { final = 900; staging = 50; free = 600; reservations = ("dead", row) ∷ [] };
  running = [];
  admitting = none;
  published = [];
  adopted = 0;
}

abbrev locked : World
locked = record start {
  admitting =
      some
        (record { id = "one"; row = row; can_evict = true; is_second = false; phase = reclaiming });
}

-- So many phases of the admission.
unfoldable phases : ℕ → World → World
phases zero w = w
phases (suc n) w = elim w.admitting [
  | none ↦ w
  | some a ↦ phases n (proceed (admit limits (held w) a w.storage) w)
]

Reach-phases : (n : ℕ) (w : World) → Reach limits start w → Reach limits start (phases n w)
unfolding phases
Reach-phases zero w before = before
Reach-phases (suc n) w before = elim (Option-cases w.admitting) [
  | inl free ↦ rw (phases, free) before
  | inr (a, at) ↦
      rw (phases, at)
        (Reach-phases n (proceed (admit limits (held w) a w.storage) w)
          (then_step start w _ before (advancing w a at)))
]

-- The admission reclaims the row and asks for an eviction, which frees 400 bytes.
unfoldable asking : World
unfolding phases
asking = phases 6 locked

unfoldable cleared : World
unfolding asking
cleared = record asking { storage = evict_bytes 400 asking.storage }

abbrev lease : ReservationLease
lease = record { id = "one"; reserved = 300; last_persisted = 300; released = false }

abbrev room : Storage
room = record { final = 500; staging = 50; free = 1000; reservations = ("one", row) ∷ [] }

abbrev ready : World
ready = become "one" 0 (lease, room) start

admits : phases 6 cleared ≡ ready
unfolding phases cleared asking admit admit_phase decide fits reclaim_stale active_reserved lookup
    keep_keys insert sum_values string_eq
admits = refl

abbrev half : World
half = become "one" 120 (lease, write 120 room) ready

start-IsSafe : IsSafe limits start
unfolding lookup sum_values keys
start-IsSafe = (
  record {
    distinct_rows = (refl, tt);
    distinct_running = tt;
    durable = λ id p at. cc;
    quota = omega arith;
    reserve = omega arith;
  },
  tt,
)

asked : Reach limits start asking
unfolding asking lookup
asked =
    Reach-phases 6 locked
      (then_step start start locked (here start) (locking start "one" row true refl refl))

evicts : 400 ≤ asking.storage.final
unfolding phases asking admit admit_phase decide fits reclaim_stale active_reserved lookup keep_keys
    insert sum_values string_eq
evicts = omega arith

run : Reach limits start half
unfolding cleared lookup insert string_eq
run =
    then_step start ready half
      (subst (Reach limits start) admits
        (Reach-phases 6 cleared (then_step start asking cleared asked (evicted asking 400 evicts))))
      (writing ready "one" (record { lease = lease; twice = 0 }) 120 refl (omega arith)
        (omega arith))

within_limits_example :
    (half.storage.final + half.storage.staging ≤ 1000 + half.adopted) × (100 ≤ half.storage.free)
within_limits_example = Reach-within_limits limits start half run start-IsSafe

half_at : lookup "one" half.running ≡ some (record { lease = lease; twice = 120 })
unfolding lookup insert string_eq
half_at = refl

durable_example :
    (kept : Reservation) × (lookup "one" half.storage.reservations ≡ some kept)
    × (lease.reserved ≤ kept.reserved_bytes)
    × (kept.reserved_bytes < lease.reserved + update_granularity)
    × (sum_values promised half.running ≤ active_reserved half.storage)
durable_example =
    Reach-durable limits start half run start-IsSafe "one" (record { lease = lease; twice = 120 })
      half_at
