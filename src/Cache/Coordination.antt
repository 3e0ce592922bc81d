-- ===== src/Cache/Coordination.antt =====
-- The admission decisions and the leases of infrastructure/cache_coordination.py. The reservation
-- table is a dictionary by id; its creation and update times are left out. `max(0, int(n))` of the
-- amounts is a native number, and `a - b >= c` on Python's integers is written `b + c <= a`.
pub mod Steps
pub mod Quota
pub mod Leases
pub mod Reads
pub mod Keeps
pub mod Advance
pub mod Calls
pub mod Safety
use romcloud.Base.{
  ℕ, zero, ◌+◌, ◌-◌, ◌*◌, String, Bool, true, false, not, ◌&&◌, Option, none, some, string_eq,
  nat_eq, option_eq, ◌==◌, ltb, leb, if◌then◌else◌,
}
use romcloud.Base.Dict.{Dict, keys, lookup, insert, erase, keep_keys, sum_values}

-- A row of `cache_reservations`.
pub record Reservation : Type 0 where
  pub download_item_id : Option String
  pub game_id : Option String
  pub owner_kind : String
  pub owner_instance_id : String
  pub reserved_bytes : ℕ

-- What an admission reads: `cache_repo.total_size()`, `staging_bytes()`, the free bytes of the
-- file system, and the table.
pub record Storage : Type 0 where
  pub final : ℕ
  pub staging : ℕ
  pub free : ℕ
  pub reservations : Dict String Reservation

-- The limits of a `CacheStorageCoordinator`.
pub record Limits : Type 0 where
  pub max_size_bytes : ℕ
  pub min_free_bytes : ℕ

pub record ReservationLease : Type 0 where
  pub id : String
  pub reserved : ℕ
  pub last_persisted : ℕ
  pub released : Bool

-- `_UPDATE_GRANULARITY`
abbrev pub update_granularity : ℕ
update_granularity = 256 * 1024 * 1024

-- `_active_reserved`
unfoldable pub active_reserved : Storage → ℕ
unfolding sum_values
active_reserved s = sum_values (λ (r : Reservation). r.reserved_bytes) s.reservations

-- `_fits`, of the four numbers that it has read
unfoldable pub fits : Limits → ℕ → ℕ → ℕ → ℕ → ℕ → Bool
fits limits requested final staging reserved free =
    leb (final + staging + reserved + requested) limits.max_size_bytes
    && leb (reserved + requested + limits.min_free_bytes) free

-- `_reclaim_stale_locked`: the rows whose lock file no process holds go.
unfoldable pub reclaim_stale : (String → Bool) → Storage → Storage
unfolding keep_keys
reclaim_stale held s = record s { reservations = keep_keys held s.reservations }

-- Where a call of `admit` stands under the admission lock, with what the `_fits` that runs has read.
-- Other processes move between two phases.
pub data Phase : Type 0 where
  reclaiming : Phase
  reading_final : Phase
  reading_staging : (final : ℕ) → Phase
  reading_reserved : (final staging : ℕ) → Phase
  reading_free : (final staging reserved : ℕ) → Phase
  deciding : (final staging reserved free : ℕ) → Phase
  evicting : Phase

-- A call of `admit`: `id` is `uuid.uuid4().hex`, and `reserved_bytes` of `row` the requested growth.
-- `can_evict` tells whether `evict` is given, and `is_second` that the second `_fits` runs.
pub record Attempt : Type 0 where
  pub id : String
  pub row : Reservation
  pub can_evict : Bool
  pub is_second : Bool
  pub phase : Phase

pub data Progress : Type 0 where
  working : Attempt → Progress
  insufficient_space : Progress
  admitted : ReservationLease → Progress

abbrev pub new_lease : Attempt → ReservationLease
new_lease a = record {
  id = a.id;
  reserved = a.row.reserved_bytes;
  last_persisted = a.row.reserved_bytes;
  released = false;
}

-- The end of a `_fits`: the first may ask for the eviction, the second admits or refuses.
unfoldable pub decide : Bool → Attempt → Storage → Progress × Storage
unfolding insert
decide does_fit a s =
    if a.is_second
    then (if does_fit
        then (admitted (new_lease a), record s { reservations = insert a.id a.row s.reservations })
        else (insufficient_space, s))
    else (
      working (record a {
        is_second = true;
        phase = if not does_fit && a.can_evict then evicting else reading_final;
      }),
      s,
    )

-- `admit`, from one phase to the next. `held` is for the lock files that live processes hold. The
-- eviction itself is made of the removals of single games.
unfoldable pub admit_phase :
    Limits → (String → Bool) → Phase → Attempt → Storage → Progress × Storage
unfolding fits reclaim_stale active_reserved decide
admit_phase limits held reclaiming a s =
    (working (record a { phase = reading_final }), reclaim_stale held s)
admit_phase limits held reading_final a s =
    (working (record a { phase = reading_staging s.final }), s)
admit_phase limits held (reading_staging final) a s =
    (working (record a { phase = reading_reserved final s.staging }), s)
admit_phase limits held (reading_reserved final staging) a s =
    (working (record a { phase = reading_free final staging (active_reserved s) }), s)
admit_phase limits held (reading_free final staging reserved) a s =
    (working (record a { phase = deciding final staging reserved s.free }), s)
admit_phase limits held (deciding final staging reserved free) a s =
    decide (fits limits a.row.reserved_bytes final staging reserved free) a s
admit_phase limits held evicting a s = (working (record a { phase = reading_final }), s)

unfoldable pub admit : Limits → (String → Bool) → Attempt → Storage → Progress × Storage
unfolding admit_phase
admit limits held a s = admit_phase limits held a.phase a s

abbrev pub is_row_of : String → Option Reservation → Bool
is_row_of item none = false
is_row_of item (some r) = r.download_item_id == some item

-- What the `DELETE FROM cache_reservations` of `finalize_transfer` in
-- infrastructure/repositories/cache.py leaves.
unfoldable pub delete_item_rows : Option String → Dict String Reservation → Dict String Reservation
unfolding lookup keep_keys
delete_item_rows none rows = rows
delete_item_rows (some item) rows = keep_keys (λ id. not (is_row_of item (lookup id rows))) rows

-- `UPDATE cache_reservations SET reserved_bytes=? WHERE id=?`
unfoldable pub set_reserved : String → ℕ → Dict String Reservation → Dict String Reservation
unfolding lookup insert
set_reserved id n rows = elim (lookup id rows) [
  | none ↦ rows
  | some r ↦ insert id (record r { reserved_bytes = n }) rows
]

-- `_persist_reserved`
unfoldable pub persist_reserved : ReservationLease → Storage → ReservationLease × Storage
unfolding set_reserved
persist_reserved lease s = (
  record lease { last_persisted = lease.reserved },
  record s { reservations = set_reserved lease.id lease.reserved s.reservations },
)

-- `consume_growth`
unfoldable pub consume_growth : ℕ → ReservationLease → Storage → ReservationLease × Storage
unfolding persist_reserved
consume_growth bytes_written lease s =
    let consumed : ReservationLease = record lease { reserved = lease.reserved - bytes_written } in
    if ltb (consumed.last_persisted - consumed.reserved) update_granularity
      && not (consumed.reserved == 0)
    then (consumed, s)
    else persist_reserved consumed s

-- `protect_removal`
unfoldable pub protect_removal : ℕ → ReservationLease → Storage → ReservationLease × Storage
unfolding persist_reserved
protect_removal bytes_to_remove lease s =
    if bytes_to_remove == 0
    then (lease, s)
    else persist_reserved (record lease { reserved = lease.reserved + bytes_to_remove }) s

-- `release`
unfoldable pub release : ReservationLease → Storage → ReservationLease × Storage
unfolding erase
release lease s = if lease.released then (lease, s) else (
  record lease { released = true },
  record s { reservations = erase lease.id s.reservations },
)
