-- ===== src/Cache/Coordination/Quota.antt =====
-- The invariant of the processes that share the cache, and that every step keeps it.
use romcloud.Base.{
  ℕ, ◌+◌, ◌-◌, ◌≤◌, ◌<◌, String, ◌≡◌, ◌≢◌, ◌∙◌, false, some, string_eq, arith, Distinct,
}
use romcloud.Base.Dict.{
  Dict, keys, lookup, insert, erase, sum_values, sum_values-≤, sum_values-insert, lookup-insert,
  lookup-erase, Distinct-keys-insert, Distinct-keys-erase,
}
use romcloud.Cache.Coordination.{Reservation, Storage, Limits, update_granularity}
use romcloud.Cache.Coordination.Steps.{Process, World}

-- The growth that a process may still cause.
abbrev pub promised : Process → ℕ
promised p = p.lease.reserved - p.twice

-- The durable row of a process reserves what was last persisted, which is never less than the
-- growth that is reserved in memory, and more by less than the update granularity.
pub record IsDurable (rows : Dict String Reservation) (id : String) (p : Process) : Type 0 where
  pub own : p.lease.id ≡ id
  pub active : p.lease.released ≡ false
  pub counted : p.twice ≤ p.lease.reserved
  pub row : Reservation
  pub found : lookup id rows ≡ some row
  pub persisted : row.reserved_bytes ≡ p.lease.last_persisted
  pub covers : p.lease.reserved ≤ p.lease.last_persisted
  pub lag : p.lease.last_persisted < p.lease.reserved + update_granularity

pub record Sound (limits : Limits) (storage : Storage) (running : Dict String Process) (adopted : ℕ)
    : Type 0 where
  pub distinct_rows : Distinct (keys storage.reservations)
  pub distinct_running : Distinct (keys running)
  pub durable :
      (id : String) (p : Process) → lookup id running ≡ some p → IsDurable storage.reservations id p
  pub quota :
      storage.final + storage.staging + sum_values promised running
      ≤ limits.max_size_bytes + adopted
  pub reserve : sum_values promised running + limits.min_free_bytes ≤ storage.free

abbrev pub IsSound : Limits → World → Type 0
IsSound limits w = Sound limits w.storage w.running w.adopted

pub transport-IsDurable :
    (rows rows' : Dict String Reservation) (id : String) (p : Process)
    → lookup id rows' ≡ lookup id rows
    → IsDurable rows id p
    → IsDurable rows' id p
transport-IsDurable rows rows' id p same d = record {
  own = d.own;
  active = d.active;
  counted = d.counted;
  row = d.row;
  found = same ∙ d.found;
  persisted = d.persisted;
  covers = d.covers;
  lag = d.lag;
}

module _ (limits : Limits) (w : World) (sound : IsSound limits w) where
  -- One process moves: its new lease is durable, the rows of the others stay, and its promise fits.
  pub IsSound-insert :
      (id : String) (p : Process) (s : Storage)
      → Distinct (keys s.reservations)
      → ((j : String) (q : Process)
          → j ≢ id
          → lookup j w.running ≡ some q
          → lookup j s.reservations ≡ lookup j w.storage.reservations)
      → IsDurable s.reservations id p
      → s.final + s.staging + (promised p + sum_values promised (erase id w.running))
        ≤ limits.max_size_bytes + w.adopted
      → promised p + sum_values promised (erase id w.running) + limits.min_free_bytes ≤ s.free
      → IsSound limits (record w { storage = s; running = insert id p w.running })
  IsSound-insert id p s distinct same mine quota reserve = record {
    distinct_rows = distinct;
    distinct_running = Distinct-keys-insert id p w.running sound.distinct_running;
    durable = λ j q at. elim (string_eq.dec j id) [
      | yes here ↦
          let is_p : p ≡ q = ground (arith, at, here, lookup-insert j id p w.running) in
          rw (here, ← is_p) mine
      | no away ↦
          let before : lookup j w.running ≡ some q =
            ground (arith, at, away, lookup-insert j id p w.running) in
          transport-IsDurable w.storage.reservations s.reservations j q (same j q away before)
            (sound.durable j q before)
    ];
    quota = rw (sum_values-insert promised id p w.running sound.distinct_running) quota;
    reserve = rw (sum_values-insert promised id p w.running sound.distinct_running) reserve;
  }

  -- A process ends, and at most its own row goes.
  pub IsSound-erase :
      (id : String) (s : Storage)
      → Distinct (keys s.reservations)
      → ((j : String) (q : Process)
          → j ≢ id
          → lookup j w.running ≡ some q
          → lookup j s.reservations ≡ lookup j w.storage.reservations)
      → s.final + s.staging + sum_values promised (erase id w.running)
        ≤ limits.max_size_bytes + w.adopted
      → sum_values promised (erase id w.running) + limits.min_free_bytes ≤ s.free
      → IsSound limits (record w { storage = s; running = erase id w.running })
  IsSound-erase id s distinct same quota reserve = record {
    distinct_rows = distinct;
    distinct_running = Distinct-keys-erase id w.running sound.distinct_running;
    durable = λ j q at. elim (string_eq.dec j id) [
      | yes here ↦ ground (arith, at, here, lookup-erase j id w.running)
      | no away ↦
          let before : lookup j w.running ≡ some q =
            ground (arith, at, away, lookup-erase j id w.running) in
          transport-IsDurable w.storage.reservations s.reservations j q (same j q away before)
            (sound.durable j q before)
    ];
    quota = quota;
    reserve = reserve;
  }

  -- The promises of all processes are at most the sum of any rows that keep theirs.
  pub promised-≤ :
      (rows : Dict String Reservation)
      → Distinct (keys rows)
      → ((j : String) (q : Process)
          → lookup j w.running ≡ some q
          → lookup j rows ≡ lookup j w.storage.reservations)
      → sum_values promised w.running ≤ sum_values (λ (r : Reservation). r.reserved_bytes) rows
  promised-≤ rows distinct same =
      sum_values-≤ promised (λ (r : Reservation). r.reserved_bytes) w.running rows
        sound.distinct_running distinct
        λ j q at.
          let d = sound.durable j q at in
          (d.row, same j q at ∙ d.found, omega (arith, d.persisted, d.covers))
