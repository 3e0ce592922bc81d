-- ===== src/Cache/Coordination/Keeps.antt =====
-- Each kind of step keeps the invariant of the processes that share the cache.
use romcloud.Base.{
  ℕ, ◌+◌, ◌≤◌, String, ◌≡◌, ◌≢◌, ◌∙◌, ap, refl, true, Option, none, some, string_eq, nat_eq, arith,
  Distinct, leb→le, not, Bool-cases, inl, inr,
}
use romcloud.Base.Dict.{
  keys, lookup, insert, erase, keep_keys, sum_values, sum_values-≤, sum_values-erase,
  sum_values-erase-≤, erase-absent, lookup-insert, lookup-erase, lookup-keep_keys,
  Distinct-keys-insert, Distinct-keys-erase, Distinct-keys-keep_keys,
}
use romcloud.Cache.Coordination.{
  Reservation, Storage, Limits, ReservationLease, Attempt, active_reserved, fits, new_lease,
  reclaim_stale, release, delete_item_rows, is_row_of,
}
use romcloud.Cache.Coordination.Steps.{
  Process, World, held, become, evict_bytes, publish, IsOnlyFor,
}
use romcloud.Cache.Coordination.Quota.{
  promised, IsDurable, IsSound, IsSound-insert, IsSound-erase, promised-≤, transport-IsDurable,
}
use romcloud.Cache.Coordination.Leases.{IsLocal}
use romcloud.Cache.Coordination.Reads.{growth, in_memory, used}

pub fits-limits :
    (limits : Limits) (n final staging reserved free : ℕ)
    → fits limits n final staging reserved free ≡ true
    → (final + staging + reserved + n ≤ limits.max_size_bytes)
      × (reserved + n + limits.min_free_bytes ≤ free)
unfolding fits
fits-limits limits n final staging reserved free h = (
  leb→le (final + staging + reserved + n) limits.max_size_bytes (ground (arith, h)),
  leb→le (reserved + n + limits.min_free_bytes) free (ground (arith, h)),
)

module _ (limits : Limits) (w : World) (sound : IsSound limits w) where
  -- The rows of running processes stay when the stale ones go.
  kept_rows :
      (j : String) (q : Process)
      → lookup j w.running ≡ some q
      → lookup j (keep_keys (held w) w.storage.reservations) ≡ lookup j w.storage.reservations
  kept_rows j q at = ground (arith, at, lookup-keep_keys (held w) j w.storage.reservations)

  -- The world with other sizes, other rows and the same processes.
  IsSound-storage :
      (s : Storage)
      → Distinct (keys s.reservations)
      → ((j : String) (q : Process)
          → lookup j w.running ≡ some q
          → lookup j s.reservations ≡ lookup j w.storage.reservations)
      → s.final + s.staging ≤ w.storage.final + w.storage.staging
      → w.storage.free ≤ s.free
      → IsSound limits (record w { storage = s })
  IsSound-storage s distinct same less more = record {
    distinct_rows = distinct;
    distinct_running = sound.distinct_running;
    durable = λ j q at.
        transport-IsDurable w.storage.reservations s.reservations j q (same j q at)
          (sound.durable j q at);
    quota = omega (arith, sound.quota);
    reserve = omega (arith, sound.reserve);
  }

  pub growth-≤ : growth w ≤ active_reserved w.storage
  unfolding active_reserved
  growth-≤ = promised-≤ limits w sound w.storage.reservations sound.distinct_rows λ j q there. refl

  pub in_memory-≤ : in_memory w ≤ active_reserved w.storage
  unfolding active_reserved
  in_memory-≤ =
      sum_values-≤ (λ (p : Process). p.lease.reserved) (λ (r : Reservation). r.reserved_bytes)
        w.running w.storage.reservations sound.distinct_running sound.distinct_rows
        λ j q at.
          let d = sound.durable j q at in (d.row, d.found, omega (arith, d.persisted, d.covers))

  pub reclaim_stale-IsSound :
      IsSound limits (record w { storage = reclaim_stale (held w) w.storage })
  unfolding reclaim_stale
  reclaim_stale-IsSound =
      IsSound-storage
        (record w.storage { reservations = keep_keys (held w) w.storage.reservations })
        (Distinct-keys-keep_keys (held w) w.storage.reservations sound.distinct_rows) kept_rows
        (omega arith) (omega arith)

  pub evicted-IsSound : (n : ℕ) → IsSound limits (record w { storage = evict_bytes n w.storage })
  evicted-IsSound n =
      IsSound-storage (evict_bytes n w.storage) sound.distinct_rows (λ j q at. refl) (omega arith)
        (omega arith)

  -- A lease under an id of no process, when what is used, the growth and it fit.
  pub admitted-IsSound :
      (a : Attempt)
      → lookup a.id w.running ≡ none
      → used w + a.row.reserved_bytes ≤ limits.max_size_bytes + w.adopted
      → growth w + a.row.reserved_bytes + limits.min_free_bytes ≤ w.storage.free
      → IsSound limits (
          become a.id 0
            (
              new_lease a,
              record w.storage { reservations = insert a.id a.row w.storage.reservations },
            )
            w)
  admitted-IsSound a fresh quota reserve =
      let rows = w.storage.reservations in
      let gone = erase-absent a.id w.running fresh in
      IsSound-insert limits w sound a.id (record { lease = new_lease a; twice = 0 })
        (record w.storage { reservations = insert a.id a.row rows })
        (Distinct-keys-insert a.id a.row rows sound.distinct_rows)
        (λ j q away at. ground (arith, away, lookup-insert j a.id a.row rows))
        (record {
          own = refl;
          active = refl;
          counted = omega arith;
          row = a.row;
          found = ground (arith, lookup-insert a.id a.id a.row rows);
          persisted = refl;
          covers = omega arith;
          lag = omega arith;
        })
        (rw gone (omega (arith, quota))) (rw gone (omega (arith, reserve)))

  pub adopted-IsSound :
      (final staging : ℕ)
      → IsSound limits (record w {
        storage = record w.storage {
          final = w.storage.final + final;
          staging = w.storage.staging + staging;
        };
        adopted = w.adopted + final + staging;
      })
  adopted-IsSound final staging = record {
    distinct_rows = sound.distinct_rows;
    distinct_running = sound.distinct_running;
    durable = sound.durable;
    quota = omega (arith, sound.quota);
    reserve = sound.reserve;
  }

  -- A process moves by an operation of its own lease.
  pub moved-IsSound :
      (id : String) (p p' : Process) (s s' : Storage)
      → lookup id w.running ≡ some p
      → s.reservations ≡ w.storage.reservations
      → IsLocal id s s'
      → IsDurable s'.reservations id p'
      → s.final + s.staging + promised p' ≤ w.storage.final + w.storage.staging + promised p
      → promised p' + w.storage.free ≤ promised p + s.free
      → IsSound limits (record w { storage = s'; running = insert id p' w.running })
  moved-IsSound id p p' s s' at same local mine less more =
      let split = sum_values-erase promised id p w.running sound.distinct_running at in
      IsSound-insert limits w sound id p' s' (local.distinct (rw same sound.distinct_rows))
        (λ j q away there. local.others j away ∙ ap (lookup j) same) mine
        (omega (arith, split, sound.quota, local.final, local.staging))
        (omega (arith, split, sound.reserve, local.free))

  pub releasing-IsSound :
      (id : String) (p : Process)
      → lookup id w.running ≡ some p
      → IsSound limits
          (record w { storage = (release p.lease w.storage).1; running = erase id w.running })
  unfolding release
  releasing-IsSound id p at =
      let d = sound.durable id p at in
      let split = sum_values-erase promised id p w.running sound.distinct_running at in
      rw (d.active, d.own)
        (IsSound-erase limits w sound id
          (record w.storage { reservations = erase id w.storage.reservations })
          (Distinct-keys-erase id w.storage.reservations sound.distinct_rows)
          (λ j q away at. ground (arith, away, lookup-erase j id w.storage.reservations))
          (omega (arith, split, sound.quota)) (omega (arith, split, sound.reserve)))

  -- The rows of the other running processes stay when those of a download item go.
  other_rows :
      (item : Option String) (id : String)
      → IsOnlyFor item id w
      → (j : String) (q : Process) → j ≢ id
      → lookup j w.running ≡ some q
      → lookup j (delete_item_rows item w.storage.reservations) ≡ lookup j w.storage.reservations
  unfolding delete_item_rows
  other_rows none id only j q away at = refl
  other_rows (some item) id only j q away at =
      let d = sound.durable j q at in
      let other : d.row.download_item_id ≢ some item = only j q d.row away at d.found in
      ground (
        arith,
        other,
        d.found,
        lookup-keep_keys (λ k. not (is_row_of item (lookup k w.storage.reservations))) j
            w.storage.reservations,
      )

  Distinct-delete_item_rows :
      (item : Option String) → Distinct (keys (delete_item_rows item w.storage.reservations))
  unfolding delete_item_rows
  Distinct-delete_item_rows none = sound.distinct_rows
  Distinct-delete_item_rows (some item) =
      Distinct-keys-keep_keys (λ k. not (is_row_of item (lookup k w.storage.reservations)))
        w.storage.reservations sound.distinct_rows

  pub finalizing-IsSound :
      (id : String) (n : ℕ) (item : Option String)
      → n ≤ w.storage.staging
      → IsOnlyFor item id w
      → IsSound limits
          (record w { storage = publish n item w.storage; running = erase id w.running })
  finalizing-IsSound id n item staged only =
      let less : sum_values promised (erase id w.running) ≤ sum_values promised w.running =
        sum_values-erase-≤ promised id w.running sound.distinct_running in
      IsSound-erase limits w sound id (publish n item w.storage) (Distinct-delete_item_rows item)
        (other_rows item id only) (omega (arith, less, staged, sound.quota))
        (omega (arith, less, sound.reserve))

  -- The row of a lease that is published goes, if it is still there.
  pub published-IsSound :
      (id : String) (lease : ReservationLease)
      → lease.id ≡ id
      → lookup id w.running ≡ none
      → IsSound limits (record w { storage = (release lease w.storage).1 })
  unfolding release
  published-IsSound id lease own away = elim (Bool-cases lease.released) [
    | inl done ↦ rw done sound
    | inr live ↦ rw live (
        IsSound-storage (record w.storage { reservations = erase lease.id w.storage.reservations })
          (Distinct-keys-erase lease.id w.storage.reservations sound.distinct_rows)
          (λ j q at.
            let other : j ≢ lease.id = λ e. absurd (ground (arith, e, own, away, at)) in
            ground (arith, other, lookup-erase j lease.id w.storage.reservations))
          (omega arith) (omega arith))
  ]

  pub crash-IsSound : (id : String) → IsSound limits (record w { running = erase id w.running })
  crash-IsSound id =
      let less : sum_values promised (erase id w.running) ≤ sum_values promised w.running =
        sum_values-erase-≤ promised id w.running sound.distinct_running in
      IsSound-erase limits w sound id w.storage sound.distinct_rows (λ j q away at. refl)
        (omega (arith, less, sound.quota)) (omega (arith, less, sound.reserve))
