-- ===== src/Cache/Coordination/Safety.antt =====
-- No interleaving of admissions, transfers, removals, evictions and crashes exceeds the limits by more
-- than the adopted bytes.
use romcloud.Base.{
  ℕ, ◌+◌, ◌≤◌, ◌<◌, String, ◌≡◌, refl, false, none, some, string_eq, arith, inl, inr, Bool-cases,
}
use romcloud.Base.Dict.{lookup, erase, sum_values}
use romcloud.Cache.Coordination.{
  Reservation, ReservationLease, Limits, active_reserved, update_granularity, release,
}
use romcloud.Cache.Coordination.Steps.{
  Process, World, evict_bytes, is_between, Step, locking, advancing, writing, consuming, protecting,
  removing, finalizing, releasing, releasing_published, evicted, adopting, crash, crash_admitting,
  Reach, here, then_step,
}
use romcloud.Cache.Coordination.Quota.{promised}
use romcloud.Cache.Coordination.Reads.{IsCalm, Reads-IsCalm}
use romcloud.Cache.Coordination.Keeps.{
  growth-≤, evicted-IsSound, adopted-IsSound, finalizing-IsSound, published-IsSound, crash-IsSound,
}
use romcloud.Cache.Coordination.Advance.{IsSafe}
use romcloud.Cache.Coordination.Calls.{
  Reads-none, erased-fresh, erased-IsCalm, advancing-IsSafe, writing-IsSafe, removing-IsSafe,
  consuming-IsSafe, protecting-IsSafe, releasing-IsSafe,
}

module _ (limits : Limits) (w : World) (safe : IsSafe limits w) where
  published-IsSafe :
      (id : String) (lease : ReservationLease)
      → lease.id ≡ id
      → lookup id w.running ≡ none
      → is_between w.admitting ≡ false
      → IsSafe limits
          (record w { storage = (release lease w.storage).1; published = erase id w.published })
  unfolding release
  published-IsSafe id lease own away apart = (
    published-IsSound limits w safe.0 id lease own away,
    Reads-IsCalm w.admitting w _ (λ j e. e)
        (elim (Bool-cases lease.released) [
          | inl done ↦ record {
            final = rw (release, done) (omega arith);
            used = rw (release, done) (omega arith);
            rows = inl apart;
            free = rw (release, done) (omega arith);
            memory = omega arith;
          }
          | inr live ↦ record {
            final = rw (release, live) (omega arith);
            used = rw (release, live) (omega arith);
            rows = inl apart;
            free = rw (release, live) (omega arith);
            memory = omega arith;
          }
        ])
        safe.1,
  )

  evicted-IsSafe :
      (n : ℕ) → n ≤ w.storage.final → IsSafe limits (record w { storage = evict_bytes n w.storage })
  unfolding active_reserved
  evicted-IsSafe n le = (
    evicted-IsSound limits w safe.0 n,
    Reads-IsCalm w.admitting w _ (λ j e. e)
        (record {
          final = omega arith;
          used = omega arith;
          rows = inr (omega arith);
          free = omega arith;
          memory = omega arith;
        })
        safe.1,
  )

  adopting-IsSafe :
      (final staging : ℕ)
      → IsSafe limits (record w {
        storage = record w.storage {
          final = w.storage.final + final;
          staging = w.storage.staging + staging;
        };
        adopted = w.adopted + final + staging;
      })
  unfolding active_reserved
  adopting-IsSafe final staging = (
    adopted-IsSound limits w safe.0 final staging,
    Reads-IsCalm w.admitting w _ (λ j e. e)
        (record {
          final = omega arith;
          used = omega arith;
          rows = inr (omega arith);
          free = omega arith;
          memory = omega arith;
        })
        safe.1,
  )

  crash-IsSafe :
      (id : String)
      → IsSafe limits (record w { running = erase id w.running; published = erase id w.published })
  crash-IsSafe id =
      let calm : IsCalm (is_between w.admitting ≡ false) w
          (record w { running = erase id w.running }) =
        erased-IsCalm limits w safe.0 _ id w.storage (inr (omega arith)) refl refl refl in
      (
        crash-IsSound limits w safe.0 id,
        Reads-IsCalm w.admitting w _ (λ j e. erased-fresh w id j e)
            (record {
              final = calm.final;
              used = calm.used;
              rows = calm.rows;
              free = calm.free;
              memory = calm.memory;
            })
            safe.1,
      )

Step-IsSafe : (limits : Limits) (v w : World) → Step limits v w → IsSafe limits v → IsSafe limits w
Step-IsSafe limits _ _ (locking w id row can_evict unlocked fresh) safe = (safe.0, (fresh, tt))
Step-IsSafe limits _ _ (advancing w a at) safe = advancing-IsSafe limits w a at safe
Step-IsSafe limits _ _ (writing w id p n at room space) safe =
    writing-IsSafe limits w safe id p at n room space
Step-IsSafe limits _ _ (consuming w id p n at le free) safe =
    consuming-IsSafe limits w safe id p at n le free
Step-IsSafe limits _ _ (protecting w id p n at unlocked) safe =
    protecting-IsSafe limits w safe id p at n unlocked
Step-IsSafe limits _ _ (removing w id p n at le staged) safe =
    removing-IsSafe limits w safe id p at n le staged
Step-IsSafe limits _ _ (finalizing w id p n item at staged unlocked only) safe =
    (finalizing-IsSound limits w safe.0 id n item staged only, Reads-none w.admitting _ unlocked)
Step-IsSafe limits _ _ (releasing w id p at apart) safe =
    releasing-IsSafe limits w safe id p at apart
Step-IsSafe limits _ _ (releasing_published w id lease at own away apart) safe =
    published-IsSafe limits w safe id lease own away apart
Step-IsSafe limits _ _ (evicted w n le) safe = evicted-IsSafe limits w safe n le
Step-IsSafe limits _ _ (adopting w final staging) safe = adopting-IsSafe limits w safe final staging
Step-IsSafe limits _ _ (crash w id) safe = crash-IsSafe limits w safe id
Step-IsSafe limits _ _ (crash_admitting w) safe = (safe.0, tt)

Reach-IsSafe :
    (limits : Limits) (v w : World) → Reach limits v w → IsSafe limits v → IsSafe limits w
Reach-IsSafe limits _ _ (here w) safe = safe
Reach-IsSafe limits _ _ (then_step u v w before step) safe =
    Step-IsSafe limits v w step (Reach-IsSafe limits u v before safe)

-- From a sound state, whatever processes are admitted, transfer, remove, publish, finish or crash,
-- with other steps between any two phases of an admission: the final and the staged bytes never
-- exceed the maximum size of the cache by more than the adopted bytes, those of files that were on
-- the disk before they began to count, and the file system keeps its minimum of free bytes. This is
-- for runs in which no lease is released while an admission has read the staged bytes and not yet
-- the reservations, one process at a time works for a download item, a transfer writes no more than
-- the growth reserved for it, and nothing else takes free bytes.
pub Reach-within_limits :
    (limits : Limits) (v w : World)
    → Reach limits v w
    → IsSafe limits v
    → (w.storage.final + w.storage.staging ≤ limits.max_size_bytes + w.adopted)
      × (limits.min_free_bytes ≤ w.storage.free)
Reach-within_limits limits v w reach safe =
    let after = Reach-IsSafe limits v w reach safe in
    (omega (arith, (after.0).quota), omega (arith, (after.0).reserve))

-- From a sound state, in every state reached between the calls of the leases: a process that has not
-- published its files, released its lease or died has a durable row. The row reserves at least what
-- the lease does and less than the update granularity more, and the sum of the rows, which is what an
-- admission reads, is at least the growth that all these processes may still cause. This is for the
-- same runs: no lease is released while an admission has read the staged bytes and not yet the
-- reservations, and one process at a time works for a download item.
pub Reach-durable :
    (limits : Limits) (v w : World)
    → Reach limits v w
    → IsSafe limits v
    → (id : String) (p : Process) → lookup id w.running ≡ some p
    → (row : Reservation) × (lookup id w.storage.reservations ≡ some row)
      × (p.lease.reserved ≤ row.reserved_bytes)
      × (row.reserved_bytes < p.lease.reserved + update_granularity)
      × (sum_values promised w.running ≤ active_reserved w.storage)
Reach-durable limits v w reach safe id p at =
    let after = Reach-IsSafe limits v w reach safe in
    let d = (after.0).durable id p at in
    (
      d.row,
      d.found,
      omega (arith, d.persisted, d.covers),
      omega (arith, d.persisted, d.lag),
      growth-≤ limits w after.0,
    )
