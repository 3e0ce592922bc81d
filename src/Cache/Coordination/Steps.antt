-- ===== src/Cache/Coordination/Steps.antt =====
-- The processes that share the cache, as a step relation. A process holds one lease. Its transfer makes
-- bytes visible in staging before it calls `consume_growth`, and calls `protect_removal` before staged
-- bytes disappear, so some bytes are for a while both on the disk and reserved: `twice` counts them.
-- A step is a call of a lease, one phase of `admit`, or what happens to the files.
use romcloud.Base.{
  ℕ, ◌+◌, ◌-◌, ◌≤◌, String, ◌≡◌, ◌≢◌, ◌⊎◌, Bool, true, false, ◌||◌, Option, none, some, string_eq,
}
use romcloud.Base.Dict.{Dict, lookup, insert, erase, is_some}
use romcloud.Cache.Coordination.{
  Reservation, Storage, Limits, ReservationLease, reclaiming, reading_reserved, Attempt, Progress,
  working, admitted, insufficient_space, admit, consume_growth, protect_removal, release,
  delete_item_rows,
}

pub record Process : Type 0 where
  pub lease : ReservationLease
  pub twice : ℕ

-- `admitting` is the call of `admit` that holds the admission lock. `published` has the leases whose
-- `finalize` is done. `adopted` counts the bytes that were on the disk before anything counted them.
pub record World : Type 0 where
  pub storage : Storage
  pub running : Dict String Process
  pub admitting : Option Attempt
  pub published : Dict String ReservationLease
  pub adopted : ℕ

-- The lock file of a reservation is held until its lease is released or its process dies.
abbrev pub held : World → String → Bool
held w id = is_some (lookup id w.running) || is_some (lookup id w.published)

-- A process after an operation of its lease.
abbrev pub become : String → ℕ → ReservationLease × Storage → World → World
become id twice (lease, s) w = record w {
  storage = s;
  running = insert id (record { lease = lease; twice = twice }) w.running;
}

-- A call of `admit` after a phase: the lock is free when it returns or raises.
abbrev pub proceed : Progress × Storage → World → World
proceed (working a, s) w = record w { storage = s; admitting = some a }
proceed (insufficient_space, s) w = record w { storage = s; admitting = none }
proceed (admitted lease, s) w = record (become lease.id 0 (lease, s) w) { admitting = none }

-- Bytes that a transfer writes to staging.
abbrev pub write : ℕ → Storage → Storage
write n s = record s { staging = s.staging + n; free = s.free - n }

-- Staged bytes that a transfer removes.
abbrev pub unstage : ℕ → Storage → Storage
unstage n s = record s { staging = s.staging - n; free = s.free + n }

-- The files of a cached game go.
abbrev pub evict_bytes : ℕ → Storage → Storage
evict_bytes n s = record s { final = s.final - n; free = s.free + n }

-- Staged bytes become final, and the rows of the download item go.
abbrev pub publish : ℕ → Option String → Storage → Storage
publish n item s = record s {
  final = s.final + n;
  staging = s.staging - n;
  reservations = delete_item_rows item s.reservations;
}

-- Some `_fits` has read the staged bytes and not yet the reservations.
abbrev pub is_between : Option Attempt → Bool
is_between none = false
is_between (some a) = elim a.phase [ reading_reserved final staging ↦ true | _ ↦ false ]

-- No running process but `id` works for the download item.
abbrev pub IsOnlyFor : Option String → String → World → Type 0
IsOnlyFor none id w = Unit
IsOnlyFor (some item) id w =
    (j : String) (q : Process) (r : Reservation)
    → j ≢ id
    → lookup j w.running ≡ some q
    → lookup j w.storage.reservations ≡ some r
    → r.download_item_id ≢ some item

module _ (limits : Limits) where
  pub data Step : World → World → Type 0 where
    -- A call of `admit` gets the lock, under an id that no process has.
    locking :
        (w : World) (id : String) (row : Reservation) (can_evict : Bool)
        → w.admitting ≡ none
        → lookup id w.running ≡ none
        → Step w (record w {
          admitting = some (record {
            id = id;
            row = row;
            can_evict = can_evict;
            is_second = false;
            phase = reclaiming;
          });
        })
    advancing :
        (w : World) (a : Attempt)
        → w.admitting ≡ some a
        → Step w (proceed (admit limits (held w) a w.storage) w)
    -- A transfer writes no more than the growth that is still reserved for it.
    writing :
        (w : World) (id : String) (p : Process) (n : ℕ)
        → lookup id w.running ≡ some p
        → p.twice + n ≤ p.lease.reserved
        → n ≤ w.storage.free
        → Step w (become id (p.twice + n) (p.lease, write n w.storage) w)
    -- Only a call that persists needs the lock.
    consuming :
        (w : World) (id : String) (p : Process) (n : ℕ)
        → lookup id w.running ≡ some p
        → n ≤ p.twice
        → (w.admitting ≡ none) ⊎ ((consume_growth n p.lease w.storage).1 ≡ w.storage)
        → Step w (become id (p.twice - n) (consume_growth n p.lease w.storage) w)
    protecting :
        (w : World) (id : String) (p : Process) (n : ℕ)
        → lookup id w.running ≡ some p
        → w.admitting ≡ none
        → Step w (become id (p.twice + n) (protect_removal n p.lease w.storage) w)
    removing :
        (w : World) (id : String) (p : Process) (n : ℕ)
        → lookup id w.running ≡ some p
        → n ≤ p.twice
        → n ≤ w.storage.staging
        → Step w (become id (p.twice - n) (p.lease, unstage n w.storage) w)
    -- The callback of `finalize` makes staged bytes final and deletes the rows of the download item, in
    -- one transaction. The process then only releases its lease.
    finalizing :
        (w : World) (id : String) (p : Process) (n : ℕ) (item : Option String)
        → lookup id w.running ≡ some p
        → n ≤ w.storage.staging
        → w.admitting ≡ none
        → IsOnlyFor item id w
        → Step w (record w {
          storage = publish n item w.storage;
          running = erase id w.running;
          published = insert id p.lease w.published;
        })
    -- A lease is released without the lock, but not between the two reads of `is_between`.
    releasing :
        (w : World) (id : String) (p : Process)
        → lookup id w.running ≡ some p
        → is_between w.admitting ≡ false
        → Step w
            (record w { storage = (release p.lease w.storage).1; running = erase id w.running })
    -- An id is that of one process.
    releasing_published :
        (w : World) (id : String) (lease : ReservationLease)
        → lookup id w.published ≡ some lease
        → lease.id ≡ id
        → lookup id w.running ≡ none
        → is_between w.admitting ≡ false
        → Step w
            (record w { storage = (release lease w.storage).1; published = erase id w.published })
    -- Cached files go, in an eviction or not.
    evicted :
        (w : World) (n : ℕ)
        → n ≤ w.storage.final
        → Step w (record w { storage = evict_bytes n w.storage })
    -- Files that are on the disk begin to count: `replace_membership` takes their sizes over, or a
    -- staging manifest names them.
    adopting :
        (w : World) (final staging : ℕ)
        → Step w (record w {
          storage = record w.storage {
            final = w.storage.final + final;
            staging = w.storage.staging + staging;
          };
          adopted = w.adopted + final + staging;
        })
    -- A process dies: its locks are free, its row stays until an admission reclaims it.
    crash :
        (w : World) (id : String)
        → Step w (record w { running = erase id w.running; published = erase id w.published })
    crash_admitting : (w : World) → Step w (record w { admitting = none })

  pub data Reach : World → World → Type 0 where
    here : (w : World) → Reach w w
    then_step : (u v w : World) → Reach u v → Step v w → Reach u w
