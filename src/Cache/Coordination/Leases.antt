-- ===== src/Cache/Coordination/Leases.antt =====
-- What the operations of a lease do to its row: the durable row never reserves less than the lease.
use romcloud.Base.{
  ℕ, ◌+◌, ◌-◌, ◌≤◌, String, ◌≡◌, ◌≢◌, refl, string_eq, nat_eq, arith, Distinct, ltb→lt, ltb, ◌==◌,
  Bool-cases, inl, inr, not, ◌&&◌,
}
use romcloud.Base.Dict.{keys, lookup, insert, lookup-insert, Distinct-keys-insert}
use romcloud.Cache.Coordination.{
  Storage, update_granularity, set_reserved, persist_reserved, consume_growth, protect_removal,
}
use romcloud.Cache.Coordination.Steps.{Process}
use romcloud.Cache.Coordination.Quota.{IsDurable}

-- An operation of the lease of `id` leaves the measured sizes and the rows of the others alone.
pub record IsLocal (id : String) (s s' : Storage) : Type 0 where
  pub final : s'.final ≡ s.final
  pub staging : s'.staging ≡ s.staging
  pub free : s'.free ≡ s.free
  pub others : (j : String) → j ≢ id → lookup j s'.reservations ≡ lookup j s.reservations
  pub distinct : Distinct (keys s.reservations) → Distinct (keys s'.reservations)

pub IsLocal-refl : (id : String) (s : Storage) → IsLocal id s s
IsLocal-refl id s = record {
  final = refl;
  staging = refl;
  free = refl;
  others = λ j away. refl;
  distinct = λ d. d;
}

module _ (id : String) (p : Process) (s : Storage) (durable : IsDurable s.reservations id p) where
  -- Persisting a lease whose reserved bytes are now `n`.
  persisted_row :
      (n : ℕ)
      → set_reserved p.lease.id n s.reservations
        ≡ insert id (record durable.row { reserved_bytes = n }) s.reservations
  unfolding set_reserved
  persisted_row n = rw durable.own (ground (arith, durable.found))

  persist-IsLocal : (n : ℕ) → IsLocal id s (persist_reserved (record p.lease { reserved = n }) s).1
  unfolding persist_reserved
  persist-IsLocal n = record {
    final = refl;
    staging = refl;
    free = refl;
    others = λ j away. rw (persisted_row n) (
        ground (
          arith,
          away,
          lookup-insert j id (record durable.row { reserved_bytes = n }) s.reservations,
        ));
    distinct = λ d.
        rw (persisted_row n)
          (Distinct-keys-insert id (record durable.row { reserved_bytes = n }) s.reservations d);
  }

  persist-IsDurable :
      (n twice : ℕ)
      → twice ≤ n
      → let moved = persist_reserved (record p.lease { reserved = n }) s in
        IsDurable moved.1.reservations id (record { lease = moved.0; twice = twice })
  unfolding persist_reserved
  persist-IsDurable n twice le = record {
    own = durable.own;
    active = durable.active;
    counted = le;
    row = record durable.row { reserved_bytes = n };
    found = rw (persisted_row n) (
        ground
          (arith, lookup-insert id id (record durable.row { reserved_bytes = n }) s.reservations));
    persisted = refl;
    covers = omega arith;
    lag = omega arith;
  }

  pub consume_growth-IsDurable :
      (n : ℕ)
      → n ≤ p.twice
      → let moved = consume_growth n p.lease s in
        IsDurable moved.1.reservations id (record { lease = moved.0; twice = p.twice - n })
        × IsLocal id s moved.1
        × (moved.0.reserved ≡ p.lease.reserved - n)
  unfolding consume_growth persist_reserved
  consume_growth-IsDurable n le =
      elim (Bool-cases (
        ltb (p.lease.last_persisted - (p.lease.reserved - n)) update_granularity
        && not (p.lease.reserved - n == 0))) [
          | inl lazy ↦ rw lazy (
            record {
              own = durable.own;
              active = durable.active;
              counted = omega (arith, durable.counted);
              row = durable.row;
              found = durable.found;
              persisted = durable.persisted;
              covers = omega (arith, durable.covers);
              lag = omega (
                arith,
                durable.covers,
                ltb→lt (p.lease.last_persisted - (p.lease.reserved - n)) update_granularity
                    (ground (arith, lazy)),
              );
            },
            IsLocal-refl id s,
            refl,
          )
          | inr eager ↦ rw eager (
            persist-IsDurable (p.lease.reserved - n) (p.twice - n) (omega (arith, durable.counted)),
            persist-IsLocal (p.lease.reserved - n),
            refl,
          )
        ]

  pub protect_removal-IsDurable :
      (n : ℕ)
      → let moved = protect_removal n p.lease s in
        IsDurable moved.1.reservations id (record { lease = moved.0; twice = p.twice + n })
        × IsLocal id s moved.1
        × (moved.0.reserved ≡ p.lease.reserved + n)
  unfolding protect_removal persist_reserved
  protect_removal-IsDurable n = elim (Bool-cases (n == 0)) [
    | inl none_left ↦
        let is_zero : n ≡ 0 = ground (arith, none_left) in
        rw none_left (
          record {
            own = durable.own;
            active = durable.active;
            counted = omega (arith, durable.counted, is_zero);
            row = durable.row;
            found = durable.found;
            persisted = durable.persisted;
            covers = durable.covers;
            lag = durable.lag;
          },
          IsLocal-refl id s,
          omega (arith, is_zero),
        )
    | inr more ↦ rw more (
      persist-IsDurable (p.lease.reserved + n) (p.twice + n) (omega (arith, durable.counted)),
      persist-IsLocal (p.lease.reserved + n),
      refl,
    )
  ]
