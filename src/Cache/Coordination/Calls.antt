-- ===== src/Cache/Coordination/Calls.antt =====
-- The calls of a lease and the phases of an admission keep what the invariant says.
use mathlib.Core.Path.{subst}
use romcloud.Base.{
  ℕ, ◌+◌, ◌-◌, ◌≤◌, String, ◌≡◌, ◌⊎◌, ap, refl, false, Option, none, some, string_eq, arith, inl,
  inr,
}
use romcloud.Base.Dict.{
  lookup, insert, erase, sum_values-erase, sum_values-insert, sum_values-erase-≤, lookup-insert,
  lookup-erase,
}
use romcloud.Cache.Coordination.{
  Storage, Limits, Attempt, active_reserved, admit, release, consume_growth, protect_removal,
}
use romcloud.Cache.Coordination.Steps.{
  Process, World, held, become, proceed, write, unstage, is_between,
}
use romcloud.Cache.Coordination.Quota.{promised, IsSound}
use romcloud.Cache.Coordination.Leases.{
  IsLocal-refl, consume_growth-IsDurable, protect_removal-IsDurable,
}
use romcloud.Cache.Coordination.Reads.{Reads, IsCalm, Reads-IsCalm}
use romcloud.Cache.Coordination.Keeps.{moved-IsSound, releasing-IsSound}
use romcloud.Cache.Coordination.Advance.{IsSafe, admit_phase-IsSafe}

-- Nothing is read while the lock is free.
pub Reads-none : (o : Option Attempt) (w : World) → o ≡ none → Reads o w
Reads-none o w e = rw e tt

-- The running processes after one ended or moved.
pub erased-fresh :
    (v : World) (id j : String) → lookup j v.running ≡ none → lookup j (erase id v.running) ≡ none
erased-fresh v id j e = ground (arith, e, lookup-erase j id v.running)

moved-fresh :
    (v : World) (id j : String) (p p' : Process)
    → lookup id v.running ≡ some p
    → lookup j v.running ≡ none
    → lookup j (insert id p' v.running) ≡ none
moved-fresh v id j p p' at e = ground (arith, at, e, lookup-insert j id p' v.running)

module _ (limits : Limits) (v : World) (sound : IsSound limits v) where
  -- A process moves while the rows stay.
  moved-IsCalm :
      (between : Type 0) (id : String) (p p' : Process) (s : Storage)
      → lookup id v.running ≡ some p
      → s.reservations ≡ v.storage.reservations
      → s.final ≡ v.storage.final
      → s.staging + promised p' ≤ v.storage.staging + promised p
      → promised p' + v.storage.free ≤ promised p + s.free
      → p'.lease.reserved ≤ p.lease.reserved
      → IsCalm between v (record v { storage = s; running = insert id p' v.running })
  unfolding active_reserved
  moved-IsCalm between id p p' s at rows same less more memory =
      let before = sum_values-erase promised id p v.running sound.distinct_running at in
      let after = sum_values-insert promised id p' v.running sound.distinct_running in
      let before' =
        sum_values-erase (λ (q : Process). q.lease.reserved) id p v.running sound.distinct_running
          at in
      let after' =
        sum_values-insert (λ (q : Process). q.lease.reserved) id p' v.running
          sound.distinct_running in
      record {
        final = omega (arith, same);
        used = omega (arith, before, after, same, less);
        rows = inr (rw rows (omega arith));
        free = omega (arith, before, after, more);
        memory = omega (arith, before', after', memory);
      }

  -- A process ends; the rows count only while they are read.
  pub erased-IsCalm :
      (between : Type 0) (id : String) (s : Storage)
      → between ⊎ (active_reserved v.storage ≤ active_reserved s)
      → s.final ≡ v.storage.final
      → s.staging ≡ v.storage.staging
      → s.free ≡ v.storage.free
      → IsCalm between v (record v { storage = s; running = erase id v.running })
  erased-IsCalm between id s rows final staging free =
      let less = sum_values-erase-≤ promised id v.running sound.distinct_running in
      let less' =
        sum_values-erase-≤ (λ (q : Process). q.lease.reserved) id v.running
          sound.distinct_running in
      record {
        final = omega (arith, final);
        used = omega (arith, final, staging, less);
        rows = rows;
        free = omega (arith, less, free);
        memory = omega (arith, less');
      }

pub advancing-IsSafe :
    (limits : Limits) (w : World) (a : Attempt)
    → w.admitting ≡ some a
    → IsSafe limits w
    → IsSafe limits (proceed (admit limits (held w) a w.storage) w)
unfolding admit
advancing-IsSafe limits w a at (sound, reads) =
    let seen : Reads (some a) w = subst (λ o. Reads o w) at reads in
    admit_phase-IsSafe limits w sound a seen.0 a.phase seen.1

-- A process moves by a call of its own lease that leaves the rows alone, or while the lock is free.
module _ (limits : Limits) (w : World) (safe : IsSafe limits w) (id : String) (p : Process)
    (at : lookup id w.running ≡ some p) where
  pub writing-IsSafe :
      (n : ℕ)
      → p.twice + n ≤ p.lease.reserved
      → n ≤ w.storage.free
      → IsSafe limits (become id (p.twice + n) (p.lease, write n w.storage) w)
  writing-IsSafe n room space =
      let d = safe.0.durable id p at in
      let p' : Process = record p { twice = p.twice + n } in
      (
        moved-IsSound limits w safe.0 id p p' (write n w.storage) (write n w.storage) at refl
            (IsLocal-refl id (write n w.storage))
            (record {
              own = d.own;
              active = d.active;
              counted = room;
              row = d.row;
              found = d.found;
              persisted = d.persisted;
              covers = d.covers;
              lag = d.lag;
            })
            (omega (arith, room)) (omega (arith, room, space)),
        Reads-IsCalm w.admitting w _ (λ j e. moved-fresh w id j p p' at e)
            (moved-IsCalm limits w safe.0 _ id p p' (write n w.storage) at refl refl
              (omega (arith, room)) (omega (arith, room, space)) (omega arith))
            safe.1,
      )

  pub removing-IsSafe :
      (n : ℕ)
      → n ≤ p.twice
      → n ≤ w.storage.staging
      → IsSafe limits (become id (p.twice - n) (p.lease, unstage n w.storage) w)
  removing-IsSafe n le staged =
      let d = safe.0.durable id p at in
      let p' : Process = record p { twice = p.twice - n } in
      (
        moved-IsSound limits w safe.0 id p p' (unstage n w.storage) (unstage n w.storage) at refl
            (IsLocal-refl id (unstage n w.storage))
            (record {
              own = d.own;
              active = d.active;
              counted = omega (arith, d.counted);
              row = d.row;
              found = d.found;
              persisted = d.persisted;
              covers = d.covers;
              lag = d.lag;
            })
            (omega (arith, le, staged, d.counted)) (omega (arith, le, staged, d.counted)),
        Reads-IsCalm w.admitting w _ (λ j e. moved-fresh w id j p p' at e)
            (moved-IsCalm limits w safe.0 _ id p p' (unstage n w.storage) at refl refl
              (omega (arith, le, staged, d.counted)) (omega (arith, le, staged, d.counted))
              (omega arith))
            safe.1,
      )

  pub consuming-IsSafe :
      (n : ℕ)
      → n ≤ p.twice
      → (w.admitting ≡ none) ⊎ ((consume_growth n p.lease w.storage).1 ≡ w.storage)
      → IsSafe limits (become id (p.twice - n) (consume_growth n p.lease w.storage) w)
  consuming-IsSafe n le free =
      let d = safe.0.durable id p at in
      let (mine, local, less) = consume_growth-IsDurable id p w.storage d n le in
      let after = consume_growth n p.lease w.storage in
      let p' : Process = record { lease = after.0; twice = p.twice - n } in
      (
        moved-IsSound limits w safe.0 id p p' w.storage after.1 at refl local mine
            (omega (arith, less, le, d.counted)) (omega (arith, less, le, d.counted)),
        elim free [
          | inl unlocked ↦ Reads-none w.admitting _ unlocked
          | inr same ↦
              Reads-IsCalm w.admitting w _ (λ j e. moved-fresh w id j p p' at e)
                (moved-IsCalm limits w safe.0 _ id p p' after.1 at
                  (ap (λ (s : Storage). s.reservations) same) (ap (λ (s : Storage). s.final) same)
                  (omega (arith, less, le, d.counted, local.staging))
                  (omega (arith, less, le, d.counted, local.free)) (omega (arith, less)))
                safe.1
        ],
      )

  pub protecting-IsSafe :
      (n : ℕ)
      → w.admitting ≡ none
      → IsSafe limits (become id (p.twice + n) (protect_removal n p.lease w.storage) w)
  protecting-IsSafe n unlocked =
      let d = safe.0.durable id p at in
      let (mine, local, more) = protect_removal-IsDurable id p w.storage d n in
      (
        moved-IsSound limits w safe.0 id p _ w.storage (protect_removal n p.lease w.storage).1 at
            refl local mine (omega (arith, more, d.counted)) (omega (arith, more, d.counted)),
        Reads-none w.admitting _ unlocked,
      )

  pub releasing-IsSafe :
      is_between w.admitting ≡ false
      → IsSafe limits
          (record w { storage = (release p.lease w.storage).1; running = erase id w.running })
  unfolding release
  releasing-IsSafe apart =
      let d = safe.0.durable id p at in
      (
        releasing-IsSound limits w safe.0 id p at,
        Reads-IsCalm w.admitting w _ (λ j e. erased-fresh w id j e)
            (erased-IsCalm limits w safe.0 _ id (release p.lease w.storage).1 (inl apart)
              (rw d.active refl) (rw d.active refl) (rw d.active refl))
            safe.1,
      )
