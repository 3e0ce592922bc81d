-- ===== src/MemoryCards/Adapter/Checked.antt =====
-- What `rebuild` returns was read back and compared with the plan.
use mathlib.Core.Path.{subst}
use romcloud.Base.{
  ◌≡◌, ◌↔◌, refl, Bool, true, false, not, String, Option, none, some, map, arith, list_eq, ==→≡,
  ≡→==, if◌then◌else◌,
}
use romcloud.SaveContainers.Model.{Result, ok, opaque_error, bind-ok, guard-ok, ContainerSnapshot}
use romcloud.MemoryCards.Bytes.{Bytes}
use romcloud.MemoryCards.Card.Rounds.{not-false}
use romcloud.MemoryCards.Adapter.{
  CandidateReceipt, RebuildPlan, ValidationReport, snapshot, validate, content_of, content_eq,
  report_on, rebuilt, finish_rebuild, rebuild_checked, rebuild, reason_or_failure,
}

-- Only the last report is valid.
passed :
    (same : Bool) (refused accepted : ValidationReport)
    → refused.valid ≡ false
    → (if◌then◌else◌ {A = ValidationReport} (not same) refused accepted).valid ≡ true
    → same ≡ true
passed true refused accepted f v = refl
passed false refused accepted f v = absurd (ground arith)

module _ (sha256_hex : Bytes → String) where
  valid-content :
      (expected : ContainerSnapshot) (read : Result ContainerSnapshot)
      → (report_on expected read).valid ≡ true
      → (actual : ContainerSnapshot) × (read ≡ ok actual)
        × (map content_of actual.entries ≡ map content_of expected.entries)
  unfolding report_on
  valid-content expected (opaque_error why) v = absurd (ground arith)
  valid-content expected (ok actual) v = (
    actual,
    refl,
    ==→≡ (map content_of actual.entries) (map content_of expected.entries) (passed _ _ _ refl v),
  )

  content-valid :
      (expected actual : ContainerSnapshot) (read : Result ContainerSnapshot)
      → read ≡ ok actual
      → map content_of actual.entries ≡ map content_of expected.entries
      → (report_on expected read).valid ≡ true
  unfolding report_on
  content-valid expected actual read e same =
      rw e (rw (≡→== (map content_of actual.entries) (map content_of expected.entries) same) refl)

  -- `validate` reports a valid candidate exactly when the candidate is a card whose entries have
  -- the identities, domains, hashes and sizes that are expected, in their order.
  pub validate-valid :
      (candidate : Bytes) (expected : ContainerSnapshot)
      → ((validate sha256_hex candidate expected).valid ≡ true) ↔ (
          (actual : ContainerSnapshot) × (snapshot sha256_hex candidate expected.container_id
            ≡ ok actual)
          × (map content_of actual.entries ≡ map content_of expected.entries))
  unfolding validate
  validate-valid candidate expected = (
    valid-content expected (snapshot sha256_hex candidate expected.container_id),
    λ (actual, read, same). content-valid expected actual _ read same,
  )

  -- A receipt is for the plan's snapshot and the candidate's bytes, whose hash it holds, and the
  -- candidate was read back with the content of that snapshot.
  abbrev pub Receipts : ContainerSnapshot → CandidateReceipt → Type 0
  Receipts expected receipt =
      (receipt.expected ≡ expected)
      × (receipt.physical_hash ≡ sha256_hex receipt.candidate)
      × ((actual : ContainerSnapshot) × (snapshot sha256_hex receipt.candidate expected.container_id
            ≡ ok actual)
          × (map content_of actual.entries ≡ map content_of expected.entries))

  rebuild_checked-Receipts :
      (candidate : Bytes) (expected : ContainerSnapshot) (receipt : CandidateReceipt)
      → rebuild_checked sha256_hex candidate expected ≡ ok receipt
      → Receipts expected receipt
  unfolding rebuild_checked validate
  rebuild_checked-Receipts candidate expected receipt e =
      let report = validate sha256_hex candidate expected in
      let (v, e') =
        guard-ok (not report.valid) (reason_or_failure report.opaque_reason) _ receipt e in
      let same : record {
        candidate = candidate;
        physical_hash = sha256_hex candidate;
        expected = expected;
      }
          ≡ receipt =
        cc in
      subst (Receipts expected) same
        (refl, refl, valid-content expected _ (not-false report.valid v))

  finish_rebuild-Receipts :
      (expected : ContainerSnapshot) (raw : Option Bytes) (receipt : CandidateReceipt)
      → finish_rebuild sha256_hex expected raw ≡ ok (some receipt)
      → Receipts expected receipt
  unfolding finish_rebuild
  finish_rebuild-Receipts expected none receipt e = absurd (ground arith)
  finish_rebuild-Receipts expected (some raw) receipt e =
      let (got, checked, e') =
        bind-ok (rebuild_checked sha256_hex raw expected) _ (some receipt) e in
      let same : got ≡ receipt = cc in
      rebuild_checked-Receipts raw expected receipt (rw (← same) checked)

  -- A receipt of `rebuild` is for the plan's expected snapshot and holds the hash of the candidate,
  -- and the candidate, read back, is a card with the identities, domains, hashes and sizes of that
  -- snapshot in its order.
  pub rebuild-Receipts :
      (destination : Bytes) (plan : RebuildPlan) (receipt : CandidateReceipt)
      → rebuild sha256_hex destination plan ≡ ok (some receipt)
      → Receipts plan.expected receipt
  unfolding rebuild
  rebuild-Receipts destination plan receipt e =
      let (r, replaced, e1) = bind-ok (rebuilt sha256_hex destination plan) _ (some receipt) e in
      finish_rebuild-Receipts plan.expected r.raw receipt e1
