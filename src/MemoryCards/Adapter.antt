-- ===== src/MemoryCards/Adapter.antt =====
-- `Ps1RawMemoryCardAdapter`: its calls on the bytes of a card. Reading and writing the files is left
-- out: a card is its bytes, and the candidate that `rebuild` writes is part of what it returns.
pub mod Checked
use Prim.Native.Nat.{◌/◌, ◌%◌}
use native.Mathlib.Decide.{ℕ_discrete}
use romcloud.Base.{
  ℕ, ◌+◌, ◌-◌, ◌*◌, Bool, true, false, ◌&&◌, not, String, ◌<>◌, Option, none, some, List, [], ◌∷◌,
  ◌++◌, map, ◌==◌, contains, any, all, find, keep_if, if◌then◌else◌, Eq, nat_eq, string_eq, list_eq,
  string_dec, length, drop, ltb,
}
use romcloud.Base.Dict.{Dict, keys, lookup, insert, update, is_some}
use romcloud.Base.Keys.{sorted, sorted_set, sort_by}
use romcloud.SaveContainers.Model.{
  OpaqueReason, Result, ok, opaque_error, ◌>>=◌, validation_failure, source_changed_during_staging,
  insufficient_verified_free_capacity, ContainerEntry, ContainerSnapshot,
}
use romcloud.MemoryCards.Bytes.{Bytes, take}
use romcloud.MemoryCards.Frame.{block_size}
use romcloud.MemoryCards.Write.{ExtractedPs1Entry, write_chain, mark_deleted}
use romcloud.MemoryCards.Card.{ParsedEntry, ParsedCard, parse, hex_digits, digit_of}

pub record ExtractedEntry : Type 0 where
  pub identity : String
  pub canonical_hash : String
  pub payload : ExtractedPs1Entry

pub record EntryReplacement : Type 0 where
  pub entry : ContainerEntry
  pub extracted : ExtractedEntry

pub record RebuildPlan : Type 0 where
  pub expected : ContainerSnapshot
  pub replacements : List EntryReplacement
  pub removals : List String

-- With the candidate's bytes for its path.
pub record CandidateReceipt : Type 0 where
  pub candidate : Bytes
  pub physical_hash : String
  pub expected : ContainerSnapshot

pub record ValidationReport : Type 0 where
  pub valid : Bool
  pub snapshot : Option ContainerSnapshot
  pub opaque_reason : Option OpaqueReason

-- `str(block)`, for the numbers below 100.
unfoldable pub decimal : ℕ → String
unfolding digit_of
decimal n =
    if ltb n 10
    then digit_of hex_digits n
    else digit_of hex_digits (n / 10) <> digit_of hex_digits (n % 10)

-- `str(entry.blocks[0])`. A chain is never empty.
unfoldable pub locator_of : List ℕ → String
unfolding decimal
locator_of [] = ""
locator_of (block ∷ blocks) = decimal block

unfoldable pub container_entry : ParsedEntry → ContainerEntry
unfolding locator_of
container_entry entry = record {
  identity = entry.identity;
  merge_domain_id = entry.merge_domain_id;
  canonical_hash = entry.canonical_hash;
  size_bytes = length entry.blocks * block_size;
  locator = locator_of entry.blocks;
}

unfoldable pub snapshot_of : ParsedCard → String → ContainerSnapshot
unfolding container_entry
snapshot_of card id = record {
  container_id = id;
  adapter_id = "ps1-raw-memory-card";
  schema_version = 1;
  format_variant = "ps1-raw-128k";
  entries = map container_entry card.live;
}

-- What `validate` compares of an entry.
pub record Content : Type 0 where
  pub identity : String
  pub merge_domain_id : String
  pub canonical_hash : String
  pub size_bytes : ℕ

content_dec : Discrete Content
content_dec = hlevel (string_dec, ℕ_discrete)

instance unfoldable pub content_eq : Eq Content
unfolding content_dec string_dec ℕ_discrete
content_eq = record { dec = content_dec }

abbrev pub content_of : ContainerEntry → Content
content_of entry = record {
  identity = entry.identity;
  merge_domain_id = entry.merge_domain_id;
  canonical_hash = entry.canonical_hash;
  size_bytes = entry.size_bytes;
}

-- `{entry.identity: entry for entry in entries}`
unfoldable pub by_identity {ℓ} : {A : Type ℓ} → (A → String) → List A → Dict String A
unfolding update
by_identity identity entries = update [] (map (λ entry. (identity entry, entry)) entries)

-- The report of `validate` on what it read.
unfoldable pub report_on : ContainerSnapshot → Result ContainerSnapshot → ValidationReport
report_on expected (opaque_error reason) = record {
  valid = false;
  snapshot = none;
  opaque_reason = some reason;
}
report_on expected (ok actual) =
    if not (map content_of actual.entries == map content_of expected.entries)
    then record { valid = false; snapshot = some actual; opaque_reason = some validation_failure }
    else record { valid = true; snapshot = some actual; opaque_reason = none }

module _ (sha256_hex : Bytes → String) where
  unfoldable pub snapshot : Bytes → String → Result ContainerSnapshot
  unfolding snapshot_of parse
  snapshot source id = parse sha256_hex source >>= λ card. ok (snapshot_of card id)

  unfoldable pub extract_entry : Bytes → ContainerSnapshot → String → Result ExtractedEntry
  unfolding parse find any
  extract_entry source observed identity = parse sha256_hex source >>= λ card.
      elim (find (λ entry. entry.identity == identity) card.live) [
        | none ↦ opaque_error source_changed_during_staging
        | some entry ↦
            if not (
              any (λ v. v.identity == identity && v.canonical_hash == entry.canonical_hash)
                observed.entries)
            then opaque_error source_changed_during_staging
            else ok (record {
              identity = identity;
              canonical_hash = entry.canonical_hash;
              payload = record {
                filename = entry.filename;
                frames = entry.frames;
                data_blocks = entry.data_blocks;
              };
            })
      ]

  unfoldable pub validate : Bytes → ContainerSnapshot → ValidationReport
  unfolding snapshot report_on
  validate candidate expected = report_on expected (snapshot candidate expected.container_id)

-- The first removal passes of `rebuild`: every removed file that the card has is marked deleted.
unfoldable pub remove_all : Dict String ParsedEntry → List String → Bytes → Bytes
unfolding mark_deleted lookup
remove_all existing [] raw = raw
remove_all existing (identity ∷ identities) raw =
    remove_all existing identities
      (elim (lookup identity existing) [ none ↦ raw | some old ↦ mark_deleted raw old.blocks ])

-- `old.blocks` of the file that a replacement takes the place of.
abbrev pub old_blocks : Option ParsedEntry → List ℕ
old_blocks none = []
old_blocks (some old) = old.blocks

-- The bytes so far, and the free blocks that are left. No bytes: `_write_chain` raised IndexError.
pub record Rebuilding : Type 0 where
  pub raw : Option Bytes
  pub original_free : List ℕ

unfoldable pub replace_one :
    Dict String ParsedEntry → EntryReplacement → Bytes → List ℕ → Result Rebuilding
unfolding mark_deleted write_chain lookup
replace_one existing replacement raw original_free =
    let payload = replacement.extracted.payload in
    let required = length payload.data_blocks in
    let blocks = old_blocks (lookup replacement.entry.identity existing) in
    let reusable = take required blocks in
    let needed = required - length reusable in
    if not (replacement.extracted.canonical_hash == replacement.entry.canonical_hash)
    then opaque_error source_changed_during_staging
    else if ltb (length original_free) needed
    then opaque_error insufficient_verified_free_capacity
    else (write_chain
          (if ltb required (length blocks) then mark_deleted raw (drop required blocks) else raw)
          (reusable ++ take needed original_free) payload
        >>= λ written. ok (record { raw = written; original_free = drop needed original_free }))

unfoldable pub replace_round :
    Dict String ParsedEntry → Dict String EntryReplacement → Rebuilding → String → Result Rebuilding
unfolding replace_one
replace_round existing replacements r identity = elim (lookup identity replacements) [
  | none ↦ ok r
  | some replacement ↦ elim r.raw [
    | none ↦ ok r
    | some raw ↦ replace_one existing replacement raw r.original_free
  ]
]

unfoldable pub replace_all :
    Dict String ParsedEntry
    → Dict String EntryReplacement
    → List String
    → Rebuilding
    → Result Rebuilding
unfolding replace_round
replace_all existing replacements [] r = ok r
replace_all existing replacements (identity ∷ identities) r =
    replace_round existing replacements r identity >>= replace_all existing replacements identities

-- `report.opaque_reason or OpaqueReason.VALIDATION_FAILURE`
abbrev pub reason_or_failure : Option OpaqueReason → OpaqueReason
reason_or_failure none = validation_failure
reason_or_failure (some reason) = reason

module _ (sha256_hex : Bytes → String) where
  unfoldable pub rebuild_checked : Bytes → ContainerSnapshot → Result CandidateReceipt
  unfolding validate
  rebuild_checked candidate expected =
      let report = validate sha256_hex candidate expected in
      if not report.valid
      then opaque_error (reason_or_failure report.opaque_reason)
      else ok (record {
        candidate = candidate;
        physical_hash = sha256_hex candidate;
        expected = expected;
      })

  -- The passes of `rebuild` up to the bytes of the candidate.
  unfoldable pub rebuilt : Bytes → RebuildPlan → Result Rebuilding
  unfolding parse by_identity remove_all replace_all lookup keys all
  rebuilt destination plan = parse sha256_hex destination >>= λ card.
      (let existing = by_identity (λ (entry : ParsedEntry). entry.identity) card.live in
        let expected =
          by_identity (λ (entry : ContainerEntry). entry.identity) plan.expected.entries in
        let replacements =
          by_identity (λ (item : EntryReplacement). item.entry.identity) plan.replacements in
        let removals =
          sorted_set
            (plan.removals ++ keep_if (λ i. not (is_some (lookup i expected))) (keys existing)) in
        if not (all (λ i. is_some (lookup i expected)) (keys replacements))
        then opaque_error validation_failure
        else replace_all existing replacements (sorted (keys replacements)) (record {
          raw = some (remove_all existing removals card.raw);
          original_free = card.free_blocks;
        }))

  -- The rest of `rebuild`. The receipt is missing when `_write_chain` raised IndexError.
  unfoldable pub finish_rebuild :
      ContainerSnapshot → Option Bytes → Result (Option CandidateReceipt)
  unfolding rebuild_checked
  finish_rebuild expected none = ok none
  finish_rebuild expected (some raw) = rebuild_checked raw expected >>= λ receipt. ok (some receipt)

  unfoldable pub rebuild : Bytes → RebuildPlan → Result (Option CandidateReceipt)
  unfolding rebuilt finish_rebuild
  rebuild destination plan = rebuilt destination plan >>= λ r. finish_rebuild plan.expected r.raw

  -- The card after `replace_entry`, whose plan keeps the other files of the card.
  unfoldable pub replace_entry : Bytes → EntryReplacement → Result (Option CandidateReceipt)
  unfolding snapshot by_identity insert rebuild
  replace_entry candidate replacement = snapshot sha256_hex candidate "staged-card" >>= λ current.
      (let entries =
          insert replacement.entry.identity replacement.entry
            (by_identity (λ (entry : ContainerEntry). entry.identity) current.entries) in
        rebuild candidate (record {
          expected = record current {
            entries =
                sort_by (λ (entry : ContainerEntry). entry.identity) (map (λ (k, e). e) entries);
          };
          replacements = replacement ∷ [];
          removals = [];
        }))

  unfoldable pub remove_entry : Bytes → String → Result (Option CandidateReceipt)
  unfolding snapshot rebuild
  remove_entry candidate identity = snapshot sha256_hex candidate "staged-card" >>= λ current.
      rebuild candidate (record {
        expected = record current {
          entries =
              sort_by (λ entry. entry.identity)
                (keep_if (λ entry. not (entry.identity == identity)) current.entries);
        };
        replacements = [];
        removals = identity ∷ [];
      })
