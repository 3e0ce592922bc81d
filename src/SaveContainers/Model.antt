-- ===== src/SaveContainers/Model.antt =====
-- The data classes of core/save_containers.py. An `EntryIdentity` is its one field, a text; an
-- `OpaqueContainerError` is its reason, without the free-text detail.
use romcloud.Base.{
  ℕ, String, Eq, Option, List, string_dec, ◌≡◌, refl, ◌⊎◌, inl, inr, Bool, true, false,
  if◌then◌else◌,
}
use native.Mathlib.Decide.{ℕ_discrete}

pub data OpaqueReason : Type 0 where
  unsupported_format unsupported_ps1_card_size malformed_chain checksum_failure : OpaqueReason
  duplicate_identity ambiguous_namespace ps1_broken_sector_mapping : OpaqueReason
  insufficient_verified_free_capacity unsupported_ps2_file_card : OpaqueReason
  ambiguous_ps2_folder_grouping symlink_or_path_substitution adapter_version_mismatch : OpaqueReason
  source_changed_during_staging validation_failure logical_baseline_required : OpaqueReason

pub data Result {ℓ} (A : Type ℓ) : Type ℓ where
  ok : A → Result A
  opaque_error : OpaqueReason → Result A

infixl 5 ◌>>=◌
abbrev pub ◌>>=◌ {ℓ κ} : {A : Type ℓ} {B : Type κ} → Result A → (A → Result B) → Result B
ok a >>= f = f a
opaque_error r >>= f = opaque_error r

-- To split on a computed result and keep the equation.
pub Result-cases {ℓ} :
    {A : Type ℓ} (r : Result A)
    → ((a : A) × (r ≡ ok a)) ⊎ ((why : OpaqueReason) × (r ≡ opaque_error why))
Result-cases (ok a) = inl (a, refl)
Result-cases (opaque_error why) = inr (why, refl)

-- What a chain of steps that succeeded did.
pub bind-ok {ℓ κ} :
    {A : Type ℓ} {B : Type κ} (r : Result A) (f : A → Result B) (b : B)
    → (r >>= f) ≡ ok b
    → (a : A) × (r ≡ ok a) × (f a ≡ ok b)
bind-ok (ok a) f b e = (a, refl, e)
bind-ok (opaque_error why) f b e = absurd cc

pub guard-ok {ℓ} :
    {A : Type ℓ} (test : Bool) (why : OpaqueReason) (r : Result A) (a : A)
    → (if test then opaque_error why else r) ≡ ok a
    → (test ≡ false) × (r ≡ ok a)
guard-ok true why r a e = absurd cc
guard-ok false why r a e = (refl, e)

pub record ContainerEntry : Type 0 where
  pub identity : String
  pub merge_domain_id : String
  pub canonical_hash : String
  pub size_bytes : ℕ
  pub locator : String

pub record ContainerSnapshot : Type 0 where
  pub container_id : String
  pub adapter_id : String
  pub schema_version : ℕ
  pub format_variant : String
  pub entries : List ContainerEntry

pub record LogicalEntryState : Type 0 where
  pub identity : String
  pub canonical_hash : String
  pub size_bytes : ℕ

pub record LogicalDomainState : Type 0 where
  pub merge_domain_id : String
  pub entries : List LogicalEntryState

entry_dec : Discrete LogicalEntryState
entry_dec = hlevel (string_dec, ℕ_discrete)

domain_dec : Discrete LogicalDomainState
domain_dec = hlevel (string_dec, entry_dec)

-- The generated `__eq__` of the data class.
instance unfoldable pub domain_eq : Eq LogicalDomainState
unfolding domain_dec entry_dec string_dec ℕ_discrete
domain_eq = record { dec = domain_dec }

-- The last logical state known to have converged on both physical sides. A domain in `tombstones`
-- is known to be absent.
pub record ContainerBaseline : Type 0 where
  pub container_id : String
  pub adapter_id : String
  pub schema_version : ℕ
  pub format_variant : String
  pub domains : List LogicalDomainState
  pub tombstones : List String

pub data DomainAction : Type 0 where
  converged use_local use_remote conflict : DomainAction

pub record DomainDecision : Type 0 where
  pub merge_domain_id : String
  pub action : DomainAction
  pub baseline : Option LogicalDomainState
  pub local : Option LogicalDomainState
  pub remote : Option LogicalDomainState

pub record ContainerReconcilePlan : Type 0 where
  pub container_id : String
  pub decisions : List DomainDecision
  pub desired_local : List LogicalDomainState
  pub desired_remote : List LogicalDomainState
  pub next_baseline : ContainerBaseline
