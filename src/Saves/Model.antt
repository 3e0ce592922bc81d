-- ===== src/Saves/Model.antt =====
-- The data classes of core/models/savesync.py that reconciliation uses, and a scan report of
-- infrastructure/save_tree.py.
use romcloud.Base.{ℕ, String, Bool, Eq, Option, List, string_dec}
use romcloud.Base.Dict.{Dict}
use native.Mathlib.Decide.{ℕ_discrete}

pub record SaveArtifact : Type 0 where
  pub relative_path : String
  pub size_bytes : ℕ
  pub content_hash : String

artifact_dec : Discrete SaveArtifact
artifact_dec = hlevel (string_dec, ℕ_discrete)

instance unfoldable pub artifact_eq : Eq SaveArtifact
unfolding artifact_dec string_dec ℕ_discrete
artifact_eq = record { dec = artifact_dec }

-- Selected files of one side by path.
abbrev pub Manifest : Type 0
Manifest = Dict String SaveArtifact

pub data SaveChangeKind : Type 0 where
  added changed removed unchanged : SaveChangeKind

pub record SaveDiffEntry : Type 0 where
  pub relative_path : String
  pub change : SaveChangeKind
  pub local : Option SaveArtifact
  pub remote : Option SaveArtifact
  pub conflict : Bool

pub data SaveReconcileAction : Type 0 where
  upload download conflict unchanged : SaveReconcileAction

pub record SaveReconcileEntry : Type 0 where
  pub relative_path : String
  pub action : SaveReconcileAction
  pub local : Option SaveArtifact
  pub remote : Option SaveArtifact
  pub baseline : Option SaveArtifact

pub record ScanReport : Type 0 where
  pub artifacts : Manifest
  pub excluded_files : ℕ
  pub excluded_bytes : ℕ

pub record SaveReconcilePlan : Type 0 where
  pub entries : List SaveReconcileEntry
  pub excluded_files : ℕ
  pub excluded_bytes : ℕ

pub record SaveGroupDescriptor : Type 0 where
  pub group_id : String
  pub layout_id : String
  pub system : String
  pub shared : Bool

-- What reconciliation asks of a `SaveSelectionPolicy`.
pub record Policy : Type 0 where
  pub group_for_path : String → Option SaveGroupDescriptor
