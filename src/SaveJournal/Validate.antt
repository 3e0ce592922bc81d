-- ===== src/SaveJournal/Validate.antt =====
-- What infrastructure/savesync_journal.py accepts as a document, and what it writes for one. An object is
-- the record of the keys that the code asks for, where a missing one is `null`. A `SaveSyncError` and a
-- `TypeError` are values of `Outcome`.
use romcloud.Base.{
  ℕ, Bool, true, false, Option, none, some, List, [], ◌∷◌, if◌then◌else◌, ltb, leb, ◌==◌, nat_eq,
}
use romcloud.SaveJournal.Strip.{Text, strip}

pub data Outcome {ℓ} (A : Type ℓ) : Type ℓ where
  returned : A → Outcome A
  sync_error type_error : Outcome A

infixl 5 ◌>>=◌
abbrev pub ◌>>=◌ {ℓ κ} : {A : Type ℓ} {B : Type κ} → Outcome A → (A → Outcome B) → Outcome B
returned a >>= f = f a
sync_error >>= f = sync_error
type_error >>= f = type_error

-- A JSON value. `negative n` is -(n + 1), a `decimal` tells whether it equals 1, and `nested` is a
-- list or an object.
pub data Value : Type 0 where
  null : Value
  boolean : Bool → Value
  integer : ℕ → Value
  negative : ℕ → Value
  decimal : (is_one : Bool) → Value
  text : Text → Value
  nested : Value

pub record RawEntry : Type 0 where
  pub generation : Value
  pub timestamp : Value
  pub device_id : Value
  pub revision : Value
  pub system : Value
  pub layout_id : Value
  pub group_id : Value
  pub object_id : Value
  pub operation : Value

-- `history` is `none` when it is not a list, and an item of it when that is not an object.
pub record RawDocument : Type 0 where
  pub schema_version : Value
  pub generation : Value
  pub history : Option (List (Option RawEntry))

pub data JournalOperation : Type 0 where
  create update delete : JournalOperation

pub record Entry : Type 0 where
  pub generation : ℕ
  pub timestamp : Text
  pub device_id : Text
  pub revision : Text
  pub system : Text
  pub layout_id : Text
  pub group_id : Option Text
  pub object_id : Option Text
  pub operation : JournalOperation

pub record Document : Type 0 where
  pub generation : ℕ
  pub history : List Entry

abbrev pub non_empty : Text → Option Text
non_empty [] = none
non_empty (c ∷ t) = some (c ∷ t)

abbrev pub unless_empty : Text → Text → Outcome Text
unless_empty [] t = sync_error
unless_empty (c ∷ s) t = returned t

unfoldable pub required_text : Value → Outcome Text
required_text (text t) = unless_empty (strip t) t
required_text null = sync_error
required_text (boolean b) = sync_error
required_text (integer n) = sync_error
required_text (negative n) = sync_error
required_text (decimal o) = sync_error
required_text nested = sync_error

unfoldable pub optional_text : Value → Outcome (Option Text)
optional_text null = returned none
optional_text (text t) = returned (non_empty (strip t))
optional_text (boolean b) = sync_error
optional_text (integer n) = sync_error
optional_text (negative n) = sync_error
optional_text (decimal o) = sync_error
optional_text nested = sync_error

abbrev pub operation_text : JournalOperation → Text
operation_text create = 99 ∷ 114 ∷ 101 ∷ 97 ∷ 116 ∷ 101 ∷ []
operation_text update = 117 ∷ 112 ∷ 100 ∷ 97 ∷ 116 ∷ 101 ∷ []
operation_text delete = 100 ∷ 101 ∷ 108 ∷ 101 ∷ 116 ∷ 101 ∷ []

abbrev pub same_text : Text → Text → Bool
same_text [] [] = true
same_text [] (d ∷ t) = false
same_text (c ∷ s) [] = false
same_text (c ∷ s) (d ∷ t) = let rest = same_text s t in if c == d then rest else false

unfoldable pub named_operation : Text → Outcome JournalOperation
named_operation t =
    if same_text t (operation_text create)
    then returned create
    else if same_text t (operation_text update)
    then returned update
    else if same_text t (operation_text delete)
    then returned delete
    else sync_error

-- A list or an object has no hash, so that the look-up in the set raises a `TypeError`.
unfoldable pub required_operation : Value → Outcome JournalOperation
unfolding named_operation
required_operation (text t) = named_operation t
required_operation nested = type_error
required_operation null = sync_error
required_operation (boolean b) = sync_error
required_operation (integer n) = sync_error
required_operation (negative n) = sync_error
required_operation (decimal o) = sync_error

-- An `int` that is not negative and not a `bool`.
abbrev pub count_value : Value → Outcome ℕ
count_value (integer n) = returned n
count_value null = sync_error
count_value (boolean b) = sync_error
count_value (negative n) = sync_error
count_value (decimal o) = sync_error
count_value (text t) = sync_error
count_value nested = sync_error

-- `True == 1` and `1.0 == 1`
abbrev pub is_schema_version : Value → Bool
is_schema_version (integer n) = n == 1
is_schema_version (boolean b) = b
is_schema_version (decimal is_one) = is_one
is_schema_version null = false
is_schema_version (negative n) = false
is_schema_version (text t) = false
is_schema_version nested = false

-- The fields that a mutation brings, in the order that they are read.
unfoldable pub mutation_entry : ℕ → Text → Text → Text → RawEntry → Outcome Entry
unfolding required_text optional_text required_operation
mutation_entry generation timestamp device_id revision raw = do
  system ← required_text raw.system
  layout_id ← required_text raw.layout_id
  group_id ← optional_text raw.group_id
  object_id ← optional_text raw.object_id
  operation ← required_operation raw.operation
  returned (record {
    generation = generation;
    timestamp = timestamp;
    device_id = device_id;
    revision = revision;
    system = system;
    layout_id = layout_id;
    group_id = group_id;
    object_id = object_id;
    operation = operation;
  })

unfoldable pub validate_fields : ℕ → RawEntry → Outcome Entry
unfolding mutation_entry required_text
validate_fields generation raw = do
  timestamp ← required_text raw.timestamp
  device_id ← required_text raw.device_id
  revision ← required_text raw.revision
  mutation_entry generation timestamp device_id revision raw

unfoldable pub validate_entry : ℕ → Option RawEntry → Outcome Entry
unfolding validate_fields
validate_entry last_generation none = sync_error
validate_entry last_generation (some raw) = do
  generation ← count_value raw.generation
  if leb generation last_generation then sync_error else validate_fields generation raw

unfoldable pub validate_history : ℕ → List (Option RawEntry) → Outcome (List Entry)
unfolding validate_entry
validate_history last_generation [] = returned []
validate_history last_generation (item ∷ items) = do
  entry ← validate_entry last_generation item
  entries ← validate_history entry.generation items
  returned (entry ∷ entries)

-- The generation of the last entry, or a start.
unfoldable pub last_generation_of : ℕ → List Entry → ℕ
last_generation_of start [] = start
last_generation_of start (entry ∷ entries) = last_generation_of entry.generation entries

abbrev pub list_of : Option (List (Option RawEntry)) → Outcome (List (Option RawEntry))
list_of none = sync_error
list_of (some items) = returned items

-- What is left once the version is right.
unfoldable pub validate_supported : RawDocument → Outcome Document
unfolding validate_history last_generation_of
validate_supported payload = do
  generation ← count_value payload.generation
  items ← list_of payload.history
  history ← validate_history 0 items
  if ltb generation (last_generation_of 0 history)
      then sync_error
      else returned (record { generation = generation; history = history })

-- `none` is a payload that is not an object.
unfoldable pub validate_document : Option RawDocument → Outcome Document
unfolding validate_supported
validate_document none = sync_error
validate_document (some payload) =
    if is_schema_version payload.schema_version then validate_supported payload else sync_error

abbrev pub optional_value : Option Text → Value
optional_value none = null
optional_value (some t) = text t

-- An entry and a document as they are written.
abbrev pub written_entry : Entry → RawEntry
written_entry e = record {
  generation = integer e.generation;
  timestamp = text e.timestamp;
  device_id = text e.device_id;
  revision = text e.revision;
  system = text e.system;
  layout_id = text e.layout_id;
  group_id = optional_value e.group_id;
  object_id = optional_value e.object_id;
  operation = text (operation_text e.operation);
}

unfoldable pub written_history : List Entry → List (Option RawEntry)
written_history [] = []
written_history (e ∷ es) = some (written_entry e) ∷ written_history es

unfoldable pub written : Document → RawDocument
unfolding written_history
written d = record {
  schema_version = integer 1;
  generation = integer d.generation;
  history = some (written_history d.history);
}
