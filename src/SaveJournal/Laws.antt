-- ===== src/SaveJournal/Laws.antt =====
-- What infrastructure/savesync_journal.py accepts, it accepts again as it writes it.
use mathlib.Core.Path.{subst}
use romcloud.Base.{
  ℕ, zero, suc, ◌+◌, ◌≤◌, ◌<◌, ◌≡◌, refl, sym, ap, ◌∙◌, Bool, true, false, Option, none, some, List,
  [], ◌∷◌, ◌++◌, ◌⊎◌, inl, inr, ltb, leb, leb→le, ltb→lt, drop, arith, if◌then◌else◌, Bool-cases,
  Option-cases, length,
}
use romcloud.SaveJournal.Strip.{Text, strip, strip-strip}
use romcloud.SaveJournal.Validate.{
  Outcome, returned, sync_error, type_error, ◌>>=◌, Value, text, integer, RawEntry,
  JournalOperation, create, update, delete, Entry, non_empty, unless_empty, required_text,
  optional_text, operation_text, named_operation, required_operation, count_value, mutation_entry,
  validate_fields, validate_entry, validate_history, optional_value, written_entry, written_history,
  null, boolean, negative, decimal, nested,
}

-- What a chain of steps that succeeded did.
pub bind-returned {ℓ κ} :
    {A : Type ℓ} {B : Type κ} (r : Outcome A) (f : A → Outcome B) (b : B)
    → (r >>= f) ≡ returned b
    → (a : A) × (r ≡ returned a) × (f a ≡ returned b)
bind-returned (returned a) f b e = (a, refl, e)
bind-returned sync_error f b e = absurd cc
bind-returned type_error f b e = absurd cc

pub if-returned {ℓ} :
    {A : Type ℓ} (test : Bool) (r : Outcome A) (a : A)
    → (if test then sync_error else r) ≡ returned a
    → (test ≡ false) × (r ≡ returned a)
if-returned true r a e = absurd cc
if-returned false r a e = (refl, e)

unless_empty-same : (u s t : Text) → unless_empty u s ≡ returned t → s ≡ t
unless_empty-same [] s t e = absurd cc
unless_empty-same (c ∷ u) s t e = cc

pub returned-injective {ℓ} : {A : Type ℓ} {a b : A} → returned a ≡ returned b → a ≡ b
returned-injective e = cc

required_text-text :
    (v : Value) (t : Text) → required_text v ≡ returned t → required_text (text t) ≡ returned t
unfolding required_text
required_text-text null t e = absurd cc
required_text-text (boolean b) t e = absurd cc
required_text-text (integer n) t e = absurd cc
required_text-text (negative n) t e = absurd cc
required_text-text (decimal o) t e = absurd cc
required_text-text nested t e = absurd cc
required_text-text (text s) t e =
    subst (λ u. unless_empty (strip u) u ≡ returned u) (unless_empty-same (strip s) s t e)
      (e ∙ ap returned (sym (unless_empty-same (strip s) s t e)))

optional_text-non_empty :
    (u : Text) → strip u ≡ u → optional_text (optional_value (non_empty u)) ≡ returned (non_empty u)
unfolding optional_text
optional_text-non_empty [] e = refl
optional_text-non_empty (c ∷ u) e = rw e

optional_text-optional_value :
    (v : Value) (o : Option Text)
    → optional_text v ≡ returned o
    → optional_text (optional_value o) ≡ returned o
unfolding optional_text
optional_text-optional_value null none e = refl
optional_text-optional_value null (some t) e = absurd cc
optional_text-optional_value (boolean b) o e = absurd cc
optional_text-optional_value (integer n) o e = absurd cc
optional_text-optional_value (negative n) o e = absurd cc
optional_text-optional_value (decimal b) o e = absurd cc
optional_text-optional_value nested o e = absurd cc
optional_text-optional_value (text s) o e =
    subst (λ p. optional_text (optional_value p) ≡ returned p) (returned-injective e)
      (optional_text-non_empty (strip s) (strip-strip s))

required_operation-text :
    (op : JournalOperation) → required_operation (text (operation_text op)) ≡ returned op
unfolding required_operation named_operation romcloud.Base.nat_eq
required_operation-text create = refl
required_operation-text update = refl
required_operation-text delete = refl

-- An entry that is read back as it stands.
abbrev pub IsStable : Entry → Type 0
IsStable e = validate_fields e.generation (written_entry e) ≡ returned e

fields-IsStable :
    (x : Entry)
    → required_text (text x.timestamp) ≡ returned x.timestamp
    → required_text (text x.device_id) ≡ returned x.device_id
    → required_text (text x.revision) ≡ returned x.revision
    → required_text (text x.system) ≡ returned x.system
    → required_text (text x.layout_id) ≡ returned x.layout_id
    → optional_text (optional_value x.group_id) ≡ returned x.group_id
    → optional_text (optional_value x.object_id) ≡ returned x.object_id
    → IsStable x
unfolding validate_fields mutation_entry
fields-IsStable x t d r s l g o = rw (t, d, r, s, l, g, o, required_operation-text x.operation)

pub mutation_entry-IsStable :
    (generation : ℕ) (timestamp device_id revision : Text) (raw : RawEntry) (e : Entry)
    → required_text (text timestamp) ≡ returned timestamp
    → required_text (text device_id) ≡ returned device_id
    → required_text (text revision) ≡ returned revision
    → mutation_entry generation timestamp device_id revision raw ≡ returned e
    → IsStable e × (e.generation ≡ generation)
unfolding validate_fields mutation_entry
mutation_entry-IsStable generation timestamp device_id revision raw e ht hd hr h =
    let (system, s, h1) = bind-returned (required_text raw.system) _ e h in
    let (layout_id, l, h2) = bind-returned (required_text raw.layout_id) _ e h1 in
    let (group_id, g, h3) = bind-returned (optional_text raw.group_id) _ e h2 in
    let (object_id, o, h4) = bind-returned (optional_text raw.object_id) _ e h3 in
    let (operation, p, h5) = bind-returned (required_operation raw.operation) _ e h4 in
    (
      subst IsStable (returned-injective h5) (
          fields-IsStable _ ht hd hr (required_text-text raw.system system s)
            (required_text-text raw.layout_id layout_id l)
            (optional_text-optional_value raw.group_id group_id g)
            (optional_text-optional_value raw.object_id object_id o)),
      ap (λ (x : Entry). x.generation) (sym (returned-injective h5)),
    )

validate_fields-IsStable :
    (generation : ℕ) (raw : RawEntry) (e : Entry)
    → validate_fields generation raw ≡ returned e
    → IsStable e × (e.generation ≡ generation)
unfolding validate_fields
validate_fields-IsStable generation raw e h =
    let (timestamp, t, h1) = bind-returned (required_text raw.timestamp) _ e h in
    let (device_id, d, h2) = bind-returned (required_text raw.device_id) _ e h1 in
    let (revision, r, h3) = bind-returned (required_text raw.revision) _ e h2 in
    mutation_entry-IsStable generation timestamp device_id revision raw e
      (required_text-text raw.timestamp timestamp t) (required_text-text raw.device_id device_id d)
      (required_text-text raw.revision revision r) h3

-- Entries that are read back as they stand, above a generation.
abbrev pub Rises : ℕ → List Entry → Type 0
Rises last_generation [] = Unit
Rises last_generation (e ∷ es) =
    (last_generation < e.generation) × IsStable e × Rises e.generation es

lt→leb : (a b : ℕ) → a < b → leb b a ≡ false
lt→leb a b h = ground arith

validate_entry-Rises :
    (last_generation : ℕ) (item : Option RawEntry) (e : Entry)
    → validate_entry last_generation item ≡ returned e
    → (last_generation < e.generation) × IsStable e
unfolding validate_entry
validate_entry-Rises last_generation none e h = absurd cc
validate_entry-Rises last_generation (some raw) e h =
    let (generation, c, h1) = bind-returned (count_value raw.generation) _ e h in
    let (above, h2) = if-returned (leb generation last_generation) _ e h1 in
    let (stable, same) = validate_fields-IsStable generation raw e h2 in
    (subst (λ g. last_generation < g) (sym same) (ground (arith, above)), stable)

pub validate_history-Rises :
    (last_generation : ℕ) (items : List (Option RawEntry)) (es : List Entry)
    → validate_history last_generation items ≡ returned es
    → Rises last_generation es
unfolding validate_history
validate_history-Rises last_generation [] [] h = tt
validate_history-Rises last_generation [] (e ∷ es) h = absurd cc
validate_history-Rises last_generation (item ∷ items) [] h =
    let (e, v, h1) = bind-returned (validate_entry last_generation item) _ [] h in
    let (rest, w, h2) = bind-returned (validate_history e.generation items) _ [] h1 in absurd cc
validate_history-Rises last_generation (item ∷ items) (f ∷ fs) h =
    let (e, v, h1) = bind-returned (validate_entry last_generation item) _ (f ∷ fs) h in
    let (rest, w, h2) = bind-returned (validate_history e.generation items) _ (f ∷ fs) h1 in
    subst (Rises last_generation) (returned-injective h2) (
      (validate_entry-Rises last_generation item e v).0,
      (validate_entry-Rises last_generation item e v).1,
      validate_history-Rises e.generation items rest w,
    )

pub validate_history-written_history :
    (last_generation : ℕ) (es : List Entry)
    → Rises last_generation es
    → validate_history last_generation (written_history es) ≡ returned es
unfolding validate_history validate_entry written_history
validate_history-written_history last_generation [] r = refl
validate_history-written_history last_generation (e ∷ es) (lt, stable, r) = rw (
  lt→leb last_generation e.generation lt,
  stable,
  validate_history-written_history e.generation es r,
)
