-- ===== src/SaveJournal/Appends.antt =====
-- What `append_mutations` and `save` of infrastructure/savesync_journal.py leave for the next `load`.
use mathlib.Core.Path.{subst}
use romcloud.Base.{
  ◌⊎◌, length-drop, ltb→lt, ℕ, zero, suc, ◌+◌, ◌-◌, ◌≤◌, ◌<◌, ◌≡◌, ◌≢◌, refl, sym, ap, ◌∙◌, Bool,
  true, false, Option, none, some, List, [], ◌∷◌, ◌++◌, inl, inr, ltb, leb, drop, arith,
  if◌then◌else◌, Bool-cases, length, ◌==◌, nat_eq,
}
use romcloud.SaveJournal.Strip.{Text}
use romcloud.SaveJournal.Validate.{
  Outcome, returned, sync_error, type_error, text, RawEntry, RawDocument, Entry, Document,
  required_text, validate_history, last_generation_of, validate_supported, validate_document,
  written, list_of, count_value, is_schema_version,
}
use romcloud.SaveJournal.{
  Store, Journal, holds, absent, unreadable, load, save, load_or_reset, entries_from, retained,
  append_entries, append_loaded, append_mutations, empty_document,
}
use romcloud.SaveJournal.Laws.{
  bind-returned, if-returned, Rises, validate_history-Rises, validate_history-written_history,
  returned-injective,
}
use romcloud.SaveJournal.Rises.{
  Rises-append, Rises-weaken, entries_from-Rises, last_generation_of-append,
  last_generation_of-retained, last_generation_of_mono, retained-suffix, retained-Rises,
}

-- A document that validation gives.
abbrev pub IsSound : Document → Type 0
IsSound d = Rises 0 d.history × (last_generation_of 0 d.history ≤ d.generation)

le→ltb : (a b : ℕ) → a ≤ b → ltb b a ≡ false
le→ltb a b h = ground arith

validate_document-written :
    (d : Document) → IsSound d → validate_document (some (written d)) ≡ returned d
unfolding validate_document validate_supported written romcloud.Base.nat_eq
validate_document-written d (r, h) = rw (
  validate_history-written_history 0 d.history r,
  le→ltb (last_generation_of 0 d.history) d.generation h,
)

validate_supported-IsSound :
    (p : RawDocument) (d : Document) → validate_supported p ≡ returned d → IsSound d
unfolding validate_supported
validate_supported-IsSound p d h =
    let (generation, c, h1) = bind-returned (count_value p.generation) _ d h in
    let (items, l, h2) = bind-returned (list_of p.history) _ d h1 in
    let (history, v, h3) = bind-returned (validate_history 0 items) _ d h2 in
    let (behind, h4) = if-returned (ltb generation (last_generation_of 0 history)) _ d h3 in
    subst IsSound (returned-injective h4)
      (validate_history-Rises 0 items history v, ground (arith, behind))

validate_document-IsSound :
    (p : Option RawDocument) (d : Document) → validate_document p ≡ returned d → IsSound d
unfolding validate_document
validate_document-IsSound none d h = absurd cc
validate_document-IsSound (some p) d h = elim (Bool-cases (is_schema_version p.schema_version)) [
  | inl e ↦ validate_supported-IsSound p d (rw e at h)
  | inr e ↦ absurd cc
]

journal-IsSound :
    (j : Journal) (c : Option Journal) (d : Document)
    → load (record { journal = j; corrupt_copy = c }) ≡ returned d
    → IsSound d
unfolding load last_generation_of
journal-IsSound absent c d h = subst IsSound (returned-injective h) (tt, omega arith)
journal-IsSound unreadable c d h = absurd cc
journal-IsSound (holds p) c d h = validate_document-IsSound p d h

load-IsSound : (s : Store) (d : Document) → load s ≡ returned d → IsSound d
load-IsSound s d h = journal-IsSound s.journal s.corrupt_copy d h

-- `save` of a sound document, and the load after it.
save-written :
    (d : Document) (s : Store)
    → IsSound d
    → save d s ≡ (returned tt, record s { journal = holds (some (written d)) })
unfolding save
save-written d s h = rw (save, validate_document-written d h)

load-written :
    (d : Document) (c : Option Journal)
    → IsSound d
    → load (record { journal = holds (some (written d)); corrupt_copy = c }) ≡ returned d
unfolding load
load-written d c h = validate_document-written d h

IsSound-empty_document : IsSound empty_document
unfolding last_generation_of
IsSound-empty_document = (tt, omega arith)

-- What `load_or_reset` answers and leaves, by what `load` answers.
abbrev pub Recovered : Bool → Store → Outcome Document → Outcome Document × Store → Type 0
Recovered can_rename s (returned d) after = after ≡ (returned d, s)
Recovered can_rename s type_error after = after ≡ (type_error, s)
Recovered can_rename s sync_error after =
    (after.0 ≡ returned empty_document)
    × (load (after.1) ≡ returned empty_document)
    × ((after.1).corrupt_copy ≡ (if can_rename then some s.journal else s.corrupt_copy))

recovered :
    (can_rename : Bool) (s : Store) (r : Outcome Document)
    → load s ≡ r
    → Recovered can_rename s r (load_or_reset can_rename s)
unfolding load_or_reset
recovered can_rename s (returned d) e = rw (load_or_reset, e)
recovered can_rename s type_error e = rw (load_or_reset, e)
recovered true s sync_error e =
    rw
      (
        load_or_reset,
        e,
        save-written empty_document (record { journal = absent; corrupt_copy = some s.journal })
            IsSound-empty_document,
      )
      (refl, load-written empty_document (some s.journal) IsSound-empty_document, refl)
recovered false s sync_error e =
    rw (load_or_reset, e, save-written empty_document s IsSound-empty_document)
      (refl, load-written empty_document s.corrupt_copy IsSound-empty_document, refl)

-- `load_or_reset` returns what `load` returns and leaves the store alone. Where `load` raises a
-- `SaveSyncError`, it returns the empty document, the next `load` returns that too, and the corrupt
-- file is set aside if it can be renamed. Only a `TypeError` is passed on.
pub load_or_reset-Recovered :
    (can_rename : Bool) (s : Store) → Recovered can_rename s (load s) (load_or_reset can_rename s)
load_or_reset-Recovered can_rename s = recovered can_rename s (load s) refl

load_or_reset-IsSound :
    (can_rename : Bool) (s : Store) (r : Outcome Document) (d : Document)
    → load s ≡ r
    → (load_or_reset can_rename s).0 ≡ returned d
    → IsSound d
load_or_reset-IsSound can_rename s (returned c) d e h = load-IsSound s d (
    e
    ∙ sym (ap (λ (x : Outcome Document × Store). x.0) (recovered can_rename s (returned c) e))
    ∙ h)
load_or_reset-IsSound can_rename s type_error d e h =
    let k : type_error ≡ returned d = rw (recovered can_rename s type_error e) at h in absurd cc
load_or_reset-IsSound can_rename s sync_error d e h =
    subst IsSound (returned-injective (sym ((recovered can_rename s sync_error e).0) ∙ h))
      IsSound-empty_document

-- The call returns that generation. The next load returns it with an end of that history, which is all
-- of it or as long as the limit.
abbrev pub Appended : ℕ → ℕ → List Entry → Outcome ℕ × Store → Type 0
Appended max_history generation history after =
    (after.0 ≡ returned generation)
    × ((older : List Entry) × (kept : List Entry) × (history ≡ older ++ kept)
        × (load (after.1) ≡ returned (record { generation = generation; history = kept }))
        × (length kept ≤ max_history)
        × ((older ≡ []) ⊎ (length kept ≡ max_history)))

append_entries-Appended :
    (max_history generation : ℕ) (document : Document) (entries : List Entry) (s : Store)
    → IsSound document
    → Rises document.generation entries
    → last_generation_of document.generation entries ≡ generation
    → Appended max_history generation
        (document.history ++ entries)
        (append_entries max_history generation document (returned entries) s)
unfolding append_entries
append_entries-Appended max_history generation document entries s (r, h) rises last =
    let history = document.history ++ entries in
    let next : Document = record {
      generation = generation;
      history = retained max_history history;
    } in
    let sound : IsSound next = (
      retained-Rises max_history history (
          Rises-append 0 document.history entries r
            (Rises-weaken _ document.generation entries h rises)),
      omega (
        arith,
        last,
        last_generation_of-retained max_history history,
        last_generation_of-append 0 document.history entries,
        last_generation_of_mono (last_generation_of 0 document.history) document.generation entries
            h,
      ),
    ) in
    let (older, split, short, full) = retained-suffix max_history history in
    rw (append_entries, save-written next s sound)
      (
        refl,
        (
          older,
          retained max_history history,
          split,
          load-written next s.corrupt_copy sound,
          short,
          full,
        ),
      )

append_loaded-Appended :
    (device_id revision timestamp : Text) (mutations : List RawEntry) (max_history : ℕ)
    (document : Document) (entries : List Entry) (loaded : Outcome Document × Store)
    → loaded.0 ≡ returned document
    → IsSound document
    → Rises document.generation entries
      × (last_generation_of document.generation entries ≡ document.generation + length mutations)
    → entries_from document.generation timestamp device_id revision mutations ≡ returned entries
    → Appended max_history
        (document.generation + length mutations)
        (document.history ++ entries)
        (append_loaded device_id revision timestamp mutations max_history loaded)
unfolding append_loaded
append_loaded-Appended device_id revision timestamp mutations max_history document entries loaded
      found sound (rises, last) made =
    rw (append_loaded, found, made)
      (append_entries-Appended max_history (document.generation + length mutations) document entries
        loaded.1 sound rises last)

-- Where the limit is at least one, the load gives a document, there is a mutation and all make
-- entries, and the device, the revision and the time are texts that are not blank:
-- `append_mutations` returns the document's generation plus the number of the mutations. The next
-- `load` raises nothing and returns that generation with the end of the old history followed by the
-- new entries: all of it if it has at most `max_history` entries, and else its last `max_history`.
pub append_mutations-Appended :
    (can_rename : Bool) (device_id revision timestamp : Text) (mutation : RawEntry)
    (mutations : List RawEntry) (max_history : ℕ) (s : Store) (document : Document)
    (entries : List Entry)
    → 1 ≤ max_history
    → required_text (text timestamp) ≡ returned timestamp
    → required_text (text device_id) ≡ returned device_id
    → required_text (text revision) ≡ returned revision
    → (load_or_reset can_rename s).0 ≡ returned document
    → entries_from document.generation timestamp device_id revision (mutation ∷ mutations)
      ≡ returned entries
    → Appended max_history
        (document.generation + suc (length mutations))
        (document.history ++ entries)
        (append_mutations can_rename device_id revision timestamp
          (mutation ∷ mutations)
          max_history
          s)
unfolding append_mutations
append_mutations-Appended can_rename device_id revision timestamp mutation mutations max_history s
      document entries limit t d r found made =
    rw (append_mutations, le→ltb 1 max_history limit)
      (append_loaded-Appended device_id revision timestamp (mutation ∷ mutations) max_history
        document entries (load_or_reset can_rename s) found
        (load_or_reset-IsSound can_rename s (load s) document refl found)
        (entries_from-Rises document.generation timestamp device_id revision (mutation ∷ mutations)
          entries t d r made)
        made)
