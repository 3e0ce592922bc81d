-- ===== src/SaveJournal.antt =====
-- infrastructure/savesync_journal.py: the journal of the mutations of the remote saves. The store is
-- the file as `json.loads` reads it and the copy that is set aside of a corrupt one. The lock and
-- the ways that a disk fails are left out.
pub mod Strip
pub mod Validate
mod Laws
mod Rises
mod Appends
mod Tests
use romcloud.Base.{
  ℕ, zero, suc, ◌+◌, ◌-◌, ◌≡◌, refl, Bool, true, false, Option, none, some, List, [], ◌∷◌, ◌++◌,
  if◌then◌else◌, ltb, leb, ◌==◌, nat_eq, drop, length,
}
use romcloud.SaveJournal.Strip.{Text, strip}
use romcloud.SaveJournal.Validate.{
  Document, Entry, Outcome, RawDocument, RawEntry, mutation_entry, returned, sync_error, type_error,
  validate_document, written, ◌>>=◌,
}

pub data Journal : Type 0 where
  absent : Journal
  unreadable : Journal
  holds : Option RawDocument → Journal

pub record Store : Type 0 where
  pub journal : Journal
  pub corrupt_copy : Option Journal

abbrev pub empty_document : Document
empty_document = record { generation = 0; history = [] }

unfoldable pub load : Store → Outcome Document
unfolding validate_document
load s = elim s.journal [
  | absent ↦ returned empty_document
  | unreadable ↦ sync_error
  | holds payload ↦ validate_document payload
]

unfoldable pub save : Document → Store → Outcome (Unit {0}) × Store
unfolding validate_document written
save document s = elim (validate_document (some (written document))) [
  | returned validated ↦ (returned tt, record s { journal = holds (some (written validated)) })
  | sync_error ↦ (sync_error, s)
  | type_error ↦ (type_error, s)
]

-- A load that raises a `SaveSyncError` found a file. `can_rename` tells whether it can be set aside.
unfoldable pub load_or_reset : Bool → Store → Outcome Document × Store
unfolding load save
load_or_reset can_rename s = elim (load s) [
  | returned document ↦ (returned document, s)
  | type_error ↦ (type_error, s)
  | sync_error ↦
      let aside =
        if can_rename then record { journal = absent; corrupt_copy = some s.journal } else s in
      let saved = save empty_document aside in
      (saved.0 >>= λ done. returned empty_document, saved.1)
]

-- The loop over the mutations, from the generation before them.
unfoldable pub entries_from : ℕ → Text → Text → Text → List RawEntry → Outcome (List Entry)
unfolding mutation_entry
entries_from generation timestamp device_id revision [] = returned []
entries_from generation timestamp device_id revision (mutation ∷ mutations) = do
  entry ← mutation_entry (suc generation) timestamp device_id revision mutation
  entries ← entries_from (suc generation) timestamp device_id revision mutations
  returned (entry ∷ entries)

-- `history[-max_history:]` of a longer history
unfoldable pub retained : ℕ → List Entry → List Entry
retained max_history history =
    if ltb max_history (length history)
    then drop (length history - max_history) history
    else history

unfoldable pub append_entries : ℕ → ℕ → Document → Outcome (List Entry) → Store → Outcome ℕ × Store
unfolding retained save
append_entries max_history generation document sync_error s = (sync_error, s)
append_entries max_history generation document type_error s = (type_error, s)
append_entries max_history generation document (returned entries) s =
    let saved =
      save
        (record {
          generation = generation;
          history = retained max_history (document.history ++ entries);
        })
        s in
    (saved.0 >>= λ done. returned generation, saved.1)

unfoldable pub append_loaded :
    Text → Text → Text → List RawEntry → ℕ → Outcome Document × Store → Outcome ℕ × Store
unfolding entries_from append_entries
append_loaded device_id revision timestamp mutations max_history (sync_error, s) = (sync_error, s)
append_loaded device_id revision timestamp mutations max_history (type_error, s) = (type_error, s)
append_loaded device_id revision timestamp mutations max_history (returned document, s) =
    append_entries max_history (document.generation + length mutations) document
      (entries_from document.generation timestamp device_id revision mutations) s

unfoldable pub append_mutations :
    Bool → Text → Text → Text → List RawEntry → ℕ → Store → Outcome ℕ × Store
unfolding load_or_reset append_loaded
append_mutations can_rename device_id revision timestamp [] max_history s =
    let loaded = load_or_reset can_rename s in
    (loaded.0 >>= λ document. returned document.generation, loaded.1)
append_mutations can_rename device_id revision timestamp (mutation ∷ mutations) max_history s =
    if ltb max_history 1
    then (sync_error, s)
    else append_loaded device_id revision timestamp (mutation ∷ mutations) max_history
        (load_or_reset can_rename s)
