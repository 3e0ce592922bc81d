-- ===== src/SaveJournal/Tests.antt =====
-- A corrupt journal that is reset, and one mutation that is appended to a journal that is absent.
use romcloud.Base.{◌≡◌, refl, true, none, some, [], ◌∷◌, arith, nat_eq}
use romcloud.SaveJournal.Strip.{Text, strip, rstrip, lstrip, is_space, before_stripped}
use romcloud.SaveJournal.Validate.{
  type_error, null, integer, text, nested, RawEntry, update, Entry, required_text, optional_text,
  required_operation, named_operation, mutation_entry, validate_document, validate_supported,
  validate_history, validate_entry, validate_fields,
}
use romcloud.SaveJournal.{
  Store, absent, unreadable, holds, load, load_or_reset, entries_from, append_mutations,
  empty_document,
}
use romcloud.SaveJournal.Appends.{
  Appended, Recovered, append_mutations-Appended, load_or_reset-Recovered,
}

abbrev device : Text
device = 32 ∷ 100 ∷ []

abbrev fresh : Store
fresh = record { journal = absent; corrupt_copy = none }

abbrev corrupt : Store
corrupt = record { journal = unreadable; corrupt_copy = none }

abbrev mutation : RawEntry
mutation = record {
  generation = null;
  timestamp = null;
  device_id = null;
  revision = null;
  system = text (112 ∷ []);
  layout_id = text (108 ∷ []);
  group_id = text (32 ∷ 103 ∷ 32 ∷ []);
  object_id = null;
  operation = text (117 ∷ 112 ∷ 100 ∷ 97 ∷ 116 ∷ 101 ∷ []);
}

abbrev entry : Entry
entry = record {
  generation = 1;
  timestamp = 116 ∷ [];
  device_id = device;
  revision = 114 ∷ [];
  system = 112 ∷ [];
  layout_id = 108 ∷ [];
  group_id = some (103 ∷ []);
  object_id = none;
  operation = update;
}

-- A stored operation that is a list stops every call that loads the journal.
abbrev stuck : Store
stuck = record {
  journal = holds (
      some (record {
        schema_version = integer 1;
        generation = integer 1;
        history = some (
            some (record mutation {
              generation = integer 1;
              timestamp = text (116 ∷ []);
              device_id = text device;
              revision = text (114 ∷ []);
              operation = nested;
            })
            ∷ []);
      }));
  corrupt_copy = none;
}

load_or_reset-stuck : (load_or_reset true stuck).0 ≡ type_error
unfolding load_or_reset load validate_document validate_supported validate_history validate_entry
    validate_fields mutation_entry required_text optional_text required_operation strip rstrip
    lstrip is_space before_stripped nat_eq
load_or_reset-stuck = refl

load_or_reset-Recovered_example : Recovered true corrupt (load corrupt) (load_or_reset true corrupt)
load_or_reset-Recovered_example = load_or_reset-Recovered true corrupt

append_mutations-Appended_example :
    Appended 1 1
      (entry ∷ [])
      (append_mutations true device (114 ∷ []) (116 ∷ []) (mutation ∷ []) 1 fresh)
unfolding load_or_reset load entries_from mutation_entry required_text optional_text
    required_operation named_operation strip rstrip lstrip is_space before_stripped nat_eq
append_mutations-Appended_example =
    append_mutations-Appended true device (114 ∷ []) (116 ∷ []) mutation [] 1 fresh empty_document
      (entry ∷ []) (omega arith) refl refl refl refl refl
