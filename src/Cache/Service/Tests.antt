-- ===== src/Cache/Service/Tests.antt =====
-- Two cached games on a disk that is the list of its files, and the theorems of eviction at it.
use romcloud.Base.{
  ℕ, String, ◌≡◌, ◌≢◌, refl, map, Bool, true, false, not, none, some, List, [], ◌∷◌, ◌==◌,
  string_eq, contains, keep_if, if◌then◌else◌, ◌⊎◌, arith, length, nat_eq, ◌-◌, ◌*◌,
}
use romcloud.Base.Dict.{lookup}
use romcloud.Cache.Model.{is_evictable, CacheMember, CachePolicy, complete}
use romcloud.Cache.Repository.{upsert, list_members, EntryRow, Tables, list_evictable_lru}
use romcloud.Cache.Service.{Ports, evict, remove_files, delete_paths}
use romcloud.Base.{All}
use romcloud.Cache.Service.Owners.{remove_files-spares}
use romcloud.Cache.Service.Pins.{
  CatalogGame, pinned, undownloaded, pin, unpin, pin-not_evicted, unpin-pin,
}
use romcloud.Cache.Service.Laws.{IsKeyed, Stopped, evict-entries, evict-Stopped}

abbrev entry : String → ℕ → Bool → EntryRow
entry game at keep = record {
  entry = record {
    game_id = game;
    cache_path = game;
    status = complete;
    cached_at = 1;
    last_accessed = at;
    size_bytes = 10;
    is_pinned = keep;
  };
  membership_resolved = true;
}

abbrev member : String → String → CacheMember
member game path = record {
  game_id = game;
  relative_path = path;
  expected_size = some 10;
  size_bytes = 10;
  is_primary = true;
}

-- Game `old` shares a file with `pinned`.
abbrev tables : Tables
tables = record {
  entries =
      ("new", entry "new" 9 false)
      ∷ ("old", entry "old" 2 false)
      ∷ ("pinned", entry "pinned" 1 true)
      ∷ [];
  members =
      member "new" "n.bin"
      ∷ member "old" "o.bin"
      ∷ member "old" "bios.bin"
      ∷ member "pinned" "bios.bin"
      ∷ [];
}

abbrev ports : Ports (List String)
ports = record {
  free_bytes = λ disk. 100 - 10 * length disk;
  delete_path = λ p disk. keep_if (λ q. not (q == p)) disk;
  delete_container = λ e disk. disk;
  has_game = λ g. true;
  storage = none;
  lock_is_free = λ e. true;
}

abbrev policy : CachePolicy
policy = record { max_size_bytes = 30; min_free_bytes = 5 }

abbrev disk : List String
disk = "n.bin" ∷ "o.bin" ∷ "bios.bin" ∷ []

-- Ten bytes more need one eviction, which keeps the shared file.
evicts : evict ports policy false 10 [] tables disk ≡ (
  "old" ∷ [],
  record {
    entries = ("new", entry "new" 9 false) ∷ ("pinned", entry "pinned" 1 true) ∷ [];
    members = member "new" "n.bin" ∷ member "pinned" "bios.bin" ∷ [];
  },
  "n.bin" ∷ "bios.bin" ∷ [],
)
unfolding evict string_eq
evicts = refl

tables-IsKeyed : IsKeyed tables
unfolding lookup
tables-IsKeyed = record { at = λ g row found. ground (arith, found) }

entries_example :
    (lookup "old" (evict ports policy false 10 [] tables disk).1.entries ≡ (
      if contains (evict ports policy false 10 [] tables disk).0 "old"
      then none
      else lookup "old" tables.entries))
    × ((contains (evict ports policy false 10 [] tables disk).0 "old" ≡ false)
        ⊎ ((contains {A = String} [] "old" ≡ false)
            × ((row : EntryRow) × (lookup "old" tables.entries ≡ some row)
                × (is_evictable row.entry ≡ true))))
entries_example = evict-entries ports policy false 10 [] tables disk tables-IsKeyed "old"

Stopped_example :
    Stopped ports policy false 10 []
      (list_evictable_lru tables)
      (evict ports policy false 10 [] tables disk)
Stopped_example = evict-Stopped ports policy false 10 [] tables disk tables-IsKeyed

abbrev catalog : CatalogGame
catalog = record { is_eligible = true; primary_path = some "cache/fresh.bin" }

abbrev pinned_tables : Tables
pinned_tables = upsert (undownloaded 5 "fresh" "cache/fresh.bin") tables

pins : pin 5 "fresh" (some catalog) tables ≡ pinned pinned_tables
unfolding pin string_eq
pins = refl

not_evicted_example : contains (evict ports policy false 10 [] pinned_tables disk).0 "fresh" ≡ false
not_evicted_example =
    pin-not_evicted ports policy false 10 5 [] "fresh" (some catalog) tables pinned_tables disk
      tables-IsKeyed pins

absent : lookup "fresh" tables.entries ≡ none
unfolding lookup string_eq
absent = refl

no_members : list_members "fresh" tables ≡ []
unfolding list_members string_eq
no_members = refl

unpin_example : lookup "old" (unpin "fresh" pinned_tables).entries ≡ lookup "old" tables.entries
unpin_example = unpin-pin 5 "fresh" (some catalog) tables pinned_tables absent no_members pins "old"

old_members : list_members "old" tables ≢ []
unfolding list_members string_eq
old_members e = cc

remove_files_example :
    (ps : List String) × (remove_files ports policy (entry "old" 2 false).entry tables disk
      ≡ delete_paths ports policy ps disk)
    × ((p : String)
        → contains ps p ≡ true
        → contains (map (λ (m : CacheMember). m.relative_path) (list_members "old" tables)) p
          ≡ true)
    × All (λ m. (m.game_id ≡ "old") ⊎ (contains ps m.relative_path ≡ false)) tables.members
remove_files_example =
    remove_files-spares ports policy (entry "old" 2 false).entry tables disk refl old_members
