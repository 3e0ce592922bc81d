-- ===== src/Cache/Service/Pins.antt =====
-- `pin` and `unpin` of services/cache.py, with the game of the catalogue as an argument.
use romcloud.Base.{
  ℕ, String, ◌≡◌, ◌∙◌, ap, ◌⊎◌, refl, Bool, true, false, not, ◌&&◌, Option, none, some, List, [],
  ◌∷◌, ◌==◌, string_eq, nat_eq, contains, if◌then◌else◌, arith, Option-cases, inl, inr,
}
use romcloud.Base.Dict.{lookup, insert, lookup-insert, lookup-erase}
use romcloud.Cache.Model.{incomplete, CacheEntry, is_evictable, CachePolicy}
use romcloud.Cache.Repository.{
  EntryRow, Tables, get, upsert, set_pinned, update_entry, delete, list_members,
}
use romcloud.Cache.Service.{Ports, evict}
use romcloud.Cache.Service.Laws.{IsKeyed, evict-entries}

-- What `pin` asks of a catalogue game: `is_eligible`, and the cache path of its primary asset.
pub record CatalogGame : Type 0 where
  pub is_eligible : Bool
  pub primary_path : Option String

pub data PinResult : Type 0 where
  game_not_found no_cacheable_assets : PinResult
  pinned : Tables → PinResult

-- The entry of a game that is pinned before it is downloaded.
abbrev pub undownloaded : ℕ → String → String → CacheEntry
undownloaded now game_id cache_path = record {
  game_id = game_id;
  cache_path = cache_path;
  status = incomplete;
  cached_at = now;
  last_accessed = now;
  size_bytes = 0;
  is_pinned = true;
}

-- `pin`
unfoldable pub pin : ℕ → String → Option CatalogGame → Tables → PinResult
unfolding get upsert update_entry
pin now game_id game t = elim (get game_id t) [
  | some e ↦ pinned (set_pinned game_id true t)
  | none ↦ elim game [
    | none ↦ game_not_found
    | some g ↦ if not g.is_eligible then game_not_found else elim g.primary_path [
      | none ↦ no_cacheable_assets
      | some path ↦ pinned (upsert (undownloaded now game_id path) t)
    ]
  ]
]

-- `unpin`
unfoldable pub unpin : String → Tables → Tables
unfolding get list_members delete update_entry
unpin game_id t = elim (get game_id t) [
  | none ↦ t
  | some e ↦
      let has_none : Bool = elim (list_members game_id t) [ [] ↦ true | m ∷ ms ↦ false ] in
      let is_incomplete : Bool = elim e.status [ incomplete ↦ true | _ ↦ false ] in
      if is_incomplete && e.size_bytes == 0 && has_none
      then delete game_id t
      else set_pinned game_id false t
]

-- What `pin` changes: the row of its game, which is pinned then.
pub pin-row :
    (now : ℕ) (game_id : String) (game : Option CatalogGame) (t t' : Tables)
    → pin now game_id game t ≡ pinned t'
    → (row : EntryRow) × (t'.entries ≡ insert game_id row t.entries)
      × (row.entry.is_pinned ≡ true)
      × ((row.entry.game_id ≡ game_id)
          ⊎ ((old : EntryRow) × (lookup game_id t.entries ≡ some old)
              × (row.entry.game_id ≡ old.entry.game_id)))
unfolding pin get upsert update_entry
pin-row now game_id game t t' done = elim (Option-cases (lookup game_id t.entries)) [
  | inr (row, found) ↦ (
    record row { entry = record row.entry { is_pinned = true } },
    ground (arith, done, found),
    refl,
    inr (row, found, refl),
  )
  | inl gone ↦ elim (Option-cases game) [
    | inl no_game ↦ ground (arith, done, gone, no_game)
    | inr (g, is_g) ↦ elim (Option-cases g.primary_path) [
      | inl no_path ↦ ground (arith, done, gone, is_g, no_path)
      | inr (path, is_path) ↦ (
        record { entry = undownloaded now game_id path; membership_resolved = false },
        ground (arith, done, gone, is_g, is_path),
        refl,
        inl refl,
      )
    ]
  ]
]

IsKeyed-insert :
    (t : Tables) (t' : Tables) (g : String) (row : EntryRow)
    → t'.entries ≡ insert g row t.entries
    → row.entry.game_id ≡ g
    → IsKeyed t
    → IsKeyed t'
IsKeyed-insert t t' g row e own keyed = record {
  at = λ h r found.
      ground (arith, keyed.at h r, own, lookup-insert h g row t.entries, ap (lookup h) e, found);
}

-- A game that `pin` has accepted, in tables that store every entry under its game, is not
-- evicted, however much space is asked for.
pub pin-not_evicted :
    {Disk : Type 0} (ports : Ports Disk) (policy : CachePolicy) (locked : Bool) (needed now : ℕ)
    (protected : List String) (game_id : String) (game : Option CatalogGame) (t t' : Tables)
    (disk : Disk)
    → IsKeyed t
    → pin now game_id game t ≡ pinned t'
    → contains (evict ports policy locked needed protected t' disk).0 game_id ≡ false
unfolding is_evictable
pin-not_evicted ports policy locked needed now protected game_id game t t' disk keyed done =
    let (row, e, is_pin, names) = pin-row now game_id game t t' done in
    let own : row.entry.game_id ≡ game_id = elim names [
      | inl same ↦ same
      | inr (old, found, same) ↦ same ∙ keyed.at game_id old found
    ] in
    let at : lookup game_id t'.entries ≡ some row =
      ap (lookup game_id) e ∙ ground (arith, lookup-insert game_id game_id row t.entries) in
    let after =
      evict-entries ports policy locked needed protected t' disk
        (IsKeyed-insert t t' game_id row e own keyed) game_id in
    elim (after.1) [
      | inl kept ↦ kept
      | inr (free, (found_row, found, could)) ↦ ground (arith, at, found, could, is_pin)
    ]

unpin-undownloaded :
    (now : ℕ) (game_id path : String) (t : Tables) (row : EntryRow)
    → row.entry ≡ undownloaded now game_id path
    → lookup game_id t.entries ≡ some row
    → list_members game_id t ≡ []
    → unpin game_id t ≡ delete game_id t
unfolding unpin get nat_eq
unpin-undownloaded now game_id path t row is_row at none_left =
    rw (unpin, get, at, is_row, none_left) refl

lookup-delete :
    (g h : String) (t : Tables)
    → lookup g (delete h t).entries ≡ (if g == h then none else lookup g t.entries)
unfolding delete
lookup-delete g h t = lookup-erase g h t.entries

-- Where a game without an entry and without members is pinned, unpinning it leaves every entry as
-- it was before.
pub unpin-pin :
    (now : ℕ) (game_id : String) (game : Option CatalogGame) (t t' : Tables)
    → lookup game_id t.entries ≡ none
    → list_members game_id t ≡ []
    → pin now game_id game t ≡ pinned t'
    → (h : String) → lookup h (unpin game_id t').entries ≡ lookup h t.entries
unfolding pin get upsert list_members
unpin-pin now game_id game t t' gone no_members done h = elim (Option-cases game) [
  | inl no_game ↦ ground (arith, done, gone, no_game)
  | inr (g, is_g) ↦ elim (Option-cases g.primary_path) [
    | inl no_path ↦ ground (arith, done, gone, is_g, no_path)
    | inr (path, is_path) ↦
        let row : EntryRow = record {
          entry = undownloaded now game_id path;
          membership_resolved = false;
        } in
        let is_t' : t' ≡ record t { entries = insert game_id row t.entries } =
          ground (arith, done, gone, is_g, is_path) in
        let at : lookup game_id t'.entries ≡ some row =
          ap (λ (x : Tables). lookup game_id x.entries) is_t'
          ∙ ground (arith, lookup-insert game_id game_id row t.entries) in
        let members : list_members game_id t' ≡ [] = ap (list_members game_id) is_t' ∙ no_members in
        let deleted = unpin-undownloaded now game_id path t' row refl at members in
        ap (λ (x : Tables). lookup h x.entries) deleted
        ∙ lookup-delete h game_id t'
        ∙ ground (
          arith,
          ap (λ (x : Tables). lookup h x.entries) is_t',
          lookup-insert h game_id row t.entries,
          gone,
        )
  ]
]
