-- ===== src/Cache/Service/Owners.antt =====
-- The removal of an entry's files spares every file that a member of another game names.
use romcloud.Base.{
  ◌≤◌, String, ◌≡◌, ◌≢◌, refl, Bool, true, false, not, ◌&&◌, ◌||◌, List, [], ◌∷◌, ◌==◌, string_eq,
  contains, ltb, arith, keep_if, map, any, All, All-weaken, Bool-cases, inl, inr, ◌⊎◌, length,
}
use romcloud.Cache.Model.{CacheEntry, CacheMember, CachePolicy}
use romcloud.Cache.Repository.{
  Tables, is_of, insert_member, sort_members, list_members, owner_count,
}
use romcloud.Cache.Service.{Ports, last_owned, delete_paths, remove_files}

abbrev path : CacheMember → String
path m = m.relative_path

contains-last_owned :
    (t : Tables) (ms : List CacheMember) (p : String)
    → contains (last_owned t ms) p ≡ (contains (map path ms) p && not (ltb 1 (owner_count p t)))
unfolding last_owned
contains-last_owned t [] p = refl
contains-last_owned t (m ∷ ms) p = elim (string_eq.dec p m.relative_path) [
  | yes same ↦ ground (arith, same, contains-last_owned t ms p)
  | no other ↦ ground (arith, other, contains-last_owned t ms p)
]

contains-insert_member :
    (m : CacheMember) (ms : List CacheMember) (p : String)
    → contains (map path (insert_member m ms)) p
      ≡ (p == m.relative_path || contains (map path ms) p)
unfolding insert_member
contains-insert_member m [] p = refl
contains-insert_member m (n ∷ ns) p = ground (arith, contains-insert_member m ns p)

contains-sort_members :
    (ms : List CacheMember) (p : String)
    → contains (map path (sort_members ms)) p ≡ contains (map path ms) p
unfolding sort_members
contains-sort_members [] p = refl
contains-sort_members (m ∷ ms) p =
    ground (arith, contains-insert_member m (sort_members ms) p, contains-sort_members ms p)

module _ (g p : String) where
  abbrev is_at : CacheMember → Bool
  is_at m = m.relative_path == p

  abbrev is_other : CacheMember → Bool
  is_other m = is_at m && not (is_of g m)

  one_own :
      (ms : List CacheMember)
      → contains (map path (keep_if (is_of g) ms)) p ≡ true
      → 1 ≤ length (keep_if is_at ms)
  unfolding keep_if
  one_own [] h = cc
  one_own (m ∷ ms) h = grind (arith, one_own ms)

  one_other : (ms : List CacheMember) → any is_other ms ≡ true → 1 ≤ length (keep_if is_at ms)
  unfolding keep_if any
  one_other [] h = cc
  one_other (m ∷ ms) h = grind (arith, one_other ms)

  two_owners :
      (ms : List CacheMember)
      → contains (map path (keep_if (is_of g) ms)) p ≡ true
      → any is_other ms ≡ true
      → 2 ≤ length (keep_if is_at ms)
  unfolding keep_if any
  two_owners [] h k = cc
  two_owners (m ∷ ms) h k = grind (arith, one_own ms, one_other ms, two_owners ms)

-- A member is of the game, or another game's member is at its path.
owned_by_other :
    (g : String) (ms : List CacheMember)
    → All (λ m. (m.game_id ≡ g) ⊎ (any (is_other g m.relative_path) ms ≡ true)) ms
unfolding any
owned_by_other g [] = tt
owned_by_other g (m ∷ ms) = (
  elim (string_eq.dec m.game_id g) [ yes own ↦ inl own | no other ↦ inr (ground (arith, other)) ],
  All-weaken (λ n. (n.game_id ≡ g) ⊎ (any (is_other g n.relative_path) ms ≡ true))
      (λ n. (n.game_id ≡ g) ⊎ (any (is_other g n.relative_path) (m ∷ ms) ≡ true))
      (λ n either. elim either [ inl own ↦ inl own | inr later ↦ inr (ground (arith, later)) ]) ms
      (owned_by_other g ms),
)

spared :
    (t : Tables) (g p : String)
    → any (is_other g p) t.members ≡ true
    → contains (last_owned t (list_members g t)) p ≡ false
unfolding list_members owner_count
spared t g p other = elim (Bool-cases (contains (map path (keep_if (is_of g) t.members)) p)) [
  | inl own ↦
      let two = two_owners g p t.members own other in
      ground (arith, two, contains-last_owned t (sort_members (keep_if (is_of g) t.members)) p)
  | inr away ↦ ground (
    arith,
    away,
    contains-last_owned t (sort_members (keep_if (is_of g) t.members)) p,
    contains-sort_members (keep_if (is_of g) t.members) p,
  )
]

last_owned-list_members :
    (t : Tables) (g : String)
    → All
        (λ m.
          (m.game_id ≡ g) ⊎ (contains (last_owned t (list_members g t)) m.relative_path ≡ false))
        t.members
last_owned-list_members t g =
    All-weaken _ _
      (λ m either. elim either [
        | inl own ↦ inl own
        | inr other ↦ inr (spared t g m.relative_path other)
      ])
      t.members (owned_by_other g t.members)

members-cases :
    (ms : List CacheMember)
    → (ms ≡ []) ⊎ ((n : CacheMember) × (ns : List CacheMember) × (ms ≡ n ∷ ns))
members-cases [] = inl refl
members-cases (n ∷ ns) = inr (n, ns, refl)

-- Removing the files of an entry whose game is known and has members deletes the files at some list
-- of paths, and does nothing else: every path of the list is a member of that game, and none is
-- that of a member of another game. The other branch, which deletes the recorded path of an entry
-- without members, asks for no owners.
pub remove_files-spares :
    {Disk : Type 0} (ports : Ports Disk) (policy : CachePolicy) (e : CacheEntry) (t : Tables)
    (disk : Disk)
    → ports.has_game e.game_id ≡ true
    → list_members e.game_id t ≢ []
    → (ps : List String) × (remove_files ports policy e t disk ≡ delete_paths ports policy ps disk)
      × ((p : String)
          → contains ps p ≡ true
          → contains (map path (list_members e.game_id t)) p ≡ true)
      × All (λ m. (m.game_id ≡ e.game_id) ⊎ (contains ps m.relative_path ≡ false)) t.members
unfolding remove_files
remove_files-spares ports policy e t disk known some_members =
    elim (members-cases (list_members e.game_id t)) [
      | inl empty ↦ absurd (some_members empty)
      | inr (n, ns, is) ↦ (
        last_owned t (list_members e.game_id t),
        rw (remove_files, known, is) refl,
        λ p h. ground (arith, h, contains-last_owned t (list_members e.game_id t) p),
        last_owned-list_members t e.game_id,
      )
    ]
