-- ===== src/Cache/Service/Laws.antt =====
-- What eviction removes, and what it never does.
use romcloud.Base.{
  ℕ, String, ◌≡◌, refl, sym, ap, ◌∙◌, Bool, true, false, none, some, List, [], ◌∷◌, ◌==◌, string_eq,
  nat_eq, contains, if◌then◌else◌, arith, All, Bool-cases, Option-cases, inl, inr, ◌⊎◌,
}
use mathlib.Core.Path.{subst}
use romcloud.Base.Dict.{lookup, lookup-erase}
use romcloud.Cache.Model.{CacheEntry, is_evictable, CachePolicy}
use romcloud.Cache.Repository.{EntryRow, Tables, delete, get, list_evictable_lru}
use romcloud.Cache.Service.{Ports, remove_files, is_enough, victim, evict_loop, evict}

-- Every entry is stored under its own game.
pub record IsKeyed (t : Tables) : Type 0 where
  pub at : (g : String) (row : EntryRow) → lookup g t.entries ≡ some row → row.entry.game_id ≡ g

module _ {Disk : Type 0} (ports : Ports Disk) (policy : CachePolicy) where
  -- A victim is evictable, not protected, and the entry of the candidate's game.
  victim-chosen :
      (protected : List String) (c : CacheEntry) (t : Tables) (e : CacheEntry)
      → victim ports policy protected c t ≡ some e
      → (contains protected c.game_id ≡ false)
        × (get c.game_id t ≡ some e)
        × (is_evictable e ≡ true)
  unfolding victim
  victim-chosen protected c t e h = elim (Option-cases (get c.game_id t)) [
    | inl gone ↦ ground (arith, gone, h)
    | inr (f, found) ↦ ground (arith, found, h)
  ]

  lookup-delete :
      (g h : String) (t : Tables)
      → lookup g (delete h t).entries ≡ (if g == h then none else lookup g t.entries)
  unfolding delete
  lookup-delete g h t = lookup-erase g h t.entries

  IsKeyed-delete : (h : String) (t : Tables) → IsKeyed t → IsKeyed (delete h t)
  IsKeyed-delete h t keyed = record {
    at = λ g row found. ground (arith, found, lookup-delete g h t, keyed.at g row);
  }

  -- The entry of a game was evictable and not protected.
  abbrev Allowed : List String → Tables → String → Type 0
  Allowed protected t g =
      (contains protected g ≡ false)
      × ((row : EntryRow) × (lookup g t.entries ≡ some row) × (is_evictable row.entry ≡ true))

  get-row :
      (g : String) (t : Tables) (e : CacheEntry)
      → get g t ≡ some e
      → (row : EntryRow) × (lookup g t.entries ≡ some row) × (row.entry ≡ e)
  unfolding get
  get-row g t e h = elim (Option-cases (lookup g t.entries)) [
    | inl gone ↦ ground (arith, gone, h)
    | inr (row, found) ↦ (row, found, ground (arith, found, h))
  ]

  -- The evicted games lose their entries, all others keep theirs.
  evict_loop-entries :
      (locked : Bool) (needed : ℕ) (protected : List String) (cs : List CacheEntry) (t : Tables)
      (disk : Disk)
      → IsKeyed t
      → (g : String)
      → let r = evict_loop ports policy locked needed protected cs t disk in
        (lookup g r.1.entries ≡ (if contains r.0 g then none else lookup g t.entries))
        × ((contains r.0 g ≡ false) ⊎ Allowed protected t g)
  unfolding evict_loop
  evict_loop-entries locked needed protected [] t disk keyed g = (refl, inl refl)
  evict_loop-entries locked needed protected (c ∷ cs) t disk keyed g =
      elim (Bool-cases (is_enough ports policy locked needed t disk)) [
        | inl enough ↦ rw (evict_loop, enough) (refl, inl refl)
        | inr short ↦ elim (Option-cases (victim ports policy protected c t)) [
          | inl spared ↦
              rw (evict_loop, short, spared)
                (evict_loop-entries locked needed protected cs t disk keyed g)
          | inr (e, chosen) ↦
              let (unguarded, found, evictable) = victim-chosen protected c t e chosen in
              let (row, at, is_e) = get-row c.game_id t e found in
              let own : e.game_id ≡ c.game_id =
                ap (λ (x : CacheEntry). x.game_id) (sym is_e) ∙ keyed.at c.game_id row at in
              let rest =
                evict_loop-entries locked needed protected cs (delete e.game_id t)
                  (remove_files ports policy e t disk) (IsKeyed-delete e.game_id t keyed) g in
              let table = lookup-delete g e.game_id t in
              rw (evict_loop, short, chosen)
                (elim (string_eq.dec g e.game_id) [
                  | yes same ↦ (
                    ground (arith, same, rest.0, table),
                    inr (
                      ground (arith, unguarded, same, own),
                      (row, rw same (rw own at), ground (arith, is_e, evictable)),
                    ),
                  )
                  | no other ↦ (
                    ground (arith, other, rest.0, table),
                    elim (rest.1) [
                      | inl kept ↦ inl (ground (arith, other, kept))
                      | inr (free, (old, was, could)) ↦
                          inr (free, (old, ground (arith, was, table, other), could))
                    ],
                  )
                ])
        ]
      ]

  victim-lookup :
      (protected : List String) (c : CacheEntry) (t t' : Tables)
      → (lookup c.game_id t'.entries ≡ none)
        ⊎ (lookup c.game_id t'.entries ≡ lookup c.game_id t.entries)
      → victim ports policy protected c t ≡ none
      → victim ports policy protected c t' ≡ none
  unfolding victim get
  victim-lookup protected c t t' (inl gone) h = ground (arith, gone)
  victim-lookup protected c t t' (inr same) h = rw same h

  gone-victim :
      (protected : List String) (c : CacheEntry) (t : Tables)
      → lookup c.game_id t.entries ≡ none
      → victim ports policy protected c t ≡ none
  unfolding victim get
  gone-victim protected c t gone = ground (arith, gone)

  module _ (locked : Bool) (needed : ℕ) (protected : List String) (c : CacheEntry)
      (cs : List CacheEntry) (t : Tables) (disk : Disk) where
    evict_loop-enough :
        is_enough ports policy locked needed t disk ≡ true
        → evict_loop ports policy locked needed protected (c ∷ cs) t disk ≡ ([], t, disk)
    unfolding evict_loop
    evict_loop-enough h = rw (evict_loop, h) refl

    evict_loop-spared :
        is_enough ports policy locked needed t disk ≡ false
        → victim ports policy protected c t ≡ none
        → evict_loop ports policy locked needed protected (c ∷ cs) t disk
          ≡ evict_loop ports policy locked needed protected cs t disk
    unfolding evict_loop
    evict_loop-spared h k = rw (evict_loop, h, k) refl

    evict_loop-evicted :
        (e : CacheEntry)
        → is_enough ports policy locked needed t disk ≡ false
        → victim ports policy protected c t ≡ some e
        → let rest =
            evict_loop ports policy locked needed protected cs
              (delete e.game_id t)
              (remove_files ports policy e t disk) in
          evict_loop ports policy locked needed protected (c ∷ cs) t disk
          ≡ (e.game_id ∷ rest.0, rest.1, rest.2)
    unfolding evict_loop
    evict_loop-evicted e h k = rw (evict_loop, h, k) refl

  -- There is enough space, or no candidate is left that the loop may remove.
  abbrev pub Stopped :
      Bool → ℕ → List String → List CacheEntry → List String × Tables × Disk → Type 0
  Stopped locked needed protected cs r =
      (is_enough ports policy locked needed r.1 r.2 ≡ true)
      ⊎ All (λ c. victim ports policy protected c r.1 ≡ none) cs

  -- The loop stops with enough space, or no candidate is left that it may remove.
  evict_loop-stops :
      (locked : Bool) (needed : ℕ) (protected : List String) (cs : List CacheEntry) (t : Tables)
      (disk : Disk)
      → IsKeyed t
      → Stopped locked needed protected cs
          (evict_loop ports policy locked needed protected cs t disk)
  evict_loop-stops locked needed protected [] t disk keyed = inr tt
  evict_loop-stops locked needed protected (c ∷ cs) t disk keyed =
      elim (Bool-cases (is_enough ports policy locked needed t disk)) [
        | inl enough ↦
            subst (λ r. Stopped locked needed protected (c ∷ cs) r)
              (sym (evict_loop-enough locked needed protected c cs t disk enough)) (inl enough)
        | inr short ↦ elim (Option-cases (victim ports policy protected c t)) [
          | inl spared ↦
              let table = evict_loop-entries locked needed protected cs t disk keyed c.game_id in
              subst (λ r. Stopped locked needed protected (c ∷ cs) r)
                (sym (evict_loop-spared locked needed protected c cs t disk short spared))
                (elim (evict_loop-stops locked needed protected cs t disk keyed) [
                  | inl enough ↦ inl enough
                  | inr others ↦ inr (
                    victim-lookup protected c t
                        (evict_loop ports policy locked needed protected cs t disk).1
                        (elim (Bool-cases (
                          contains (evict_loop ports policy locked needed protected cs t disk).0
                            c.game_id)) [
                              | inl out ↦ inl (ground (arith, out, table.0))
                              | inr kept ↦ inr (ground (arith, kept, table.0))
                            ])
                        spared,
                    others,
                  )
                ])
          | inr (e, chosen) ↦
              let (unguarded, found, evictable) = victim-chosen protected c t e chosen in
              let (row, at, is_e) = get-row c.game_id t e found in
              let own : e.game_id ≡ c.game_id =
                ap (λ (x : CacheEntry). x.game_id) (sym is_e) ∙ keyed.at c.game_id row at in
              let keyed' = IsKeyed-delete e.game_id t keyed in
              let disk' = remove_files ports policy e t disk in
              let table =
                evict_loop-entries locked needed protected cs (delete e.game_id t) disk' keyed'
                  c.game_id in
              subst (λ r. Stopped locked needed protected (c ∷ cs) r)
                (sym (evict_loop-evicted locked needed protected c cs t disk e short chosen))
                (elim (evict_loop-stops locked needed protected cs (delete e.game_id t) disk'
                  keyed') [
                    | inl enough ↦ inl enough
                    | inr others ↦ inr (
                      gone-victim protected c
                          (evict_loop ports policy locked needed protected cs (delete e.game_id t)
                            disk').1
                          (ground (arith, own, table.0, lookup-delete c.game_id e.game_id t)),
                      others,
                    )
                  ])
        ]
      ]

-- Eviction from tables that store every entry under its game removes the entries of exactly the
-- games it answers. Each of these had an entry that was complete, not pinned and not protected;
-- every other entry stays as it was.
pub evict-entries :
    {Disk : Type 0} (ports : Ports Disk) (policy : CachePolicy) (locked : Bool) (needed : ℕ)
    (protected : List String) (t : Tables) (disk : Disk)
    → IsKeyed t
    → (g : String)
    → let r = evict ports policy locked needed protected t disk in
      (lookup g r.1.entries ≡ (if contains r.0 g then none else lookup g t.entries))
      × ((contains r.0 g ≡ false)
          ⊎ ((contains protected g ≡ false)
              × ((row : EntryRow) × (lookup g t.entries ≡ some row)
                  × (is_evictable row.entry ≡ true))))
unfolding evict
evict-entries ports policy locked needed protected t disk keyed g =
    evict_loop-entries ports policy locked needed protected (list_evictable_lru t) t disk keyed g

-- After eviction from tables that store every entry under its game there is enough space, or none
-- of the least recently used candidates is still cached, evictable, unprotected and free to be
-- locked.
pub evict-Stopped :
    {Disk : Type 0} (ports : Ports Disk) (policy : CachePolicy) (locked : Bool) (needed : ℕ)
    (protected : List String) (t : Tables) (disk : Disk)
    → IsKeyed t
    → Stopped ports policy locked needed protected
        (list_evictable_lru t)
        (evict ports policy locked needed protected t disk)
unfolding evict
evict-Stopped ports policy locked needed protected t disk keyed =
    evict_loop-stops ports policy locked needed protected (list_evictable_lru t) t disk keyed
