-- ===== src/Downloads/Partials/Protects.antt =====
-- The clean-up of partial data leaves what an unfinished download may still need.
use mathlib.Core.Path.{subst}
use romcloud.Base.{
  ℕ, suc, ◌+◌, String, ◌≡◌, refl, sym, ap, ◌∙◌, Bool, true, not, Option, some, List, [], ◌∷◌,
  string_eq, contains, any, keep_if, arith, length, Bool-cases, inl, inr, ◌⊎◌, leb,
}
use romcloud.Cache.Model.{CacheMember}
use romcloud.Downloads.Model.{DownloadItem, state_eq}
use romcloud.Downloads.Repository.{Table, list_all, by_seq, insert_by_seq}
use romcloud.Downloads.Partials.{
  StagingAsset, StagedGame, Protection, is_protected, retention, owner_game_ids, overlaps,
  protect_game, expire_game, protect_item, protect_all, is_kept, is_stale, cleanup_loop,
  cleanup_stale_partials, no_protection,
}

-- `item` is a row of the table.
abbrev pub IsRow : DownloadItem → Table → Type 0
IsRow item [] = ⊥
IsRow item (i ∷ t) = (i ≡ item) ⊎ IsRow item t

module _ (games : String → Option StagedGame) (now : ℕ) (g : String) where
  protect_item-keeps :
      (item : DownloadItem) (p : Protection)
      → contains p.protected_games g ≡ true
      → contains (protect_item games now item p).protected_games g ≡ true
  unfolding protect_item protect_game expire_game
  protect_item-keeps item p h = ground arith

  protect_item-protects :
      (item : DownloadItem) (p : Protection)
      → item.game_id ≡ some g
      → is_protected now item ≡ true
      → contains (protect_item games now item p).protected_games g ≡ true
  unfolding protect_item protect_game is_protected retention state_eq
  protect_item-protects item p mine h = ground arith

  protect_all-keeps :
      (items : List DownloadItem) (p : Protection)
      → contains p.protected_games g ≡ true
      → contains (protect_all games now items p).protected_games g ≡ true
  unfolding protect_all
  protect_all-keeps [] p h = h
  protect_all-keeps (item ∷ items) p h =
      protect_all-keeps items (protect_item games now item p) (protect_item-keeps item p h)

  protect_all-protects :
      (items : List DownloadItem) (p : Protection) (item : DownloadItem)
      → IsRow item items
      → item.game_id ≡ some g
      → is_protected now item ≡ true
      → contains (protect_all games now items p).protected_games g ≡ true
  unfolding protect_all
  protect_all-protects [] p item row mine h = absurd row
  protect_all-protects (i ∷ items) p item (inl same) mine h =
      protect_all-keeps items (protect_item games now i p) (
        subst (λ j. contains (protect_item games now j p).protected_games g ≡ true) (sym same)
          (protect_item-protects item p mine h))
  protect_all-protects (i ∷ items) p item (inr row) mine h =
      protect_all-protects items (protect_item games now i p) item row mine h

pub overlaps-contains :
    (xs ys : List String) (g : String)
    → contains xs g ≡ true
    → contains ys g ≡ true
    → overlaps xs ys ≡ true
unfolding overlaps any
overlaps-contains [] ys g h k = absurd (ground arith)
overlaps-contains (x ∷ xs) ys g h k = ground (arith, overlaps-contains xs ys g)

IsRow-insert :
    (item i : DownloadItem) (t : Table) → (i ≡ item) ⊎ IsRow item t → IsRow item (insert_by_seq i t)
unfolding insert_by_seq
IsRow-insert item i [] h = h
IsRow-insert item i (j ∷ t) h = elim (Bool-cases (leb i.queue_seq j.queue_seq)) [
  | inl le ↦ rw le h
  | inr gt ↦ rw gt (elim h [
    | inl same ↦ inr (IsRow-insert item i t (inl same))
    | inr (inl same) ↦ inl same
    | inr (inr row) ↦ inr (IsRow-insert item i t (inr row))
  ])
]

pub IsRow-list_all : (item : DownloadItem) (t : Table) → IsRow item t → IsRow item (list_all t)
unfolding list_all by_seq
IsRow-list_all item [] row = row
IsRow-list_all item (i ∷ t) (inl same) = IsRow-insert item i (by_seq t) (inl same)
IsRow-list_all item (i ∷ t) (inr row) =
    IsRow-insert item i (by_seq t) (inr (IsRow-list_all item t row))

-- The assets that stay are those that are not stale, and the count is of the others.
cleanup_loop-kept :
    (stale : StagingAsset → Bool) (assets : List StagingAsset) (cleaned : ℕ)
    → ((cleanup_loop stale assets cleaned).1 ≡ keep_if (λ a. not (stale a)) assets)
      × ((cleanup_loop stale assets cleaned).0 + length (cleanup_loop stale assets cleaned).1
          ≡ cleaned + length assets)
unfolding cleanup_loop keep_if
cleanup_loop-kept stale [] cleaned = (refl, refl)
cleanup_loop-kept stale (asset ∷ assets) cleaned = elim (Bool-cases (stale asset)) [
  | inl goes ↦ ground (arith, cleanup_loop-kept stale assets (suc cleaned))
  | inr stays ↦ ground (arith, cleanup_loop-kept stale assets cleaned)
]

keep_if-keep_if :
    (p q : StagingAsset → Bool) (xs : List StagingAsset)
    → ((a : StagingAsset) → p a ≡ true → q a ≡ true)
    → keep_if p (keep_if q xs) ≡ keep_if p xs
unfolding keep_if
keep_if-keep_if p q [] h = refl
keep_if-keep_if p q (x ∷ xs) h = ground (arith, h x, keep_if-keep_if p q xs h)

-- The game owns the staged asset.
abbrev pub is_owned : List CacheMember → String → StagingAsset → Bool
is_owned members g asset = contains (owner_game_ids members asset.relative_path) g

module _ (games : String → Option StagedGame) (members : List CacheMember)
    (can_lock : StagingAsset → Bool) (now : ℕ) (items : Table) (assets : List StagingAsset) where
  abbrev after : ℕ × List StagingAsset
  after = cleanup_stale_partials games members can_lock now items assets

  owned-not_stale :
      (item : DownloadItem) (g : String)
      → IsRow item items
      → item.game_id ≡ some g
      → is_protected now item ≡ true
      → (asset : StagingAsset) → is_owned members g asset ≡ true
      → not (
          is_stale members can_lock now
            (protect_all games now (list_all items) no_protection)
            asset)
        ≡ true
  unfolding is_stale is_kept
  owned-not_stale item g row mine h asset owned =
      let protected =
        protect_all-protects games now g (list_all items) no_protection item
          (IsRow-list_all item items row) mine h in
      ground (
        arith,
        overlaps-contains (owner_game_ids members asset.relative_path)
            (protect_all games now (list_all items) no_protection).protected_games g owned
            protected,
      )

  -- When a row of the queue is protected, since it is unfinished or its retention is not over, the
  -- clean-up removes no asset that its game owns; and the assets that it counts as removed and those
  -- that stay are together all there were.
  pub cleanup_stale_partials-protects :
      (item : DownloadItem) (g : String)
      → IsRow item items
      → item.game_id ≡ some g
      → is_protected now item ≡ true
      → (keep_if (is_owned members g) after.1 ≡ keep_if (is_owned members g) assets)
        × (after.0 + length after.1 ≡ length assets)
  unfolding cleanup_stale_partials
  cleanup_stale_partials-protects item g row mine h =
      let stale =
        is_stale members can_lock now (protect_all games now (list_all items) no_protection) in
      let kept = cleanup_loop-kept stale assets 0 in
      (
        ap (keep_if (is_owned members g)) kept.0
            ∙ keep_if-keep_if (is_owned members g) (λ a. not (stale a)) assets
                (owned-not_stale item g row mine h),
        omega (arith, kept.1),
      )
