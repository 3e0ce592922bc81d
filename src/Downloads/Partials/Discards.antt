-- ===== src/Downloads/Partials/Discards.antt =====
-- Discarding the partial data of one item leaves the data of the other items.
use romcloud.Base.{
  ℕ, String, ◌≡◌, ◌≢◌, refl, ap, ◌∙◌, Bool, true, false, not, Option, some, List, [], ◌∷◌, ◌==◌,
  string_eq, option_eq, contains, contains-keep_if, keep_if, arith, Bool-cases, Option-cases, inl,
  inr,
}
use romcloud.Cache.Model.{CacheMember}
use romcloud.Downloads.Model.{DownloadItem, state_eq, paused, interrupted, failed, cancelled}
use romcloud.Downloads.Repository.{Table, list_all, get, update_progress}
use romcloud.Downloads.Manager.Stops.{found_id}
use romcloud.Downloads.Partials.{
  StagingAsset, StagedGame, is_protected, owner_game_ids, is_spared, discard_loop, is_other,
  game_ids, direct_paths_of, discard_game, discard_partial,
}
use romcloud.Downloads.Partials.Protects.{IsRow, IsRow-list_all, overlaps-contains, is_owned}

discard_loop-spares :
    (spared can_lock p : StagingAsset → Bool) (assets : List StagingAsset)
    → ((a : StagingAsset) → p a ≡ true → spared a ≡ true)
    → keep_if p (discard_loop spared can_lock assets).1 ≡ keep_if p assets
unfolding discard_loop keep_if
discard_loop-spares spared can_lock p [] h = refl
discard_loop-spares spared can_lock p (a ∷ assets) h =
    ground (arith, h a, discard_loop-spares spared can_lock p assets h)

IsRow-game_ids :
    (p : DownloadItem → Bool) (items : List DownloadItem) (item : DownloadItem) (g : String)
    → IsRow item items
    → p item ≡ true
    → item.game_id ≡ some g
    → contains (game_ids (keep_if p items)) g ≡ true
unfolding game_ids keep_if
IsRow-game_ids p [] item g row h mine = absurd row
IsRow-game_ids p (i ∷ items) item g (inl same) h mine =
    let hit : p i ≡ true = ap p same ∙ h in
    let game : i.game_id ≡ some g = ap (λ (j : DownloadItem). j.game_id) same ∙ mine in ground arith
IsRow-game_ids p (i ∷ items) item g (inr row) h mine =
    ground (arith, IsRow-game_ids p items item g row h mine)

module _ (games : String → Option StagedGame) (members : List CacheMember)
    (can_lock : StagingAsset → Bool) (retained : List StagingAsset → ℕ) (now : ℕ) (t : Table)
    (assets : List StagingAsset) where
  abbrev sparing : String → List DownloadItem → StagingAsset → Bool
  sparing game_id others =
      is_spared members game_id (direct_paths_of (games game_id)) (game_ids others)

  -- What is left is what the loop left, or everything.
  discard_game-left :
      (item : DownloadItem) (game_id : String) (others : List DownloadItem)
      → contains (game_ids others) game_id ≡ false
      → (discard_game games members can_lock retained now item game_id others t assets).1.1
        ≡ (discard_loop (sparing game_id others) can_lock assets).1
  unfolding discard_game
  discard_game-left item game_id others free =
      let done = discard_loop (sparing game_id others) can_lock assets in
      elim (Bool-cases done.0) [
        | inr broke ↦ rw (discard_game, free, broke) refl
        | inl whole ↦
            elim (Option-cases (update_progress item.id now (retained done.1) item.bytes_total t)) [
              | inl wrong ↦ rw (discard_game, free, whole, wrong) refl
              | inr (t', right) ↦ rw (discard_game, free, whole, right) refl
            ]
      ]

  owned-is_spared :
      (game_id : String) (others : List DownloadItem) (g : String)
      → contains (game_ids others) g ≡ true
      → contains (game_ids others) game_id ≡ false
      → (a : StagingAsset) → is_owned members g a ≡ true
      → sparing game_id others a ≡ true
  unfolding is_spared
  owned-is_spared game_id others g there free a owned =
      let owners = owner_game_ids members a.relative_path in
      let ne : g ≢ game_id = λ s. ground (arith, s, there, free) in
      let kept : contains (keep_if (λ owner. not (owner == game_id)) owners) g ≡ true =
        ground (arith, contains-keep_if (λ owner. not (owner == game_id)) owners g, ne) in
      ground (
        arith,
        overlaps-contains (keep_if (λ owner. not (owner == game_id)) owners) (game_ids others) g
            kept there,
      )

  discard_game-spares :
      (item : DownloadItem) (game_id : String) (others : List DownloadItem) (g : String)
      → contains (game_ids others) g ≡ true
      → keep_if
          (is_owned members g)
          (discard_game games members can_lock retained now item game_id others t assets).1.1
        ≡ keep_if (is_owned members g) assets
  unfolding discard_game
  discard_game-spares item game_id others g there =
      elim (Bool-cases (contains (game_ids others) game_id)) [
        | inl blocked ↦ rw (discard_game, blocked) refl
        | inr free ↦
            ap (keep_if (is_owned members g)) (discard_game-left item game_id others free)
            ∙ discard_loop-spares (sparing game_id others) can_lock (is_owned members g) assets
                (owned-is_spared game_id others g there free)
      ]

  is_other-true :
      (item_id g : String) (other : DownloadItem)
      → other.id ≢ item_id
      → other.game_id ≡ some g
      → is_protected now other ≡ true
      → is_other now item_id other ≡ true
  unfolding is_other
  is_other-true item_id g other ne mine h = ground arith

  -- However discarding the partial data of an item ends, no staged asset is removed that the game of
  -- another row of the queue owns, if that row is protected.
  pub discard_partial-spares :
      (item_id : String) (other : DownloadItem) (g : String)
      → IsRow other t
      → other.id ≢ item_id
      → other.game_id ≡ some g
      → is_protected now other ≡ true
      → keep_if
          (is_owned members g)
          (discard_partial games members can_lock retained now item_id t assets).1.1
        ≡ keep_if (is_owned members g) assets
  unfolding discard_partial
  discard_partial-spares item_id other g row ne mine h = elim (Option-cases (get item_id t)) [
    | inl missing ↦ rw (discard_partial, missing) refl
    | inr (item, at) ↦
        elim (Bool-cases (contains (paused ∷ interrupted ∷ failed ∷ cancelled ∷ []) item.state)) [
          | inr busy ↦ rw (discard_partial, at, busy) refl
          | inl over ↦ elim (Option-cases item.game_id) [
            | inl no_game ↦ elim (Option-cases (update_progress item.id now 0 item.bytes_total t)) [
              | inl wrong ↦ rw (discard_partial, at, over, no_game, wrong) refl
              | inr (t', right) ↦ rw (discard_partial, at, over, no_game, right) refl
            ]
            | inr (game_id, is_game) ↦
                rw (discard_partial, at, over, is_game)
                  (discard_game-spares item game_id (keep_if (is_other now item.id) (list_all t)) g
                    (IsRow-game_ids (is_other now item.id) (list_all t) other g
                      (IsRow-list_all other t row)
                      (is_other-true item.id g other (λ s. ne (s ∙ found_id item_id t item at)) mine
                        h)
                      mine))
          ]
        ]
  ]
