-- ===== src/Downloads/Repository/Index.antt =====
-- The primary key and the unique index of `download_items` under updates of rows.
use romcloud.Base.{
  String, ◌≡◌, refl, Bool, true, false, [], ◌∷◌, string_eq, option_eq, contains, keep_if, find,
  arith,
}
use romcloud.Base.Dict.{is_some}
use romcloud.Downloads.Model.{is_active, DownloadItem}
use romcloud.Downloads.Repository.{
  Table, no_repeat, ids, active_games, is_consistent, updated, is_active_for,
}

pub contains-active_games :
    (t : Table) (g : String) → contains (active_games t) g ≡ is_some (find (is_active_for g) t)
unfolding active_games find is_active_for
contains-active_games [] g = refl
contains-active_games (i ∷ t) g = ground (arith, contains-active_games t g)

module _ (p : DownloadItem → Bool) (f : DownloadItem → DownloadItem) where
  -- An update that sets no id.
  abbrev pub KeepsId : Type 0
  KeepsId = (i : DownloadItem) → (f i).id ≡ i.id

  pub ids-updated : KeepsId → (t : Table) → ids (updated p f t) ≡ ids t
  unfolding ids updated
  ids-updated k [] = refl
  ids-updated k (i ∷ t) = ground (arith, k i, ids-updated k t)

  -- An update that sets no game and leaves every item as active as it was.
  abbrev pub KeepsActive : Type 0
  KeepsActive =
      (i : DownloadItem)
      → p i ≡ true
      → ((f i).game_id ≡ i.game_id) × (is_active (f i).state ≡ is_active i.state)

  pub active_games-updated :
      KeepsActive → (t : Table) → active_games (updated p f t) ≡ active_games t
  unfolding active_games updated
  active_games-updated k [] = refl
  active_games-updated k (i ∷ t) = ground (arith, k i, active_games-updated k t)

  -- An update that sets no game and makes no item active.
  abbrev pub Deactivates : Type 0
  Deactivates = (i : DownloadItem) → is_active (f i).state ≡ false

  contains-deactivated :
      Deactivates
      → (t : Table) (g : String) → contains (active_games t) g ≡ false
      → contains (active_games (updated p f t)) g ≡ false
  unfolding active_games updated
  contains-deactivated k [] g h = refl
  contains-deactivated k (i ∷ t) g h = ground (arith, k i, contains-deactivated k t g)

  pub no_repeat-deactivated :
      Deactivates
      → (t : Table) → no_repeat (active_games t) ≡ true
      → no_repeat (active_games (updated p f t)) ≡ true
  unfolding active_games updated no_repeat
  no_repeat-deactivated k [] h = refl
  no_repeat-deactivated k (i ∷ t) h =
      grind (arith, k i, no_repeat-deactivated k t, contains-deactivated k t)

-- Deleting rows.
module _ (p : DownloadItem → Bool) where
  contains-ids-kept :
      (t : Table) (k : String) → contains (ids t) k ≡ false → contains (ids (keep_if p t)) k ≡ false
  unfolding ids keep_if
  contains-ids-kept [] k h = refl
  contains-ids-kept (i ∷ t) k h = ground (arith, contains-ids-kept t k)

  contains-active_games-kept :
      (t : Table) (g : String)
      → contains (active_games t) g ≡ false
      → contains (active_games (keep_if p t)) g ≡ false
  unfolding active_games keep_if
  contains-active_games-kept [] g h = refl
  contains-active_games-kept (i ∷ t) g h = ground (arith, contains-active_games-kept t g)

  pub is_consistent-kept : (t : Table) → is_consistent t ≡ true → is_consistent (keep_if p t) ≡ true
  unfolding is_consistent no_repeat ids active_games keep_if
  is_consistent-kept [] h = refl
  is_consistent-kept (i ∷ t) h =
      grind (arith, is_consistent-kept t, contains-ids-kept t i.id, contains-active_games-kept t)
