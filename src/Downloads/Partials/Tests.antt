-- ===== src/Downloads/Partials/Tests.antt =====
-- Two staged games, one queued and one that failed long ago, and the theorems at them.
use romcloud.Base.{
  ◌+◌, String, ◌≡◌, ◌≢◌, refl, true, false, Option, none, some, List, [], ◌∷◌, ◌==◌, inl, string_eq,
  option_eq, keep_if, length, nat_eq, arith,
}
use romcloud.Cache.Model.{CacheMember}
use romcloud.Downloads.Model.{DownloadState, DownloadItem, manual, queued, failed, state_eq}
use romcloud.Downloads.Repository.{Table, list_all}
use romcloud.Downloads.Partials.{
  StagingAsset, StagedGame, is_protected, cleanup_stale_partials, discard_partial,
}
use romcloud.Downloads.Partials.Protects.{is_owned, cleanup_stale_partials-protects}
use romcloud.Downloads.Partials.Discards.{discard_partial-spares}

abbrev item : String → String → DownloadState → DownloadItem
item id game state = record {
  id = id;
  batch_id = none;
  game_id = some game;
  game_title = game;
  system = "psx";
  origin = manual;
  state = state;
  queue_seq = 1;
  worker_instance_id = none;
  bytes_total = 100;
  bytes_present = 0;
  error_code = none;
  error_message = none;
  created_at = 1;
  updated_at = 1;
  started_at = none;
  finished_at = none;
}

abbrev waiting : DownloadItem
waiting = item "1" "a" queued

abbrev table : Table
table = waiting ∷ item "2" "b" failed ∷ []

abbrev member : String → String → CacheMember
member game path = record {
  game_id = game;
  relative_path = path;
  expected_size = none;
  size_bytes = 0;
  is_primary = true;
}

abbrev members : List CacheMember
members =
    member "a" "a.bin" ∷ member "b" "b.bin" ∷ member "a" "shared.bin" ∷ member "b" "shared.bin" ∷ []

abbrev asset : String → StagingAsset
asset path = record { relative_path = path; system = "psx"; updated_at = 1 }

abbrev assets : List StagingAsset
assets = asset "a.bin" ∷ asset "b.bin" ∷ asset "shared.bin" ∷ []

abbrev no_games : String → Option StagedGame
no_games game_id = none

-- Of the failed game only the file that no other game owns is removed.
cleaned :
    cleanup_stale_partials no_games members (λ a. true) 9_000_000 table assets
    ≡ (1, asset "a.bin" ∷ asset "shared.bin" ∷ [])
unfolding cleanup_stale_partials string_eq state_eq list_all keep_if
cleaned = refl

cleanup_stale_partials-protects_example :
    (keep_if
        (is_owned members "a")
        (cleanup_stale_partials no_games members (λ a. true) 9_000_000 table assets).1
      ≡ keep_if (is_owned members "a") assets)
    × ((cleanup_stale_partials no_games members (λ a. true) 9_000_000 table assets).0
          + length (cleanup_stale_partials no_games members (λ a. true) 9_000_000 table assets).1
        ≡ 3)
unfolding is_protected
cleanup_stale_partials-protects_example =
    cleanup_stale_partials-protects no_games members (λ a. true) 9_000_000 table assets waiting "a"
      (inl refl) refl refl

differ : (s t : String) → (s == t) ≡ false → s ≢ t
differ s t h = ground arith

other_id : waiting.id ≢ "2"
unfolding string_eq
other_id = differ "1" "2" refl

discard_partial-spares_example :
    keep_if
      (is_owned members "a")
      (discard_partial no_games members (λ a. true) (λ a. 0) 9 "2" table assets).1.1
    ≡ keep_if (is_owned members "a") assets
unfolding is_protected
discard_partial-spares_example =
    discard_partial-spares no_games members (λ a. true) (λ a. 0) 9 table assets "2" waiting "a"
      (inl refl) other_id refl refl
