-- ===== src/Downloads/Manager/Tests.antt =====
-- A manager with a queued item and an idle worker, a run of it, and the theorems at it.
use romcloud.Base.{ℕ, String, ◌≡◌, refl, true, false, none, some, [], ◌∷◌, string_eq, option_eq}
use romcloud.Base.Dict.{insert}
use romcloud.Downloads.Model.{DownloadState, DownloadItem, manual, queued, running, paused, failed}
use romcloud.Downloads.Repository.{is_consistent, get}
use romcloud.Downloads.Manager.{
  Manager, to_pause, returned, transfer_cancelled, request_active_stop, handle_ending,
}
use romcloud.Downloads.Manager.Stops.{request_active_stop-handle_ending}

abbrev item : String → String → DownloadState → ℕ → DownloadItem
item id game state seq = record {
  id = id;
  batch_id = none;
  game_id = some game;
  game_title = game;
  system = "psx";
  origin = manual;
  state = state;
  queue_seq = seq;
  worker_instance_id = none;
  bytes_total = 100;
  bytes_present = 0;
  error_code = none;
  error_message = none;
  created_at = 1;
  updated_at = seq;
  started_at = none;
  finished_at = none;
}

abbrev idle : Manager
idle = record {
  table = item "1" "a" queued 1 ∷ item "2" "b" queued 2 ∷ item "3" "c" failed 3 ∷ [];
  instance_id = "worker";
  active_item_id = none;
  active_token = none;
  requested_stop = [];
  offline_suspended = false;
}

-- The worker has claimed the first item.
abbrev busy : Manager
busy = record idle {
  table =
      record (item "1" "a" running 1) {
        worker_instance_id = some "worker";
        updated_at = 9;
        started_at = some 9;
      }
      ∷ item "2" "b" queued 2
      ∷ item "3" "c" failed 3
      ∷ [];
  active_item_id = some "1";
  active_token = some false;
}

-- The second item is not claimed while the first one runs, and the first is paused.
abbrev stopped : Manager
stopped = record busy { active_token = some true; requested_stop = ("1", to_pause) ∷ [] }

stops : request_active_stop "1" to_pause busy ≡ (returned tt, stopped)
unfolding request_active_stop string_eq option_eq insert
stops = refl

request_active_stop-handle_ending_example :
    (stopped.active_token ≡ some true)
    × ((after : DownloadItem) × (get "1"
            (handle_ending none "1" 12 40 100 transfer_cancelled stopped).table
          ≡ some after)
        × (after.state ≡ paused)
        × (after.worker_instance_id ≡ none)
        × (after.bytes_present ≡ 40))
unfolding is_consistent get string_eq option_eq
request_active_stop-handle_ending_example =
    request_active_stop-handle_ending none "1" 12 40 100 to_pause busy stopped
      (record (item "1" "a" running 1) {
        worker_instance_id = some "worker";
        updated_at = 9;
        started_at = some 9;
      })
      refl refl refl stops
