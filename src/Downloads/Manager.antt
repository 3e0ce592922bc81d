-- ===== src/Downloads/Manager.antt =====
-- `DownloadManagerService` of services/download_manager.py: the calls of the browser and the sections
-- of the worker thread. A call returns a reply and the manager after it, also when it raises.
-- `_wake`, the speed samples and the lease of the asset locks are left out; what the cache, the
-- catalogue and the clock answer are arguments.
pub mod Steps
pub mod Serial
pub mod Settled
pub mod Requests
pub mod Turns
pub mod Worker
pub mod Stops
mod Tests
use romcloud.Base.{
  ℕ, zero, suc, ◌+◌, String, Bool, true, false, not, ◌&&◌, ◌||◌, Option, none, some, List, [], ◌∷◌,
  ◌==◌, contains, string_eq, option_eq, if◌then◌else◌,
}
use romcloud.Base.Dict.{Dict, lookup, insert, erase}
use romcloud.Capabilities.{CapabilityPolicy, game_download, is_offline, allows}
use romcloud.Downloads.Model.{
  DownloadOrigin, DownloadState, queued, running, paused, interrupted, verifying, failed, cancelled,
  complete, DownloadItem, state_eq,
}
use romcloud.Downloads.Repository.{
  Table, get, transition, enqueue, delete_queued, queued_cancel_all, retry_all_failed,
  update_progress, prune_terminal, is_executing,
}

-- A return, a ValueError, or an integrity error of the database that nothing catches.
pub data Reply {ℓ} (A : Type ℓ) : Type ℓ where
  returned : A → Reply A
  value_error integrity_error : Reply A

-- The texts that are put into `_requested_stop`.
pub data StopRequest : Type 0 where
  to_pause to_cancel to_interrupt : StopRequest

-- `DownloadState(requested)`
abbrev pub stop_state : StopRequest → DownloadState
stop_state to_pause = paused
stop_state to_cancel = cancelled
stop_state to_interrupt = interrupted

-- `active_token` tells whether the token is cancelled.
pub record Manager : Type 0 where
  pub table : Table
  pub instance_id : String
  pub active_item_id : Option String
  pub active_token : Option Bool
  pub requested_stop : Dict String StopRequest
  pub offline_suspended : Bool

-- `self._active_item_id and self._active_token`, then the request and the cancelled token. An id is
-- never the empty text.
unfoldable pub stop_active : StopRequest → Manager → Bool × Manager
stop_active action m = elim m.active_item_id [
  | none ↦ (false, m)
  | some item_id ↦ elim m.active_token [
    | none ↦ (false, m)
    | some c ↦ (
      true,
      record m {
        requested_stop = insert item_id action m.requested_stop;
        active_token = some true;
      },
    )
  ]
]

unfoldable pub request_active_stop : String → StopRequest → Manager → Reply (Unit {0}) × Manager
unfolding stop_active
request_active_stop item_id action m =
    if m.active_item_id == some item_id
    then (let stopped = stop_active action m in
        if stopped.0 then (returned tt, stopped.1) else (value_error, m))
    else (value_error, m)

unfoldable pub pause : String → Manager → Reply (Unit {0}) × Manager
unfolding request_active_stop get
pause item_id m = elim (get item_id m.table) [
  | none ↦ (value_error, m)
  | some item ↦
      if is_executing item then request_active_stop item_id to_pause m else (value_error, m)
]

-- `transition` with no worker and no error, on the manager's table.
unfoldable pub move : String → ℕ → List DownloadState → DownloadState → Manager → Bool × Manager
unfolding transition
move item_id now from_states to_state m =
    let moved = transition item_id now from_states to_state none none none m.table in
    (moved.0, record m { table = moved.1 })

-- A transition that must succeed.
unfoldable pub move_or_raise :
    String → ℕ → List DownloadState → DownloadState → Manager → Reply (Unit {0}) × Manager
unfolding move
move_or_raise item_id now from_states to_state m =
    let moved = move item_id now from_states to_state m in
    (if moved.0 then returned tt else value_error, moved.1)

unfoldable pub cancel : String → ℕ → Manager → Reply (Unit {0}) × Manager
unfolding move_or_raise request_active_stop get
cancel item_id now m = elim (get item_id m.table) [
  | none ↦ (value_error, m)
  | some item ↦
      if item.state == queued
      then move_or_raise item_id now (queued ∷ []) cancelled m
      else if is_executing item
      then request_active_stop item_id to_cancel m
      else (value_error, m)
]

unfoldable pub resume : String → ℕ → Manager → Reply (Unit {0}) × Manager
unfolding move_or_raise
resume item_id now m = move_or_raise item_id now (paused ∷ interrupted ∷ cancelled ∷ []) queued m

unfoldable pub retry : String → ℕ → Manager → Reply (Unit {0}) × Manager
unfolding move_or_raise
retry item_id now m = move_or_raise item_id now (failed ∷ []) queued m

unfoldable pub remove_queued : String → Manager → Reply (Unit {0}) × Manager
unfolding delete_queued
remove_queued item_id m =
    let removed = delete_queued item_id m.table in
    (if removed.0 then returned tt else value_error, record m { table = removed.1 })

unfoldable pub cancel_all : ℕ → Manager → Reply ℕ × Manager
unfolding queued_cancel_all stop_active
cancel_all now m = elim (queued_cancel_all now m.table) [
  | none ↦ (integrity_error, m)
  | some counted ↦
      let stopped = stop_active to_cancel (record m { table = counted.1 }) in
      (returned (if stopped.0 then counted.0 + 1 else counted.0), stopped.1)
]

unfoldable pub retry_failed : ℕ → Manager → Reply ℕ × Manager
unfolding retry_all_failed
retry_failed now m = elim (retry_all_failed now m.table) [
  | none ↦ (integrity_error, m)
  | some counted ↦ (returned counted.0, record m { table = counted.1 })
]

-- `shutdown`, up to the wait for the thread.
unfoldable pub shutdown : Manager → Manager
unfolding stop_active
shutdown m = (stop_active to_interrupt m).1

-- `apply_operating_mode`, up to the wait for the safe boundary.
unfoldable pub apply_operating_mode : Bool → Manager → Manager
unfolding stop_active
apply_operating_mode offline m =
    let latched = record m { offline_suspended = offline } in
    if offline then (stop_active to_pause latched).1 else latched

-- `_downloads_blocked`, with the policy that the loader returns, if there is a loader.
unfoldable pub downloads_blocked : Option CapabilityPolicy → Manager → Bool × Manager
unfolding is_offline allows
downloads_blocked loaded m = if m.offline_suspended then (true, m) else elim loaded [
  | none ↦ (false, m)
  | some policy ↦
      if is_offline policy
      then (true, record m { offline_suspended = true })
      else (not (allows policy game_download), m)
]

-- The worker gives up on a queued item: its game is gone, or its files cannot be resolved.
unfoldable pub reject_item : String → ℕ → String → String → Manager → Manager
unfolding transition
reject_item item_id now error_code error_message m = record m {
  table =
      (transition item_id now (queued ∷ []) failed none (some error_code) (some error_message)
        m.table).1;
}

-- The worker claims a queued item, after it got the locks and if it holds none. `retained` tells
-- whether staged bytes are kept.
unfoldable pub claim_item : Option CapabilityPolicy → String → ℕ → Bool → Manager → Bool × Manager
unfolding downloads_blocked transition
claim_item loaded item_id now retained m =
    let blocked = downloads_blocked loaded m in
    if blocked.0
    then (false, blocked.1)
    else (let initial = if retained then verifying else running in
        let n = blocked.1 in
        let moved =
          transition item_id now (queued ∷ []) initial (some n.instance_id) none none n.table in
        if moved.0
        then (
          true,
          record n { table = moved.1; active_item_id = some item_id; active_token = some false },
        )
        else (false, record n { table = moved.1 }))

-- The first call of `progress` for an item that is being verified.
unfoldable pub note_verified : String → ℕ → Manager → Manager
unfolding transition
note_verified item_id now m = record m {
  table =
      (transition item_id now (verifying ∷ []) running (some m.instance_id) none none m.table).1;
}

-- `update_progress` on the manager's table.
unfoldable pub note_progress : String → ℕ → ℕ → ℕ → Manager → Manager
unfolding update_progress
note_progress item_id now done total m = elim (update_progress item_id now done total m.table) [
  | none ↦ m
  | some t ↦ record m { table = t }
]

-- How `cache_game` ended.
pub data Ending : Type 0 where
  transfer_cancelled : Ending
  raised : (error_code error_message : String) → Ending
  cached : Ending

-- `self._requested_stop.pop(item.id, "interrupted")`, as a state
abbrev pub requested_or_interrupted : Option StopRequest → DownloadState
requested_or_interrupted none = interrupted
requested_or_interrupted (some s) = stop_state s

-- `transition` of the item from the state it has now.
unfoldable pub settle_item :
    String → ℕ → DownloadState → Option String → Option String → Manager → Manager
unfolding transition get
settle_item item_id now target error_code error_message m = elim (get item_id m.table) [
  | none ↦ m
  | some current ↦ record m {
    table =
        (transition item_id now (current.state ∷ []) target none error_code error_message
          m.table).1;
  }
]

-- The handlers of the ways that `cache_game` ends. `present` and `total` are the bytes that
-- `retained_staging_size` and the last progress report.
unfoldable pub handle_ending :
    Option CapabilityPolicy → String → ℕ → ℕ → ℕ → Ending → Manager → Manager
unfolding settle_item note_progress downloads_blocked
handle_ending loaded item_id now present total transfer_cancelled m =
    let noted = note_progress item_id now present total m in
    settle_item item_id now (requested_or_interrupted (lookup item_id noted.requested_stop)) none
      none (record noted { requested_stop = erase item_id noted.requested_stop })
handle_ending loaded item_id now present total (raised error_code error_message) m =
    elim (get item_id m.table) [
      | none ↦ m
      | some current ↦
          let blocked = downloads_blocked loaded m in
          if blocked.0
          then settle_item item_id now paused none none
              (note_progress item_id now present total blocked.1)
          else settle_item item_id now failed (some error_code) (some error_message) blocked.1
    ]
handle_ending loaded item_id now present total cached m =
    settle_item item_id now complete none none m

abbrev pub history_limit : ℕ
history_limit = 200

-- The `finally` of the worker.
unfoldable pub finish_item :
    (DownloadItem → Bool)
    → Option CapabilityPolicy
    → String
    → ℕ
    → ℕ
    → ℕ
    → Ending
    → Manager
    → Manager
unfolding handle_ending prune_terminal
finish_item has_partial loaded item_id now present total ending m =
    let n = handle_ending loaded item_id now present total ending m in
    record n {
      active_item_id = none;
      active_token = none;
      table = (prune_terminal has_partial history_limit n.table).1;
    }

-- What enqueueing reads of a catalogue game.
pub record CatalogItem : Type 0 where
  pub id : String
  pub title : String
  pub system : String
  pub is_eligible : Bool

-- `dict.fromkeys(item for item in game_ids if item)`, without the `seen` ones
unfoldable pub first_only : List String → List String → List String
first_only seen [] = []
first_only seen (game_id ∷ game_ids) =
    if game_id == "" || contains seen game_id
    then first_only seen game_ids
    else game_id ∷ first_only (game_id ∷ seen) game_ids

-- The loop of `enqueue`. `new_id n` is the id of the n-th item that it may create. The reply counts
-- the created items and all. `in_games` is for the foreign key, as in the repository.
unfoldable pub enqueue_each :
    (String → Bool)
    → (String → Option CatalogItem)
    → (ℕ → String)
    → ℕ
    → Option String
    → DownloadOrigin
    → List String
    → ℕ
    → ℕ
    → Manager
    → Reply (ℕ × ℕ) × Manager
unfolding enqueue
enqueue_each in_games games new_id now batch_id origin [] created count m =
    (returned (created, count), m)
enqueue_each in_games games new_id now batch_id origin (game_id ∷ game_ids) created count m =
    elim (games game_id) [
      | none ↦ (value_error, m)
      | some game ↦ elim (game.is_eligible) [
        | false ↦ (value_error, m)
        | true ↦
            elim (enqueue in_games (new_id count) now batch_id game.id game.title game.system origin
              m.table) [
                | none ↦ (integrity_error, m)
                | some r ↦
                    enqueue_each in_games games new_id now batch_id origin game_ids
                      (if (r.0).1 then created + 1 else created) (suc count)
                      (record m { table = r.1 })
              ]
      ]
    ]

-- `if not items: raise ValueError`
abbrev pub some_items : Reply (ℕ × ℕ) → Reply (ℕ × ℕ)
some_items (returned (created, zero)) = value_error
some_items (returned (created, suc count)) = returned (created, suc count)
some_items value_error = value_error
some_items integrity_error = integrity_error

unfoldable pub enqueue_games :
    (String → Bool)
    → (String → Option CatalogItem)
    → (ℕ → String)
    → ℕ
    → Option String
    → DownloadOrigin
    → List String
    → Manager
    → Reply (ℕ × ℕ) × Manager
unfolding enqueue_each first_only
enqueue_games in_games games new_id now batch_id origin game_ids m =
    let done =
      enqueue_each in_games games new_id now batch_id origin (first_only [] game_ids) 0 0 m in
    (some_items done.0, done.1)
