-- ===== src/Downloads/Manager/Steps.antt =====
-- The steps of the manager: the calls of the browser at any time, and the sections of the one worker,
-- which claims an item only when it has none, and reports on the item it has.
use romcloud.Base.{ℕ, String, ◌≡◌, Bool, Option, none, some, List}
use romcloud.Capabilities.{CapabilityPolicy}
use romcloud.Downloads.Model.{DownloadOrigin, DownloadItem}
use romcloud.Downloads.Manager.Requests.{IsFresh}
use romcloud.Downloads.Manager.{
  Manager, Ending, CatalogItem, enqueue_games, pause, cancel, resume, retry, remove_queued,
  cancel_all, retry_failed, shutdown, apply_operating_mode, reject_item, claim_item, note_verified,
  note_progress, finish_item,
}

-- Ids that a uuid generator gives: no two are the same.
abbrev pub AreDifferent : (ℕ → String) → Type 0
AreDifferent new_id = (j k : ℕ) → new_id j ≡ new_id k → j ≡ k

-- A call of the browser, or a section of the worker between two locks.
pub data Action : Type 0 where
  request :
      (in_games : String → Bool) (games : String → Option CatalogItem) (new_id : ℕ → String)
      (now : ℕ) (batch_id : Option String) (origin : DownloadOrigin) (game_ids : List String)
      → Action
  pause_item resume_item cancel_item retry_item : (item_id : String) (now : ℕ) → Action
  remove_item : (item_id : String) → Action
  cancel_every : (now : ℕ) → Action
  retry_every : (now : ℕ) → Action
  stop : Action
  set_mode : (offline : Bool) → Action
  reject : (item_id : String) (now : ℕ) (error_code error_message : String) → Action
  claim : (loaded : Option CapabilityPolicy) (item_id : String) (now : ℕ) (retained : Bool) → Action
  verified : (item_id : String) (now : ℕ) → Action
  progressed : (item_id : String) (now done total : ℕ) → Action
  finish :
      (has_partial : DownloadItem → Bool) (loaded : Option CapabilityPolicy) (item_id : String)
      (now present total : ℕ) (ending : Ending)
      → Action

unfoldable pub act : Action → Manager → Manager
unfolding enqueue_games pause cancel resume retry remove_queued cancel_all retry_failed shutdown
    apply_operating_mode reject_item claim_item note_verified note_progress finish_item
act (request in_games games new_id now batch_id origin game_ids) m =
    (enqueue_games in_games games new_id now batch_id origin game_ids m).1
act (pause_item item_id now) m = (pause item_id m).1
act (resume_item item_id now) m = (resume item_id now m).1
act (cancel_item item_id now) m = (cancel item_id now m).1
act (retry_item item_id now) m = (retry item_id now m).1
act (remove_item item_id) m = (remove_queued item_id m).1
act (cancel_every now) m = (cancel_all now m).1
act (retry_every now) m = (retry_failed now m).1
act stop m = shutdown m
act (set_mode offline) m = apply_operating_mode offline m
act (reject item_id now code message) m = reject_item item_id now code message m
act (claim loaded item_id now retained) m = (claim_item loaded item_id now retained m).1
act (verified item_id now) m = note_verified item_id now m
act (progressed item_id now done total) m = note_progress item_id now done total m
act (finish has_partial loaded item_id now present total ending) m =
    finish_item has_partial loaded item_id now present total ending m

-- The ids of new items are fresh, and the worker claims with no item, and otherwise reports on its own.
abbrev pub Enabled : Action → Manager → Type 0
Enabled (request in_games games new_id now batch_id origin game_ids) m =
    IsFresh new_id 0 m.table × AreDifferent new_id
Enabled (claim loaded item_id now retained) m = m.active_item_id ≡ none
Enabled (verified item_id now) m = m.active_item_id ≡ some item_id
Enabled (progressed item_id now done total) m = m.active_item_id ≡ some item_id
Enabled (finish has_partial loaded item_id now present total ending) m =
    m.active_item_id ≡ some item_id
Enabled _ m = Unit

-- What such steps lead to.
pub data Reach (m0 : Manager) : Manager → Type 0 where
  start : Reach m0 m0
  next : (a : Action) (m : Manager) → Enabled a m → Reach m0 m → Reach m0 (act a m)
