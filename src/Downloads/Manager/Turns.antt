-- ===== src/Downloads/Manager/Turns.antt =====
-- Every step of the manager keeps its items one at a time.
use romcloud.Base.{
  ℕ, String, ◌≡◌, refl, Bool, true, false, Option, none, List, [], ◌∷◌, ◌==◌, string_eq, option_eq,
  arith, Bool-cases, Option-cases, inl, inr,
}
use romcloud.Capabilities.{CapabilityPolicy}
use romcloud.Downloads.Model.{DownloadState, queued, cancelled, state_eq}
use romcloud.Downloads.Repository.{
  is_executing, get, update_progress, queued_cancel_all, retry_all_failed,
}
use romcloud.Downloads.Manager.{
  Manager, StopRequest, to_pause, to_cancel, to_interrupt, stop_active, request_active_stop, pause,
  move, move_or_raise, cancel, cancel_all, retry_failed, shutdown, apply_operating_mode,
  downloads_blocked, note_progress,
}
use romcloud.Downloads.Manager.Serial.{
  Serial, executes, transition-Serial, update_progress-Serial, queued_cancel_all-Serial,
  retry_all_failed-Serial,
}

abbrev pub IsSerial : Manager → Type 0
IsSerial m = Serial m.active_item_id m.table

-- The manager has the same table and the same item as before.
abbrev pub Same : Manager → Manager → Type 0
Same m n = (n.table ≡ m.table) × (n.active_item_id ≡ m.active_item_id)

pub Same-IsSerial : (m n : Manager) → Same m n → IsSerial m → IsSerial n
Same-IsSerial m n same h = rw (same.0, same.1) h

pub stop_active-Same : (action : StopRequest) (m : Manager) → Same m (stop_active action m).1
unfolding stop_active
stop_active-Same action m = ground arith

pub request_active_stop-Same :
    (item_id : String) (action : StopRequest) (m : Manager)
    → Same m (request_active_stop item_id action m).1
unfolding request_active_stop
request_active_stop-Same item_id action m = ground (arith, stop_active-Same action m)

pub pause-Same : (item_id : String) (m : Manager) → Same m (pause item_id m).1
unfolding pause
pause-Same item_id m = ground (arith, request_active_stop-Same item_id to_pause m)

pub shutdown-Same : (m : Manager) → Same m (shutdown m)
unfolding shutdown
shutdown-Same m = stop_active-Same to_interrupt m

pub apply_operating_mode-Same :
    (offline : Bool) (m : Manager) → Same m (apply_operating_mode offline m)
unfolding apply_operating_mode
apply_operating_mode-Same true m = stop_active-Same to_pause (record m { offline_suspended = true })
apply_operating_mode-Same false m = (refl, refl)

pub downloads_blocked-Same :
    (loaded : Option CapabilityPolicy) (m : Manager) → Same m (downloads_blocked loaded m).1
unfolding downloads_blocked
downloads_blocked-Same loaded m = ground arith

-- A transition to a state that does not execute.
pub move_or_raise-IsSerial :
    (item_id : String) (now : ℕ) (froms : List DownloadState) (to_state : DownloadState)
    (m : Manager)
    → executes to_state ≡ false
    → IsSerial m
    → IsSerial (move_or_raise item_id now froms to_state m).1
unfolding move_or_raise move
move_or_raise-IsSerial item_id now froms to_state m idle h =
    transition-Serial m.active_item_id item_id now froms to_state none none none m.table
      (λ e. absurd (ground arith)) h

pub cancel-IsSerial :
    (item_id : String) (now : ℕ) (m : Manager) → IsSerial m → IsSerial (cancel item_id now m).1
unfolding cancel
cancel-IsSerial item_id now m h = elim (Option-cases (get item_id m.table)) [
  | inl missing ↦ rw (cancel, missing) h
  | inr (item, at) ↦ elim (Bool-cases (item.state == queued)) [
    | inl waits ↦
        rw (cancel, at, waits) (move_or_raise-IsSerial item_id now (queued ∷ []) cancelled m refl h)
    | inr other ↦ elim (Bool-cases (is_executing item)) [
      | inl runs ↦
          rw (cancel, at, other, runs)
            (Same-IsSerial m (request_active_stop item_id to_cancel m).1
              (request_active_stop-Same item_id to_cancel m) h)
      | inr idle ↦ rw (cancel, at, other, idle) h
    ]
  ]
]

pub cancel_all-IsSerial : (now : ℕ) (m : Manager) → IsSerial m → IsSerial (cancel_all now m).1
unfolding cancel_all
cancel_all-IsSerial now m h = elim (Option-cases (queued_cancel_all now m.table)) [
  | inl broken ↦ rw (cancel_all, broken) h
  | inr ((n, t), done) ↦
      rw (cancel_all, done)
        (Same-IsSerial (record m { table = t }) (stop_active to_cancel (record m { table = t })).1
          (stop_active-Same to_cancel (record m { table = t }))
          (queued_cancel_all-Serial m.active_item_id now n m.table t done h))
]

pub retry_failed-IsSerial : (now : ℕ) (m : Manager) → IsSerial m → IsSerial (retry_failed now m).1
unfolding retry_failed
retry_failed-IsSerial now m h = elim (Option-cases (retry_all_failed now m.table)) [
  | inl broken ↦ rw (retry_failed, broken) h
  | inr ((n, t), done) ↦
      rw (retry_failed, done) (retry_all_failed-Serial m.active_item_id now n m.table t done h)
]

pub note_progress-IsSerial :
    (item_id : String) (now done total : ℕ) (m : Manager)
    → IsSerial m
    → IsSerial (note_progress item_id now done total m)
unfolding note_progress
note_progress-IsSerial item_id now present total m h =
    elim (Option-cases (update_progress item_id now present total m.table)) [
      | inl broken ↦ rw (note_progress, broken) h
      | inr (t, done) ↦
          rw (note_progress, done)
            (update_progress-Serial m.active_item_id item_id now present total m.table t done h)
    ]
