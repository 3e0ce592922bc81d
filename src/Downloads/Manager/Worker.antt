-- ===== src/Downloads/Manager/Worker.antt =====
-- The worker's sections, and so every step, keep the items one at a time.
use mathlib.Core.Path.{subst}
use romcloud.Base.{
  ℕ, String, ◌≡◌, refl, ◌∙◌, Bool, false, Option, none, some, List, [], ◌∷◌, string_eq, option_eq,
  if◌then◌else◌, arith, Bool-cases, Option-cases, inl, inr,
}
use romcloud.Base.Dict.{lookup, erase}
use romcloud.Capabilities.{CapabilityPolicy}
use romcloud.Downloads.Model.{
  DownloadState, queued, running, paused, interrupted, verifying, failed, cancelled, complete,
  DownloadItem, state_eq,
}
use romcloud.Downloads.Repository.{transition, get, update_progress}
use romcloud.Downloads.Manager.Turns.{
  IsSerial, Same-IsSerial, pause-Same, shutdown-Same, apply_operating_mode-Same,
  downloads_blocked-Same, move_or_raise-IsSerial, cancel-IsSerial, cancel_all-IsSerial,
  retry_failed-IsSerial, note_progress-IsSerial,
}
use romcloud.Downloads.Model.{DownloadOrigin}
use romcloud.Downloads.Manager.{CatalogItem, enqueue_games, first_only}
use romcloud.Downloads.Manager.{
  Manager, StopRequest, to_pause, to_cancel, to_interrupt, Ending, transfer_cancelled, raised,
  cached, pause, resume, retry, remove_queued, shutdown, apply_operating_mode, downloads_blocked,
  reject_item, claim_item, note_verified, note_progress, settle_item, handle_ending, finish_item,
  history_limit, requested_or_interrupted,
}
use romcloud.Downloads.Manager.Requests.{IsFresh, enqueue_each-Serial}
use romcloud.Downloads.Manager.Settled.{no_row, transition-refused, claimed-Serial, settled-Serial}
use romcloud.Downloads.Manager.Steps.{
  Action, pause_item, resume_item, cancel_item, retry_item, remove_item, cancel_every, retry_every,
  stop, set_mode, reject, claim, verified, progressed, finish, act, Enabled, request, AreDifferent,
  Reach, start, next,
}
use romcloud.Downloads.Manager.Serial.{
  Serial, executes, transition-Serial, delete_queued-Serial, prune_terminal-Serial,
  update_progress-Serial,
}

-- What the worker claims is its item, and if it claims nothing it has none.
claim_item-IsSerial :
    (loaded : Option CapabilityPolicy) (item_id : String) (now : ℕ) (retained : Bool) (m : Manager)
    → m.active_item_id ≡ none
    → IsSerial m
    → IsSerial (claim_item loaded item_id now retained m).1
unfolding claim_item
claim_item-IsSerial loaded item_id now retained m idle h =
    let n = (downloads_blocked loaded m).1 in
    let same = downloads_blocked-Same loaded m in
    let h' : IsSerial n = Same-IsSerial m n same h in
    let idle' : n.active_item_id ≡ none = same.1 ∙ idle in
    let initial = if retained then verifying else running in
    let h0 : Serial none n.table = subst (λ a. Serial a n.table) idle' h' in
    elim (Bool-cases (downloads_blocked loaded m).0) [
      | inl blocked ↦ rw (claim_item, blocked) h'
      | inr free ↦
          elim (Bool-cases
            (transition item_id now (queued ∷ []) initial (some n.instance_id) none none
              n.table).0) [
                | inl claimed ↦
                    rw (claim_item, free, claimed)
                      (claimed-Serial item_id now (queued ∷ []) initial (some n.instance_id) none
                        none n.table h0)
                | inr lost ↦
                    rw
                      (
                        claim_item,
                        free,
                        lost,
                        transition-refused item_id now (queued ∷ []) initial (some n.instance_id)
                            none none n.table (h0.0) lost,
                      )
                      h'
              ]
    ]

settle_item-Serial :
    (item_id : String) (now : ℕ) (target : DownloadState) (code message : Option String)
    (m : Manager)
    → executes target ≡ false
    → Serial (some item_id) m.table
    → Serial none (settle_item item_id now target code message m).table
unfolding settle_item
settle_item-Serial item_id now target code message m stops h =
    elim (Option-cases (get item_id m.table)) [
      | inl missing ↦ rw (settle_item, missing) (h.0, no_row item_id m.table missing h.1)
      | inr (current, at) ↦
          rw (settle_item, at)
            (settled-Serial item_id now current target code message m.table at stops h)
    ]

requested-stops : (o : Option StopRequest) → executes (requested_or_interrupted o) ≡ false
requested-stops none = refl
requested-stops (some to_pause) = refl
requested-stops (some to_cancel) = refl
requested-stops (some to_interrupt) = refl

note_progress-Serial :
    (active : Option String) (item_id : String) (now present total : ℕ) (m : Manager)
    → Serial active m.table
    → Serial active (note_progress item_id now present total m).table
unfolding note_progress
note_progress-Serial active item_id now present total m h =
    elim (Option-cases (update_progress item_id now present total m.table)) [
      | inl broken ↦ rw (note_progress, broken) h
      | inr (t, done) ↦
          rw (note_progress, done)
            (update_progress-Serial active item_id now present total m.table t done h)
    ]

handle_ending-Serial :
    (loaded : Option CapabilityPolicy) (item_id : String) (now present total : ℕ) (ending : Ending)
    (m : Manager)
    → Serial (some item_id) m.table
    → Serial none (handle_ending loaded item_id now present total ending m).table
unfolding handle_ending
handle_ending-Serial loaded item_id now present total transfer_cancelled m h =
    let noted = note_progress item_id now present total m in
    settle_item-Serial item_id now (requested_or_interrupted (lookup item_id noted.requested_stop))
      none none (record noted { requested_stop = erase item_id noted.requested_stop })
      (requested-stops (lookup item_id noted.requested_stop))
      (note_progress-Serial (some item_id) item_id now present total m h)
handle_ending-Serial loaded item_id now present total (raised code message) m h =
    let b = downloads_blocked loaded m in
    let h' : Serial (some item_id) (b.1).table = rw (downloads_blocked-Same loaded m).0 h in
    elim (Option-cases (get item_id m.table)) [
      | inl missing ↦ rw (handle_ending, missing) (h.0, no_row item_id m.table missing h.1)
      | inr (current, at) ↦ elim (Bool-cases b.0) [
        | inl blocked ↦
            rw (handle_ending, at, blocked)
              (settle_item-Serial item_id now paused none none
                (note_progress item_id now present total b.1) refl
                (note_progress-Serial (some item_id) item_id now present total b.1 h'))
        | inr free ↦
            rw (handle_ending, at, free)
              (settle_item-Serial item_id now failed (some code) (some message) b.1 refl h')
      ]
    ]
handle_ending-Serial loaded item_id now present total cached m h =
    settle_item-Serial item_id now complete none none m refl h

finish_item-IsSerial :
    (has_partial : DownloadItem → Bool) (loaded : Option CapabilityPolicy) (item_id : String)
    (now present total : ℕ) (ending : Ending) (m : Manager)
    → m.active_item_id ≡ some item_id
    → IsSerial m
    → IsSerial (finish_item has_partial loaded item_id now present total ending m)
unfolding finish_item
finish_item-IsSerial has_partial loaded item_id now present total ending m mine h =
    prune_terminal-Serial none has_partial history_limit
      (handle_ending loaded item_id now present total ending m).table
      (handle_ending-Serial loaded item_id now present total ending m
        (subst (λ a. Serial a m.table) mine h))

enqueue_games-IsSerial :
    (in_games : String → Bool) (games : String → Option CatalogItem) (new_id : ℕ → String) (now : ℕ)
    (batch_id : Option String) (origin : DownloadOrigin) (game_ids : List String) (m : Manager)
    → IsFresh new_id 0 m.table
    → AreDifferent new_id
    → IsSerial m
    → IsSerial (enqueue_games in_games games new_id now batch_id origin game_ids m).1
unfolding enqueue_games
enqueue_games-IsSerial in_games games new_id now batch_id origin game_ids m fresh different h =
    let (mine, h') =
      enqueue_each-Serial in_games games new_id now batch_id origin different m.active_item_id
        (first_only [] game_ids) 0 0 m refl h fresh in
    rw mine h'

pub act-IsSerial : (a : Action) (m : Manager) → Enabled a m → IsSerial m → IsSerial (act a m)
unfolding act resume retry remove_queued reject_item note_verified
act-IsSerial (request in_games games new_id now batch_id origin game_ids) m on h =
    enqueue_games-IsSerial in_games games new_id now batch_id origin game_ids m on.0 on.1 h
act-IsSerial (pause_item item_id now) m on h =
    Same-IsSerial m (pause item_id m).1 (pause-Same item_id m) h
act-IsSerial (resume_item item_id now) m on h =
    move_or_raise-IsSerial item_id now (paused ∷ interrupted ∷ cancelled ∷ []) queued m refl h
act-IsSerial (cancel_item item_id now) m on h = cancel-IsSerial item_id now m h
act-IsSerial (retry_item item_id now) m on h =
    move_or_raise-IsSerial item_id now (failed ∷ []) queued m refl h
act-IsSerial (remove_item item_id) m on h = delete_queued-Serial m.active_item_id item_id m.table h
act-IsSerial (cancel_every now) m on h = cancel_all-IsSerial now m h
act-IsSerial (retry_every now) m on h = retry_failed-IsSerial now m h
act-IsSerial stop m on h = Same-IsSerial m (shutdown m) (shutdown-Same m) h
act-IsSerial (set_mode offline) m on h =
    Same-IsSerial m (apply_operating_mode offline m) (apply_operating_mode-Same offline m) h
act-IsSerial (reject item_id now code message) m on h =
    transition-Serial m.active_item_id item_id now (queued ∷ []) failed none (some code)
      (some message) m.table (λ e. absurd (ground arith)) h
act-IsSerial (claim loaded item_id now retained) m on h =
    claim_item-IsSerial loaded item_id now retained m on h
act-IsSerial (verified item_id now) m on h =
    transition-Serial m.active_item_id item_id now (verifying ∷ []) running (some m.instance_id)
      none none m.table (λ e. on) h
act-IsSerial (progressed item_id now done total) m on h =
    note_progress-IsSerial item_id now done total m h
act-IsSerial (finish has_partial loaded item_id now present total ending) m on h =
    finish_item-IsSerial has_partial loaded item_id now present total ending m on h

pub Reach-IsSerial : (m0 m : Manager) → IsSerial m0 → Reach m0 m → IsSerial m
Reach-IsSerial m0 _ h start = h
Reach-IsSerial m0 _ h (next a m on r) = act-IsSerial a m on (Reach-IsSerial m0 m h r)
