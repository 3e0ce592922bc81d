-- ===== src/Downloads/Repository/Operations.antt =====
-- The operations of the repository together, and what its answers mean.
use romcloud.Base.{
  ℕ, String, ◌≡◌, refl, Bool, true, not, ◌&&◌, Option, none, some, List, string_eq, option_eq,
  contains, arith, nat_eq,
}
use romcloud.Downloads.Model.{DownloadOrigin, DownloadState, state_eq, DownloadItem}
use romcloud.Downloads.Repository.{
  Table, ids, is_consistent, enqueue, transition, update_progress, recover_interrupted,
  queued_cancel_all, retry_all_failed, delete_queued, prune_terminal,
}
use romcloud.Downloads.Repository.Keeps.{
  recover_interrupted-ok, queued_cancel_all-ok, update_progress-ok, transition-consistent,
  delete_queued-consistent, prune_terminal-consistent, enqueue-Enqueued,
}
use romcloud.Downloads.Repository.Retry.{retry_all_failed-ok}

-- The calls that change the table.
pub data Operation : Type 0 where
  enqueue_item :
      (in_games : String → Bool) (item_id : String) (now : ℕ) (batch_id : Option String)
      (game_id title system : String) (origin : DownloadOrigin)
      → Operation
  transition_item :
      (item_id : String) (now : ℕ) (from_states : List DownloadState) (to_state : DownloadState)
      (worker error_code error_message : Option String)
      → Operation
  progress : (item_id : String) (now present total : ℕ) → Operation
  recover : (now : ℕ) → Operation
  cancel_queued : (now : ℕ) → Operation
  retry_failed : (now : ℕ) → Operation
  delete_item : (item_id : String) → Operation
  prune : (has_partial : DownloadItem → Bool) (keep : ℕ) → Operation

-- The table after a call, or an integrity error.
unfoldable pub execute : Operation → Table → Option Table
execute (enqueue_item in_games item_id now batch_id g title system origin) t =
    elim (enqueue in_games item_id now batch_id g title system origin t) [
      | none ↦ none
      | some r ↦ some (r.1)
    ]
execute (transition_item item_id now from_states to_state worker code message) t =
    some (transition item_id now from_states to_state worker code message t).1
execute (progress item_id now present total) t = update_progress item_id now present total t
execute (recover now) t = elim (recover_interrupted now t) [ none ↦ none | some r ↦ some (r.1) ]
execute (cancel_queued now) t = elim (queued_cancel_all now t) [ none ↦ none | some r ↦ some (r.1) ]
execute (retry_failed now) t = elim (retry_all_failed now t) [ none ↦ none | some r ↦ some (r.1) ]
execute (delete_item item_id) t = some (delete_queued item_id t).1
execute (prune has_partial keep) t = some (prune_terminal has_partial keep t).1

-- An enqueued item gets an id that no row has, and its game is in the table `games`.
abbrev pub is_fresh : Operation → Table → Bool
is_fresh (enqueue_item in_games item_id now batch_id g title system origin) t =
    not (contains (ids t) item_id) && in_games g
is_fresh _ t = true

-- Where every id is in one row, a game has at most one active item, and an enqueued item gets a fresh
-- id and is of a game that the table `games` holds: no call of the repository raises an integrity
-- error, and each keeps every id in one row and at most one active item for a game.
pub execute-consistent :
    (op : Operation) (t : Table)
    → is_consistent t ≡ true
    → is_fresh op t ≡ true
    → (t' : Table) × (execute op t ≡ some t') × (is_consistent t' ≡ true)
unfolding execute
execute-consistent (enqueue_item in_games item_id now batch_id g title system origin) t fine fresh =
    let (item, made, t', done, outcome, fine') =
      enqueue-Enqueued in_games item_id now batch_id g title system origin t fine
        (ground (arith, fresh)) (ground (arith, fresh)) in
    (t', ground (arith, done), fine')
execute-consistent (transition_item item_id now from_states to_state worker code message) t fine
      fresh =
    (_, refl, transition-consistent item_id now from_states to_state worker code message t fine)
execute-consistent (progress item_id now present total) t fine fresh =
    update_progress-ok item_id now present total t fine
execute-consistent (recover now) t fine fresh =
    let (n, t', done, fine') = recover_interrupted-ok now t fine in
    (t', ground (arith, done), fine')
execute-consistent (cancel_queued now) t fine fresh =
    let (n, t', done, fine') = queued_cancel_all-ok now t fine in (t', ground (arith, done), fine')
execute-consistent (retry_failed now) t fine fresh =
    let (n, t', done, fine') = retry_all_failed-ok now t fine in (t', ground (arith, done), fine')
execute-consistent (delete_item item_id) t fine fresh =
    (_, refl, delete_queued-consistent item_id t fine)
execute-consistent (prune has_partial keep) t fine fresh =
    (_, refl, prune_terminal-consistent has_partial keep t fine)
