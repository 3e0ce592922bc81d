-- ===== src/Downloads/Manager/Serial.antt =====
-- The manager runs one item at a time: an item that is running or verifying is the worker's.
use mathlib.Core.Path.{subst}
use romcloud.Base.{
  ℕ, String, ◌≡◌, Bool, true, false, Option, some, List, [], ◌∷◌, string_eq, option_eq, contains,
  keep_if, find, ◌+◌, arith, All, Bool-cases, Option-cases, inl, inr,
}
use romcloud.Downloads.Model.{DownloadState, running, verifying, cancelled, DownloadItem, state_eq}
use romcloud.Downloads.Repository.{
  Table, is_consistent, updated, update_where, transition, transitioned, is_from, update_progress,
  queued_cancel_all, retry_all_failed, delete_queued, prune_terminal, retry_loop, is_queued,
  is_failed, is_failed_row, requeued, recent_first, is_active_for, rowcount,
}
use romcloud.Downloads.Repository.Keeps.{
  update_where-consistent, transition-consistent, delete_queued-consistent,
  prune_terminal-consistent,
}
use romcloud.Downloads.Repository.Retry.{retry_all_failed-ok}
use romcloud.Downloads.Repository.Answers.{Answered, refused, moved, transition-Answered}

abbrev pub executes : DownloadState → Bool
executes running = true
executes verifying = true
executes _ = false

-- The only item that may be running or verifying is that of `active`.
abbrev pub Only : Option String → Table → Type 0
Only active = All (λ i. executes i.state ≡ true → active ≡ some i.id)

module _ (active : Option String) (p : DownloadItem → Bool) where
  Only-updated :
      (f : DownloadItem → DownloadItem) (t : Table)
      → ((i : DownloadItem)
          → p i ≡ true
          → (executes i.state ≡ true → active ≡ some i.id)
          → executes (f i).state ≡ true
          → active ≡ some (f i).id)
      → Only active t
      → Only active (updated p f t)
  unfolding updated
  Only-updated f [] h o = tt
  Only-updated f (i ∷ t) h o = elim (Bool-cases (p i)) [
    | inl hit ↦ rw hit (h i hit o.0, Only-updated f t h o.1)
    | inr miss ↦ rw miss (o.0, Only-updated f t h o.1)
  ]

  pub Only-keep_if : (t : Table) → Only active t → Only active (keep_if p t)
  unfolding keep_if
  Only-keep_if [] o = tt
  Only-keep_if (i ∷ t) o = elim (Bool-cases (p i)) [
    | inl hit ↦ rw hit (o.0, Only-keep_if t o.1)
    | inr miss ↦ rw miss (Only-keep_if t o.1)
  ]

  pub Only-update_where :
      (f : DownloadItem → DownloadItem) (t t' : Table)
      → update_where p f t ≡ some t'
      → ((i : DownloadItem)
          → p i ≡ true
          → (executes i.state ≡ true → active ≡ some i.id)
          → executes (f i).state ≡ true
          → active ≡ some (f i).id)
      → Only active t
      → Only active t'
  Only-update_where f t t' e h o = rw (update_where-consistent p f t t' e).0 (Only-updated f t h o)

Answered-Only :
    (active : Option String) (item_id : String) (from_states : List DownloadState)
    (f : DownloadItem → DownloadItem) (t : Table) (r : Bool × Table)
    → Answered item_id from_states f t r
    → ((i : DownloadItem) → i.id ≡ item_id → executes (f i).state ≡ true → active ≡ some (f i).id)
    → Only active t
    → Only active r.1
Answered-Only active item_id froms f t _ refused h o = o
Answered-Only active item_id froms f t _ (moved item t' g c g' e) h o =
    rw e (Only-updated active (is_from item_id froms) f t (λ i hit k. h i (ground arith)) o)

-- A transition to a state that does not execute, or of the active item.
pub transition-Only :
    (active : Option String) (item_id : String) (now : ℕ) (from_states : List DownloadState)
    (to_state : DownloadState) (worker code message : Option String) (t : Table)
    → is_consistent t ≡ true
    → (executes to_state ≡ true → active ≡ some item_id)
    → Only active t
    → Only active (transition item_id now from_states to_state worker code message t).1
unfolding transitioned
transition-Only active item_id now froms to_state worker code message t fine h o =
    Answered-Only active item_id froms (transitioned now to_state worker code message) t _
      (transition-Answered item_id now froms to_state worker code message t fine)
      (λ i same e. rw same (h e)) o

-- The table keeps its index, and only the worker's item executes.
abbrev pub Serial : Option String → Table → Type 0
Serial active t = (is_consistent t ≡ true) × Only active t

pub transition-Serial :
    (active : Option String) (item_id : String) (now : ℕ) (from_states : List DownloadState)
    (to_state : DownloadState) (worker code message : Option String) (t : Table)
    → (executes to_state ≡ true → active ≡ some item_id)
    → Serial active t
    → Serial active (transition item_id now from_states to_state worker code message t).1
transition-Serial active item_id now froms to_state worker code message t h (fine, o) = (
  transition-consistent item_id now froms to_state worker code message t fine,
  transition-Only active item_id now froms to_state worker code message t fine h o,
)

pub delete_queued-Serial :
    (active : Option String) (item_id : String) (t : Table)
    → Serial active t
    → Serial active (delete_queued item_id t).1
unfolding delete_queued
delete_queued-Serial active item_id t (fine, o) =
    (delete_queued-consistent item_id t fine, Only-keep_if active _ t o)

pub prune_terminal-Serial :
    (active : Option String) (has_partial : DownloadItem → Bool) (keep : ℕ) (t : Table)
    → Serial active t
    → Serial active (prune_terminal has_partial keep t).1
unfolding prune_terminal
prune_terminal-Serial active has_partial keep t (fine, o) =
    (prune_terminal-consistent has_partial keep t fine, Only-keep_if active _ t o)

pub update_progress-Serial :
    (active : Option String) (item_id : String) (now present total : ℕ) (t t' : Table)
    → update_progress item_id now present total t ≡ some t'
    → Serial active t
    → Serial active t'
unfolding update_progress
update_progress-Serial active item_id now present total t t' e (fine, o) = (
  (update_where-consistent _ _ t t' e).1,
  Only-update_where active _ _ t t' e (λ i hit k x. k x) o,
)

pub queued_cancel_all-Serial :
    (active : Option String) (now n : ℕ) (t t' : Table)
    → queued_cancel_all now t ≡ some (n, t')
    → Serial active t
    → Serial active t'
unfolding queued_cancel_all
queued_cancel_all-Serial active now n t t' e (fine, o) =
    let f : DownloadItem → DownloadItem =
      λ i. record i { state = cancelled; updated_at = now; finished_at = some now } in
    elim (Option-cases (update_where is_queued f t)) [
      | inl raised ↦ absurd (ground arith)
      | inr (t1, done) ↦
          let same : t1 ≡ t' = ground arith in
          subst (Serial active) same (
            (update_where-consistent is_queued f t t1 done).1,
            Only-update_where active is_queued f t t1 done (λ i hit k x. absurd (ground arith)) o,
          )
    ]

retry_loop-Only :
    (active : Option String) (now : ℕ) (rows : List DownloadItem) (claimed : List String)
    (count n : ℕ) (t t' : Table)
    → retry_loop now rows claimed count t ≡ some (n, t')
    → Only active t
    → Only active t'
unfolding retry_loop
retry_loop-Only active now [] claimed count n t t' e o =
    let same : t ≡ t' = ground arith in subst (Only active) same o
retry_loop-Only active now (row ∷ rows) claimed count n t t' e o = elim (Option-cases row.game_id) [
  | inl no_game ↦ retry_loop-Only active now rows claimed count n t t' (ground arith) o
  | inr (g, is_g) ↦ elim (Bool-cases (contains claimed g)) [
    | inl seen ↦ retry_loop-Only active now rows claimed count n t t' (ground arith) o
    | inr unseen ↦ elim (Option-cases (find (is_active_for g) t)) [
      | inr (other, found) ↦ retry_loop-Only active now rows claimed count n t t' (ground arith) o
      | inl free ↦ elim (Option-cases (update_where (is_failed_row row.id) (requeued now) t)) [
        | inl raised ↦ absurd (ground arith)
        | inr (t1, done) ↦
            retry_loop-Only active now rows (g ∷ claimed)
              (count + rowcount (is_failed_row row.id) t) n t1 t' (ground arith)
              (Only-update_where active (is_failed_row row.id) (requeued now) t t1 done
                (λ i hit k x. absurd (ground arith)) o)
      ]
    ]
  ]
]

pub retry_all_failed-Serial :
    (active : Option String) (now n : ℕ) (t t' : Table)
    → retry_all_failed now t ≡ some (n, t')
    → Serial active t
    → Serial active t'
unfolding retry_all_failed
retry_all_failed-Serial active now n t t' e (fine, o) =
    let (n', t1, e', fine') = retry_all_failed-ok now t fine in
    let same : t1 ≡ t' = ground (arith, e, e') in
    (
      rw (← same) fine',
      retry_loop-Only active now (recent_first (keep_if is_failed t)) [] 0 n t t' e o,
    )
