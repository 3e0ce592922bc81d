-- ===== src/Downloads/Repository.antt =====
-- `DownloadRepository` of infrastructure/repositories/download.py. The table `download_items` is the
-- list of its rows; a statement that breaks the primary key or the unique index is `none`, for
-- `sqlite3.IntegrityError`. The foreign key of `game_id` is checked where a row is inserted, with the
-- argument `in_games` for the ids of the table `games`; no other call sets that column. `now` and `item_id` stand for `_now()` and `uuid.uuid4().hex`.
pub mod Index
pub mod Keeps
pub mod Retry
pub mod Operations
pub mod Answers
use romcloud.Base.{
  ℕ, ◌+◌, String, Bool, true, false, not, ◌&&◌, ◌||◌, Option, none, some, List, [], ◌∷◌, ◌++◌, ◌==◌,
  string_eq, option_eq, contains, keep_if, find, map, if◌then◌else◌, ltb, leb, length, drop, nat_eq,
}
use romcloud.Downloads.Model.{
  DownloadOrigin, DownloadState, queued, running, paused, interrupted, verifying, failed, cancelled,
  complete, state_eq, is_active, DownloadItem,
}

abbrev pub Table : Type 0
Table = List DownloadItem

unfoldable pub no_repeat : List String → Bool
no_repeat [] = true
no_repeat (k ∷ ks) = not (contains ks k) && no_repeat ks

unfoldable pub ids : Table → List String
ids [] = []
ids (i ∷ t) = i.id ∷ ids t

-- The keys of the index `idx_download_items_active_game`.
unfoldable pub active_games : Table → List String
unfolding is_active
active_games [] = []
active_games (i ∷ t) =
    let rest = active_games t in
    elim i.game_id [ none ↦ rest | some g ↦ if is_active i.state then g ∷ rest else rest ]

-- The primary key and the unique index hold.
unfoldable pub is_consistent : Table → Bool
unfolding no_repeat ids active_games
is_consistent t = no_repeat (ids t) && no_repeat (active_games t)

unfoldable pub updated : (DownloadItem → Bool) → (DownloadItem → DownloadItem) → Table → Table
updated p f [] = []
updated p f (i ∷ t) = let rest = updated p f t in if p i then f i ∷ rest else i ∷ rest

-- `UPDATE download_items SET f WHERE p`
unfoldable pub update_where :
    (DownloadItem → Bool) → (DownloadItem → DownloadItem) → Table → Option Table
unfolding is_consistent updated
update_where p f t = let t' = updated p f t in if is_consistent t' then some t' else none

-- `cursor.rowcount` of such an update
abbrev pub rowcount : (DownloadItem → Bool) → Table → ℕ
rowcount p t = length (keep_if p t)

-- `game_id = ? AND state IN ('queued','running','paused','interrupted','verifying')`
unfoldable pub is_active_for : String → DownloadItem → Bool
unfolding is_active
is_active_for game_id i = i.game_id == some game_id && is_active i.state

-- `COALESCE(MAX(queue_seq), 0)`
unfoldable pub max_seq : Table → ℕ
max_seq [] = 0
max_seq (i ∷ t) = let rest = max_seq t in if ltb i.queue_seq rest then rest else i.queue_seq

abbrev pub new_item :
    String → ℕ → Option String → String → String → String → DownloadOrigin → ℕ → DownloadItem
new_item item_id now batch_id game_id game_title system origin sequence = record {
  id = item_id;
  batch_id = batch_id;
  game_id = some game_id;
  game_title = game_title;
  system = system;
  origin = origin;
  state = queued;
  queue_seq = sequence;
  worker_instance_id = none;
  bytes_total = 0;
  bytes_present = 0;
  error_code = none;
  error_message = none;
  created_at = now;
  updated_at = now;
  started_at = none;
  finished_at = none;
}

-- `enqueue`: the item and whether it was created, and the table
unfoldable pub enqueue :
    (String → Bool)
    → String
    → ℕ
    → Option String
    → String
    → String
    → String
    → DownloadOrigin
    → Table
    → Option ((DownloadItem × Bool) × Table)
unfolding find is_active_for max_seq is_consistent
enqueue in_games item_id now batch_id game_id game_title system origin t =
    elim (find (is_active_for game_id) t) [
      | some existing ↦ some ((existing, false), t)
      | none ↦
          let item =
            new_item item_id now batch_id game_id game_title system origin (max_seq t + 1) in
          if is_consistent (t ++ item ∷ []) && in_games game_id
          then some ((item, true), t ++ item ∷ [])
          else none
    ]

-- `get`
unfoldable pub get : String → Table → Option DownloadItem
unfolding find
get item_id t = find (λ (i : DownloadItem). i.id == item_id) t

-- `ORDER BY queue_seq`
unfoldable pub insert_by_seq : DownloadItem → List DownloadItem → List DownloadItem
insert_by_seq i [] = i ∷ []
insert_by_seq i (j ∷ js) =
    let rest = insert_by_seq i js in if leb i.queue_seq j.queue_seq then i ∷ j ∷ js else j ∷ rest

unfoldable pub by_seq : List DownloadItem → List DownloadItem
unfolding insert_by_seq
by_seq [] = []
by_seq (i ∷ is) = insert_by_seq i (by_seq is)

-- `list_all`
unfoldable pub list_all : Table → List DownloadItem
unfolding by_seq
list_all t = by_seq t

-- `next_queued`
unfoldable pub next_queued : Table → Option DownloadItem
unfolding by_seq keep_if
next_queued t = elim (by_seq (keep_if (λ (i : DownloadItem). i.state == queued) t)) [
  | [] ↦ none
  | i ∷ is ↦ some i
]

-- The columns that `transition` sets. `COALESCE(started_at, ?)` keeps a first start.
unfoldable pub transitioned :
    ℕ → DownloadState → Option String → Option String → Option String → DownloadItem → DownloadItem
transitioned now to_state worker_instance_id error_code error_message i =
    let started : Option ℕ = elim to_state [
      | running ↦ some now
      | verifying ↦ some now
      | _ ↦ none
    ] in
    let finished : Option ℕ = elim to_state [
      | complete ↦ some now
      | cancelled ↦ some now
      | failed ↦ some now
      | _ ↦ none
    ] in
    record i {
      state = to_state;
      worker_instance_id = worker_instance_id;
      updated_at = now;
      started_at = elim i.started_at [ none ↦ started | some at ↦ some at ];
      finished_at = finished;
      error_code = error_code;
      error_message = error_message;
    }

-- `id=? AND state IN (…)`
abbrev pub is_from : String → List DownloadState → DownloadItem → Bool
is_from item_id from_states i = i.id == item_id && contains from_states i.state

-- `transition`: a statement that breaks the index is caught and answers `False`.
unfoldable pub transition :
    String
    → ℕ
    → List DownloadState
    → DownloadState
    → Option String
    → Option String
    → Option String
    → Table
    → Bool × Table
unfolding update_where transitioned
transition item_id now [] to_state worker_instance_id error_code error_message t = (false, t)
transition item_id now (s ∷ more) to_state worker_instance_id error_code error_message t =
    elim (update_where (is_from item_id (s ∷ more))
      (transitioned now to_state worker_instance_id error_code error_message) t) [
        | none ↦ (false, t)
        | some t' ↦ (rowcount (is_from item_id (s ∷ more)) t == 1, t')
      ]

-- `update_progress`
unfoldable pub update_progress : String → ℕ → ℕ → ℕ → Table → Option Table
unfolding update_where
update_progress item_id now present total t =
    update_where (λ i. i.id == item_id)
      (λ i. record i { bytes_present = present; bytes_total = total; updated_at = now }) t

-- `state IN ('running','verifying')`
abbrev pub is_executing : DownloadItem → Bool
is_executing i = elim i.state [ running ↦ true | verifying ↦ true | _ ↦ false ]

-- `recover_interrupted`: `cursor.rowcount`, and the table
unfoldable pub recover_interrupted : ℕ → Table → Option (ℕ × Table)
unfolding update_where
recover_interrupted now t =
    elim (update_where is_executing
      (λ i. record i { state = interrupted; worker_instance_id = none; updated_at = now }) t) [
        | none ↦ none
        | some t' ↦ some (rowcount is_executing t, t')
      ]

abbrev pub is_queued : DownloadItem → Bool
is_queued i = elim i.state [ queued ↦ true | _ ↦ false ]

-- `queued_cancel_all`
unfoldable pub queued_cancel_all : ℕ → Table → Option (ℕ × Table)
unfolding update_where
queued_cancel_all now t =
    elim (update_where is_queued
      (λ i. record i { state = cancelled; updated_at = now; finished_at = some now }) t) [
        | none ↦ none
        | some t' ↦ some (rowcount is_queued t, t')
      ]

abbrev pub is_failed : DownloadItem → Bool
is_failed i = elim i.state [ failed ↦ true | _ ↦ false ]

-- `ORDER BY updated_at DESC`
unfoldable pub insert_recent : DownloadItem → List DownloadItem → List DownloadItem
insert_recent i [] = i ∷ []
insert_recent i (j ∷ js) =
    let rest = insert_recent i js in if leb j.updated_at i.updated_at then i ∷ j ∷ js else j ∷ rest

unfoldable pub recent_first : List DownloadItem → List DownloadItem
unfolding insert_recent
recent_first [] = []
recent_first (i ∷ is) = insert_recent i (recent_first is)

-- The columns that a retried item gets.
abbrev pub requeued : ℕ → DownloadItem → DownloadItem
requeued now i = record i {
  state = queued;
  updated_at = now;
  finished_at = none;
  error_code = none;
  error_message = none;
}

-- `id=? AND state='failed'`
abbrev pub is_failed_row : String → DownloadItem → Bool
is_failed_row item_id i = i.id == item_id && is_failed i

-- The loop of `retry_all_failed` over the selected rows, with `claimed_games` and `retried`.
unfoldable pub retry_loop : ℕ → List DownloadItem → List String → ℕ → Table → Option (ℕ × Table)
unfolding find is_active_for update_where
retry_loop now [] claimed retried t = some (retried, t)
retry_loop now (row ∷ rows) claimed retried t = elim row.game_id [
  | none ↦ retry_loop now rows claimed retried t
  | some g ↦
      if contains claimed g
      then retry_loop now rows claimed retried t
      else elim (find (is_active_for g) t) [
        | some active ↦ retry_loop now rows claimed retried t
        | none ↦ elim (update_where (is_failed_row row.id) (requeued now) t) [
          | none ↦ none
          | some t' ↦
              retry_loop now rows (g ∷ claimed) (retried + rowcount (is_failed_row row.id) t) t'
        ]
      ]
]

-- `retry_all_failed`
unfoldable pub retry_all_failed : ℕ → Table → Option (ℕ × Table)
unfolding retry_loop recent_first keep_if
retry_all_failed now t = retry_loop now (recent_first (keep_if is_failed t)) [] 0 t

-- `delete_queued`
unfoldable pub delete_queued : String → Table → Bool × Table
unfolding keep_if
delete_queued item_id t = (
  rowcount (λ i. i.id == item_id && is_queued i) t == 1,
  keep_if (λ i. not (i.id == item_id && is_queued i)) t,
)

-- `prune_terminal`, with `has_partial i` for the rows of the staging tables that keep an item
unfoldable pub prune_terminal : (DownloadItem → Bool) → ℕ → Table → ℕ × Table
unfolding keep_if recent_first ids
prune_terminal has_partial keep t =
    let old : List String = ids (
      drop keep (
        recent_first
          (keep_if (λ (i : DownloadItem). not (is_active i.state) && not (has_partial i)) t))) in
    (rowcount (λ i. contains old i.id) t, keep_if (λ (i : DownloadItem). not (contains old i.id)) t)
