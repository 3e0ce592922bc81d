-- ===== src/Downloads/Repository/Keeps.antt =====
-- No operation of the repository breaks the index, and none raises an integrity error.
use romcloud.Base.{
  ℕ, ◌+◌, ◌<◌, ◌≤◌, String, ◌≡◌, refl, ap, ◌∙◌, Bool, true, false, Option, none, some, List, [],
  ◌∷◌, ◌++◌, ◌==◌, string_eq, option_eq, contains, find, arith, All, contains-append, Bool-cases,
  Option-cases, inl, inr,
}
use romcloud.Base.Dict.{is_some}
use romcloud.Downloads.Model.{
  DownloadOrigin, DownloadState, queued, interrupted, cancelled, is_active, DownloadItem,
}
use romcloud.Downloads.Repository.{
  Table, no_repeat, ids, active_games, is_consistent, updated, update_where, is_active_for, max_seq,
  new_item, enqueue, transition, update_progress, is_executing, recover_interrupted, transitioned,
  is_queued, queued_cancel_all, delete_queued, prune_terminal, rowcount, is_from,
}
use romcloud.Downloads.Repository.Index.{
  contains-active_games, ids-updated, active_games-updated, no_repeat-deactivated,
  is_consistent-kept,
}

pub is_consistent-ids : (t : Table) → is_consistent t ≡ true → no_repeat (ids t) ≡ true
unfolding is_consistent
is_consistent-ids t h = ground (arith, h)

pub is_consistent-games : (t : Table) → is_consistent t ≡ true → no_repeat (active_games t) ≡ true
unfolding is_consistent
is_consistent-games t h = ground (arith, h)

pub is_consistent-join :
    (t : Table)
    → no_repeat (ids t) ≡ true
    → no_repeat (active_games t) ≡ true
    → is_consistent t ≡ true
unfolding is_consistent
is_consistent-join t h k = ground (arith, h, k)

pub update_where-ok :
    (p : DownloadItem → Bool) (f : DownloadItem → DownloadItem) (t : Table)
    → is_consistent (updated p f t) ≡ true
    → update_where p f t ≡ some (updated p f t)
unfolding update_where
update_where-ok p f t h = ground (arith, h)

pub update_where-consistent :
    (p : DownloadItem → Bool) (f : DownloadItem → DownloadItem) (t t' : Table)
    → update_where p f t ≡ some t'
    → (t' ≡ updated p f t) × (is_consistent t' ≡ true)
unfolding update_where
update_where-consistent p f t t' h = elim (Bool-cases (is_consistent (updated p f t))) [
  | inl fine ↦ ground (arith, fine, h)
  | inr broken ↦ ground (arith, broken, h)
]

-- An executing item is active, before and after it is interrupted.
interrupted-active :
    (i : DownloadItem)
    → is_executing i ≡ true
    → (i.game_id ≡ i.game_id) × (is_active interrupted ≡ is_active i.state)
unfolding is_active
interrupted-active i e = ground (arith, e)

pub recover_interrupted-ok :
    (now : ℕ) (t : Table)
    → is_consistent t ≡ true
    → (n : ℕ) × (t' : Table) × (recover_interrupted now t ≡ some (n, t'))
      × (is_consistent t' ≡ true)
unfolding recover_interrupted
recover_interrupted-ok now t h =
    let f : DownloadItem → DownloadItem =
      λ i. record i { state = interrupted; worker_instance_id = none; updated_at = now } in
    let same : active_games (updated is_executing f t) ≡ active_games t =
      active_games-updated is_executing f (λ i e. interrupted-active i e) t in
    let fine =
      is_consistent-join (updated is_executing f t)
        (ap no_repeat (ids-updated is_executing f (λ i. refl) t) ∙ is_consistent-ids t h)
        (ap no_repeat same ∙ is_consistent-games t h) in
    (
      rowcount is_executing t,
      updated is_executing f t,
      rw (recover_interrupted, update_where-ok is_executing f t fine) refl,
      fine,
    )

pub queued_cancel_all-ok :
    (now : ℕ) (t : Table)
    → is_consistent t ≡ true
    → (n : ℕ) × (t' : Table) × (queued_cancel_all now t ≡ some (n, t')) × (is_consistent t' ≡ true)
unfolding queued_cancel_all is_active
queued_cancel_all-ok now t h =
    let f : DownloadItem → DownloadItem =
      λ i. record i { state = cancelled; updated_at = now; finished_at = some now } in
    let fine =
      is_consistent-join (updated is_queued f t)
        (ap no_repeat (ids-updated is_queued f (λ i. refl) t) ∙ is_consistent-ids t h)
        (no_repeat-deactivated is_queued f (λ i. refl) t (is_consistent-games t h)) in
    (
      rowcount is_queued t,
      updated is_queued f t,
      rw (queued_cancel_all, update_where-ok is_queued f t fine) refl,
      fine,
    )

pub update_progress-ok :
    (item_id : String) (now present total : ℕ) (t : Table)
    → is_consistent t ≡ true
    → (t' : Table) × (update_progress item_id now present total t ≡ some t')
      × (is_consistent t' ≡ true)
unfolding update_progress
update_progress-ok item_id now present total t h =
    let p : DownloadItem → Bool = λ i. i.id == item_id in
    let f : DownloadItem → DownloadItem =
      λ i. record i { bytes_present = present; bytes_total = total; updated_at = now } in
    let fine =
      is_consistent-join (updated p f t)
        (ap no_repeat (ids-updated p f (λ i. refl) t) ∙ is_consistent-ids t h)
        (ap no_repeat (active_games-updated p f (λ i e. (refl, refl)) t)
          ∙ is_consistent-games t h) in
    (updated p f t, update_where-ok p f t fine, fine)

pub transition-consistent :
    (item_id : String) (now : ℕ) (from_states : List DownloadState) (to_state : DownloadState)
    (worker error_code error_message : Option String) (t : Table)
    → is_consistent t ≡ true
    → is_consistent
        (transition item_id now from_states to_state worker error_code error_message t).1
      ≡ true
unfolding transition
transition-consistent item_id now [] to_state worker code message t h = h
transition-consistent item_id now (s ∷ more) to_state worker code message t h =
    elim (Option-cases (
      update_where (is_from item_id (s ∷ more)) (transitioned now to_state worker code message)
        t)) [
          | inl raised ↦ rw (transition, raised) h
          | inr (t', done) ↦
              rw (transition, done)
                ((update_where-consistent (is_from item_id (s ∷ more))
                  (transitioned now to_state worker code message) t t' done).1)
        ]

pub delete_queued-consistent :
    (item_id : String) (t : Table)
    → is_consistent t ≡ true
    → is_consistent (delete_queued item_id t).1 ≡ true
unfolding delete_queued
delete_queued-consistent item_id t h = is_consistent-kept _ t h

pub prune_terminal-consistent :
    (has_partial : DownloadItem → Bool) (keep : ℕ) (t : Table)
    → is_consistent t ≡ true
    → is_consistent (prune_terminal has_partial keep t).1 ≡ true
unfolding prune_terminal
prune_terminal-consistent has_partial keep t h = is_consistent-kept _ t h

ids-append : (t : Table) (i : DownloadItem) → ids (t ++ i ∷ []) ≡ ids t ++ i.id ∷ []
unfolding ids
ids-append [] i = refl
ids-append (j ∷ t) i = ground (arith, ids-append t i)

active_games-append :
    (t : Table) (i : DownloadItem) (g : String)
    → i.game_id ≡ some g
    → is_active i.state ≡ true
    → active_games (t ++ i ∷ []) ≡ active_games t ++ g ∷ []
unfolding active_games
active_games-append [] i g h k = ground (arith, h, k)
active_games-append (j ∷ t) i g h k = ground (arith, active_games-append t i g h k)

no_repeat-append :
    (ks : List String) (k : String)
    → no_repeat ks ≡ true
    → contains ks k ≡ false
    → no_repeat (ks ++ k ∷ []) ≡ true
unfolding no_repeat
no_repeat-append [] k h away = refl
no_repeat-append (j ∷ ks) k h away =
    ground (arith, no_repeat-append ks k, contains-append ks (k ∷ []) j)

-- The last number of the queue is at least each number in it.
max_seq-bound : (t : Table) (n : ℕ) → max_seq t ≤ n → All (λ i. i.queue_seq < n + 1) t
unfolding max_seq
max_seq-bound [] n h = tt
max_seq-bound (i ∷ t) n h = (ground (arith, h), max_seq-bound t n (ground (arith, h)))

find-holds :
    (p : DownloadItem → Bool) (t : Table) (i : DownloadItem) → find p t ≡ some i → p i ≡ true
unfolding find
find-holds p [] i h = cc
find-holds p (j ∷ t) i h = elim (Bool-cases (p j)) [
  | inl yes_j ↦ ground (arith, yes_j, h, ap p)
  | inr no_j ↦ find-holds p t i (ground (arith, no_j, h))
]

-- What `enqueue` answers and leaves for a game.
pub data Enqueued (g : String) (t : Table) : DownloadItem → Bool → Table → Type 0 where
  existing :
      (item : DownloadItem)
      → item.game_id ≡ some g
      → is_active item.state ≡ true
      → Enqueued g t item false t
  created :
      (item : DownloadItem)
      → item.game_id ≡ some g
      → item.state ≡ queued
      → All (λ i. i.queue_seq < item.queue_seq) t
      → Enqueued g t item true (t ++ item ∷ [])

-- Enqueueing a game of the table `games` under a fresh id, where the downloads keep their primary
-- key and their unique index, never raises and keeps both. It answers the active item of the game
-- and changes nothing, or appends a queued item behind every number of the queue.
pub enqueue-Enqueued :
    (in_games : String → Bool) (item_id : String) (now : ℕ) (batch_id : Option String)
    (g title system : String) (origin : DownloadOrigin) (t : Table)
    → is_consistent t ≡ true
    → contains (ids t) item_id ≡ false
    → in_games g ≡ true
    → (item : DownloadItem) × (made : Bool) × (t' : Table) × (enqueue in_games item_id now batch_id
          g title system origin t
        ≡ some ((item, made), t'))
      × Enqueued g t item made t'
      × (is_consistent t' ≡ true)
unfolding is_active_for enqueue max_seq
enqueue-Enqueued in_games item_id now batch_id g title system origin t h fresh listed =
    elim (Option-cases (find (is_active_for g) t)) [
      | inl free ↦
          let item = new_item item_id now batch_id g title system origin (max_seq t + 1) in
          let games : active_games (t ++ item ∷ []) ≡ active_games t ++ g ∷ [] =
            active_games-append t item g refl refl in
          let fine : is_consistent (t ++ item ∷ []) ≡ true =
            is_consistent-join (t ++ item ∷ [])
              (ap no_repeat (ids-append t item)
                ∙ no_repeat-append (ids t) item_id (is_consistent-ids t h) fresh)
              (ap no_repeat games
                ∙ no_repeat-append (active_games t) g (is_consistent-games t h)
                    (contains-active_games t g ∙ ap is_some free)) in
          (
            item,
            true,
            t ++ item ∷ [],
            rw (enqueue, free, fine, listed) refl,
            created item refl refl (max_seq-bound t (max_seq t) (omega arith)),
            fine,
          )
      | inr (item, found) ↦
          let holds = find-holds (is_active_for g) t item found in
          (
            item,
            false,
            t,
            rw (enqueue, found) refl,
            existing item (ground (arith, holds)) (ground (arith, holds)),
            h,
          )
    ]
