-- ===== src/Downloads/Repository/Retry.antt =====
-- `retry_all_failed` never raises an integrity error: the checks of its loop keep the unique index.
use romcloud.Base.{
  ℕ, ◌+◌, String, ◌≡◌, ◌≢◌, refl, ap, ◌∙◌, Bool, true, false, none, some, List, [], ◌∷◌, string_eq,
  option_eq, contains, keep_if, find, arith, leb, All, All-weaken, Bool-cases, Option-cases, inl,
  inr, ◌⊎◌,
}
use romcloud.Base.Dict.{is_some}
use romcloud.Downloads.Model.{is_active, DownloadItem}
use romcloud.Downloads.Repository.{
  Table, no_repeat, ids, active_games, is_consistent, updated, is_active_for, is_failed,
  is_failed_row, requeued, retry_loop, recent_first, insert_recent, retry_all_failed, rowcount,
}
use romcloud.Downloads.Repository.Index.{contains-active_games, ids-updated}
use romcloud.Downloads.Repository.Keeps.{
  is_consistent-join, is_consistent-ids, is_consistent-games, update_where-ok,
}

-- The rows with the id of `row` are of its game.
abbrev pub SameGame : Table → DownloadItem → Type 0
SameGame t row = All (λ i. (i.id ≢ row.id) ⊎ (i.game_id ≡ row.game_id)) t

module _ (now : ℕ) (row : DownloadItem) (g : String) (is_g : row.game_id ≡ some g) where
  requeue : Table → Table
  requeue t = updated (is_failed_row row.id) (requeued now) t

  requeue-absent : (t : Table) → contains (ids t) row.id ≡ false → requeue t ≡ t
  unfolding requeue updated ids
  requeue-absent [] h = refl
  requeue-absent (i ∷ t) h = ground (arith, requeue-absent t)

  contains-requeue :
      (t : Table)
      → SameGame t row
      → (h : String) → h ≢ g
      → contains (active_games t) h ≡ false
      → contains (active_games (requeue t)) h ≡ false
  unfolding requeue updated active_games is_active
  contains-requeue [] same h away gone = refl
  contains-requeue (i ∷ t) same h away gone =
      ground (arith, contains-requeue t same.1 h away, same.0, is_g, away, gone)

  no_repeat-requeue :
      (t : Table)
      → SameGame t row
      → no_repeat (ids t) ≡ true
      → no_repeat (active_games t) ≡ true
      → contains (active_games t) g ≡ false
      → no_repeat (active_games (requeue t)) ≡ true
  unfolding requeue updated active_games is_active no_repeat ids
  no_repeat-requeue [] same distinct fine free = refl
  no_repeat-requeue (i ∷ t) same distinct fine free =
      grind (
        arith,
        is_g,
        same.0,
        requeue-absent t,
        contains-requeue t same.1,
        no_repeat-requeue t same.1,
      )

  SameGame-requeue :
      (t : Table) (other : DownloadItem) → SameGame t other → SameGame (requeue t) other
  unfolding requeue updated
  SameGame-requeue [] other same = tt
  SameGame-requeue (i ∷ t) other same = elim (Bool-cases (is_failed_row row.id i)) [
    | inl hit ↦ rw hit (same.0, SameGame-requeue t other same.1)
    | inr miss ↦ rw miss (same.0, SameGame-requeue t other same.1)
  ]

  is_consistent-requeue :
      (t : Table)
      → SameGame t row
      → is_consistent t ≡ true
      → find (is_active_for g) t ≡ none
      → is_consistent (requeue t) ≡ true
  unfolding requeue
  is_consistent-requeue t same fine free =
      is_consistent-join (requeue t)
        (ap no_repeat (ids-updated (is_failed_row row.id) (requeued now) (λ i. refl) t)
          ∙ is_consistent-ids t fine)
        (no_repeat-requeue t same (is_consistent-ids t fine) (is_consistent-games t fine)
          (contains-active_games t g ∙ ap is_some free))

retry_loop-ok :
    (now : ℕ) (rows : List DownloadItem) (claimed : List String) (retried : ℕ) (t : Table)
    → All (SameGame t) rows
    → is_consistent t ≡ true
    → (n : ℕ) × (t' : Table) × (retry_loop now rows claimed retried t ≡ some (n, t'))
      × (is_consistent t' ≡ true)
unfolding retry_loop requeue
retry_loop-ok now [] claimed retried t same fine = (retried, t, refl, fine)
retry_loop-ok now (row ∷ rows) claimed retried t same fine = elim (Option-cases row.game_id) [
  | inl no_game ↦ rw (retry_loop, no_game) (retry_loop-ok now rows claimed retried t same.1 fine)
  | inr (g, is_g) ↦ elim (Bool-cases (contains claimed g)) [
    | inl seen ↦ rw (retry_loop, is_g, seen) (retry_loop-ok now rows claimed retried t same.1 fine)
    | inr unseen ↦ elim (Option-cases (find (is_active_for g) t)) [
      | inr (other, found) ↦
          rw (retry_loop, is_g, unseen, found)
            (retry_loop-ok now rows claimed retried t same.1 fine)
      | inl free ↦
          let fine' = is_consistent-requeue now row g is_g t same.0 fine free in
          rw
            (
              retry_loop,
              is_g,
              unseen,
              free,
              update_where-ok (is_failed_row row.id) (requeued now) t fine',
            )
            (retry_loop-ok now rows (g ∷ claimed) (retried + rowcount (is_failed_row row.id) t)
              (requeue now row g is_g t)
              (All-weaken (SameGame t) (SameGame (requeue now row g is_g t))
                (SameGame-requeue now row g is_g t) rows same.1)
              fine')
    ]
  ]
]

extended :
    (j : DownloadItem) (t rows : Table)
    → contains (ids rows) j.id ≡ false
    → All (SameGame t) rows
    → All (SameGame (j ∷ t)) rows
unfolding ids
extended j t [] away same = tt
extended j t (row ∷ rows) away same =
    ((inl (ground (arith, away)), same.0), extended j t rows (ground (arith, away)) same.1)

apart : (j : DownloadItem) (t : Table) → contains (ids t) j.id ≡ false → SameGame t j
unfolding ids
apart j [] away = tt
apart j (i ∷ t) away = (inl (ground (arith, away)), apart j t (ground (arith, away)))

SameGame-rows : (t : Table) → no_repeat (ids t) ≡ true → All (SameGame t) t
unfolding ids no_repeat
SameGame-rows [] h = tt
SameGame-rows (j ∷ t) h = (
  (inr refl, apart j t (ground (arith, h))),
  extended j t t (ground (arith, h)) (SameGame-rows t (ground (arith, h))),
)

All-kept :
    (P : DownloadItem → Type 0) (p : DownloadItem → Bool) (t : Table)
    → All P t
    → All P (keep_if p t)
unfolding keep_if
All-kept P p [] h = tt
All-kept P p (i ∷ t) h = elim (Bool-cases (p i)) [
  | inl hit ↦ rw hit (h.0, All-kept P p t h.1)
  | inr miss ↦ rw miss (All-kept P p t h.1)
]

All-insert_recent :
    (P : DownloadItem → Type 0) (i : DownloadItem) (is : List DownloadItem)
    → P i
    → All P is
    → All P (insert_recent i is)
unfolding insert_recent
All-insert_recent P i [] h k = (h, tt)
All-insert_recent P i (j ∷ js) h k = elim (Bool-cases (leb j.updated_at i.updated_at)) [
  | inl le ↦ rw le (h, k)
  | inr gt ↦ rw gt (k.0, All-insert_recent P i js h k.1)
]

All-recent_first :
    (P : DownloadItem → Type 0) (is : List DownloadItem) → All P is → All P (recent_first is)
unfolding recent_first
All-recent_first P [] h = tt
All-recent_first P (i ∷ is) h =
    All-insert_recent P i (recent_first is) h.0 (All-recent_first P is h.1)

pub retry_all_failed-ok :
    (now : ℕ) (t : Table)
    → is_consistent t ≡ true
    → (n : ℕ) × (t' : Table) × (retry_all_failed now t ≡ some (n, t')) × (is_consistent t' ≡ true)
unfolding retry_all_failed
retry_all_failed-ok now t fine =
    retry_loop-ok now (recent_first (keep_if is_failed t)) [] 0 t
      (All-recent_first (SameGame t) (keep_if is_failed t)
        (All-kept (SameGame t) is_failed t (SameGame-rows t (is_consistent-ids t fine))))
      fine
