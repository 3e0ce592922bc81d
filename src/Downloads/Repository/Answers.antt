-- ===== src/Downloads/Repository/Answers.antt =====
-- What the answers of `transition` and `next_queued` say of the table.
use romcloud.Base.{
  ℕ, ◌≤◌, String, ◌≡◌, ◌≢◌, refl, Bool, true, false, Option, none, some, List, [], ◌∷◌, ◌==◌,
  string_eq, contains, keep_if, find, arith, leb, leb→le, All, All-weaken, Bool-cases, Option-cases,
  inl, inr, ◌⊎◌, nat_eq,
}
use romcloud.Downloads.Model.{DownloadState, queued, state_eq, DownloadItem}
use romcloud.Downloads.Repository.{
  Table, no_repeat, ids, is_consistent, updated, update_where, get, insert_by_seq, by_seq,
  next_queued, transitioned, is_from, transition,
}
use romcloud.Downloads.Repository.Keeps.{is_consistent-ids, update_where-consistent}

get-contains :
    (item_id : String) (t : Table) (item : DownloadItem)
    → get item_id t ≡ some item
    → contains (ids t) item_id ≡ true
unfolding get find ids
get-contains item_id [] item h = cc
get-contains item_id (i ∷ t) item h = ground (arith, h, get-contains item_id t item)

module _ (item_id : String) (p : DownloadItem → Bool) (f : DownloadItem → DownloadItem)
    (only : (i : DownloadItem) → p i ≡ true → i.id ≡ item_id)
    (keeps : (i : DownloadItem) → (f i).id ≡ i.id) where
  untouched :
      (t : Table) → contains (ids t) item_id ≡ false → (keep_if p t ≡ []) × (updated p f t ≡ t)
  unfolding ids updated keep_if
  untouched [] h = (refl, refl)
  untouched (i ∷ t) h = elim (Bool-cases (p i)) [
    | inl hit ↦ ground (arith, only i hit, h)
    | inr miss ↦ ground (arith, miss, untouched t)
  ]

  -- At most the row of the id is updated.
  one_row :
      (t : Table)
      → no_repeat (ids t) ≡ true
      → ((keep_if p t ≡ []) × (updated p f t ≡ t))
        ⊎ ((item : DownloadItem) × (keep_if p t ≡ item ∷ [])
            × (p item ≡ true)
            × (get item_id t ≡ some item)
            × (get item_id (updated p f t) ≡ some (f item)))
  unfolding ids no_repeat updated keep_if get find
  one_row [] h = inl (refl, refl)
  one_row (i ∷ t) h = elim (Bool-cases (p i)) [
    | inl hit ↦
        let rest = untouched t (ground (arith, only i hit, h)) in
        inr (
          i,
          ground (arith, hit, rest),
          hit,
          ground (arith, only i hit),
          ground (arith, hit, only i hit, keeps i),
        )
    | inr miss ↦ elim (one_row t (ground (arith, h))) [
      | inl (none_kept, same) ↦ inl (ground (arith, miss, none_kept), ground (arith, miss, same))
      | inr (item, kept, holds, at, after) ↦
          let apart : i.id ≢ item_id =
            λ same. ground (arith, same, h, get-contains item_id t item at) in
          inr (
            item,
            ground (arith, miss, kept),
            holds,
            ground (arith, apart, at),
            ground (arith, miss, apart, after),
          )
    ]
  ]

-- What `transition` answers: it refuses and leaves the table, or the item of the id was in one of
-- the allowed states and has become the transitioned one.
pub data Answered (item_id : String) (from_states : List DownloadState)
    (f : DownloadItem → DownloadItem) (t : Table) : Bool × Table → Type 0 where
  refused : Answered item_id from_states f t (false, t)
  moved :
      (item : DownloadItem) (t' : Table)
      → get item_id t ≡ some item
      → contains from_states item.state ≡ true
      → get item_id t' ≡ some (f item)
      → t' ≡ updated (is_from item_id from_states) f t
      → Answered item_id from_states f t (true, t')

-- In a table that keeps its primary key and its unique index, `transition` answers false and
-- changes nothing, or answers true and has moved the one item of that id, which was in an allowed
-- state.
pub transition-Answered :
    (item_id : String) (now : ℕ) (from_states : List DownloadState) (to_state : DownloadState)
    (worker error_code error_message : Option String) (t : Table)
    → is_consistent t ≡ true
    → Answered item_id from_states
        (transitioned now to_state worker error_code error_message)
        t
        (transition item_id now from_states to_state worker error_code error_message t)
unfolding transition nat_eq
transition-Answered item_id now [] to_state worker code message t fine = refused
transition-Answered item_id now (s ∷ more) to_state worker code message t fine =
    let p : DownloadItem → Bool = is_from item_id (s ∷ more) in
    let f : DownloadItem → DownloadItem = transitioned now to_state worker code message in
    elim (Option-cases (update_where p f t)) [
      | inl raised ↦ rw (transition, raised) refused
      | inr (t', done) ↦
          let is_updated = (update_where-consistent p f t t' done).0 in
          elim (one_row item_id p f (λ i h. ground (arith, h)) (λ i. refl) t
            (is_consistent-ids t fine)) [
              | inl (none_kept, same) ↦ rw (transition, done, none_kept, is_updated, same) refused
              | inr (item, kept, holds, at, after) ↦
                  rw (transition, done, kept)
                    (moved item t' at (ground (arith, holds)) (rw is_updated after) is_updated)
            ]
    ]

-- The first of a list ordered by number: nothing for the empty list, else an item before all others.
abbrev First : List DownloadItem → List DownloadItem → Type 0
First xs [] = xs ≡ []
First xs (i ∷ is) = All (λ j. i.queue_seq ≤ j.queue_seq) xs

First-insert_by_seq :
    (i : DownloadItem) (xs ys : List DownloadItem)
    → First xs ys
    → First (i ∷ xs) (insert_by_seq i ys)
unfolding insert_by_seq
First-insert_by_seq i xs [] h = (omega arith, rw h tt)
First-insert_by_seq i xs (j ∷ js) h = elim (Bool-cases (leb i.queue_seq j.queue_seq)) [
  | inl before ↦
      let le = leb→le i.queue_seq j.queue_seq before in
      rw before (
        omega arith,
        All-weaken (λ k. j.queue_seq ≤ k.queue_seq) (λ k. i.queue_seq ≤ k.queue_seq)
            (λ k at. omega (arith, le, at)) xs h,
      )
  | inr after ↦ rw after (ground (arith, after), h)
]

First-by_seq : (xs : List DownloadItem) → First xs (by_seq xs)
unfolding by_seq
First-by_seq [] = refl
First-by_seq (i ∷ xs) = First-insert_by_seq i xs (by_seq xs) (First-by_seq xs)

All-insert_by_seq :
    (P : DownloadItem → Type 0) (i : DownloadItem) (is : List DownloadItem)
    → P i
    → All P is
    → All P (insert_by_seq i is)
unfolding insert_by_seq
All-insert_by_seq P i [] h k = (h, tt)
All-insert_by_seq P i (j ∷ js) h k = elim (Bool-cases (leb i.queue_seq j.queue_seq)) [
  | inl before ↦ rw before (h, k)
  | inr after ↦ rw after (k.0, All-insert_by_seq P i js h k.1)
]

All-by_seq : (P : DownloadItem → Type 0) (is : List DownloadItem) → All P is → All P (by_seq is)
unfolding by_seq
All-by_seq P [] h = tt
All-by_seq P (i ∷ is) h = All-insert_by_seq P i (by_seq is) h.0 (All-by_seq P is h.1)

All-queued : (t : Table) → All (λ i. i.state ≡ queued) (keep_if (λ i. i.state == queued) t)
unfolding keep_if
All-queued [] = tt
All-queued (i ∷ t) = elim (Bool-cases (i.state == queued)) [
  | inl hit ↦ rw hit (ground (arith, hit), All-queued t)
  | inr miss ↦ rw miss (All-queued t)
]

-- A row is not queued, or it satisfies `P`.
abbrev IfQueued : (DownloadItem → Type 0) → DownloadItem → Type 0
IfQueued P j = (j.state ≢ queued) ⊎ P j

kept-IfQueued :
    (P : DownloadItem → Type 0) (t : Table)
    → All P (keep_if (λ i. i.state == queued) t)
    → All (IfQueued P) t
unfolding keep_if
kept-IfQueued P [] h = tt
kept-IfQueued P (i ∷ t) h = elim (Bool-cases (i.state == queued)) [
  | inl hit ↦ let k = rw hit at h in (inr (k.0), kept-IfQueued P t k.1)
  | inr miss ↦ (inl (λ same. ground (arith, same, miss)), kept-IfQueued P t (rw miss at h))
]

-- What `next_queued` answers.
unfoldable pub Oldest : Table → Option DownloadItem → Type 0
Oldest t none = All (λ j. j.state ≢ queued) t
Oldest t (some i) =
    (i.state ≡ queued) × All (λ j. (j.state ≢ queued) ⊎ (i.queue_seq ≤ j.queue_seq)) t

Oldest-head :
    (t : Table) (ys : List DownloadItem)
    → First (keep_if (λ i. i.state == queued) t) ys
    → All (λ i. i.state ≡ queued) ys
    → Oldest t (elim ys [ [] ↦ none | i ∷ is ↦ some i ])
unfolding Oldest
Oldest-head t [] h k =
    All-weaken (IfQueued (λ j. ⊥)) (λ j. j.state ≢ queued)
      (λ j either. elim either [ inl other ↦ other | inr impossible ↦ absurd impossible ]) t
      (kept-IfQueued (λ j. ⊥) t (rw h tt))
Oldest-head t (i ∷ is) h k = (k.0, kept-IfQueued (λ j. i.queue_seq ≤ j.queue_seq) t h)

-- `next_queued` answers nothing only where no item is queued, and else a queued item whose number
-- is at most that of every queued item.
pub next_queued-Oldest : (t : Table) → Oldest t (next_queued t)
unfolding next_queued Oldest
next_queued-Oldest t =
    let waiting : List DownloadItem = keep_if (λ i. i.state == queued) t in
    Oldest-head t (by_seq waiting) (First-by_seq waiting)
      (All-by_seq (λ i. i.state ≡ queued) waiting (All-queued t))
