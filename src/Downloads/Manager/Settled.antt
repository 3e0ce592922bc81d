-- ===== src/Downloads/Manager/Settled.antt =====
-- The item that the worker claims is its only one, and the item that it settles no longer executes.
use mathlib.Core.Path.{subst}
use romcloud.Base.{
  ℕ, String, ◌≡◌, ◌≢◌, refl, sym, ap, ◌∙◌, Bool, true, false, Option, none, some, List, [], ◌∷◌,
  string_eq, option_eq, arith, All-weaken, Bool-cases, inl, inr, contains, find,
}
use romcloud.Downloads.Model.{DownloadState, DownloadItem, state_eq, is_active}
use romcloud.Downloads.Repository.{
  Table, ids, no_repeat, active_games, is_consistent, updated, transition, transitioned, is_from,
  get,
}
use romcloud.Downloads.Repository.Index.{ids-updated, active_games-updated, no_repeat-deactivated}
use romcloud.Downloads.Repository.Keeps.{
  is_consistent-ids, is_consistent-games, is_consistent-join, update_where-ok,
  transition-consistent,
}
use romcloud.Downloads.Repository.Answers.{Answered, refused, moved, transition-Answered}
use romcloud.Downloads.Manager.Serial.{Only, Serial, executes, transition-Serial}

-- Nothing executes, so nothing but the claimed item may.
Only-none : (active : Option String) (t : Table) → Only none t → Only active t
Only-none active t o = All-weaken _ _ (λ i h e. absurd (ground (arith, h e))) t o

Answered-refused :
    (item_id : String) (froms : List DownloadState) (f : DownloadItem → DownloadItem) (t : Table)
    (r : Bool × Table)
    → Answered item_id froms f t r
    → r.0 ≡ false
    → r.1 ≡ t
Answered-refused item_id froms f t _ refused f' = refl
Answered-refused item_id froms f t _ (moved item t' g c g' e) f' = absurd (ground arith)

pub transition-refused :
    (item_id : String) (now : ℕ) (froms : List DownloadState) (to_state : DownloadState)
    (worker code message : Option String) (t : Table)
    → is_consistent t ≡ true
    → (transition item_id now froms to_state worker code message t).0 ≡ false
    → (transition item_id now froms to_state worker code message t).1 ≡ t
transition-refused item_id now froms to_state worker code message t fine f' =
    Answered-refused item_id froms (transitioned now to_state worker code message) t _
      (transition-Answered item_id now froms to_state worker code message t fine) f'

pub claimed-Serial :
    (item_id : String) (now : ℕ) (froms : List DownloadState) (to_state : DownloadState)
    (worker code message : Option String) (t : Table)
    → Serial none t
    → Serial (some item_id) (transition item_id now froms to_state worker code message t).1
claimed-Serial item_id now froms to_state worker code message t (fine, o) =
    transition-Serial (some item_id) item_id now froms to_state worker code message t (λ e. refl)
      (fine, Only-none (some item_id) t o)

-- With no row of the id, nothing executes.
pub no_row :
    (item_id : String) (t : Table) → get item_id t ≡ none → Only (some item_id) t → Only none t
unfolding get find
no_row item_id [] h o = tt
no_row item_id (i ∷ t) h o = elim (string_eq.dec i.id item_id) [
  | yes same ↦ absurd (ground (arith, same, h))
  | no other ↦
      (λ e. absurd (ground (arith, other, o.0 e)), no_row item_id t (ground (arith, other, h)) o.1)
]

module _ (item_id : String) (state : DownloadState) (f : DownloadItem → DownloadItem)
    (stops : (i : DownloadItem) → executes (f i).state ≡ false) where
  abbrev p : DownloadItem → Bool
  p = is_from item_id (state ∷ [])

  away :
      (t : Table)
      → contains (ids t) item_id ≡ false
      → Only (some item_id) t
      → Only none (updated p f t)
  unfolding ids updated
  away [] h o = tt
  away (i ∷ t) h o =
      let other : i.id ≢ item_id = ground arith in
      let miss : p i ≡ false = ground (arith, other) in
      rw miss ((λ e. absurd (ground (arith, other, o.0 e))), away t (ground (arith, h)) o.1)

  settled_rows :
      (t : Table) (current : DownloadItem)
      → no_repeat (ids t) ≡ true
      → get item_id t ≡ some current
      → current.state ≡ state
      → Only (some item_id) t
      → Only none (updated p f t)
  unfolding ids no_repeat updated get find
  settled_rows [] current n at s o = tt
  settled_rows (i ∷ t) current n at s o = elim (string_eq.dec i.id item_id) [
    | yes same ↦
        let hit : p i ≡ true = ground (arith, same, at, s) in
        rw hit (λ e. absurd (ground (arith, stops i)), away t (ground (arith, same, n)) o.1)
    | no other ↦
        let miss : p i ≡ false = ground (arith, other) in
        rw miss (
          (λ e. absurd (ground (arith, other, o.0 e))),
          settled_rows t current (ground (arith, n)) (ground (arith, other, at)) s o.1,
        )
  ]

idle_rows :
    (item_id : String) (t : Table) (current : DownloadItem)
    → no_repeat (ids t) ≡ true
    → get item_id t ≡ some current
    → executes current.state ≡ false
    → Only (some item_id) t
    → Only none t
unfolding ids no_repeat get find
idle_rows item_id [] current n at s o = tt
idle_rows item_id (i ∷ t) current n at s o = elim (string_eq.dec i.id item_id) [
  | yes same ↦
      let it : i ≡ current = ground (arith, same, at) in
      (
        λ e. absurd (ground (arith, ap (λ (j : DownloadItem). executes j.state) it)),
        elsewhere t (ground (arith, same, n)) o.1,
      )
  | no other ↦ (
    λ e. absurd (ground (arith, other, o.0 e)),
    idle_rows item_id t current (ground (arith, n)) (ground (arith, other, at)) s o.1,
  )
]
  where
    elsewhere : (t : Table) → contains (ids t) item_id ≡ false → Only (some item_id) t → Only none t
    elsewhere [] h o = tt
    elsewhere (i ∷ t) h o =
        let other : i.id ≢ item_id = ground arith in
        ((λ e. absurd (ground (arith, other, o.0 e))), elsewhere t (ground (arith, h)) o.1)

module _ (item_id : String) (now : ℕ) (current : DownloadItem) (target : DownloadState)
    (code message : Option String) (t : Table) (fine : is_consistent t ≡ true)
    (runs : executes current.state ≡ true) where
  abbrev q : DownloadItem → Bool
  q = is_from item_id (current.state ∷ [])

  abbrev g : DownloadItem → DownloadItem
  g = transitioned now target none code message

  keeps_active :
      (i : DownloadItem)
      → is_active target ≡ true
      → q i ≡ true
      → ((g i).game_id ≡ i.game_id) × (is_active (g i).state ≡ is_active i.state)
  unfolding transitioned is_active
  keeps_active i a hit =
      let same : i.state ≡ current.state = ground arith in
      (refl, a ∙ sym (ap is_active same ∙ active_state current.state runs))
    where
      active_state : (s : DownloadState) → executes s ≡ true → is_active s ≡ true
      active_state s e = ground arith

  games_fine : no_repeat (active_games (updated q g t)) ≡ true
  unfolding transitioned
  games_fine = elim (Bool-cases (is_active target)) [
    | inl a ↦
        ap no_repeat (active_games-updated q g (λ i hit. keeps_active i a hit) t)
        ∙ is_consistent-games t fine
    | inr d ↦ no_repeat-deactivated q g (λ i. d) t (is_consistent-games t fine)
  ]

  updated-consistent : is_consistent (updated q g t) ≡ true
  unfolding transitioned
  updated-consistent =
      is_consistent-join (updated q g t)
        (ap no_repeat (ids-updated q g (λ i. refl) t) ∙ is_consistent-ids t fine) games_fine

  pub transition-updated :
      (transition item_id now (current.state ∷ []) target none code message t).1 ≡ updated q g t
  unfolding transition updated
  transition-updated = rw (transition, update_where-ok q g t updated-consistent) refl

-- The item that the worker had stops executing, and then nothing executes.
pub settled-Serial :
    (item_id : String) (now : ℕ) (current : DownloadItem) (target : DownloadState)
    (code message : Option String) (t : Table)
    → get item_id t ≡ some current
    → executes target ≡ false
    → Serial (some item_id) t
    → Serial none (transition item_id now (current.state ∷ []) target none code message t).1
unfolding transitioned
settled-Serial item_id now current target code message t at stops (fine, o) =
    let n = is_consistent-ids t fine in
    elim (Bool-cases (executes current.state)) [
      | inl runs ↦ (
        transition-consistent item_id now (current.state ∷ []) target none code message t fine,
        subst (Only none)
            (sym (transition-updated item_id now current target code message t fine runs))
            (settled_rows item_id current.state (transitioned now target none code message)
              (λ i. stops) t current n at refl o),
      )
      | inr idle ↦
          transition-Serial none item_id now (current.state ∷ []) target none code message t
            (λ e. absurd (ground arith)) (fine, idle_rows item_id t current n at idle o)
    ]
