-- ===== src/Downloads/Manager/Requests.antt =====
-- Enqueueing games keeps the items one at a time, when the new ids are fresh.
use romcloud.Base.{
  ℕ, suc, ◌+◌, ◌≤◌, String, ◌≡◌, ◌≢◌, refl, sym, ap, ◌∙◌, Bool, true, false, ◌&&◌, Option, some,
  List, [], ◌∷◌, ◌++◌, string_eq, contains, contains-append, find, arith, All-append, Bool-cases,
  Option-cases, inl, inr, ◌⊎◌,
}
use romcloud.Downloads.Model.{DownloadOrigin, DownloadItem, queued}
use romcloud.Downloads.Repository.{
  Table, ids, is_consistent, enqueue, new_item, max_seq, is_active_for,
}
use romcloud.Downloads.Manager.{Manager, CatalogItem, enqueue_each}
use romcloud.Downloads.Manager.Serial.{Serial, executes}

ids-snoc : (t : Table) (i : DownloadItem) → ids (t ++ (i ∷ [])) ≡ ids t ++ (i.id ∷ [])
unfolding ids
ids-snoc [] i = refl
ids-snoc (j ∷ t) i = ap (λ is. j.id ∷ is) (ids-snoc t i)

-- The table after an enqueueing is the one before, or has one new item that waits.
enqueue-added :
    (in_games : String → Bool) (item_id : String) (now : ℕ) (batch_id : Option String)
    (g title system : String) (origin : DownloadOrigin) (t : Table)
    (r : (DownloadItem × Bool) × Table)
    → enqueue in_games item_id now batch_id g title system origin t ≡ some r
    → (r.1 ≡ t)
      ⊎ ((item : DownloadItem) × (r.1 ≡ t ++ (item ∷ []))
          × (item.id ≡ item_id)
          × (item.state ≡ queued)
          × (is_consistent r.1 ≡ true))
unfolding enqueue
enqueue-added in_games item_id now batch_id g title system origin t r e =
    elim (Option-cases (find (is_active_for g) t)) [
      | inr (old, found) ↦ inl (ground arith)
      | inl free ↦
          let item = new_item item_id now batch_id g title system origin (max_seq t + 1) in
          elim (Bool-cases (is_consistent (t ++ (item ∷ [])) && in_games g)) [
            | inl fine ↦
                let same : t ++ (item ∷ []) ≡ r.1 = ground arith in
                inr (item, sym same, refl, refl, ap is_consistent (sym same) ∙ ground (arith, fine))
            | inr broken ↦ absurd (ground arith)
          ]
    ]

abbrev pub IsFresh : (ℕ → String) → ℕ → Table → Type 0
IsFresh new_id count t = (k : ℕ) → count ≤ k → contains (ids t) (new_id k) ≡ false

module _ (in_games : String → Bool) (games : String → Option CatalogItem) (new_id : ℕ → String)
    (now : ℕ) (batch_id : Option String) (origin : DownloadOrigin)
    (different : (j k : ℕ) → new_id j ≡ new_id k → j ≡ k) (active : Option String) where
  enqueued-Serial :
      (count : ℕ) (g title system : String) (t : Table) (r : (DownloadItem × Bool) × Table)
      → enqueue in_games (new_id count) now batch_id g title system origin t ≡ some r
      → Serial active t
      → IsFresh new_id count t
      → Serial active r.1 × IsFresh new_id (suc count) r.1
  enqueued-Serial count g title system t r e (fine, o) fresh =
      elim (enqueue-added in_games (new_id count) now batch_id g title system origin t r e) [
        | inl same ↦ rw same ((fine, o), λ k le. fresh k (omega arith))
        | inr (item, grown, named, waits, fine') ↦ (
          (
            fine',
            rw grown (
                All-append (λ (i : DownloadItem). executes i.state ≡ true → active ≡ some i.id) t
                  (item ∷ []) o ((λ x. absurd (ground (arith, ap executes waits))), tt)),
          ),
          λ k le.
              let other : new_id k ≢ new_id count =
                λ s. absurd (omega (arith, different k count s)) in
              rw (grown, ids-snoc t item)
                (ground (
                  arith,
                  contains-append (ids t) (item.id ∷ []) (new_id k),
                  fresh k,
                  named,
                  other,
                )),
        )
      ]

  pub enqueue_each-Serial :
      (game_ids : List String) (created count : ℕ) (m : Manager)
      → m.active_item_id ≡ active
      → Serial active m.table
      → IsFresh new_id count m.table
      → let n =
          (enqueue_each in_games games new_id now batch_id origin game_ids created count m).1 in
        (n.active_item_id ≡ active) × Serial active n.table
  unfolding enqueue_each
  enqueue_each-Serial [] created count m mine h fresh = (mine, h)
  enqueue_each-Serial (game_id ∷ game_ids) created count m mine h fresh =
      elim (Option-cases (games game_id)) [
        | inl unknown ↦ rw (enqueue_each, unknown) (mine, h)
        | inr (game, known) ↦ elim (Bool-cases game.is_eligible) [
          | inr barred ↦ rw (enqueue_each, known, barred) (mine, h)
          | inl allowed ↦
              elim (Option-cases (
                enqueue in_games (new_id count) now batch_id game.id game.title game.system origin
                  m.table)) [
                    | inl broken ↦ rw (enqueue_each, known, allowed, broken) (mine, h)
                    | inr (r, done) ↦
                        let (h', fresh') =
                          enqueued-Serial count game.id game.title game.system m.table r done h
                            fresh in
                        rw (enqueue_each, known, allowed, done)
                          (enqueue_each-Serial game_ids _ (suc count) (record m { table = r.1 })
                            mine h' fresh')
                  ]
        ]
      ]
