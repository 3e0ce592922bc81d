-- ===== src/Downloads/Manager/Stops.antt =====
-- A stop that the manager accepts is what the item ends in.
use romcloud.Base.{
  ℕ, String, ◌≡◌, ◌≢◌, refl, sym, ap, ◌∙◌, Bool, true, Option, none, some, [], ◌∷◌, ◌==◌, ≡→==,
  string_eq, option_eq, find, arith, Bool-cases, inl, inr,
}
use romcloud.Base.Dict.{lookup, insert, erase, lookup-insert}
use romcloud.Capabilities.{CapabilityPolicy}
use romcloud.Downloads.Model.{DownloadState, DownloadItem, state_eq}
use romcloud.Downloads.Repository.{
  Table, is_consistent, updated, transitioned, is_from, get, update_progress,
}
use romcloud.Downloads.Repository.Keeps.{update_progress-ok, update_where-consistent}
use romcloud.Downloads.Manager.{
  Manager, returned, StopRequest, stop_state, stop_active, request_active_stop, transfer_cancelled,
  requested_or_interrupted, note_progress, settle_item, handle_ending,
}
use romcloud.Downloads.Manager.Serial.{executes}
use romcloud.Downloads.Manager.Settled.{transition-updated}

get-here :
    (item_id : String) (i : DownloadItem) (t : Table)
    → i.id ≡ item_id
    → get item_id (i ∷ t) ≡ some i
unfolding get find
get-here item_id i t same = ground arith

get-there :
    (item_id : String) (i : DownloadItem) (t : Table)
    → i.id ≢ item_id
    → get item_id (i ∷ t) ≡ get item_id t
unfolding get find
get-there item_id i t other = ground arith

-- The row that `get` finds is the one that an update of it leaves there.
get-updated :
    (item_id : String) (p : DownloadItem → Bool) (f : DownloadItem → DownloadItem) (t : Table)
    (item : DownloadItem)
    → ((i : DownloadItem) → (f i).id ≡ i.id)
    → get item_id t ≡ some item
    → p item ≡ true
    → get item_id (updated p f t) ≡ some (f item)
unfolding get find updated
get-updated item_id p f [] item keeps at hit = absurd (ground arith)
get-updated item_id p f (i ∷ t) item keeps at hit = elim (string_eq.dec i.id item_id) [
  | yes same ↦
      let it : i ≡ item = ground (arith, same, at) in
      let hit' : p i ≡ true = ap p it ∙ hit in
      rw hit' (get-here item_id (f i) (updated p f t) (keeps i ∙ same) ∙ ap (λ j. some (f j)) it)
  | no other ↦
      let rest =
        get-updated item_id p f t item keeps (sym (get-there item_id i t other) ∙ at) hit in
      elim (Bool-cases (p i)) [
        | inl h ↦
            rw h (get-there item_id (f i) (updated p f t) (λ s. other (sym (keeps i) ∙ s)) ∙ rest)
        | inr h ↦ rw h (get-there item_id i (updated p f t) other ∙ rest)
      ]
]

pub found_id :
    (item_id : String) (t : Table) (item : DownloadItem)
    → get item_id t ≡ some item
    → item.id ≡ item_id
unfolding get find
found_id item_id [] item at = absurd (ground arith)
found_id item_id (i ∷ t) item at = ground (arith, found_id item_id t item)

noted_item :
    (item_id : String) (now present total : ℕ) (m : Manager) (item : DownloadItem)
    → is_consistent m.table ≡ true
    → get item_id m.table ≡ some item
    → let n = note_progress item_id now present total m in
      (get item_id n.table
        ≡ some (record item { bytes_present = present; bytes_total = total; updated_at = now }))
      × (is_consistent n.table ≡ true)
      × (n.requested_stop ≡ m.requested_stop)
unfolding note_progress update_progress
noted_item item_id now present total m item fine at =
    let (t', done, fine') = update_progress-ok item_id now present total m.table fine in
    let grown =
      (update_where-consistent (λ (i : DownloadItem). i.id == item_id)
        (λ i. record i { bytes_present = present; bytes_total = total; updated_at = now }) m.table
        t' done).0 in
    rw (note_progress, done)
      (
        rw grown (
            get-updated item_id (λ (i : DownloadItem). i.id == item_id)
              (λ i. record i { bytes_present = present; bytes_total = total; updated_at = now })
              m.table item (λ i. refl) at
              (≡→== item.id item_id (found_id item_id m.table item at))),
        fine',
        refl,
      )

settle_item-get :
    (item_id : String) (now : ℕ) (target : DownloadState) (m : Manager) (item : DownloadItem)
    → is_consistent m.table ≡ true
    → get item_id m.table ≡ some item
    → executes item.state ≡ true
    → get item_id (settle_item item_id now target none none m).table
      ≡ some (transitioned now target none none none item)
unfolding settle_item transitioned
settle_item-get item_id now target m item fine at runs =
    let moved = transition-updated item_id now item target none none m.table fine runs in
    rw (settle_item, at)
      (rw moved (
        get-updated item_id (is_from item_id (item.state ∷ []))
          (transitioned now target none none none) m.table item (λ i. refl) at
          (ground (arith, found_id item_id m.table item at))))

module _ (loaded : Option CapabilityPolicy) (item_id : String) (now present total : ℕ)
    (request : StopRequest) (m n : Manager) (item : DownloadItem)
    (fine : is_consistent m.table ≡ true) (at : get item_id m.table ≡ some item)
    (runs : executes item.state ≡ true)
    (accepted : request_active_stop item_id request m ≡ (returned tt, n)) where
  accepted-same :
      (n.table ≡ m.table)
      × (n.requested_stop ≡ insert item_id request m.requested_stop)
      × (n.active_token ≡ some true)
  unfolding request_active_stop stop_active
  accepted-same = ground (arith, accepted)

  abbrev noted : Manager
  noted = note_progress item_id now present total n

  abbrev present_item : DownloadItem
  present_item = record item { bytes_present = present; bytes_total = total; updated_at = now }

  noted_now :
      (get item_id noted.table ≡ some present_item)
      × (is_consistent noted.table ≡ true)
      × (noted.requested_stop ≡ n.requested_stop)
  noted_now =
      noted_item item_id now present total n item (rw accepted-same.0 fine) (rw accepted-same.0 at)

  requested : requested_or_interrupted (lookup item_id noted.requested_stop) ≡ stop_state request
  requested =
      let stored : lookup item_id noted.requested_stop ≡ some request =
        rw (noted_now.2, accepted-same.1)
          (lookup-insert item_id item_id request m.requested_stop ∙ ground arith) in
      rw stored refl

  -- When the manager accepts a request to stop the item that runs, in a table that keeps its key and
  -- its index, the token of the transfer is cancelled; and when the transfer then stops, the item
  -- is in the state that was asked for, with no worker and with the bytes that are kept.
  pub request_active_stop-handle_ending :
      (n.active_token ≡ some true)
      × ((after : DownloadItem) × (get item_id
              (handle_ending loaded item_id now present total transfer_cancelled n).table
            ≡ some after)
          × (after.state ≡ stop_state request)
          × (after.worker_instance_id ≡ none)
          × (after.bytes_present ≡ present))
  unfolding handle_ending transitioned
  request_active_stop-handle_ending = (
    accepted-same.2,
    (
      transitioned now (requested_or_interrupted (lookup item_id noted.requested_stop)) none none
          none present_item,
      settle_item-get item_id now (requested_or_interrupted (lookup item_id noted.requested_stop))
          (record noted { requested_stop = erase item_id noted.requested_stop }) present_item
          noted_now.1 noted_now.0 runs,
      requested,
      refl,
      refl,
    ),
  )
