-- ===== src/MemoryCards/Card/Allocation.antt =====
-- What the passes of `_parse` found on a card that it accepts.
use mathlib.Core.Path.{subst}
use romcloud.Base.{
  ℕ, ◌≡◌, refl, sym, ◌∙◌, Bool, true, false, ◌&&◌, not, String, List, [], ◌∷◌, map, arith, ◌==◌,
  ==→≡, contains, contains-keep_if, keep_if, nat_eq, list_eq, string_eq, length, All, Distinct,
}
use romcloud.Base.Keys.{sort_by, All-sort_by, Distinct-sort_by}
use romcloud.SaveContainers.Model.{
  ok, bind-ok, guard-ok, unsupported_ps1_card_size, unsupported_format, checksum_failure,
}
use romcloud.MemoryCards.Bytes.{Bytes, take}
use romcloud.MemoryCards.Xor.{xor_checksum}
use romcloud.MemoryCards.Frame.{
  card_size, frame_size, state, is_data_block, data_blocks, known_states, live_header,
  deleted_header,
}
use romcloud.MemoryCards.Card.{
  ParsedCard, LiveScan, parse, frames_of, scan_live, scan_deleted, check_frames, check_sectors,
  check_orphans, is_free, continuation_states,
}
use romcloud.MemoryCards.Card.Entries.{in_live, Apart, Apart-sort_by, in_live-sort_by}
use romcloud.MemoryCards.Card.Live.{HasState, IsLive, Good, in_live-HasState}
use romcloud.MemoryCards.Card.Rounds.{not-false}
use romcloud.MemoryCards.Card.Scanned.{scan_live-Scanned}
use romcloud.MemoryCards.Card.Buried.{scan_deleted-Buried, check_orphans-placed}

data_blocks-are : All (λ b. is_data_block b ≡ true) data_blocks
unfolding is_data_block nat_eq
data_blocks-are = ground arith

pub state-known : (frame : Bytes) (s : ℕ) → state frame ≡ ok s → contains known_states s ≡ true
unfolding state
state-known frame s e = ground arith

and-true : (p q : Bool) → q ≡ true → (p && q) ≡ p
and-true p q h = ground arith

module _ (sha256_hex : Bytes → String) (raw : Bytes) where
  abbrev frames : ℕ → Bytes
  frames = frames_of sha256_hex raw

  -- What the passes of `parse` returned.
  record Passes (card : ParsedCard) : Type 0 where
    sized : length raw ≡ card_size
    scan : LiveScan
    deleted : List ℕ
    scanned :
        scan_live sha256_hex raw data_blocks
          (record { consumed = []; live_entries = []; identities = [] })
        ≡ ok scan
    buried : scan_deleted frames scan.consumed data_blocks [] ≡ ok deleted
    placed : check_orphans frames scan.consumed deleted data_blocks ≡ ok tt
    result : card ≡ record {
      raw = raw;
      live = sort_by (λ entry. entry.identity) scan.live_entries;
      deleted_blocks = deleted;
      free_blocks = keep_if (is_free frames) data_blocks;
    }

  parse-Passes : (card : ParsedCard) → parse sha256_hex raw ≡ ok card → Passes card
  unfolding parse
  parse-Passes card e =
      let (g1, e1) = guard-ok (not (length raw == card_size)) unsupported_ps1_card_size _ card e in
      let (g2, e2) =
        guard-ok (not (take 2 raw == (0x4d ∷ 0x43 ∷ []))) unsupported_format _ card e1 in
      let (g3, e3) =
        guard-ok (not (xor_checksum (take frame_size raw) == 0)) checksum_failure _ card e2 in
      let (u1, f1, e4) = bind-ok (check_frames raw data_blocks) _ card e3 in
      let (u2, f2, e5) = bind-ok (check_sectors raw 16 20) _ card e4 in
      let (scan, scanned, e6) =
        bind-ok
          (scan_live sha256_hex raw data_blocks
            (record { consumed = []; live_entries = []; identities = [] }))
          _ card e5 in
      let (deleted, buried, e7) =
        bind-ok (scan_deleted frames scan.consumed data_blocks []) _ card e6 in
      let (u3, placed, e8) =
        bind-ok (check_orphans frames scan.consumed deleted data_blocks) _ card e7 in
      record {
        sized = ==→≡ _ _ (not-false _ g1);
        scan = scan;
        deleted = deleted;
        scanned = scanned;
        buried = buried;
        placed = placed;
        result = cc;
      }

  -- The files and the blocks of a card that `parse` returned.
  pub record Sorted (card : ParsedCard) : Type 0 where
    pub live : All (IsLive sha256_hex raw) card.live
    pub apart : Apart card.live
    pub distinct : Distinct (map (λ e. e.identity) card.live)
    pub live_states : (a : ℕ) → in_live card.live a ≡ true → HasState frames false a
    pub dead_states : (a : ℕ) → contains card.deleted_blocks a ≡ true → HasState frames true a
    pub live_starts :
        (a : ℕ)
        → is_data_block a ≡ true
        → state (frames a) ≡ ok live_header
        → in_live card.live a ≡ true
    pub dead_starts :
        (a : ℕ)
        → is_data_block a ≡ true
        → state (frames a) ≡ ok deleted_header
        → contains card.deleted_blocks a ≡ true
    pub placed :
        (a : ℕ)
        → is_data_block a ≡ true
        → (s : ℕ) × (state (frames a) ≡ ok s)
          × ((contains (continuation_states frames) s
                && (not (in_live card.live a) && not (contains card.deleted_blocks a)))
              ≡ false)
    pub frees : (a : ℕ) → is_data_block a ≡ true → contains card.free_blocks a ≡ is_free frames a

  empty-Good : Good sha256_hex raw (record { consumed = []; live_entries = []; identities = [] })
  unfolding in_live
  empty-Good = record { live = tt; taken = λ a. refl; apart = tt; known = λ i. refl; distinct = tt }

  blocks-of : (a : ℕ) → is_data_block a ≡ true → contains data_blocks a ≡ true
  unfolding is_data_block
  blocks-of a h = h

  kept_of :
      (a : ℕ)
      → contains data_blocks a ≡ true
      → contains (keep_if (is_free frames) data_blocks) a ≡ is_free frames a
  kept_of a i = contains-keep_if (is_free frames) data_blocks a ∙ and-true (is_free frames a) _ i

  Passes-Sorted : (card : ParsedCard) → Passes card → Sorted card
  Passes-Sorted card p =
      let scanned =
        scan_live-Scanned sha256_hex raw data_blocks
          (record { consumed = []; live_entries = []; identities = [] }) p.scan empty-Good
          data_blocks-are p.scanned in
      let good = scanned.good in
      let buried =
        scan_deleted-Buried frames p.scan.consumed data_blocks [] p.deleted data_blocks-are
          p.buried in
      let live =
        All-sort_by (λ e. e.identity) (IsLive sha256_hex raw) p.scan.live_entries good.live in
      let moved = λ (a : ℕ). in_live-sort_by p.scan.live_entries a in
      subst Sorted (sym p.result) (record {
        live = live;
        apart = Apart-sort_by p.scan.live_entries good.apart;
        distinct = Distinct-sort_by (λ e. e.identity) p.scan.live_entries good.distinct;
        live_states = λ a i. in_live-HasState sha256_hex raw _ a live i;
        dead_states = λ a i. buried.states (λ b j. absurd (ground arith)) a i;
        live_starts = λ a b h. moved a ∙ sym (good.taken a) ∙ scanned.starts a (blocks-of a b) h;
        dead_starts = λ a b h. buried.starts a (blocks-of a b) h;
        placed = λ a b.
            let (s, es, kept) =
              check_orphans-placed frames p.scan.consumed p.deleted data_blocks tt p.placed a
                (blocks-of a b) in
            (s, es, rw (moved a, ← good.taken a) kept);
        frees = λ a b. kept_of a (blocks-of a b);
      })

  pub parse-Sorted : (card : ParsedCard) → parse sha256_hex raw ≡ ok card → Sorted card
  parse-Sorted card e = Passes-Sorted card (parse-Passes card e)
