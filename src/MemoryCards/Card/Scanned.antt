-- ===== src/MemoryCards/Card/Scanned.antt =====
-- The live scan keeps its invariant, and takes every block that is marked as the first of a file.
use mathlib.Core.Path.{subst}
use romcloud.Base.{
  ℕ, ◌≡◌, refl, sym, ap, ◌∙◌, inl, inr, true, false, ◌||◌, String, List, [], ◌∷◌, ◌++◌, map, arith,
  ◌==◌, contains, contains-append, any, nat_eq, string_eq, All, All-append,
}
use romcloud.Base.Subset.{Distinct-snoc}
use romcloud.SaveContainers.Model.{ok, bind-ok}
use romcloud.MemoryCards.Bytes.{Bytes}
use romcloud.MemoryCards.Frame.{state, is_data_block, live_header}
use romcloud.MemoryCards.Chain.Exact.{IsChain, parse_chain-IsChain}
use romcloud.MemoryCards.Card.{
  ParsedEntry, LiveScan, hex, parsed_entry, intersects, frames_of, live_round, scan_live,
}
use romcloud.MemoryCards.Card.Entries.{in_live, Apart-snoc, in_live-snoc}
use romcloud.MemoryCards.Card.Rounds.{Found, live_round-Found}
use romcloud.MemoryCards.Card.Live.{Walk-starts, IsLive, Good}

intersects-false :
    (xs ys : List ℕ) (a : ℕ)
    → intersects xs ys ≡ false
    → contains ys a ≡ true
    → contains xs a ≡ false
unfolding intersects any
intersects-false xs [] a h i = ground arith
intersects-false xs (y ∷ ys) a h i = elim (nat_eq.dec a y) [
  | yes p ↦ rw p (ground arith)
  | no other ↦ intersects-false xs ys a (ground arith) (ground arith)
]

map-snoc :
    (xs : List ParsedEntry) (y : ParsedEntry)
    → map (λ e. e.identity) (xs ++ (y ∷ [])) ≡ map (λ e. e.identity) xs ++ (y.identity ∷ [])
map-snoc [] y = refl
map-snoc (x ∷ xs) y = ap (λ is. x.identity ∷ is) (map-snoc xs y)

module _ (sha256_hex : Bytes → String) (raw : Bytes) where
  abbrev frames : ℕ → Bytes
  frames = frames_of sha256_hex raw

  module _ (scan : LiveScan) (good : Good sha256_hex raw scan) (block : ℕ)
      (placed : is_data_block block ≡ true) (scan' : LiveScan)
      (found : Found sha256_hex raw scan block scan') where
    abbrev entry : ParsedEntry
    entry = parsed_entry sha256_hex raw found.chain found.name found.namespace

    chained : IsChain frames false block found.chain
    chained = (parse_chain-IsChain frames false block found.chain placed).0 found.chained

    entry-IsLive : IsLive sha256_hex raw entry
    unfolding parsed_entry
    entry-IsLive = record {
      start = block;
      namespace = found.namespace;
      placed = placed;
      chained = chained;
      sized = found.sized;
      named = found.named;
      commercial = found.commercial;
      parsed = refl;
    }

    entry-new : (a : ℕ) → contains found.chain a ≡ true → in_live scan.live_entries a ≡ false
    entry-new a i = sym (good.taken a) ∙ intersects-false scan.consumed found.chain a found.apart i

    abbrev longer : LiveScan
    longer = record {
      consumed = found.chain ++ scan.consumed;
      live_entries = scan.live_entries ++ (entry ∷ []);
      identities = hex found.name ∷ scan.identities;
    }

    longer-Good : Good sha256_hex raw longer
    unfolding parsed_entry
    longer-Good = record {
      live =
          All-append (IsLive sha256_hex raw) scan.live_entries (entry ∷ []) good.live
            (entry-IsLive, tt);
      taken = λ a. ground (
        arith,
        contains-append found.chain scan.consumed a,
        good.taken a,
        in_live-snoc scan.live_entries entry a,
      );
      apart = Apart-snoc scan.live_entries entry entry-new good.apart;
      known = λ i. rw (map-snoc scan.live_entries entry) (
          ground (
            arith,
            good.known i,
            contains-append (map (λ e. e.identity) scan.live_entries) (entry.identity ∷ []) i,
          ));
      distinct = rw (map-snoc scan.live_entries entry) (
          Distinct-snoc (map (λ e. e.identity) scan.live_entries) entry.identity good.distinct
            (sym (good.known entry.identity) ∙ found.new));
    }

    round-Good : Good sha256_hex raw scan'
    round-Good = subst (Good sha256_hex raw) (sym found.added) longer-Good

    round-takes :
        (a : ℕ) → contains scan'.consumed a ≡ (contains found.chain a || contains scan.consumed a)
    round-takes a =
        ap (λ (s : LiveScan). contains s.consumed a) found.added
        ∙ contains-append found.chain scan.consumed a

    round-starts : contains scan'.consumed block ≡ true
    round-starts =
        ground (arith, round-takes block, Walk-starts frames false block found.chain chained.1)

  -- What the scan of `blocks` does.
  pub record Scanned (scan : LiveScan) (blocks : List ℕ) (scan' : LiveScan) : Type 0 where
    pub good : Good sha256_hex raw scan'
    pub keeps : (a : ℕ) → contains scan.consumed a ≡ true → contains scan'.consumed a ≡ true
    pub starts :
        (a : ℕ)
        → contains blocks a ≡ true
        → state (frames a) ≡ ok live_header
        → contains scan'.consumed a ≡ true

  live_round-keeps :
      (scan scan' : LiveScan) (block : ℕ)
      → Good sha256_hex raw scan
      → is_data_block block ≡ true
      → live_round sha256_hex raw scan block ≡ ok scan'
      → Good sha256_hex raw scan'
        × ((a : ℕ) → contains scan.consumed a ≡ true → contains scan'.consumed a ≡ true)
        × (state (frames block) ≡ ok live_header → contains scan'.consumed block ≡ true)
  live_round-keeps scan scan' block good placed e =
      let (s, es, found) = live_round-Found sha256_hex raw scan scan' block e in
      elim found [
        | inl (other, same) ↦ (
          subst (Good sha256_hex raw) (sym same) good,
          λ a i. rw same i,
          λ h. absurd (differs s es other h),
        )
        | inr f ↦ (
          round-Good scan good block placed scan' f,
          λ a i. ground (arith, round-takes scan good block placed scan' f a),
          λ h. round-starts scan good block placed scan' f,
        )
      ]
    where
      differs :
          (s : ℕ)
          → state (frames block) ≡ ok s
          → (s == live_header) ≡ false
          → state (frames block) ≡ ok live_header
          → ⊥
      differs s es other h = ground arith

  pub scan_live-Scanned :
      (blocks : List ℕ) (scan scan' : LiveScan)
      → Good sha256_hex raw scan
      → All (λ b. is_data_block b ≡ true) blocks
      → scan_live sha256_hex raw blocks scan ≡ ok scan'
      → Scanned scan blocks scan'
  unfolding scan_live
  scan_live-Scanned [] scan scan' good placed e =
      let same : scan ≡ scan' = cc in
      record {
        good = subst (Good sha256_hex raw) same good;
        keeps = λ a i. rw (← same) i;
        starts = λ a i. absurd (ground arith);
      }
  scan_live-Scanned (block ∷ blocks) scan scan' good placed e =
      let (mid, now, e') =
        bind-ok (live_round sha256_hex raw scan block) (scan_live sha256_hex raw blocks) scan' e in
      let (good', keeps, starts) = live_round-keeps scan mid block good placed.0 now in
      let rest = scan_live-Scanned blocks mid scan' good' placed.1 e' in
      record {
        good = rest.good;
        keeps = λ a i. rest.keeps a (keeps a i);
        starts = λ a i h. elim (nat_eq.dec a block) [
          | yes p ↦ rest.keeps a (rw p (starts (rw (← p) h)))
          | no other ↦ rest.starts a (ground arith) h
        ];
      }
