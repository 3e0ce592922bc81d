-- ===== src/MemoryCards/Card/Rounds.antt =====
-- What a round of a scan that succeeded found.
use romcloud.Base.{
  ℕ, ◌*◌, ◌≡◌, ◌⊎◌, inl, inr, Bool, true, false, ◌&&◌, ◌||◌, not, String, List, [], ◌∷◌, ◌++◌,
  arith, ◌==◌, ==→≡, contains, if◌then◌else◌, nat_eq, string_eq, length, Bool-cases,
}
use romcloud.SaveContainers.Model.{
  ok, opaque_error, malformed_chain, duplicate_identity, bind-ok, guard-ok,
}
use romcloud.MemoryCards.Bytes.{Bytes, slice, from_bytes}
use romcloud.MemoryCards.Frame.{
  block_size, live_header, deleted_header, state, filename, commercial_namespace,
}
use romcloud.MemoryCards.Chain.{parse_chain}
use romcloud.MemoryCards.Card.{
  LiveScan, hex, parsed_entry, intersects, frames_of, add_live, live_round, deleted_round,
  orphan_round, continuation_states,
}

pub not-false : (b : Bool) → not b ≡ false → b ≡ true
not-false b h = ground arith

or-false : (a b : Bool) → (a || b) ≡ false → (a ≡ false) × (b ≡ false)
or-false a b h = ground arith

module _ (sha256_hex : Bytes → String) (raw : Bytes) where
  -- What the live scan found at `block`.
  pub record Found (scan : LiveScan) (block : ℕ) (scan' : LiveScan) : Type 0 where
    pub chain : List ℕ
    pub name : Bytes
    pub namespace : Bytes
    pub chained : parse_chain (frames_of sha256_hex raw) false block ≡ ok chain
    pub apart : intersects scan.consumed chain ≡ false
    pub named : filename (frames_of sha256_hex raw block) ≡ ok name
    pub sized : from_bytes (slice 4 4 (frames_of sha256_hex raw block)) ≡ length chain * block_size
    pub new : contains scan.identities (hex name) ≡ false
    pub commercial : commercial_namespace name ≡ ok namespace
    pub added : scan' ≡ record {
      consumed = chain ++ scan.consumed;
      live_entries = scan.live_entries ++ (parsed_entry sha256_hex raw chain name namespace ∷ []);
      identities = hex name ∷ scan.identities;
    }

  add_live-Found :
      (scan scan' : LiveScan) (block : ℕ)
      → add_live sha256_hex raw scan block ≡ ok scan'
      → Found scan block scan'
  unfolding add_live
  add_live-Found scan scan' block e =
      let (chain, chained, e1) =
        bind-ok (parse_chain (frames_of sha256_hex raw) false block) _ scan' e in
      let (apart, e2) = guard-ok (intersects scan.consumed chain) malformed_chain _ scan' e1 in
      let (sized, e3) =
        guard-ok
          (not
            (from_bytes (slice 4 4 (frames_of sha256_hex raw block)) == length chain * block_size))
          malformed_chain _ scan' e2 in
      let (name, named, e4) = bind-ok (filename (frames_of sha256_hex raw block)) _ scan' e3 in
      let (new, e5) =
        guard-ok (contains scan.identities (hex name)) duplicate_identity _ scan' e4 in
      let (namespace, commercial, e6) = bind-ok (commercial_namespace name) _ scan' e5 in
      record {
        chain = chain;
        name = name;
        namespace = namespace;
        chained = chained;
        apart = apart;
        named = named;
        sized = ==→≡ _ _ (not-false _ sized);
        new = new;
        commercial = commercial;
        added = cc;
      }

  pub live_round-Found :
      (scan scan' : LiveScan) (block : ℕ)
      → live_round sha256_hex raw scan block ≡ ok scan'
      → (s : ℕ) × (state (frames_of sha256_hex raw block) ≡ ok s)
        × (((s == live_header) ≡ false) × (scan' ≡ scan) ⊎ Found scan block scan')
  unfolding live_round
  live_round-Found scan scan' block e =
      let (s, es, e1) = bind-ok (state (frames_of sha256_hex raw block)) _ scan' e in
      (
        s,
        es,
        elim (Bool-cases (s == live_header)) [
          | inl header ↦ inr (add_live-Found scan scan' block (ground arith))
          | inr other ↦ inl (other, ground arith)
        ],
      )

module _ (frames : ℕ → Bytes) where
  pub deleted_round-Found :
      (consumed before after : List ℕ) (block : ℕ)
      → deleted_round frames consumed before block ≡ ok after
      → (s : ℕ) × (state (frames block) ≡ ok s)
        × (((s == deleted_header) ≡ false) × (after ≡ before)
            ⊎ ((chain : List ℕ) × (parse_chain frames true block ≡ ok chain)
                × (intersects consumed chain ≡ false)
                × (intersects before chain ≡ false)
                × (after ≡ chain ++ before)))
  unfolding deleted_round
  deleted_round-Found consumed before after block e =
      let (s, es, e1) = bind-ok (state (frames block)) _ after e in
      (
        s,
        es,
        elim (Bool-cases (s == deleted_header)) [
          | inl header ↦
              let (chain, chained, e2) =
                bind-ok (parse_chain frames true block)
                  (λ chain.
                    if intersects consumed chain || intersects before chain
                    then opaque_error malformed_chain
                    else ok (chain ++ before))
                  after (ground arith) in
              let (apart, e3) =
                guard-ok (intersects consumed chain || intersects before chain) malformed_chain
                  (ok (chain ++ before)) after e2 in
              let (live, dead) =
                or-false (intersects consumed chain) (intersects before chain) apart in
              inr (chain, chained, live, dead, cc)
          | inr other ↦ inl (other, ground arith)
        ],
      )

  pub orphan_round-Found :
      (consumed deleted_blocks : List ℕ) (block : ℕ) (u : Unit {0})
      → orphan_round frames consumed deleted_blocks block ≡ ok u
      → (s : ℕ) × (state (frames block) ≡ ok s)
        × ((contains (continuation_states frames) s
              && (not (contains consumed block) && not (contains deleted_blocks block)))
            ≡ false)
  unfolding orphan_round
  orphan_round-Found consumed deleted_blocks block u e =
      let (s, es, e1) = bind-ok (state (frames block)) _ u e in
      let (placed, e2) = guard-ok _ malformed_chain _ u e1 in (s, es, placed)
