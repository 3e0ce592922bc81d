-- ===== src/MemoryCards/Card/Buried.antt =====
-- The scan of the deleted files, and the check for continuations that belong to no file.
use mathlib.Core.Path.{subst}
use romcloud.Base.{
  ℕ, ◌≡◌, sym, inl, inr, true, false, ◌&&◌, not, List, [], ◌∷◌, ◌++◌, arith, ◌==◌, contains,
  contains-append, nat_eq, All, Bool-cases, some,
}
use romcloud.SaveContainers.Model.{ok, bind-ok}
use romcloud.MemoryCards.Bytes.{Bytes}
use romcloud.MemoryCards.Frame.{state, is_data_block, deleted_header}
use romcloud.MemoryCards.Chain.Exact.{IsChain, parse_chain-IsChain}
use romcloud.MemoryCards.Card.{
  deleted_round, scan_deleted, orphan_round, check_orphans, continuation_states,
}
use romcloud.MemoryCards.Card.Rounds.{deleted_round-Found, orphan_round-Found}
use romcloud.MemoryCards.Card.Live.{HasState, Walk-HasState, Walk-starts}

module _ (frames : ℕ → Bytes) (consumed : List ℕ) where
  -- What the scan of `blocks` does.
  pub record Buried (before : List ℕ) (blocks : List ℕ) (after : List ℕ) : Type 0 where
    pub states :
        ((a : ℕ) → contains before a ≡ true → HasState frames true a)
        → (a : ℕ) → contains after a ≡ true
        → HasState frames true a
    pub keeps : (a : ℕ) → contains before a ≡ true → contains after a ≡ true
    pub starts :
        (a : ℕ)
        → contains blocks a ≡ true
        → state (frames a) ≡ ok deleted_header
        → contains after a ≡ true

  Buried-nil : (before : List ℕ) → Buried before [] before
  Buried-nil before = record {
    states = λ h a i. h a i;
    keeps = λ a i. i;
    starts = λ a i h. absurd (ground arith);
  }

  differs :
      (a s : ℕ)
      → state (frames a) ≡ ok s
      → (s == deleted_header) ≡ false
      → state (frames a) ≡ ok deleted_header
      → ⊥
  differs a s es other h = ground arith

  Buried-chain :
      (before : List ℕ) (block : ℕ) (chain : List ℕ)
      → IsChain frames true block chain
      → Buried before (block ∷ []) (chain ++ before)
  Buried-chain before block chain (d, w) = record {
    states = λ h a i. elim (Bool-cases (contains chain a)) [
      | inl j ↦ Walk-HasState frames true true (some block) chain w a j
      | inr o ↦ h a (ground (arith, contains-append chain before a))
    ];
    keeps = λ a i. ground (arith, contains-append chain before a);
    starts = λ a i h.
        ground (arith, contains-append chain before a, Walk-starts frames true block chain w);
  }

  deleted_round-Buried :
      (before after : List ℕ) (block : ℕ)
      → is_data_block block ≡ true
      → deleted_round frames consumed before block ≡ ok after
      → Buried before (block ∷ []) after
  deleted_round-Buried before after block placed e =
      let (s, es, found) = deleted_round-Found frames consumed before after block e in
      elim found [
        | inl (other, same) ↦ subst (Buried before (block ∷ [])) (sym same) (record {
          states = λ h a i. h a i;
          keeps = λ a i. i;
          starts = λ a i h. elim (nat_eq.dec a block) [
            | yes p ↦ absurd (differs block s es other (rw (← p) h))
            | no o ↦ absurd (ground arith)
          ];
        })
        | inr (chain, chained, live, dead, joined) ↦
            subst (Buried before (block ∷ [])) (sym joined) (
              Buried-chain before block chain
                ((parse_chain-IsChain frames true block chain placed).0 chained))
      ]

  pub scan_deleted-Buried :
      (blocks before after : List ℕ)
      → All (λ b. is_data_block b ≡ true) blocks
      → scan_deleted frames consumed blocks before ≡ ok after
      → Buried before blocks after
  unfolding scan_deleted
  scan_deleted-Buried [] before after placed e =
      let same : before ≡ after = cc in subst (Buried before []) same (Buried-nil before)
  scan_deleted-Buried (block ∷ blocks) before after placed e =
      let (mid, now, e') =
        bind-ok (deleted_round frames consumed before block) (scan_deleted frames consumed blocks)
          after e in
      let first = deleted_round-Buried before mid block placed.0 now in
      let rest = scan_deleted-Buried blocks mid after placed.1 e' in
      record {
        states = λ h a i. rest.states (first.states h) a i;
        keeps = λ a i. rest.keeps a (first.keeps a i);
        starts = λ a i h. elim (nat_eq.dec a block) [
          | yes p ↦ rest.keeps a (first.starts a (ground arith) h)
          | no other ↦ rest.starts a (ground arith) h
        ];
      }

  pub check_orphans-placed :
      (deleted_blocks blocks : List ℕ) (u : Unit {0})
      → check_orphans frames consumed deleted_blocks blocks ≡ ok u
      → (a : ℕ) → contains blocks a ≡ true
      → (s : ℕ) × (state (frames a) ≡ ok s)
        × ((contains (continuation_states frames) s
              && (not (contains consumed a) && not (contains deleted_blocks a)))
            ≡ false)
  unfolding check_orphans
  check_orphans-placed deleted_blocks [] u e a i = absurd (ground arith)
  check_orphans-placed deleted_blocks (block ∷ blocks) u e a i =
      let (v, now, e') =
        bind-ok (orphan_round frames consumed deleted_blocks block)
          (λ v. check_orphans frames consumed deleted_blocks blocks) u e in
      elim (nat_eq.dec a block) [
        | yes p ↦ rw p (orphan_round-Found frames consumed deleted_blocks block v now)
        | no other ↦ check_orphans-placed deleted_blocks blocks u e' a (ground arith)
      ]
