-- ===== src/MemoryCards/Chain/Exact.antt =====
-- `_parse_chain` returns exactly the chains of the directory.
use romcloud.Base.{
  ℕ, ◌≤◌, ◌≡◌, ◌↔◌, refl, ap, ◌∙◌, Bool, true, false, Option, none, some, List, [], ◌∷◌, arith,
  contains, nat_eq, length, Distinct,
}
use romcloud.SaveContainers.Model.{ok}
use romcloud.MemoryCards.Bytes.{Bytes}
use romcloud.MemoryCards.Frame.{demanded_state, header_state, state, is_data_block}
use romcloud.MemoryCards.Chain.{parse_chain_within, parse_chain}
use romcloud.MemoryCards.Chain.Laws.{
  IsTarget, next_block-IsTarget, Walk, chain_loop-Continues, chain_loop_complete,
}
use romcloud.MemoryCards.Chain.Ends.{length_le_data_blocks, parse_chain_within-ends}

module _ (frames : ℕ → Bytes) (deleted : Bool) where
  Walk-blocks :
      (first : Bool) (current : Option ℕ) (blocks : List ℕ)
      → IsTarget current
      → Walk frames deleted first current blocks
      → (a : ℕ) → contains blocks a ≡ true
      → is_data_block a ≡ true
  Walk-blocks first none [] t w a i = ground arith
  Walk-blocks first none (b ∷ bs) t w a i = absurd w
  Walk-blocks first (some c) [] t w a i = absurd w
  Walk-blocks first (some c) (b ∷ bs) t (next, same, n, s, w) a i =
      let rest = Walk-blocks false next bs (next_block-IsTarget (frames b) next n) w a in
      let t' : is_data_block b ≡ true = rw (← same) t in
      elim (nat_eq.dec a b) [ yes p ↦ rw p t' | no other ↦ rest (ground arith) ]

  -- `blocks` is the chain of a file that starts at `start`.
  abbrev pub IsChain : ℕ → List ℕ → Type 0
  IsChain start blocks = Distinct blocks × Walk frames deleted true (some start) blocks

  pub IsChain-blocks :
      (start : ℕ) (blocks : List ℕ)
      → is_data_block start ≡ true
      → IsChain start blocks
      → (a : ℕ) → contains blocks a ≡ true
      → is_data_block a ≡ true
  IsChain-blocks start blocks b (d, w) = Walk-blocks true (some start) blocks b w

  pub IsChain-length :
      (start : ℕ) (blocks : List ℕ)
      → is_data_block start ≡ true
      → IsChain start blocks
      → length blocks ≤ 15
  IsChain-length start blocks b c =
      length_le_data_blocks frames deleted blocks c.0 (IsChain-blocks start blocks b c)

  within-IsChain :
      (start : ℕ) (blocks : List ℕ)
      → parse_chain_within frames deleted 16 start ≡ some (ok blocks)
      → IsChain start blocks
  unfolding parse_chain_within
  within-IsChain start blocks e =
      let (rest, d, split, w) =
        chain_loop-Continues frames deleted (some start) 16 [] blocks tt (ground arith) in
      (d, rw split w)

  IsChain-header :
      (start : ℕ) (blocks : List ℕ)
      → IsChain start blocks
      → state (frames start) ≡ ok (header_state deleted)
  unfolding demanded_state
  IsChain-header start [] (d, w) = absurd w
  IsChain-header start (b ∷ bs) (d, (next, same, n, s, w)) = rw same s

  IsChain-within :
      (start : ℕ) (blocks : List ℕ)
      → is_data_block start ≡ true
      → IsChain start blocks
      → parse_chain_within frames deleted 16 start ≡ some (ok blocks)
  unfolding parse_chain_within
  IsChain-within start blocks b c =
      let short = IsChain-length start blocks b c in
      ground (
        arith,
        IsChain-header start blocks c,
        chain_loop_complete frames deleted (some start) 16 [] blocks c.0 (omega arith) c.1,
      )

  -- From a data block, `parse_chain` returns some blocks exactly when these are a chain of the
  -- directory: they start there, none occurs twice, each is in the state that its place demands
  -- and links to the next, and the last one links to none.
  pub parse_chain-IsChain :
      (start : ℕ) (blocks : List ℕ)
      → is_data_block start ≡ true
      → (parse_chain frames deleted start ≡ ok blocks) ↔ IsChain start blocks
  parse_chain-IsChain start blocks b =
      let ends = parse_chain_within-ends frames deleted start 16 b (omega arith) in
      (
        λ e. within-IsChain start blocks (ends ∙ ap some e),
        λ c. unfold parse_chain in rw (IsChain-within start blocks b c) refl,
      )

  -- A chain that `parse_chain` returns from a data block has at most 15 blocks, all of them data
  -- blocks of the card.
  pub parse_chain-length :
      (start : ℕ) (blocks : List ℕ)
      → is_data_block start ≡ true
      → parse_chain frames deleted start ≡ ok blocks
      → (length blocks ≤ 15) × ((a : ℕ) → contains blocks a ≡ true → is_data_block a ≡ true)
  parse_chain-length start blocks b e =
      let c = (parse_chain-IsChain start blocks b).0 e in
      (IsChain-length start blocks b c, IsChain-blocks start blocks b c)
