-- ===== src/MemoryCards/Chain/Ends.antt =====
-- The walk of `_parse_chain` ends, whatever the links are.
use romcloud.Base.{
  ℕ, zero, suc, ◌+◌, ◌≤◌, ◌≡◌, refl, ◌∙◌, Bool, true, Option, none, some, List, [], ◌∷◌, ◌++◌,
  arith, ◌==◌, contains, nat_eq, length, length-append, contains-append, Distinct, Bool-cases, inl,
  inr,
}
use romcloud.Base.Subset.{Distinct-length_le, Distinct-snoc}
use romcloud.SaveContainers.Model.{Result, ok, opaque_error, malformed_chain, Result-cases}
use romcloud.MemoryCards.Bytes.{Bytes}
use romcloud.MemoryCards.Frame.{header_state, state, data_blocks, is_data_block}
use romcloud.MemoryCards.Chain.{visit, chain_loop, parse_chain_within, parse_chain}
use romcloud.MemoryCards.Chain.Laws.{IsTarget, next_block-IsTarget, visit_ok, chain_loop-step}

module _ (frames : ℕ → Bytes) (deleted : Bool) where
  -- The loop returns `result` on `fuel` and on any more.
  abbrev Settles : Option ℕ → ℕ → List ℕ → Result (List ℕ) → Type 0
  Settles current fuel chain result =
      (more : ℕ) → fuel ≤ more → chain_loop frames deleted current more chain ≡ some result

  Settles-suc :
      (c fuel : ℕ) (chain : List ℕ) (result : Result (List ℕ))
      → ((m : ℕ) → fuel ≤ m → chain_loop frames deleted (some c) (suc m) chain ≡ some result)
      → Settles (some c) (suc fuel) chain result
  Settles-suc c fuel chain result f zero le = absurd (omega arith)
  Settles-suc c fuel chain result f (suc m) le = f m (omega arith)

  pub length_le_data_blocks :
      (chain : List ℕ)
      → Distinct chain
      → ((a : ℕ) → contains chain a ≡ true → is_data_block a ≡ true)
      → length chain ≤ 15
  unfolding is_data_block
  length_le_data_blocks chain d sub = Distinct-length_le chain data_blocks d sub

  -- Enough fuel: a round for each data block that is not visited yet, and one more.
  chain_loop-Settles :
      (current : Option ℕ) (fuel : ℕ) (chain : List ℕ)
      → Distinct chain
      → ((a : ℕ) → contains chain a ≡ true → is_data_block a ≡ true)
      → IsTarget current
      → 16 ≤ length chain + fuel
      → (result : Result (List ℕ)) × Settles current fuel chain result
  unfolding chain_loop
  chain_loop-Settles none fuel chain d sub t h = (ok chain, λ k le. refl)
  chain_loop-Settles (some c) zero chain d sub t h =
      absurd (omega (arith, length_le_data_blocks chain d sub))
  chain_loop-Settles (some c) (suc fuel) chain d sub t h =
      let longer = chain ++ (c ∷ []) in
      elim (Bool-cases (contains chain c)) [
        | inl seen ↦ (
          opaque_error malformed_chain,
          Settles-suc c fuel chain (opaque_error malformed_chain) λ m le. ground arith,
        )
        | inr new ↦ elim (Result-cases (visit frames deleted longer c)) [
          | inl (next, v) ↦
              let (result, found) =
                chain_loop-Settles next fuel longer (Distinct-snoc chain c d new)
                  (λ a i. ground (arith, contains-append chain (c ∷ []) a, sub a))
                  (next_block-IsTarget (frames c) next (visit_ok frames deleted longer c next v).0)
                  (omega (arith, length-append chain (c ∷ []))) in
              (
                result,
                Settles-suc c fuel chain result
                    λ m le. chain_loop-step frames deleted chain c m next new v ∙ found m le,
              )
          | inr (why, v) ↦
              (opaque_error why, Settles-suc c fuel chain (opaque_error why) λ m le. ground arith)
        ]
      ]

  parse_chain_within-Settles :
      (start : ℕ)
      → is_data_block start ≡ true
      → (result : Result (List ℕ)) × ((more : ℕ)
          → 16 ≤ more
          → parse_chain_within frames deleted more start ≡ some result)
  unfolding parse_chain_within
  parse_chain_within-Settles start b =
      let (result, found) =
        chain_loop-Settles (some start) 16 [] tt (λ a i. ground arith) b (omega arith) in
      elim (Result-cases (state (frames start))) [
        | inl (s, e) ↦ elim (Bool-cases (s == header_state deleted)) [
          | inl header ↦ (result, λ m le. ground (arith, found m le))
          | inr other ↦ (opaque_error malformed_chain, λ m le. ground arith)
        ]
        | inr (why, e) ↦ (opaque_error why, λ m le. ground arith)
      ]

  -- From a data block, whatever the directory holds, the walk ends in 16 rounds: with 16 rounds or
  -- any greater number it returns the result of `parse_chain`, a chain or an error.
  pub parse_chain_within-ends :
      (start more : ℕ)
      → is_data_block start ≡ true
      → 16 ≤ more
      → parse_chain_within frames deleted more start ≡ some (parse_chain frames deleted start)
  unfolding parse_chain
  parse_chain_within-ends start more b h =
      let (result, found) = parse_chain_within-Settles start b in
      rw (found 16 (omega arith)) (found more h)
