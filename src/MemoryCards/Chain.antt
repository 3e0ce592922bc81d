-- ===== src/MemoryCards/Chain.antt =====
-- `_parse_chain`: the walk along the links of the directory from the first block of a file. The
-- frames are a function of the block. The loop takes fuel; `parse_chain` gives one round for each
-- data block and one more.
pub mod Laws
pub mod Ends
pub mod Exact
use mathlib.Core.Option
use romcloud.Base.{
  ℕ, zero, suc, Bool, true, false, not, Option, none, some, List, [], ◌∷◌, ◌++◌, ◌==◌, contains,
  if◌then◌else◌, nat_eq, length,
}
use romcloud.SaveContainers.Model.{Result, ok, opaque_error, malformed_chain, ◌>>=◌}
use romcloud.MemoryCards.Bytes.{Bytes}
use romcloud.MemoryCards.Frame.{state, next_block, header_state, demanded_state}

module _ (frames_by_block : ℕ → Bytes) (deleted : Bool) where
  -- One round, after `chain.append(current)`.
  unfoldable pub visit : List ℕ → ℕ → Result (Option ℕ)
  unfolding demanded_state
  visit chain current = next_block (frames_by_block current) >>= λ next.
      state (frames_by_block current) >>= λ current_state.
      if current_state == demanded_state deleted (length chain == 1) next
      then ok next
      else opaque_error malformed_chain

  unfoldable pub chain_loop : Option ℕ → ℕ → List ℕ → Option (Result (List ℕ))
  unfolding visit
  chain_loop none fuel chain = some (ok chain)
  chain_loop (some current) zero chain = none
  chain_loop (some current) (suc fuel) chain =
      if contains chain current
      then some (opaque_error malformed_chain)
      else (let longer = chain ++ (current ∷ []) in
          elim (visit longer current) [
            | ok next ↦ chain_loop next fuel longer
            | opaque_error r ↦ some (opaque_error r)
          ])

  unfoldable pub parse_chain_within : ℕ → ℕ → Option (Result (List ℕ))
  unfolding chain_loop
  parse_chain_within fuel start = elim (state (frames_by_block start)) [
    | ok s ↦
        if s == header_state deleted
        then chain_loop (some start) fuel []
        else some (opaque_error malformed_chain)
    | opaque_error r ↦ some (opaque_error r)
  ]

  unfoldable pub parse_chain : ℕ → Result (List ℕ)
  unfolding parse_chain_within
  parse_chain start = Option.get_or (parse_chain_within 16 start) (opaque_error malformed_chain)
