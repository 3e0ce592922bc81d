-- ===== src/MemoryCards/Card/Owners.antt =====
-- A card that `_parse` accepts: its live files, and where each of its data blocks belongs.
use romcloud.Base.{
  ℕ, ◌+◌, ◌≡◌, refl, ◌∙◌, Bool, true, false, ◌&&◌, not, String, [], ◌∷◌, map, arith, ◌==◌, contains,
  nat_eq, string_eq, All, Distinct,
}
use romcloud.SaveContainers.Model.{ok}
use romcloud.MemoryCards.Bytes.{Bytes}
use romcloud.MemoryCards.Frame.{
  state, is_data_block, known_states, live_header, live_middle, live_end, deleted_header,
  deleted_middle, deleted_end, free,
}
use romcloud.MemoryCards.Card.{ParsedCard, parse, frames_of, is_free}
use romcloud.MemoryCards.Card.Entries.{in_live, Apart}
use romcloud.MemoryCards.Card.Live.{HasState, IsLive, file_states}
use romcloud.MemoryCards.Card.Allocation.{Sorted, parse-Sorted, state-known}

abbrev pub one_if : Bool → ℕ
one_if true = 1
one_if false = 0

-- The states decide: a block has one state, and each kind of file has its own.
one_kind :
    (s : ℕ) (live dead : Bool)
    → contains known_states s ≡ true
    → (live ≡ true → contains (file_states false) s ≡ true)
    → (dead ≡ true → contains (file_states true) s ≡ true)
    → ((s == live_header) ≡ true → live ≡ true)
    → ((s == deleted_header) ≡ true → dead ≡ true)
    → (contains (live_middle ∷ live_end ∷ deleted_middle ∷ deleted_end ∷ []) s
        && (not live && not dead))
      ≡ false
    → one_if live + one_if dead + one_if (s == free) ≡ 1
unfolding nat_eq
one_kind s live dead k l d sl sd o = ground arith

is_free-state :
    (frames : ℕ → Bytes) (a s : ℕ) → state (frames a) ≡ ok s → is_free frames a ≡ (s == free)
unfolding is_free
is_free-state frames a s e = rw (is_free, e) refl

module _ (sha256_hex : Bytes → String) (raw : Bytes) (card : ParsedCard)
    (parsed : parse sha256_hex raw ≡ ok card) where
  abbrev frames : ℕ → Bytes
  frames = frames_of sha256_hex raw

  abbrev sorted : Sorted sha256_hex raw card
  sorted = parse-Sorted sha256_hex raw card parsed

  same_state :
      (deleted : Bool) (a s : ℕ)
      → state (frames a) ≡ ok s
      → HasState frames deleted a
      → contains (file_states deleted) s ≡ true
  same_state deleted a s e (t, f, i) = let same : t ≡ s = cc in rw (← same) i

  -- On a card that `parse` accepts, every live file is a chain of the directory, with the size, the
  -- commercial name and the data that stand there; no two live files share a block, and no two have
  -- the same identity.
  pub parse-IsLive :
      All (IsLive sha256_hex raw) card.live
      × Apart card.live
      × Distinct (map (λ e. e.identity) card.live)
  parse-IsLive = (sorted.live, sorted.apart, sorted.distinct)

  -- On a card that `parse` accepts, every data block is in exactly one of the three places: in a
  -- live file, among the deleted blocks, or among the free blocks.
  pub parse-one_owner :
      (a : ℕ)
      → is_data_block a ≡ true
      → one_if (in_live card.live a)
          + one_if (contains card.deleted_blocks a)
          + one_if (contains card.free_blocks a)
        ≡ 1
  parse-one_owner a b =
      let (s, es, kept) = sorted.placed a b in
      let free_if : contains card.free_blocks a ≡ (s == free) =
        sorted.frees a b ∙ is_free-state frames a s es in
      rw free_if (
        one_kind s (in_live card.live a) (contains card.deleted_blocks a)
          (state-known (frames a) s es) (λ l. same_state false a s es (sorted.live_states a l))
          (λ d. same_state true a s es (sorted.dead_states a d))
          (λ h. sorted.live_starts a b (ground arith)) (λ h. sorted.dead_starts a b (ground arith))
          kept)
