-- ===== src/MemoryCards/Tests.antt =====
-- A card with one game of two blocks, runs of the parser on it, and the theorems at it.
use romcloud.Base.{
  ℕ, zero, suc, ◌+◌, ◌≡◌, refl, true, false, String, some, [], ◌∷◌, ◌++◌, map, arith, contains,
  nat_eq, length, string_eq, list_eq, All, Distinct,
}
use romcloud.Base.{keep_if, all}
use romcloud.Base.Keys.{sort_by, sorted, dedup}
use romcloud.SaveContainers.Model.{ok}
use romcloud.MemoryCards.Bytes.{Bytes}
use romcloud.MemoryCards.Xor.{xor_checksum}
use romcloud.MemoryCards.Frame.{
  state, next_block, is_data_block, directory_frame, card_size, filename, commercial_namespace,
}
use romcloud.MemoryCards.Chain.{parse_chain, parse_chain_within}
use romcloud.MemoryCards.Card.{ParsedCard, parse, parsed_entry}
use romcloud.Base.{◌↔◌, ◌≤◌}
use romcloud.MemoryCards.Frame.{data_block}
use romcloud.MemoryCards.Chain.Ends.{parse_chain_within-ends}
use romcloud.MemoryCards.Chain.Exact.{IsChain, parse_chain-IsChain, parse_chain-length}
use romcloud.MemoryCards.Write.{ExtractedPs1Entry, write_chain, mark_deleted}
use romcloud.MemoryCards.Write.Laws.{SameBeside, write_chain-parse_chain}
use romcloud.MemoryCards.Card.Entries.{in_live, Apart}
use romcloud.MemoryCards.Card.Live.{IsLive}
use romcloud.MemoryCards.Card.Owners.{one_if, parse-IsLive, parse-one_owner}
use romcloud.MemoryCards.Adapter.{RebuildPlan, CandidateReceipt, content_eq, rebuild}
use romcloud.MemoryCards.Adapter.Checked.{Receipts, rebuild-Receipts}

abbrev replicate : ℕ → ℕ → Bytes
replicate zero b = []
replicate (suc n) b = b ∷ replicate n b

abbrev header : Bytes
header = 0x4d ∷ 0x43 ∷ replicate 125 0 ++ (0x0e ∷ [])

abbrev free_frame : Bytes
free_frame = 0xa0 ∷ replicate 7 0 ++ (0xff ∷ 0xff ∷ replicate 117 0 ++ (0xa0 ∷ []))

abbrev free_frames : ℕ → Bytes
free_frames zero = []
free_frames (suc n) = free_frame ++ free_frames n

-- "BASLUS-00001GAME"
abbrev game_name : Bytes
game_name =
    0x42 ∷ 0x41 ∷ 0x53 ∷ 0x4c ∷ 0x55 ∷ 0x53 ∷ 0x2d ∷ 0x30 ∷ 0x30 ∷ 0x30 ∷ 0x30 ∷ 0x31 ∷ 0x47 ∷ 0x41
    ∷ 0x4d ∷ 0x45 ∷ []

abbrev game_code : Bytes
game_code = 0x42 ∷ 0x41 ∷ 0x53 ∷ 0x4c ∷ 0x55 ∷ 0x53 ∷ 0x2d ∷ 0x30 ∷ 0x30 ∷ 0x30 ∷ 0x30 ∷ 0x31 ∷ []

-- The first block of the game, which links to block 2, and its last one.
abbrev first_frame : Bytes
first_frame =
    0x51 ∷ 0 ∷ 0 ∷ 0 ∷ 0 ∷ 0x40 ∷ 0 ∷ 0 ∷ 1 ∷ 0 ∷ game_name ++ (replicate 101 0 ++ (0x18 ∷ []))

abbrev last_frame : Bytes
last_frame = 0x53 ∷ replicate 7 0 ++ (0xff ∷ 0xff ∷ replicate 117 0 ++ (0x53 ∷ []))

abbrev card : Bytes
card =
    header
    ++ (first_frame
        ++ (last_frame ++ (free_frames 13 ++ (replicate 2560 0xff ++ replicate 126_464 0))))

abbrev no_hash : Bytes → String
no_hash bytes = "hash"

abbrev game_card : ParsedCard
game_card = record {
  raw = card;
  live = parsed_entry no_hash card (1 ∷ 2 ∷ []) game_name game_code ∷ [];
  deleted_blocks = [];
  free_blocks = 3 ∷ 4 ∷ 5 ∷ 6 ∷ 7 ∷ 8 ∷ 9 ∷ 10 ∷ 11 ∷ 12 ∷ 13 ∷ 14 ∷ 15 ∷ [];
}

card_parses : parse no_hash card ≡ ok game_card
unfolding parse nat_eq list_eq string_eq directory_frame state next_block sort_by keep_if all
    filename commercial_namespace
card_parses = refl

parse_chain_within-ends_example :
    parse_chain_within (directory_frame card) false 20 1
    ≡ some (parse_chain (directory_frame card) false 1)
unfolding is_data_block nat_eq
parse_chain_within-ends_example =
    parse_chain_within-ends (directory_frame card) false 1 20 refl (omega arith)

parse_chain-IsChain_example :
    (parse_chain (directory_frame card) false 1 ≡ ok (1 ∷ 2 ∷ []))
    ↔ IsChain (directory_frame card) false 1 (1 ∷ 2 ∷ [])
unfolding is_data_block nat_eq
parse_chain-IsChain_example = parse_chain-IsChain (directory_frame card) false 1 (1 ∷ 2 ∷ []) refl

parse_chain-length_example :
    (2 ≤ 15) × ((a : ℕ) → contains (1 ∷ 2 ∷ []) a ≡ true → is_data_block a ≡ true)
unfolding is_data_block nat_eq parse_chain state next_block list_eq directory_frame
parse_chain-length_example =
    parse_chain-length (directory_frame card) false 1 (1 ∷ 2 ∷ []) refl refl

-- A game of two blocks, to be written to the blocks 5 and 3.
abbrev payload : ExtractedPs1Entry
payload = record {
  filename = game_name;
  frames = first_frame ∷ last_frame ∷ [];
  data_blocks = replicate 8192 7 ∷ replicate 8192 9 ∷ [];
}

write_chain-parse_chain_example :
    (raw' : Bytes) × (write_chain card (5 ∷ 3 ∷ []) payload ≡ ok (some raw'))
    × (length raw' ≡ card_size)
    × (parse_chain (directory_frame raw') false 5 ≡ ok (5 ∷ 3 ∷ []))
    × (map (data_block raw') (5 ∷ 3 ∷ []) ≡ payload.data_blocks)
    × All (λ b. xor_checksum (directory_frame raw' b) ≡ 0) (5 ∷ 3 ∷ [])
    × SameBeside (5 ∷ 3 ∷ []) card raw'
unfolding is_data_block nat_eq
write_chain-parse_chain_example =
    write_chain-parse_chain card 5 (3 ∷ []) payload refl (refl, (refl, tt)) (refl, (refl, tt))
      (refl, refl, (refl, refl, tt))

parse-IsLive_example :
    All (IsLive no_hash card) game_card.live
    × Apart game_card.live
    × Distinct (map (λ e. e.identity) game_card.live)
parse-IsLive_example = parse-IsLive no_hash card game_card card_parses

parse-one_owner_example :
    one_if (in_live game_card.live 2)
      + one_if (contains game_card.deleted_blocks 2)
      + one_if (contains game_card.free_blocks 2)
    ≡ 1
unfolding is_data_block nat_eq
parse-one_owner_example = parse-one_owner no_hash card game_card card_parses 2 refl

-- The card without its game.
abbrev without_game : RebuildPlan
without_game = record {
  expected = record {
    container_id = "card";
    adapter_id = "ps1-raw-memory-card";
    schema_version = 1;
    format_variant = "ps1-raw-128k";
    entries = [];
  };
  replacements = [];
  removals = [];
}

abbrev receipt : CandidateReceipt
receipt = record {
  candidate = mark_deleted card (1 ∷ 2 ∷ []);
  physical_hash = "hash";
  expected = without_game.expected;
}

card_rebuilds : rebuild no_hash card without_game ≡ ok (some receipt)
unfolding rebuild parse nat_eq list_eq string_eq directory_frame state next_block sort_by keep_if
    all filename commercial_namespace content_eq sorted dedup
card_rebuilds = refl

rebuild-Receipts_example : Receipts no_hash without_game.expected receipt
rebuild-Receipts_example = rebuild-Receipts no_hash card without_game receipt card_rebuilds
