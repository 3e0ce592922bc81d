-- ===== src/MemoryCards/Card.antt =====
-- `_parse`: the checks of a card, the scan of its live and its deleted files, and its free blocks.
-- SHA-256, in hexadecimal, is a parameter.
pub mod Rounds
pub mod Entries
pub mod Live
pub mod Scanned
pub mod Buried
pub mod Allocation
pub mod Owners
use romcloud.Base.{
  ℕ, zero, suc, ◌+◌, ◌*◌, Bool, true, false, ◌&&◌, ◌||◌, not, String, ◌<>◌, Option, none, some,
  List, [], ◌∷◌, ◌++◌, map, ◌==◌, contains, any, keep_if, if◌then◌else◌, nat_eq, list_eq, string_eq,
  option_eq, length,
}
use Prim.Native.Nat.{◌/◌, ◌%◌}
use romcloud.Base.Keys.{sort_by}
use romcloud.SaveContainers.Model.{
  Result, ok, opaque_error, ◌>>=◌, malformed_chain, checksum_failure, duplicate_identity,
  unsupported_ps1_card_size, unsupported_format, ps1_broken_sector_mapping,
}
use romcloud.MemoryCards.Bytes.{Bytes, take, slice, from_bytes, to_bytes}
use romcloud.MemoryCards.Xor.{xor_checksum}
use romcloud.MemoryCards.Frame.{
  card_size, block_size, frame_size, data_blocks, live_header, live_middle, live_end, free,
  deleted_header, deleted_middle, deleted_end, state, next_block, filename, commercial_namespace,
  directory_frame, data_block,
}
use romcloud.MemoryCards.Chain.{parse_chain}
use romcloud.MemoryCards.Write.{link_frame}

pub record ParsedEntry : Type 0 where
  pub identity : String
  pub merge_domain_id : String
  pub filename : Bytes
  pub blocks : List ℕ
  pub frames : List Bytes
  pub data_blocks : List Bytes
  pub canonical_hash : String

pub record ParsedCard : Type 0 where
  pub raw : Bytes
  pub live : List ParsedEntry
  pub deleted_blocks : List ℕ
  pub free_blocks : List ℕ

abbrev pub hex_digits : List String
hex_digits =
    "0" ∷ "1" ∷ "2" ∷ "3" ∷ "4" ∷ "5" ∷ "6" ∷ "7" ∷ "8" ∷ "9" ∷ "a" ∷ "b" ∷ "c" ∷ "d" ∷ "e" ∷ "f"
    ∷ []

unfoldable pub digit_of : List String → ℕ → String
digit_of [] n = ""
digit_of (d ∷ ds) zero = d
digit_of (d ∷ ds) (suc n) = digit_of ds n

-- `xs.hex()`
unfoldable pub hex : Bytes → String
unfolding digit_of
hex [] = ""
hex (x ∷ xs) = digit_of hex_digits (x / 16) <> (digit_of hex_digits (x % 16) <> hex xs)

-- The frames of `_canonical_hash`, from that of `index` on. The link is the place in the file.
unfoldable pub canonical_frames : ℕ → List Bytes → Bytes
unfolding link_frame
canonical_frames index [] = []
canonical_frames index (frame ∷ []) = link_frame false (index == 0) none frame
canonical_frames index (frame ∷ (next ∷ frames)) =
    link_frame false (index == 0) (some (index + 1)) frame
    ++ canonical_frames (index + 1) (next ∷ frames)

unfoldable pub concat : List Bytes → Bytes
concat [] = []
concat (block ∷ blocks) = block ++ concat blocks

-- What `_canonical_hash` feeds to SHA-256.
unfoldable pub canonical_bytes : Bytes → List Bytes → List Bytes → Bytes
unfolding canonical_frames concat
canonical_bytes name frames datas =
    to_bytes 2 (length name)
    ++ (name ++ (to_bytes 2 (length frames) ++ (canonical_frames 0 frames ++ concat datas)))

-- `xs.intersection(ys)` is not empty.
unfoldable pub intersects : List ℕ → List ℕ → Bool
unfolding any
intersects xs ys = any (contains xs) ys

unfoldable pub check_frames : Bytes → List ℕ → Result (Unit {0})
check_frames raw [] = ok tt
check_frames raw (block ∷ blocks) =
    if not (xor_checksum (directory_frame raw block) == 0)
    then opaque_error checksum_failure
    else (state (directory_frame raw block) >>= λ s. check_frames raw blocks)

-- `count` frames from `frame_index` on.
unfoldable pub check_sectors : Bytes → ℕ → ℕ → Result (Unit {0})
check_sectors raw frame_index zero = ok tt
check_sectors raw frame_index (suc count) =
    if slice (frame_index * frame_size) 4 raw == (0xff ∷ 0xff ∷ 0xff ∷ 0xff ∷ [])
    then check_sectors raw (frame_index + 1) count
    else opaque_error ps1_broken_sector_mapping

pub record LiveScan : Type 0 where
  pub consumed : List ℕ
  pub live_entries : List ParsedEntry
  pub identities : List String

module _ (frames : ℕ → Bytes) where
  unfoldable pub deleted_round : List ℕ → List ℕ → ℕ → Result (List ℕ)
  unfolding parse_chain intersects
  deleted_round consumed deleted_blocks block = state (frames block) >>= λ s.
      if not (s == deleted_header)
      then ok deleted_blocks
      else (parse_chain frames true block >>= λ chain.
          if intersects consumed chain || intersects deleted_blocks chain
          then opaque_error malformed_chain
          else ok (chain ++ deleted_blocks))

  unfoldable pub scan_deleted : List ℕ → List ℕ → List ℕ → Result (List ℕ)
  unfolding deleted_round
  scan_deleted consumed [] deleted_blocks = ok deleted_blocks
  scan_deleted consumed (block ∷ blocks) deleted_blocks =
      deleted_round consumed deleted_blocks block >>= scan_deleted consumed blocks

  abbrev pub continuation_states : List ℕ
  continuation_states = live_middle ∷ live_end ∷ deleted_middle ∷ deleted_end ∷ []

  unfoldable pub orphan_round : List ℕ → List ℕ → ℕ → Result (Unit {0})
  orphan_round consumed deleted_blocks block = state (frames block) >>= λ s.
      if contains continuation_states s
        && (not (contains consumed block) && not (contains deleted_blocks block))
      then opaque_error malformed_chain
      else if not (s == free)
      then ok tt
      else (next_block (frames block) >>= λ next. elim next [
        | none ↦ ok tt
        | some linked ↦ opaque_error malformed_chain
      ])

  unfoldable pub check_orphans : List ℕ → List ℕ → List ℕ → Result (Unit {0})
  unfolding orphan_round
  check_orphans consumed deleted_blocks [] = ok tt
  check_orphans consumed deleted_blocks (block ∷ blocks) =
      orphan_round consumed deleted_blocks block >>= λ u.
      check_orphans consumed deleted_blocks blocks

  unfoldable pub is_free : ℕ → Bool
  is_free block = elim (state (frames block)) [ ok s ↦ s == free | opaque_error r ↦ false ]

module _ (sha256_hex : Bytes → String) (raw : Bytes) where
  abbrev pub frames_of : ℕ → Bytes
  frames_of = directory_frame raw

  unfoldable pub parsed_entry : List ℕ → Bytes → Bytes → ParsedEntry
  unfolding canonical_bytes hex
  parsed_entry chain name namespace =
      let entry_frames = map frames_of chain in
      let datas = map (data_block raw) chain in
      record {
        identity = hex name;
        merge_domain_id = "ps1-game:" <> hex namespace;
        filename = name;
        blocks = chain;
        frames = entry_frames;
        data_blocks = datas;
        canonical_hash = sha256_hex (canonical_bytes name entry_frames datas);
      }

  -- The round of the live scan for a block whose state is `live_header`.
  unfoldable pub add_live : LiveScan → ℕ → Result LiveScan
  unfolding parsed_entry intersects
  add_live scan block = parse_chain frames_of false block >>= λ chain.
      if intersects scan.consumed chain
      then opaque_error malformed_chain
      else if not (from_bytes (slice 4 4 (frames_of block)) == length chain * block_size)
      then opaque_error malformed_chain
      else (filename (frames_of block) >>= λ name.
          if contains scan.identities (hex name)
          then opaque_error duplicate_identity
          else (commercial_namespace name >>= λ namespace. ok (record {
            consumed = chain ++ scan.consumed;
            live_entries = scan.live_entries ++ (parsed_entry chain name namespace ∷ []);
            identities = hex name ∷ scan.identities;
          })))

  unfoldable pub live_round : LiveScan → ℕ → Result LiveScan
  unfolding add_live
  live_round scan block = state (frames_of block) >>= λ s.
      if not (s == live_header) then ok scan else add_live scan block

  unfoldable pub scan_live : List ℕ → LiveScan → Result LiveScan
  unfolding live_round
  scan_live [] scan = ok scan
  scan_live (block ∷ blocks) scan = live_round scan block >>= scan_live blocks

  unfoldable pub parse : Result ParsedCard
  unfolding check_frames check_sectors scan_live scan_deleted check_orphans is_free
  parse =
      if not (length raw == card_size)
      then opaque_error unsupported_ps1_card_size
      else if not (take 2 raw == (0x4d ∷ 0x43 ∷ []))
      then opaque_error unsupported_format
      else if not (xor_checksum (take frame_size raw) == 0)
      then opaque_error checksum_failure
      else (check_frames raw data_blocks >>= λ u. check_sectors raw 16 20 >>= λ u.
          scan_live data_blocks (record { consumed = []; live_entries = []; identities = [] })
          >>= λ scan. scan_deleted frames_of scan.consumed data_blocks [] >>= λ deleted_blocks.
              check_orphans frames_of scan.consumed deleted_blocks data_blocks >>= λ u. ok (record {
                raw = raw;
                live = sort_by (λ entry. entry.identity) scan.live_entries;
                deleted_blocks = deleted_blocks;
                free_blocks = keep_if (is_free frames_of) data_blocks;
              }))
