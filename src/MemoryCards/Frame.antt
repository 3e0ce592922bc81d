-- ===== src/MemoryCards/Frame.antt =====
-- The frames of a card's directory: the state of a block, its link, and the name of its file.
-- Every frame is a slice of a card whose size was checked, so it has 128 bytes and the source's
-- `frame[i]` is in range.
use romcloud.Base.{
  ℕ, ◌+◌, ◌*◌, Bool, true, false, ◌&&◌, ◌||◌, not, Option, none, some, List, [], ◌∷◌, any, all, ltb,
  leb, ◌==◌, contains, if◌then◌else◌, nat_eq, list_eq, length, drop,
}
use romcloud.SaveContainers.Model.{Result, ok, opaque_error, malformed_chain, ambiguous_namespace}
use romcloud.MemoryCards.Bytes.{Bytes, take, item, slice, set_item, from_bytes}
use romcloud.MemoryCards.Xor.{xor_checksum}

abbrev pub card_size : ℕ
card_size = 131_072

abbrev pub block_size : ℕ
block_size = 8192

abbrev pub frame_size : ℕ
frame_size = 128

abbrev pub data_blocks : List ℕ
data_blocks = 1 ∷ 2 ∷ 3 ∷ 4 ∷ 5 ∷ 6 ∷ 7 ∷ 8 ∷ 9 ∷ 10 ∷ 11 ∷ 12 ∷ 13 ∷ 14 ∷ 15 ∷ []

-- `block in DATA_BLOCKS`
unfoldable pub is_data_block : ℕ → Bool
is_data_block block = contains data_blocks block

abbrev pub live_header : ℕ
live_header = 0x51

abbrev pub live_middle : ℕ
live_middle = 0x52

abbrev pub live_end : ℕ
live_end = 0x53

abbrev pub free : ℕ
free = 0xa0

abbrev pub deleted_header : ℕ
deleted_header = 0xa1

abbrev pub deleted_middle : ℕ
deleted_middle = 0xa2

abbrev pub deleted_end : ℕ
deleted_end = 0xa3

abbrev pub known_states : List ℕ
known_states =
    live_header ∷ live_middle ∷ live_end ∷ free ∷ deleted_header ∷ deleted_middle ∷ deleted_end ∷ []

unfoldable pub set_checksum : Bytes → Bytes
unfolding xor_checksum
set_checksum frame = set_item 0x7f (xor_checksum (take 0x7f frame)) frame

unfoldable pub directory_frame : Bytes → ℕ → Bytes
directory_frame raw block = slice (block * frame_size) frame_size raw

-- `raw[value * BLOCK_SIZE : (value + 1) * BLOCK_SIZE]`
unfoldable pub data_block : Bytes → ℕ → Bytes
data_block raw block = slice (block * block_size) block_size raw

unfoldable pub state : Bytes → Result ℕ
state frame =
    if not (slice 1 3 frame == (0 ∷ 0 ∷ 0 ∷ [])) || not (contains known_states (item frame 0))
    then opaque_error malformed_chain
    else ok (item frame 0)

unfoldable pub next_block : Bytes → Result (Option ℕ)
unfolding is_data_block
next_block frame =
    let encoded = from_bytes (slice 8 2 frame) in
    if encoded == 0xffff
    then ok none
    else if is_data_block (encoded + 1)
    then ok (some (encoded + 1))
    else opaque_error malformed_chain

-- `field.partition(b"\x00")`, as the bytes before the first zero and, when there is one, those
-- behind it.
unfoldable pub partition_zero : Bytes → Bytes × Option Bytes
partition_zero [] = ([], none)
partition_zero (byte ∷ field) =
    let rest = partition_zero field in
    if byte == 0 then ([], some field) else (byte ∷ rest.0, rest.1)

unfoldable pub filename : Bytes → Result Bytes
unfolding partition_zero
filename frame =
    let parts = partition_zero (slice 0x0a 20 frame) in
    elim parts.0 [
      | [] ↦ opaque_error ambiguous_namespace
      | _ ∷ _ ↦ elim parts.1 [
        | none ↦ ok parts.0
        | some padding ↦
            if any (λ byte. not (byte == 0)) padding
            then opaque_error ambiguous_namespace
            else ok parts.0
      ]
    ]

unfoldable pub commercial_namespace : Bytes → Result Bytes
unfolding all
commercial_namespace name =
    let prefixes = (0x42 ∷ 0x41 ∷ []) ∷ (0x42 ∷ 0x45 ∷ []) ∷ (0x42 ∷ 0x49 ∷ []) ∷ [] in
    if ltb (length name) 12 || not (contains prefixes (take 2 name))
    then opaque_error ambiguous_namespace
    else (let code = slice 2 10 name in
        if not (length code == 10)
          || (not (slice 4 1 code == (0x2d ∷ []))
              || (not (all (λ value. leb 65 value && leb value 90) (take 4 code))
                  || not (all (λ value. leb 48 value && leb value 57) (drop 5 code))))
        then opaque_error ambiguous_namespace
        else ok (take 12 name))

module _ (deleted : Bool) where
  abbrev pub header_state : ℕ
  header_state = if deleted then deleted_header else live_header

  abbrev pub middle_state : ℕ
  middle_state = if deleted then deleted_middle else live_middle

  abbrev pub end_state : ℕ
  end_state = if deleted then deleted_end else live_end

  -- The state of the first block of a file, of its last, and of one between them, by the block
  -- that it links to.
  unfoldable pub demanded_state : Bool → Option ℕ → ℕ
  demanded_state true next = header_state
  demanded_state false none = end_state
  demanded_state false (some next) = middle_state
