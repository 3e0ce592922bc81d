-- ===== src/MemoryCards/Write.antt =====
-- `_write_chain` and `_mark_deleted`: a file's frames and blocks put into a card.
pub mod Link
pub mod Place
pub mod Laws
use romcloud.Base.{
  ℕ, suc, ◌-◌, ◌*◌, Bool, true, false, Option, none, some, List, [], ◌∷◌, ◌==◌, if◌then◌else◌,
  nat_eq, length,
}
use mathlib.Core.Option
use romcloud.SaveContainers.Model.{Result, ok, opaque_error, validation_failure}
use romcloud.MemoryCards.Bytes.{Bytes, set_slice, slice, to_bytes}
use romcloud.MemoryCards.Frame.{
  frame_size, block_size, demanded_state, set_checksum, directory_frame,
}

-- `_ExtractedPs1Entry`
pub record ExtractedPs1Entry : Type 0 where
  pub filename : Bytes
  pub frames : List Bytes
  pub data_blocks : List Bytes

-- `blocks[index + 1]`, which the last block has not.
abbrev pub following : List ℕ → Option ℕ
following [] = none
following (block ∷ blocks) = some block

unfoldable pub link_bytes : Option ℕ → Bytes
link_bytes none = 0xff ∷ 0xff ∷ []
link_bytes (some block) = to_bytes 2 (block - 1)

-- A frame with its new state, its new link and its new checksum.
unfoldable pub link_frame : Bool → Bool → Option ℕ → Bytes → Bytes
unfolding demanded_state link_bytes set_checksum
link_frame deleted first next frame = set_checksum (
    set_slice 8 2 (link_bytes next)
      (set_slice 0 4 (demanded_state deleted first next ∷ 0 ∷ 0 ∷ 0 ∷ []) frame))

unfoldable pub put_frame : ℕ → Bytes → Bytes → Bytes
put_frame block frame raw = set_slice (block * frame_size) frame_size frame raw

unfoldable pub put_data : ℕ → Bytes → Bytes → Bytes
put_data block data_block raw = set_slice (block * block_size) block_size data_block raw

-- The rounds of the loop. It has no frame or no data block for `block` when the tuples are too
-- short: then the source raises IndexError, which is `none`.
unfoldable pub write_blocks : Bool → Bytes → List ℕ → List Bytes → List Bytes → Option Bytes
unfolding put_frame put_data link_frame
write_blocks first raw [] frames datas = some raw
write_blocks first raw (block ∷ blocks) [] datas = none
write_blocks first raw (block ∷ blocks) (frame ∷ frames) [] = none
write_blocks first raw (block ∷ blocks) (frame ∷ frames) (data_block ∷ datas) =
    write_blocks false
      (put_data block data_block
        (put_frame block (link_frame false first (following blocks) frame) raw))
      blocks frames datas

unfoldable pub write_chain : Bytes → List ℕ → ExtractedPs1Entry → Result (Option Bytes)
unfolding write_blocks
write_chain raw blocks payload =
    if length blocks == length payload.data_blocks
    then ok (write_blocks true raw blocks payload.frames payload.data_blocks)
    else opaque_error validation_failure

unfoldable pub mark_blocks : Bool → Bytes → List ℕ → Bytes
unfolding put_frame link_frame directory_frame
mark_blocks first raw [] = raw
mark_blocks first raw (block ∷ blocks) =
    mark_blocks false
      (put_frame block (link_frame true first (following blocks) (directory_frame raw block)) raw)
      blocks

unfoldable pub mark_deleted : Bytes → List ℕ → Bytes
unfolding mark_blocks
mark_deleted raw blocks = mark_blocks true raw blocks
