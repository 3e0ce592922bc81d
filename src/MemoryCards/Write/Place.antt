-- ===== src/MemoryCards/Write/Place.antt =====
-- Where the frame and the bytes block of a block lie in a card, and that the places are apart.
use romcloud.Base.{
  ℕ, ◌*◌, ◌≤◌, ◌<◌, ◌≡◌, ◌≢◌, ◌∙◌, ◌⊎◌, inl, inr, true, arith, length, ltb, ltb→lt, Bool-cases,
}
use romcloud.MemoryCards.Bytes.{
  Bytes, length-set_slice, slice-set_slice_self, slice-set_slice_before, slice-set_slice_after,
}
use romcloud.MemoryCards.Frame.{
  card_size, frame_size, block_size, is_data_block, directory_frame, data_block,
}
use romcloud.MemoryCards.Write.{put_frame, put_data}
use romcloud.MemoryCards.Write.Link.{is_data_block-bounds}

lt_or_gt : (m n : ℕ) → m ≢ n → (m < n) ⊎ (n < m)
lt_or_gt m n ne = elim (Bool-cases (ltb m n)) [
  | inl lt ↦ inl (ltb→lt m n lt)
  | inr ge ↦ inr (ground arith)
]

module _ (raw : Bytes) (sized : length raw ≡ card_size) (block : ℕ)
    (at : is_data_block block ≡ true) where
  abbrev bounds : (1 ≤ block) × (block ≤ 15)
  bounds = is_data_block-bounds block at

  module _ (frame : Bytes) (fits : length frame ≡ frame_size) where
    pub length-put_frame : length (put_frame block frame raw) ≡ card_size
    unfolding put_frame
    length-put_frame =
        length-set_slice (block * frame_size) frame_size frame raw fits (omega (arith, bounds))
        ∙ sized

    pub directory_frame-put_frame_self : directory_frame (put_frame block frame raw) block ≡ frame
    unfolding put_frame directory_frame
    directory_frame-put_frame_self =
        slice-set_slice_self (block * frame_size) frame_size frame raw fits (omega (arith, bounds))

    pub directory_frame-put_frame_ne :
        (other : ℕ)
        → other ≢ block
        → directory_frame (put_frame block frame raw) other ≡ directory_frame raw other
    unfolding put_frame directory_frame
    directory_frame-put_frame_ne other ne = elim (lt_or_gt other block ne) [
      | inl below ↦
          slice-set_slice_before (other * frame_size) frame_size (block * frame_size) frame_size
            frame raw (omega arith) (omega (arith, bounds))
      | inr above ↦
          slice-set_slice_after (other * frame_size) frame_size (block * frame_size) frame_size
            frame raw fits (omega arith) (omega (arith, bounds))
    ]

    pub data_block-put_frame :
        (other : ℕ)
        → 1 ≤ other
        → data_block (put_frame block frame raw) other ≡ data_block raw other
    unfolding put_frame data_block
    data_block-put_frame other pos =
        slice-set_slice_after (other * block_size) block_size (block * frame_size) frame_size frame
          raw fits (omega (arith, bounds)) (omega (arith, bounds))

  module _ (bytes : Bytes) (fits : length bytes ≡ block_size) where
    pub length-put_data : length (put_data block bytes raw) ≡ card_size
    unfolding put_data
    length-put_data =
        length-set_slice (block * block_size) block_size bytes raw fits (omega (arith, bounds))
        ∙ sized

    pub data_block-put_data_self : data_block (put_data block bytes raw) block ≡ bytes
    unfolding put_data data_block
    data_block-put_data_self =
        slice-set_slice_self (block * block_size) block_size bytes raw fits (omega (arith, bounds))

    pub data_block-put_data_ne :
        (other : ℕ)
        → other ≢ block
        → data_block (put_data block bytes raw) other ≡ data_block raw other
    unfolding put_data data_block
    data_block-put_data_ne other ne = elim (lt_or_gt other block ne) [
      | inl below ↦
          slice-set_slice_before (other * block_size) block_size (block * block_size) block_size
            bytes raw (omega arith) (omega (arith, bounds))
      | inr above ↦
          slice-set_slice_after (other * block_size) block_size (block * block_size) block_size
            bytes raw fits (omega arith) (omega (arith, bounds))
    ]

    pub directory_frame-put_data :
        (other : ℕ)
        → other ≤ 15
        → directory_frame (put_data block bytes raw) other ≡ directory_frame raw other
    unfolding put_data directory_frame
    directory_frame-put_data other hi =
        slice-set_slice_before (other * frame_size) frame_size (block * block_size) block_size bytes
          raw (omega (arith, bounds)) (omega (arith, bounds))
