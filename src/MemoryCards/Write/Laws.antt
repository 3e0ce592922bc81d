-- ===== src/MemoryCards/Write/Laws.antt =====
-- A chain that `_write_chain` put into a card is the one that `_parse_chain` finds there, with the
-- data it was given, and nothing else in the card changes.
use mathlib.Core.Path.{ap₂}
use romcloud.Base.{
  ℕ, suc, ◌≡◌, ◌≢◌, refl, ap, ◌∙◌, Bool, true, false, some, List, [], ◌∷◌, map, arith, contains,
  nat_eq, length, All, Distinct,
}
use romcloud.SaveContainers.Model.{ok}
use romcloud.MemoryCards.Bytes.{Bytes}
use romcloud.MemoryCards.Xor.{xor_checksum}
use romcloud.MemoryCards.Frame.{
  card_size, frame_size, block_size, is_data_block, state, next_block, directory_frame, data_block,
}
use romcloud.MemoryCards.Chain.{parse_chain}
use romcloud.MemoryCards.Chain.Laws.{IsTarget, Walk}
use romcloud.MemoryCards.Chain.Exact.{parse_chain-IsChain}
use romcloud.MemoryCards.Write.{
  ExtractedPs1Entry, following, link_frame, put_frame, put_data, write_blocks, write_chain,
}
use romcloud.MemoryCards.Write.Link.{
  is_data_block-bounds, state-link_frame, next_block-link_frame, length-link_frame,
  xor_checksum-link_frame,
}
use romcloud.MemoryCards.Write.Place.{
  length-put_frame, directory_frame-put_frame_self, directory_frame-put_frame_ne,
  data_block-put_frame, length-put_data, data_block-put_data_self, data_block-put_data_ne,
  directory_frame-put_data,
}

abbrev pub AreDataBlocks : List ℕ → Type 0
AreDataBlocks = All (λ b. is_data_block b ≡ true)

-- Frames and data blocks of the right sizes, one of each for every block.
abbrev pub Fit : List ℕ → List Bytes → List Bytes → Type 0
Fit [] [] [] = Unit
Fit [] [] (d ∷ datas) = ⊥
Fit [] (f ∷ frames) datas = ⊥
Fit (b ∷ blocks) [] datas = ⊥
Fit (b ∷ blocks) (f ∷ frames) [] = ⊥
Fit (b ∷ blocks) (f ∷ frames) (d ∷ datas) =
    (length f ≡ frame_size) × (length d ≡ block_size) × Fit blocks frames datas

-- The card holds these frames, linked, and this data in `blocks`.
abbrev pub Holds : Bytes → Bool → List ℕ → List Bytes → List Bytes → Type 0
Holds raw first [] frames datas = Unit
Holds raw first (b ∷ blocks) [] datas = ⊥
Holds raw first (b ∷ blocks) (f ∷ frames) [] = ⊥
Holds raw first (b ∷ blocks) (f ∷ frames) (d ∷ datas) =
    (directory_frame raw b ≡ link_frame false first (following blocks) f)
    × (data_block raw b ≡ d)
    × Holds raw false blocks frames datas

-- No block but those of `blocks` has another frame or other data.
abbrev pub SameBeside : List ℕ → Bytes → Bytes → Type 0
SameBeside blocks raw raw' =
    (other : ℕ)
    → is_data_block other ≡ true
    → contains blocks other ≡ false
    → (directory_frame raw' other ≡ directory_frame raw other)
      × (data_block raw' other ≡ data_block raw other)

AreDataBlocks-following : (blocks : List ℕ) → AreDataBlocks blocks → IsTarget (following blocks)
AreDataBlocks-following [] a = tt
AreDataBlocks-following (b ∷ blocks) a = a.0

-- One round of the loop.
module _ (raw : Bytes) (sized : length raw ≡ card_size) (b : ℕ) (at : is_data_block b ≡ true)
    (f d : Bytes) (f_fits : length f ≡ frame_size) (d_fits : length d ≡ block_size) where
  abbrev framed : Bytes
  framed = put_frame b f raw

  framed_sized : length framed ≡ card_size
  framed_sized = length-put_frame raw sized b at f f_fits

  round_sized : length (put_data b d framed) ≡ card_size
  round_sized = length-put_data framed framed_sized b at d d_fits

  round_frame : directory_frame (put_data b d framed) b ≡ f
  round_frame =
      directory_frame-put_data framed framed_sized b at d d_fits b
        (omega (arith, is_data_block-bounds b at))
      ∙ directory_frame-put_frame_self raw sized b at f f_fits

  round_data : data_block (put_data b d framed) b ≡ d
  round_data = data_block-put_data_self framed framed_sized b at d d_fits

  round_ne :
      (other : ℕ)
      → is_data_block other ≡ true
      → other ≢ b
      → (directory_frame (put_data b d framed) other ≡ directory_frame raw other)
        × (data_block (put_data b d framed) other ≡ data_block raw other)
  round_ne other is ne =
      let bounds = is_data_block-bounds other is in
      (
        directory_frame-put_data framed framed_sized b at d d_fits other (omega arith)
            ∙ directory_frame-put_frame_ne raw sized b at f f_fits other ne,
        data_block-put_data_ne framed framed_sized b at d d_fits other ne
            ∙ data_block-put_frame raw sized b at f f_fits other (omega arith),
      )

  SameBeside-round :
      (blocks : List ℕ) (raw' : Bytes)
      → SameBeside blocks (put_data b d framed) raw'
      → SameBeside (b ∷ blocks) raw raw'
  SameBeside-round blocks raw' same other is out =
      let ne : other ≢ b = ground arith in
      let rest = same other is (ground arith) in
      let now = round_ne other is ne in (rest.0 ∙ now.0, rest.1 ∙ now.1)

write_blocks-Holds :
    (first : Bool) (raw : Bytes) (blocks : List ℕ) (frames datas : List Bytes)
    → length raw ≡ card_size
    → AreDataBlocks blocks
    → Distinct blocks
    → Fit blocks frames datas
    → (raw' : Bytes) × (write_blocks first raw blocks frames datas ≡ some raw')
      × (length raw' ≡ card_size)
      × Holds raw' first blocks frames datas
      × SameBeside blocks raw raw'
unfolding write_blocks
write_blocks-Holds first raw [] frames datas n a d fit =
    (raw, refl, n, tt, λ other is out. (refl, refl))
write_blocks-Holds first raw (b ∷ blocks) [] datas n a d fit = absurd fit
write_blocks-Holds first raw (b ∷ blocks) (f ∷ frames) [] n a d fit = absurd fit
write_blocks-Holds first raw (b ∷ blocks) (f ∷ frames) (dt ∷ datas) n a d fit =
    let f' = link_frame false first (following blocks) f in
    let f_fits = length-link_frame false first (following blocks) f fit.0 in
    let (raw', e, n', holds, same) =
      write_blocks-Holds false (put_data b dt (put_frame b f' raw)) blocks frames datas
        (round_sized raw n b a.0 f' dt f_fits fit.1) a.1 d.1 fit.2 in
    let kept = same b a.0 d.0 in
    (
      raw',
      e,
      n',
      (
        kept.0 ∙ round_frame raw n b a.0 f' dt f_fits fit.1,
        kept.1 ∙ round_data raw n b a.0 f' dt f_fits fit.1,
        holds,
      ),
      SameBeside-round raw n b a.0 f' dt f_fits fit.1 blocks raw' same,
    )

Holds-Walk :
    (raw : Bytes) (first : Bool) (blocks : List ℕ) (frames datas : List Bytes)
    → AreDataBlocks blocks
    → Fit blocks frames datas
    → Holds raw first blocks frames datas
    → Walk (directory_frame raw) false first (following blocks) blocks
Holds-Walk raw first [] frames datas a fit h = tt
Holds-Walk raw first (b ∷ blocks) [] datas a fit h = absurd h
Holds-Walk raw first (b ∷ blocks) (f ∷ frames) [] a fit h = absurd h
Holds-Walk raw first (b ∷ blocks) (f ∷ frames) (d ∷ datas) a fit h =
    let next = following blocks in
    (
      next,
      refl,
      ap next_block h.0
          ∙ next_block-link_frame false first next f fit.0 (AreDataBlocks-following blocks a.1),
      ap state h.0 ∙ state-link_frame false first next f fit.0,
      Holds-Walk raw false blocks frames datas a.1 fit.2 h.2,
    )

Holds-datas :
    (raw : Bytes) (first : Bool) (blocks : List ℕ) (frames datas : List Bytes)
    → Fit blocks frames datas
    → Holds raw first blocks frames datas
    → map (data_block raw) blocks ≡ datas
Holds-datas raw first [] [] [] fit h = refl
Holds-datas raw first [] [] (d ∷ datas) fit h = absurd fit
Holds-datas raw first [] (f ∷ frames) datas fit h = absurd fit
Holds-datas raw first (b ∷ blocks) [] datas fit h = absurd h
Holds-datas raw first (b ∷ blocks) (f ∷ frames) [] fit h = absurd h
Holds-datas raw first (b ∷ blocks) (f ∷ frames) (d ∷ datas) fit h =
    ap₂ ◌∷◌ h.1 (Holds-datas raw false blocks frames datas fit.2 h.2)

Holds-checksums :
    (raw : Bytes) (first : Bool) (blocks : List ℕ) (frames datas : List Bytes)
    → Fit blocks frames datas
    → Holds raw first blocks frames datas
    → All (λ b. xor_checksum (directory_frame raw b) ≡ 0) blocks
Holds-checksums raw first [] frames datas fit h = tt
Holds-checksums raw first (b ∷ blocks) [] datas fit h = absurd h
Holds-checksums raw first (b ∷ blocks) (f ∷ frames) [] fit h = absurd h
Holds-checksums raw first (b ∷ blocks) (f ∷ frames) (d ∷ datas) fit h = (
  ap xor_checksum h.0 ∙ xor_checksum-link_frame false first (following blocks) f fit.0,
  Holds-checksums raw false blocks frames datas fit.2 h.2,
)

Fit-length :
    (blocks : List ℕ) (frames datas : List Bytes)
    → Fit blocks frames datas
    → length blocks ≡ length datas
Fit-length [] [] [] fit = refl
Fit-length [] [] (d ∷ datas) fit = absurd fit
Fit-length [] (f ∷ frames) datas fit = absurd fit
Fit-length (b ∷ blocks) [] datas fit = absurd fit
Fit-length (b ∷ blocks) (f ∷ frames) [] fit = absurd fit
Fit-length (b ∷ blocks) (f ∷ frames) (d ∷ datas) fit = ap suc (Fit-length blocks frames datas fit.2)

write_chain-ok :
    (raw raw' : Bytes) (blocks : List ℕ) (payload : ExtractedPs1Entry)
    → length blocks ≡ length payload.data_blocks
    → write_blocks true raw blocks payload.frames payload.data_blocks ≡ some raw'
    → write_chain raw blocks payload ≡ ok (some raw')
unfolding write_chain
write_chain-ok raw raw' blocks payload n e = ground arith

-- On a card of the right size, different data blocks `start ∷ rest`, and a payload with a frame and
-- a data block of the right size for each of them, `write_chain` returns a card of the same size
-- in which `parse_chain` finds exactly these blocks from `start`; they hold the payload's data, the
-- checksums of their frames hold, and the frame and the data of every other data block are as
-- before.
pub write_chain-parse_chain :
    (raw : Bytes) (start : ℕ) (rest : List ℕ) (payload : ExtractedPs1Entry)
    → length raw ≡ card_size
    → AreDataBlocks (start ∷ rest)
    → Distinct (start ∷ rest)
    → Fit (start ∷ rest) payload.frames payload.data_blocks
    → (raw' : Bytes) × (write_chain raw (start ∷ rest) payload ≡ ok (some raw'))
      × (length raw' ≡ card_size)
      × (parse_chain (directory_frame raw') false start ≡ ok (start ∷ rest))
      × (map (data_block raw') (start ∷ rest) ≡ payload.data_blocks)
      × All (λ b. xor_checksum (directory_frame raw' b) ≡ 0) (start ∷ rest)
      × SameBeside (start ∷ rest) raw raw'
write_chain-parse_chain raw start rest payload n a d fit =
    let blocks = start ∷ rest in
    let (raw', e, n', holds, same) =
      write_blocks-Holds true raw blocks payload.frames payload.data_blocks n a d fit in
    (
      raw',
      write_chain-ok raw raw' blocks payload
          (Fit-length blocks payload.frames payload.data_blocks fit) e,
      n',
      (parse_chain-IsChain (directory_frame raw') false start blocks a.0).1
          (d, Holds-Walk raw' true blocks payload.frames payload.data_blocks a fit holds),
      Holds-datas raw' true blocks payload.frames payload.data_blocks fit holds,
      Holds-checksums raw' true blocks payload.frames payload.data_blocks fit holds,
      same,
    )
