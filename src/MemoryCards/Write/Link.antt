-- ===== src/MemoryCards/Write/Link.antt =====
-- A frame that was linked anew reads back the state and the link it was given, and its checksum
-- holds.
use romcloud.Base.{
  ℕ, zero, suc, ◌+◌, ◌-◌, ◌≤◌, ◌<◌, ◌≡◌, refl, ap, ◌∙◌, Bool, true, false, Option, none, some, [],
  ◌∷◌, ◌++◌, arith, contains, list_eq, nat_eq, length,
}
use romcloud.SaveContainers.Model.{ok}
use romcloud.MemoryCards.Bytes.{
  Bytes, take, slice, set_item, set_slice, from_bytes, length-set_item, length-set_slice,
  from_bytes-to_bytes_two,
}
use romcloud.MemoryCards.Xor.{xor_checksum, xor_checksum-append_self}
use romcloud.MemoryCards.Frame.{
  state, next_block, is_data_block, demanded_state, set_checksum, known_states,
}
use romcloud.MemoryCards.Chain.Laws.{IsTarget}
use romcloud.MemoryCards.Write.{link_bytes, link_frame}

pub is_data_block-bounds : (b : ℕ) → is_data_block b ≡ true → (1 ≤ b) × (b ≤ 15)
unfolding is_data_block
is_data_block-bounds b h = ground arith

pub is_data_block-within : (b : ℕ) → 1 ≤ b → b ≤ 15 → is_data_block b ≡ true
unfolding is_data_block
is_data_block-within b lo hi = ground arith

set_item-last : (n v : ℕ) (xs : Bytes) → length xs ≡ suc n → set_item n v xs ≡ take n xs ++ (v ∷ [])
set_item-last n v [] e = absurd (omega arith)
set_item-last zero v (x ∷ []) e = refl
set_item-last zero v (x ∷ (y ∷ xs)) e = absurd (omega arith)
set_item-last (suc n) v (x ∷ xs) e = ap (λ ys. x ∷ ys) (set_item-last n v xs (omega arith))

take-set_item : (n v : ℕ) (xs : Bytes) → take n (set_item n v xs) ≡ take n xs
take-set_item n v [] = refl
take-set_item zero v (x ∷ xs) = refl
take-set_item (suc n) v (x ∷ xs) = ap (λ ys. x ∷ ys) (take-set_item n v xs)

-- A frame of 128 bytes whose checksum was set has the exclusive or 0.
pub xor_checksum-set_checksum :
    (frame : Bytes) → length frame ≡ 128 → xor_checksum (set_checksum frame) ≡ 0
unfolding set_checksum
xor_checksum-set_checksum frame h =
    ap xor_checksum (set_item-last 0x7f (xor_checksum (take 0x7f frame)) frame h)
    ∙ xor_checksum-append_self (take 0x7f frame)

length-link_bytes : (next : Option ℕ) → length (link_bytes next) ≡ 2
unfolding link_bytes
length-link_bytes none = refl
length-link_bytes (some b) = refl

-- What holds of every list that shows ten bytes holds of every frame.
ten_bytes :
    (P : Bytes → Type 0) (frame : Bytes)
    → length frame ≡ 128
    → ((a b c d e f g h i j : ℕ) (rest : Bytes) → P (a ∷ b ∷ c ∷ d ∷ e ∷ f ∷ g ∷ h ∷ i ∷ j ∷ rest))
    → P frame
ten_bytes P [] n k = absurd (omega arith)
ten_bytes P (a ∷ []) n k = absurd (omega arith)
ten_bytes P (a ∷ b ∷ []) n k = absurd (omega arith)
ten_bytes P (a ∷ b ∷ c ∷ []) n k = absurd (omega arith)
ten_bytes P (a ∷ b ∷ c ∷ d ∷ []) n k = absurd (omega arith)
ten_bytes P (a ∷ b ∷ c ∷ d ∷ e ∷ []) n k = absurd (omega arith)
ten_bytes P (a ∷ b ∷ c ∷ d ∷ e ∷ f ∷ []) n k = absurd (omega arith)
ten_bytes P (a ∷ b ∷ c ∷ d ∷ e ∷ f ∷ g ∷ []) n k = absurd (omega arith)
ten_bytes P (a ∷ b ∷ c ∷ d ∷ e ∷ f ∷ g ∷ h ∷ []) n k = absurd (omega arith)
ten_bytes P (a ∷ b ∷ c ∷ d ∷ e ∷ f ∷ g ∷ h ∷ i ∷ []) n k = absurd (omega arith)
ten_bytes P (a ∷ b ∷ c ∷ d ∷ e ∷ f ∷ g ∷ h ∷ i ∷ j ∷ rest) n k = k a b c d e f g h i j rest

state-known :
    (s : ℕ) (rest : Bytes) → contains known_states s ≡ true → state (s ∷ 0 ∷ 0 ∷ 0 ∷ rest) ≡ ok s
unfolding state list_eq nat_eq
state-known s rest h = ground arith

demanded_state-known :
    (deleted first : Bool) (next : Option ℕ)
    → contains known_states (demanded_state deleted first next) ≡ true
unfolding demanded_state nat_eq
demanded_state-known true true next = refl
demanded_state-known false true next = refl
demanded_state-known true false none = refl
demanded_state-known true false (some b) = refl
demanded_state-known false false none = refl
demanded_state-known false false (some b) = refl

small : (block : ℕ) → is_data_block block ≡ true → block - 1 < 65_536
small block t = omega (arith, is_data_block-bounds block t)

next_block-of :
    (frame : Bytes) (block : ℕ)
    → is_data_block block ≡ true
    → from_bytes (slice 8 2 frame) ≡ block - 1
    → next_block frame ≡ ok (some block)
unfolding next_block
next_block-of frame block t e =
    let bounds = is_data_block-bounds block t in
    let back : from_bytes (slice 8 2 frame) + 1 ≡ block = omega arith in rw back (ground arith)

module _ (deleted first : Bool) where
  abbrev linked : Option ℕ → Bytes → Bytes
  linked next frame =
      set_slice 8 2 (link_bytes next)
        (set_slice 0 4 (demanded_state deleted first next ∷ 0 ∷ 0 ∷ 0 ∷ []) frame)

  length-linked :
      (next : Option ℕ) (frame : Bytes) → length frame ≡ 128 → length (linked next frame) ≡ 128
  length-linked next frame n =
      let named = set_slice 0 4 (demanded_state deleted first next ∷ 0 ∷ 0 ∷ 0 ∷ []) frame in
      let same =
        length-set_slice 0 4 (demanded_state deleted first next ∷ 0 ∷ 0 ∷ 0 ∷ []) frame refl
          (omega arith) in
      length-set_slice 8 2 (link_bytes next) named (length-link_bytes next) (omega arith) ∙ same ∙ n

  -- The state of a frame that was linked anew is the one that its place demands.
  pub state-link_frame :
      (next : Option ℕ) (frame : Bytes)
      → length frame ≡ 128
      → state (link_frame deleted first next frame) ≡ ok (demanded_state deleted first next)
  unfolding link_frame set_checksum
  state-link_frame next frame n =
      ten_bytes
        (λ f. state (link_frame deleted first next f) ≡ ok (demanded_state deleted first next))
        frame n
        λ a b c d e f g h i j rest.
          state-known (demanded_state deleted first next) _
            (demanded_state-known deleted first next)

  -- The link of a frame that was linked anew is the one it was given.
  pub next_block-link_frame :
      (next : Option ℕ) (frame : Bytes)
      → length frame ≡ 128
      → IsTarget next
      → next_block (link_frame deleted first next frame) ≡ ok next
  unfolding next_block link_frame set_checksum link_bytes nat_eq
  next_block-link_frame none frame n t =
      ten_bytes (λ f. next_block (link_frame deleted first none f) ≡ ok none) frame n
        λ a b c d e f g h i j rest. refl
  next_block-link_frame (some block) frame n t =
      ten_bytes (λ f. next_block (link_frame deleted first (some block) f) ≡ ok (some block)) frame
        n
        λ a b c d e f g h i j rest.
          next_block-of
            (link_frame deleted first (some block) (a ∷ b ∷ c ∷ d ∷ e ∷ f ∷ g ∷ h ∷ i ∷ j ∷ rest))
            block t (from_bytes-to_bytes_two (block - 1) (small block t))

  pub length-link_frame :
      (next : Option ℕ) (frame : Bytes)
      → length frame ≡ 128
      → length (link_frame deleted first next frame) ≡ 128
  unfolding link_frame set_checksum
  length-link_frame next frame n =
      length-set_item 0x7f _ (linked next frame) ∙ length-linked next frame n

  pub xor_checksum-link_frame :
      (next : Option ℕ) (frame : Bytes)
      → length frame ≡ 128
      → xor_checksum (link_frame deleted first next frame) ≡ 0
  unfolding link_frame
  xor_checksum-link_frame next frame n =
      xor_checksum-set_checksum (linked next frame) (length-linked next frame n)
