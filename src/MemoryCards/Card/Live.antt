-- ===== src/MemoryCards/Card/Live.antt =====
-- The files of the live scan: each is a chain of the directory, and no two share a block or a name.
use mathlib.Core.Path.{subst}
use romcloud.Base.{
  ℕ, ◌*◌, ◌≡◌, refl, sym, Bool, true, false, String, Option, none, some, List, [], ◌∷◌, map, arith,
  contains, nat_eq, string_eq, length, All, Distinct,
}
use romcloud.SaveContainers.Model.{ok}
use romcloud.MemoryCards.Bytes.{Bytes, slice, from_bytes}
use romcloud.MemoryCards.Frame.{
  block_size, state, demanded_state, is_data_block, filename, commercial_namespace, header_state,
  middle_state, end_state,
}
use romcloud.MemoryCards.Chain.Laws.{Walk}
use romcloud.MemoryCards.Chain.Exact.{IsChain}
use romcloud.MemoryCards.Card.{ParsedEntry, LiveScan, parsed_entry, frames_of}
use romcloud.MemoryCards.Card.Entries.{in_live, Apart, All-in_live}

-- The states of a file's blocks.
abbrev pub file_states : Bool → List ℕ
file_states deleted = header_state deleted ∷ middle_state deleted ∷ end_state deleted ∷ []

abbrev pub HasState : (ℕ → Bytes) → Bool → ℕ → Type 0
HasState frames deleted a =
    (s : ℕ) × (state (frames a) ≡ ok s) × (contains (file_states deleted) s ≡ true)

demanded_state-file :
    (deleted first : Bool) (next : Option ℕ)
    → contains (file_states deleted) (demanded_state deleted first next) ≡ true
unfolding demanded_state nat_eq
demanded_state-file true true next = refl
demanded_state-file false true next = refl
demanded_state-file true false none = refl
demanded_state-file true false (some b) = refl
demanded_state-file false false none = refl
demanded_state-file false false (some b) = refl

pub Walk-HasState :
    (frames : ℕ → Bytes) (deleted first : Bool) (current : Option ℕ) (blocks : List ℕ)
    → Walk frames deleted first current blocks
    → (a : ℕ) → contains blocks a ≡ true
    → HasState frames deleted a
Walk-HasState frames deleted first none [] w a i = absurd (ground arith)
Walk-HasState frames deleted first none (b ∷ bs) w a i = absurd w
Walk-HasState frames deleted first (some c) [] w a i = absurd w
Walk-HasState frames deleted first (some c) (b ∷ bs) (next, same, n, s, w) a i =
    elim (nat_eq.dec a b) [
      | yes p ↦
          subst (HasState frames deleted) (sym p)
            (demanded_state deleted first next, s, demanded_state-file deleted first next)
      | no other ↦ Walk-HasState frames deleted false next bs w a (ground arith)
    ]

pub Walk-starts :
    (frames : ℕ → Bytes) (deleted : Bool) (start : ℕ) (blocks : List ℕ)
    → Walk frames deleted true (some start) blocks
    → contains blocks start ≡ true
Walk-starts frames deleted start [] w = absurd w
Walk-starts frames deleted start (b ∷ bs) (next, same, n, s, w) = ground arith

module _ (sha256_hex : Bytes → String) (raw : Bytes) where
  abbrev frames : ℕ → Bytes
  frames = frames_of sha256_hex raw

  -- A live file: a chain of the directory, of the size that its first frame states, with the name
  -- that stands there, which is a commercial one, and with the chain's frames and data.
  pub record IsLive (entry : ParsedEntry) : Type 0 where
    pub start : ℕ
    pub namespace : Bytes
    pub placed : is_data_block start ≡ true
    pub chained : IsChain frames false start entry.blocks
    pub sized : from_bytes (slice 4 4 (frames start)) ≡ length entry.blocks * block_size
    pub named : filename (frames start) ≡ ok entry.filename
    pub commercial : commercial_namespace entry.filename ≡ ok namespace
    pub parsed : entry ≡ parsed_entry sha256_hex raw entry.blocks entry.filename namespace

  pub IsLive-HasState :
      (entry : ParsedEntry)
      → IsLive entry
      → (a : ℕ) → contains entry.blocks a ≡ true
      → HasState frames false a
  IsLive-HasState entry live a i =
      Walk-HasState frames false true (some live.start) entry.blocks live.chained.1 a i

  pub in_live-HasState :
      (entries : List ParsedEntry) (a : ℕ)
      → All IsLive entries
      → in_live entries a ≡ true
      → HasState frames false a
  in_live-HasState entries a h i =
      let (entry, live, j) = All-in_live IsLive entries a h i in IsLive-HasState entry live a j

  -- What holds between two rounds of the scan.
  pub record Good (scan : LiveScan) : Type 0 where
    pub live : All IsLive scan.live_entries
    pub taken : (a : ℕ) → contains scan.consumed a ≡ in_live scan.live_entries a
    pub apart : Apart scan.live_entries
    pub known :
        (i : String)
        → contains scan.identities i ≡ contains (map (λ e. e.identity) scan.live_entries) i
    pub distinct : Distinct (map (λ e. e.identity) scan.live_entries)
