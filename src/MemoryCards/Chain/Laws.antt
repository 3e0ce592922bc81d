-- ===== src/MemoryCards/Chain/Laws.antt =====
-- One round of the walk of `_parse_chain`, and what all its rounds give.
use mathlib.Core.Path.{subst}
use romcloud.Base.{
  ℕ, zero, suc, ◌≤◌, ◌≡◌, refl, sym, ap, ◌∙◌, Bool, true, false, Option, none, some, List, [], ◌∷◌,
  ◌++◌, arith, ◌==◌, contains, nat_eq, length, length-append, Distinct, inl, inr,
}
use romcloud.Base.Subset.{Distinct-snoc, Distinct-snoc_absent}
use romcloud.SaveContainers.Model.{ok, Result-cases}
use romcloud.MemoryCards.Bytes.{Bytes}
use romcloud.MemoryCards.Frame.{demanded_state, state, next_block, is_data_block}
use romcloud.MemoryCards.Chain.{visit, chain_loop}

-- `r` is a block of the card, or the end of a chain.
abbrev pub IsTarget : Option ℕ → Type 0
IsTarget none = Unit
IsTarget (some block) = is_data_block block ≡ true

pub next_block-IsTarget :
    (frame : Bytes) (next : Option ℕ) → next_block frame ≡ ok next → IsTarget next
unfolding next_block
next_block-IsTarget frame none e = tt
next_block-IsTarget frame (some block) e = ground arith

module _ (frames : ℕ → Bytes) (deleted : Bool) where
  -- The blocks that the links reach, each in the state that its place demands.
  abbrev pub Walk : Bool → Option ℕ → List ℕ → Type 0
  Walk first none [] = Unit
  Walk first none (b ∷ bs) = ⊥
  Walk first (some c) [] = ⊥
  Walk first (some c) (b ∷ bs) =
      (next : Option ℕ) × (c ≡ b)
      × (next_block (frames b) ≡ ok next)
      × (state (frames b) ≡ ok (demanded_state deleted first next))
      × Walk false next bs

  pub visit_ok :
      (chain : List ℕ) (c : ℕ) (next : Option ℕ)
      → visit frames deleted chain c ≡ ok next
      → (next_block (frames c) ≡ ok next)
        × (state (frames c) ≡ ok (demanded_state deleted (length chain == 1) next))
  unfolding visit
  visit_ok chain c next e = ground arith

  ok-visit :
      (chain : List ℕ) (c : ℕ) (next : Option ℕ)
      → next_block (frames c) ≡ ok next
      → state (frames c) ≡ ok (demanded_state deleted (length chain == 1) next)
      → visit frames deleted chain c ≡ ok next
  unfolding visit
  ok-visit chain c next e s = ground arith

  abbrev pub starts : List ℕ → Bool
  starts [] = true
  starts (x ∷ chain) = false

  starts-snoc : (chain : List ℕ) (c : ℕ) → starts chain ≡ (length (chain ++ (c ∷ [])) == 1)
  starts-snoc [] c = ground arith
  starts-snoc (x ∷ chain) c = ground (arith, length-append chain (c ∷ []))

  not_starts-snoc : (chain : List ℕ) (c : ℕ) → starts (chain ++ (c ∷ [])) ≡ false
  not_starts-snoc [] c = refl
  not_starts-snoc (x ∷ chain) c = refl

  append-snoc : (chain rest : List ℕ) (c : ℕ) → (chain ++ (c ∷ [])) ++ rest ≡ chain ++ (c ∷ rest)
  append-snoc [] rest c = refl
  append-snoc (x ∷ chain) rest c = ap (λ xs. x ∷ xs) (append-snoc chain rest c)

  append-nil : (chain : List ℕ) → chain ++ [] ≡ chain
  append-nil [] = refl
  append-nil (x ∷ chain) = ap (λ xs. x ∷ xs) (append-nil chain)

  pub chain_loop-step :
      (chain : List ℕ) (c fuel : ℕ) (next : Option ℕ)
      → contains chain c ≡ false
      → visit frames deleted (chain ++ (c ∷ [])) c ≡ ok next
      → chain_loop frames deleted (some c) (suc fuel) chain
        ≡ chain_loop frames deleted next fuel (chain ++ (c ∷ []))
  unfolding chain_loop
  chain_loop-step chain c fuel next new v = ground arith

  -- A step that returns blocks went on.
  chain_loop-back :
      (chain out : List ℕ) (c fuel : ℕ)
      → chain_loop frames deleted (some c) (suc fuel) chain ≡ some (ok out)
      → (next : Option ℕ) × (contains chain c ≡ false)
        × (visit frames deleted (chain ++ (c ∷ [])) c ≡ ok next)
        × (chain_loop frames deleted next fuel (chain ++ (c ∷ [])) ≡ some (ok out))
  unfolding chain_loop
  chain_loop-back chain out c fuel e =
      elim (Result-cases (visit frames deleted (chain ++ (c ∷ [])) c)) [
        | inl (next, v) ↦ (next, ground arith, v, ground arith)
        | inr (why, v) ↦ ground arith
      ]

  -- What the loop returns is the blocks it had, and a walk from the current one.
  abbrev pub Continues : Option ℕ → List ℕ → List ℕ → Type 0
  Continues current chain out =
      (rest : List ℕ) × Distinct out × (out ≡ chain ++ rest) × Walk (starts chain) current rest

  pub chain_loop-Continues :
      (current : Option ℕ) (fuel : ℕ) (chain out : List ℕ)
      → Distinct chain
      → chain_loop frames deleted current fuel chain ≡ some (ok out)
      → Continues current chain out
  unfolding chain_loop
  chain_loop-Continues none fuel chain out d e =
      let same : chain ≡ out = cc in
      subst (Continues none chain) same ([], d, sym (append-nil chain), tt)
  chain_loop-Continues (some c) zero chain out d e = ground arith
  chain_loop-Continues (some c) (suc fuel) chain out d e =
      let longer = chain ++ (c ∷ []) in
      let (next, new, v, e') = chain_loop-back chain out c fuel e in
      let (rest, d', split, walk) =
        chain_loop-Continues next fuel longer out (Distinct-snoc chain c d new) e' in
      let found = visit_ok longer c next v in
      (
        c ∷ rest,
        d',
        split ∙ append-snoc chain rest c,
        (
          next,
          refl,
          found.0,
          rw (starts-snoc chain c) found.1,
          subst (λ first. Walk first next rest) (not_starts-snoc chain c) walk,
        ),
      )

  pub chain_loop_complete :
      (current : Option ℕ) (fuel : ℕ) (chain rest : List ℕ)
      → Distinct (chain ++ rest)
      → length rest ≤ fuel
      → Walk (starts chain) current rest
      → chain_loop frames deleted current fuel chain ≡ some (ok (chain ++ rest))
  unfolding chain_loop
  chain_loop_complete none fuel chain [] d h w = rw append-nil refl
  chain_loop_complete none fuel chain (b ∷ rest) d h w = absurd w
  chain_loop_complete (some c) fuel chain [] d h w = absurd w
  chain_loop_complete (some c) zero chain (b ∷ rest) d h w = absurd (omega arith)
  chain_loop_complete (some c) (suc fuel) chain (b ∷ rest) d h (next, same, n, s, walk) =
      let longer = chain ++ (b ∷ []) in
      let stepped =
        chain_loop-step chain b fuel next (Distinct-snoc_absent chain b rest d)
          (ok-visit longer b next n (rw (← starts-snoc chain b) s)) in
      let moved = append-snoc chain rest b in
      let rest_ok =
        chain_loop_complete next fuel longer rest (rw moved d) (omega arith)
          (rw not_starts-snoc walk) in
      subst
        (λ k. chain_loop frames deleted (some k) (suc fuel) chain ≡ some (ok (chain ++ (b ∷ rest))))
        (sym same) (stepped ∙ rest_ok ∙ ap (λ xs. some (ok xs)) moved)
