-- ===== src/Base/Dict.antt =====
-- Python's `dict`, in insertion order. Proofs elsewhere go by the laws; only tests unfold.
use romcloud.Base.Equality.{Eq, Option-cases, ◌==◌, contains, if◌then◌else◌}
use romcloud.Base.Lists.{Distinct}
use mathlib.Core.Path.{◌≡◌, refl, ◌∙◌, ap}
use mathlib.Core.Logic.{◌≢◌, inl, inr}
use Prim.Native.Nat.{ℕ, ◌+◌, ◌≤◌}
use mathlib.Core.Bool.{Bool, true, false}
use mathlib.Core.Option.{Option, none, some}
use mathlib.Core.List.{List, [], ◌∷◌}
use native.Mathlib.Omega.{arith}

abbrev pub Dict {ℓ κ} : Type ℓ → Type κ → Type (ℓ ⊔ κ)
Dict K V = List (K × V)

abbrev pub is_some {ℓ} : {A : Type ℓ} → Option A → Bool
is_some none = false
is_some (some a) = true

module _ {ℓ κ} {K : Type ℓ} {V : Type κ} where
  unfoldable pub keys : Dict K V → List K
  keys [] = []
  keys ((k, v) ∷ d) = k ∷ keys d

module _ {ℓ κ} {K : Type ℓ} {V : Type κ} ⦃e : Eq K⦄ where
  -- `d.get(k)`
  unfoldable pub lookup : K → Dict K V → Option V
  lookup k [] = none
  lookup k ((j, v) ∷ d) = if k == j then some v else lookup k d

  -- `d[k] = v`
  unfoldable pub insert : K → V → Dict K V → Dict K V
  insert k v [] = (k, v) ∷ []
  insert k v ((j, w) ∷ d) = if k == j then (k, v) ∷ d else (j, w) ∷ insert k v d

  -- `d.pop(k, None)`. Every entry of the key goes; a real dict has at most one.
  unfoldable pub erase : K → Dict K V → Dict K V
  erase k [] = []
  erase k ((j, w) ∷ d) = let rest = erase k d in if k == j then rest else (j, w) ∷ rest

  -- `{k: v for k, v in d.items() if p(k)}`
  unfoldable pub keep_keys : (K → Bool) → Dict K V → Dict K V
  keep_keys p [] = []
  keep_keys p ((j, w) ∷ d) = let rest = keep_keys p d in if p j then (j, w) ∷ rest else rest

  -- `d.update(items)`
  unfoldable pub update : Dict K V → Dict K V → Dict K V
  unfolding insert
  update d [] = d
  update d ((k, v) ∷ items) = update (insert k v d) items

  pub lookup-nil : (k : K) → lookup k [] ≡ none
  unfolding lookup
  lookup-nil k = refl

  pub lookup-cons :
      (j k : K) (v : V) (d : Dict K V)
      → lookup j ((k, v) ∷ d) ≡ (if j == k then some v else lookup j d)
  unfolding lookup
  lookup-cons j k v d = refl

  pub lookup-insert :
      (j k : K) (v : V) (d : Dict K V)
      → lookup j (insert k v d) ≡ (if j == k then some v else lookup j d)
  unfolding insert lookup
  lookup-insert j k v [] = refl
  lookup-insert j k v ((i, w) ∷ d) = ground (arith, lookup-insert j k v d)

  pub lookup-erase :
      (j k : K) (d : Dict K V) → lookup j (erase k d) ≡ (if j == k then none else lookup j d)
  unfolding erase lookup
  lookup-erase j k [] = ground arith
  lookup-erase j k ((i, w) ∷ d) = ground (arith, lookup-erase j k d)

  pub lookup-keep_keys :
      (p : K → Bool) (j : K) (d : Dict K V)
      → lookup j (keep_keys p d) ≡ (if p j then lookup j d else none)
  unfolding keep_keys lookup
  lookup-keep_keys p j [] = ground arith
  lookup-keep_keys p j ((i, w) ∷ d) = ground (arith, lookup-keep_keys p j d)

  pub contains-keys : (d : Dict K V) (k : K) → contains (keys d) k ≡ is_some (lookup k d)
  unfolding keys lookup
  contains-keys [] k = refl
  contains-keys ((j, v) ∷ d) k = ground (arith, contains-keys d k)

  pub Distinct-keys-insert :
      (k : K) (v : V) (d : Dict K V) → Distinct (keys d) → Distinct (keys (insert k v d))
  unfolding keys insert
  Distinct-keys-insert k v [] h = (refl, tt)
  Distinct-keys-insert k v ((j, w) ∷ d) h = ground (
    arith,
    Distinct-keys-insert k v d,
    contains-keys d j,
    contains-keys (insert k v d) j,
    lookup-insert j k v d,
  )

  pub Distinct-keys-erase : (k : K) (d : Dict K V) → Distinct (keys d) → Distinct (keys (erase k d))
  unfolding keys erase
  Distinct-keys-erase k [] h = tt
  Distinct-keys-erase k ((j, w) ∷ d) h = ground (
    arith,
    Distinct-keys-erase k d,
    contains-keys d j,
    contains-keys (erase k d) j,
    lookup-erase j k d,
  )

-- `d[k] = v`, or `d.pop(k, None)` where the value is `None`
unfoldable pub assign {ℓ κ} :
    {K : Type ℓ} {V : Type κ} ⦃e : Eq K⦄ → K → Option V → Dict K V → Dict K V
unfolding insert erase
assign k none d = erase k d
assign k (some v) d = insert k v d

module _ {ℓ κ} {K : Type ℓ} {V : Type κ} ⦃e : Eq K⦄ where
  pub lookup-assign :
      (j k : K) (o : Option V) (d : Dict K V)
      → lookup j (assign k o d) ≡ (if j == k then o else lookup j d)
  unfolding assign
  lookup-assign j k none d = lookup-erase j k d
  lookup-assign j k (some v) d = lookup-insert j k v d

  pub Distinct-keys-assign :
      (k : K) (o : Option V) (d : Dict K V) → Distinct (keys d) → Distinct (keys (assign k o d))
  unfolding assign
  Distinct-keys-assign k none d h = Distinct-keys-erase k d h
  Distinct-keys-assign k (some v) d h = Distinct-keys-insert k v d h

  pub Distinct-keys-keep_keys :
      (p : K → Bool) (d : Dict K V) → Distinct (keys d) → Distinct (keys (keep_keys p d))
  unfolding keys keep_keys
  Distinct-keys-keep_keys p [] h = tt
  Distinct-keys-keep_keys p ((j, w) ∷ d) h = ground (
    arith,
    Distinct-keys-keep_keys p d,
    contains-keys d j,
    contains-keys (keep_keys p d) j,
    lookup-keep_keys p j d,
  )

  pub lookup-head : (k : K) (v : V) (d : Dict K V) → lookup k ((k, v) ∷ d) ≡ some v
  unfolding lookup
  lookup-head k v d = ground arith

-- The sum of a number of each value.
unfoldable pub sum_values {ℓ κ} : {K : Type ℓ} {V : Type κ} → (V → ℕ) → Dict K V → ℕ
sum_values f [] = 0
sum_values f ((k, v) ∷ d) = f v + sum_values f d

module _ {ℓ κ} {K : Type ℓ} {V : Type κ} ⦃e : Eq K⦄ (f : V → ℕ) where
  erase-none : (k : K) (d : Dict K V) → contains (keys d) k ≡ false → erase k d ≡ d
  unfolding keys erase
  erase-none k [] h = refl
  erase-none k ((j, w) ∷ d) h = ground (arith, erase-none k d)

  pub sum_values-erase :
      (k : K) (v : V) (d : Dict K V)
      → Distinct (keys d)
      → lookup k d ≡ some v
      → sum_values f d ≡ f v + sum_values f (erase k d)
  unfolding keys lookup erase sum_values
  sum_values-erase k v [] h found = cc
  sum_values-erase k v ((j, w) ∷ d) h found = elim (e.dec k j) [
    | yes same ↦ grind (arith, same, found, erase-none k d)
    | no other ↦ grind (arith, other, sum_values-erase k v d)
  ]

  pub sum_values-insert :
      (k : K) (v : V) (d : Dict K V)
      → Distinct (keys d)
      → sum_values f (insert k v d) ≡ f v + sum_values f (erase k d)
  unfolding keys insert erase sum_values
  sum_values-insert k v [] h = refl
  sum_values-insert k v ((j, w) ∷ d) h = elim (e.dec k j) [
    | yes same ↦ grind (arith, same, erase-none k d)
    | no other ↦ grind (arith, other, sum_values-insert k v d)
  ]

  pub sum_values-erase-≤ :
      (k : K) (d : Dict K V) → Distinct (keys d) → sum_values f (erase k d) ≤ sum_values f d
  sum_values-erase-≤ k d h = elim (Option-cases (lookup k d)) [
    | inl gone ↦
        let same = erase-none k d (ground (arith, gone, contains-keys d k)) in
        omega (arith, ap (sum_values f) same)
    | inr (v, found) ↦ omega (arith, sum_values-erase k v d h found)
  ]

module _ {ℓ κ} {K : Type ℓ} {V : Type κ} ⦃e : Eq K⦄ where
  key_apart :
      (k j : K) (u : V) (d : Dict K V) → contains (keys d) k ≡ false → lookup j d ≡ some u → j ≢ k
  key_apart k j u d h at same = ground (arith, same, contains-keys d j, contains-keys d k, at)

  lookup-tail :
      (k : K) (v : V) (j : K) (u : V) (d : Dict K V)
      → j ≢ k
      → lookup j d ≡ some u
      → lookup j ((k, v) ∷ d) ≡ some u
  lookup-tail k v j u d apart at = ground (arith, lookup-cons j k v d)

  lookup-erase-apart : (k j : K) (d : Dict K V) → j ≢ k → lookup j (erase k d) ≡ lookup j d
  lookup-erase-apart k j d apart = ground (arith, lookup-erase j k d)

-- The values at the keys of `d` are matched by values of `d'` that are at least as large.
pub sum_values-≤ {ℓ κ ι} :
    {K : Type ℓ} {V : Type κ} {W : Type ι} ⦃e : Eq K⦄ (f : V → ℕ) (g : W → ℕ) (d : Dict K V)
    (d' : Dict K W)
    → Distinct (keys d)
    → Distinct (keys d')
    → ((k : K) (v : V) → lookup k d ≡ some v → (w : W) × (lookup k d' ≡ some w) × (f v ≤ g w))
    → sum_values f d ≤ sum_values g d'
unfolding keys sum_values
sum_values-≤ f g [] d' h h' covered = omega arith
sum_values-≤ f g ((k, v) ∷ d) d' h h' covered =
    let (w, found, le) = covered k v (lookup-head k v d) in
    let rest = sum_values-≤ f g d (erase k d') h.1 (Distinct-keys-erase k d' h') λ j u at.
      let apart = key_apart k j u d h.0 at in
      let (x, there, small) = covered j u (lookup-tail k v j u d apart at) in
      (x, lookup-erase-apart k j d' apart ∙ there, small) in
    omega (arith, le, rest, sum_values-erase g k w d' h' found)

pub erase-absent {ℓ κ} :
    {K : Type ℓ} {V : Type κ} ⦃e : Eq K⦄ (k : K) (d : Dict K V) → lookup k d ≡ none → erase k d ≡ d
erase-absent k d gone = erase-none (λ v. 0) k d (ground (arith, gone, contains-keys d k))
