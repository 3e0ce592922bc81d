-- ===== src/Base/Keys.antt =====
-- Python's `set` of texts as a list with no repetition, and `sorted`.
use romcloud.Base.Equality.{Eq, ◌==◌, contains, string_eq, if◌then◌else◌, Bool-cases}
use romcloud.Base.Lists.{Distinct, All}
use Prim.Native.String.{String, compare}
use mathlib.Core.Path.{◌≡◌, refl, ◌∙◌}
use mathlib.Core.Logic.{inl, inr}
use mathlib.Core.Bool.{Bool, false, ◌||◌}
use mathlib.Core.List.{List, [], ◌∷◌, map}
use native.Mathlib.Omega.{arith}
use text.Mathlib.Text.{is_le}

-- `set(xs)`
unfoldable pub dedup {ℓ} : {A : Type ℓ} ⦃e : Eq A⦄ → List A → List A
dedup [] = []
dedup (x ∷ xs) = let rest = dedup xs in if contains rest x then rest else x ∷ rest

-- `a <= b`, by code points
unfoldable pub str_le : String → String → Bool
str_le a b = is_le (compare a b)

unfoldable pub insert_sorted : String → List String → List String
unfolding str_le
insert_sorted k [] = k ∷ []
insert_sorted k (j ∷ js) =
    let rest = insert_sorted k js in if str_le k j then k ∷ j ∷ js else j ∷ rest

-- `sorted(xs)`
unfoldable pub sorted : List String → List String
unfolding insert_sorted
sorted [] = []
sorted (k ∷ ks) = insert_sorted k (sorted ks)

pub contains-dedup {ℓ} :
    {A : Type ℓ} ⦃e : Eq A⦄ (xs : List A) (a : A) → contains (dedup xs) a ≡ contains xs a
unfolding dedup
contains-dedup [] a = refl
contains-dedup (x ∷ xs) a = ground (arith, contains-dedup xs a, contains-dedup xs x)

pub Distinct-dedup {ℓ} : {A : Type ℓ} ⦃e : Eq A⦄ (xs : List A) → Distinct (dedup xs)
unfolding dedup
Distinct-dedup [] = tt
Distinct-dedup (x ∷ xs) = ground (arith, Distinct-dedup xs)

contains-insert_sorted :
    (k : String) (js : List String) (a : String)
    → contains (insert_sorted k js) a ≡ (a == k || contains js a)
unfolding insert_sorted
contains-insert_sorted k [] a = refl
contains-insert_sorted k (j ∷ js) a = ground (arith, contains-insert_sorted k js a)

Distinct-insert_sorted :
    (k : String) (js : List String)
    → contains js k ≡ false
    → Distinct js
    → Distinct (insert_sorted k js)
unfolding insert_sorted
Distinct-insert_sorted k [] h d = (refl, tt)
Distinct-insert_sorted k (j ∷ js) h d =
    ground (arith, Distinct-insert_sorted k js, contains-insert_sorted k js j)

pub contains-sorted : (ks : List String) (a : String) → contains (sorted ks) a ≡ contains ks a
unfolding sorted
contains-sorted [] a = refl
contains-sorted (k ∷ ks) a =
    ground (arith, contains-insert_sorted k (sorted ks) a, contains-sorted ks a)

pub Distinct-sorted : (ks : List String) → Distinct ks → Distinct (sorted ks)
unfolding sorted
Distinct-sorted [] d = tt
Distinct-sorted (k ∷ ks) d =
    Distinct-insert_sorted k (sorted ks) (contains-sorted ks k ∙ d.0) (Distinct-sorted ks d.1)

-- `sorted(set(xs))`
abbrev pub sorted_set : List String → List String
sorted_set xs = sorted (dedup xs)

pub contains-sorted_set :
    (xs : List String) (a : String) → contains (sorted_set xs) a ≡ contains xs a
contains-sorted_set xs a = contains-sorted (dedup xs) a ∙ contains-dedup xs a

pub Distinct-sorted_set : (xs : List String) → Distinct (sorted_set xs)
Distinct-sorted_set xs = Distinct-sorted (dedup xs) (Distinct-dedup xs)

module _ {ℓ} {A : Type ℓ} (key : A → String) where
  unfoldable pub insert_by : A → List A → List A
  unfolding str_le
  insert_by x [] = x ∷ []
  insert_by x (y ∷ ys) =
      let rest = insert_by x ys in if str_le (key x) (key y) then x ∷ y ∷ ys else y ∷ rest

  -- `sorted(xs, key=key)`, which is stable
  unfoldable pub sort_by : List A → List A
  unfolding insert_by
  sort_by [] = []
  sort_by (x ∷ xs) = insert_by x (sort_by xs)

  pub All-insert_by {κ} :
      (P : A → Type κ) (x : A) (ys : List A) → P x → All P ys → All P (insert_by x ys)
  unfolding insert_by
  All-insert_by P x [] h k = (h, tt)
  All-insert_by P x (y ∷ ys) h k = elim (Bool-cases (str_le (key x) (key y))) [
    | inl le ↦ rw le (h, k)
    | inr gt ↦ rw gt (k.0, All-insert_by P x ys h k.1)
  ]

  pub All-sort_by {κ} : (P : A → Type κ) (xs : List A) → All P xs → All P (sort_by xs)
  unfolding sort_by
  All-sort_by P [] h = tt
  All-sort_by P (x ∷ xs) h = All-insert_by P x (sort_by xs) h.0 (All-sort_by P xs h.1)

  contains-insert_by :
      (x : A) (ys : List A) (k : String)
      → contains (map key (insert_by x ys)) k ≡ (k == key x || contains (map key ys) k)
  unfolding insert_by
  contains-insert_by x [] k = refl
  contains-insert_by x (y ∷ ys) k = ground (arith, contains-insert_by x ys k)

  pub contains-sort_by :
      (xs : List A) (k : String) → contains (map key (sort_by xs)) k ≡ contains (map key xs) k
  unfolding sort_by
  contains-sort_by [] k = refl
  contains-sort_by (x ∷ xs) k =
      ground (arith, contains-insert_by x (sort_by xs) k, contains-sort_by xs k)

  Distinct-insert_by :
      (x : A) (ys : List A)
      → contains (map key ys) (key x) ≡ false
      → Distinct (map key ys)
      → Distinct (map key (insert_by x ys))
  unfolding insert_by
  Distinct-insert_by x [] h d = (refl, tt)
  Distinct-insert_by x (y ∷ ys) h d =
      ground (arith, Distinct-insert_by x ys, contains-insert_by x ys (key y))

  pub Distinct-sort_by : (xs : List A) → Distinct (map key xs) → Distinct (map key (sort_by xs))
  unfolding sort_by
  Distinct-sort_by [] d = tt
  Distinct-sort_by (x ∷ xs) d =
      Distinct-insert_by x (sort_by xs) (contains-sort_by xs (key x) ∙ d.0)
        (Distinct-sort_by xs d.1)
