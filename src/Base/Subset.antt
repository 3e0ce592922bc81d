-- ===== src/Base/Subset.antt =====
-- A list with no repetition is no longer than a list that holds all its elements.
use romcloud.Base.Equality.{Eq, ◌==◌, contains}
use romcloud.Base.Lists.{Distinct, length, keep_if, contains-keep_if, contains-append}
use Prim.Native.Nat.{◌≤◌, ◌<◌}
use mathlib.Core.Path.{◌≡◌, refl}
use mathlib.Core.Bool.{true, false, not}
use mathlib.Core.List.{List, [], ◌∷◌, ◌++◌}
use native.Mathlib.Omega.{arith}

module _ {ℓ} {A : Type ℓ} ⦃e : Eq A⦄ where
  length-keep_if : (x : A) (ys : List A) → length (keep_if (λ a. not (a == x)) ys) ≤ length ys
  unfolding keep_if
  length-keep_if x [] = omega arith
  length-keep_if x (y ∷ ys) = ground (arith, length-keep_if x ys)

  length-keep_if_lt :
      (x : A) (ys : List A)
      → contains ys x ≡ true
      → length (keep_if (λ a. not (a == x)) ys) < length ys
  unfolding keep_if
  length-keep_if_lt x [] h = ground arith
  length-keep_if_lt x (y ∷ ys) h = ground (arith, length-keep_if x ys, length-keep_if_lt x ys)

  pub Distinct-length_le :
      (xs ys : List A)
      → Distinct xs
      → ((a : A) → contains xs a ≡ true → contains ys a ≡ true)
      → length xs ≤ length ys
  Distinct-length_le [] ys d sub = omega arith
  Distinct-length_le (x ∷ xs) ys d sub =
      let smaller = length-keep_if_lt x ys (sub x (ground arith)) in
      let rest =
        Distinct-length_le xs (keep_if (λ a. not (a == x)) ys) d.1
          (λ a h. ground (arith, contains-keep_if (λ a. not (a == x)) ys a, sub a, d.0)) in
      omega arith

  -- A new element may be put at the end.
  pub Distinct-snoc :
      (xs : List A) (x : A) → Distinct xs → contains xs x ≡ false → Distinct (xs ++ (x ∷ []))
  Distinct-snoc [] x d h = (refl, tt)
  Distinct-snoc (y ∷ ys) x d h = ground (arith, Distinct-snoc ys x, contains-append ys (x ∷ []) y)

  pub Distinct-snoc_absent :
      (xs : List A) (x : A) (ys : List A) → Distinct (xs ++ (x ∷ ys)) → contains xs x ≡ false
  Distinct-snoc_absent [] x ys d = refl
  Distinct-snoc_absent (y ∷ zs) x ys d =
      ground (arith, Distinct-snoc_absent zs x ys, contains-append zs (x ∷ ys) y)
