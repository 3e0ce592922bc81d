-- ===== src/MemoryCards/Bytes.antt =====
-- Python's `bytes` and `bytearray` as lists of numbers: slices, slice assignment, and
-- little-endian numbers.
use Prim.Native.Nat.{◌/◌, ◌%◌}
use mathlib.Core.Path.{subst}
use romcloud.Base.{
  ℕ, zero, suc, ◌+◌, ◌-◌, ◌*◌, ◌≤◌, ◌<◌, ◌≡◌, refl, ap, ◌∙◌, List, [], ◌∷◌, ◌++◌, arith, length,
  drop, length-append, length-drop, All,
}

abbrev pub Bytes : Type 0
Bytes = List ℕ

abbrev pub IsBytes : Bytes → Type 0
IsBytes = All (λ b. b < 256)

abbrev pub take : ℕ → Bytes → Bytes
take zero xs = []
take (suc n) [] = []
take (suc n) (x ∷ xs) = x ∷ take n xs

-- `xs[i]`, where an index past the end reads 0.
abbrev pub item : Bytes → ℕ → ℕ
item [] i = 0
item (x ∷ xs) zero = x
item (x ∷ xs) (suc i) = item xs i

-- `xs[i] = v`, where an index past the end changes nothing.
abbrev pub set_item : ℕ → ℕ → Bytes → Bytes
set_item i v [] = []
set_item zero v (x ∷ xs) = v ∷ xs
set_item (suc i) v (x ∷ xs) = x ∷ set_item i v xs

-- `xs[lo : lo + n]`
abbrev pub slice : ℕ → ℕ → Bytes → Bytes
slice lo n xs = take n (drop lo xs)

-- `xs[lo : lo + n] = ys`
abbrev pub set_slice : ℕ → ℕ → Bytes → Bytes → Bytes
set_slice zero n ys xs = ys ++ drop n xs
set_slice (suc lo) n ys [] = ys
set_slice (suc lo) n ys (x ∷ xs) = x ∷ set_slice lo n ys xs

-- `int.from_bytes(xs, "little")`
abbrev pub from_bytes : Bytes → ℕ
from_bytes [] = 0
from_bytes (x ∷ xs) = x + 256 * from_bytes xs

-- `v.to_bytes(n, "little")`, for a `v` that fits.
abbrev pub to_bytes : ℕ → ℕ → Bytes
to_bytes zero v = []
to_bytes (suc n) v = (v % 256) ∷ to_bytes n (v / 256)

pub from_bytes-to_bytes_two : (v : ℕ) → v < 65_536 → from_bytes (to_bytes 2 v) ≡ v
from_bytes-to_bytes_two v h = omega arith

pub length-take : (n : ℕ) (xs : Bytes) → n ≤ length xs → length (take n xs) ≡ n
length-take zero xs h = refl
length-take (suc n) [] h = absurd (omega arith)
length-take (suc n) (x ∷ xs) h = ap suc (length-take n xs (omega arith))

pub length-slice : (lo n : ℕ) (xs : Bytes) → lo + n ≤ length xs → length (slice lo n xs) ≡ n
length-slice lo n xs h = length-take n (drop lo xs) (omega (arith, length-drop lo xs))

pub length-set_item : (i v : ℕ) (xs : Bytes) → length (set_item i v xs) ≡ length xs
length-set_item i v [] = refl
length-set_item zero v (x ∷ xs) = refl
length-set_item (suc i) v (x ∷ xs) = ap suc (length-set_item i v xs)

pub length-set_slice :
    (lo n : ℕ) (ys xs : Bytes)
    → length ys ≡ n
    → lo + n ≤ length xs
    → length (set_slice lo n ys xs) ≡ length xs
length-set_slice zero n ys xs e h = omega (arith, length-append ys (drop n xs), length-drop n xs)
length-set_slice (suc lo) n ys [] e h = absurd (omega arith)
length-set_slice (suc lo) n ys (x ∷ xs) e h = ap suc (length-set_slice lo n ys xs e (omega arith))

take-append : (ys zs : Bytes) → take (length ys) (ys ++ zs) ≡ ys
take-append [] zs = refl
take-append (y ∷ ys) zs = ap (λ ts. y ∷ ts) (take-append ys zs)

drop-append : (ys zs : Bytes) (k n : ℕ) → length ys + k ≡ n → drop n (ys ++ zs) ≡ drop k zs
drop-append [] zs k n e = ap (λ m. drop m zs) (omega arith)
drop-append (y ∷ ys) zs k zero e = absurd (omega arith)
drop-append (y ∷ ys) zs k (suc n) e = drop-append ys zs k n (omega arith)

drop-nil : (n : ℕ) → drop {A = ℕ} n [] ≡ []
drop-nil zero = refl
drop-nil (suc n) = refl

drop-drop : (n k m : ℕ) (xs : Bytes) → n + k ≡ m → drop k (drop n xs) ≡ drop m xs
drop-drop zero k m xs e = ap (λ j. drop j xs) (omega arith)
drop-drop (suc n) k zero xs e = absurd (omega arith)
drop-drop (suc n) k (suc m) [] e = drop-nil k
drop-drop (suc n) k (suc m) (x ∷ xs) e = drop-drop n k m xs (omega arith)

-- What is written is read back.
pub slice-set_slice_self :
    (lo n : ℕ) (ys xs : Bytes)
    → length ys ≡ n
    → lo ≤ length xs
    → slice lo n (set_slice lo n ys xs) ≡ ys
slice-set_slice_self zero n ys xs e h =
    subst (λ k. take k (ys ++ drop n xs) ≡ ys) e (take-append ys (drop n xs))
slice-set_slice_self (suc lo) n ys [] e h = absurd (omega arith)
slice-set_slice_self (suc lo) n ys (x ∷ xs) e h = slice-set_slice_self lo n ys xs e (omega arith)

-- A write leaves what lies before it and what lies behind it.
take-set_slice :
    (m lo n : ℕ) (ys xs : Bytes)
    → m ≤ lo
    → lo ≤ length xs
    → take m (set_slice lo n ys xs) ≡ take m xs
take-set_slice zero lo n ys xs p h = refl
take-set_slice (suc m) zero n ys xs p h = absurd (omega arith)
take-set_slice (suc m) (suc lo) n ys [] p h = absurd (omega arith)
take-set_slice (suc m) (suc lo) n ys (x ∷ xs) p h =
    ap (λ ts. x ∷ ts) (take-set_slice m lo n ys xs (omega arith) (omega arith))

pub slice-set_slice_before :
    (a m lo n : ℕ) (ys xs : Bytes)
    → a + m ≤ lo
    → lo ≤ length xs
    → slice a m (set_slice lo n ys xs) ≡ slice a m xs
slice-set_slice_before zero m lo n ys xs p h = take-set_slice m lo n ys xs (omega arith) h
slice-set_slice_before (suc a) m zero n ys xs p h = absurd (omega arith)
slice-set_slice_before (suc a) m (suc lo) n ys [] p h = absurd (omega arith)
slice-set_slice_before (suc a) m (suc lo) n ys (x ∷ xs) p h =
    slice-set_slice_before a m lo n ys xs (omega arith) (omega arith)

drop-set_slice :
    (lo n a : ℕ) (ys xs : Bytes)
    → length ys ≡ n
    → lo + n ≤ a
    → lo ≤ length xs
    → drop a (set_slice lo n ys xs) ≡ drop a xs
drop-set_slice zero n a ys xs e p h =
    drop-append ys (drop n xs) (a - n) a (omega arith) ∙ drop-drop n (a - n) a xs (omega arith)
drop-set_slice (suc lo) n zero ys xs e p h = absurd (omega arith)
drop-set_slice (suc lo) n (suc a) ys [] e p h = absurd (omega arith)
drop-set_slice (suc lo) n (suc a) ys (x ∷ xs) e p h =
    drop-set_slice lo n a ys xs e (omega arith) (omega arith)

pub slice-set_slice_after :
    (a m lo n : ℕ) (ys xs : Bytes)
    → length ys ≡ n
    → lo + n ≤ a
    → lo ≤ length xs
    → slice a m (set_slice lo n ys xs) ≡ slice a m xs
slice-set_slice_after a m lo n ys xs e p h = ap (take m) (drop-set_slice lo n a ys xs e p h)
