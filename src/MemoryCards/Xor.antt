-- ===== src/MemoryCards/Xor.antt =====
-- `_xor_checksum`: a running exclusive or, which a byte equal to itself brings to 0.
use Prim.Native.Nat.{◌/◌, ◌%◌, digits, bit_xor, bit_xor-bitwise, differ}
use romcloud.Base.{ℕ, zero, suc, ◌≤◌, ◌≡◌, refl, [], ◌∷◌, ◌++◌, ◌∙◌, arith}
use romcloud.MemoryCards.Bytes.{Bytes}

unfoldable pub xor_checksum_from : ℕ → Bytes → ℕ
xor_checksum_from value [] = value
xor_checksum_from value (byte ∷ frame) = xor_checksum_from (bit_xor value byte) frame

unfoldable pub xor_checksum : Bytes → ℕ
unfolding xor_checksum_from
xor_checksum frame = xor_checksum_from 0 frame

differ_self : (a : ℕ) → differ a a ≡ 0
differ_self zero = refl
differ_self (suc a) = differ_self a

-- Digit by digit, a number does not differ from itself.
digits_self : (count a : ℕ) → a ≤ count → digits (λ y. y) differ count a a ≡ 0
digits_self zero zero le = refl
digits_self zero (suc a) le = absurd (omega arith)
digits_self (suc count) zero le = refl
digits_self (suc count) (suc a) le =
    omega (arith, digits_self count (suc a / 2) (omega arith), differ_self (suc a % 2))

pub bit_xor_self : (a : ℕ) → bit_xor a a ≡ 0
bit_xor_self a = bit_xor-bitwise a a ∙ digits_self a a (omega arith)

xor_checksum_from-append :
    (v : ℕ) (xs ys : Bytes)
    → xor_checksum_from v (xs ++ ys) ≡ xor_checksum_from (xor_checksum_from v xs) ys
unfolding xor_checksum_from
xor_checksum_from-append v [] ys = refl
xor_checksum_from-append v (x ∷ xs) ys = xor_checksum_from-append (bit_xor v x) xs ys

pub xor_checksum-append_self : (xs : Bytes) → xor_checksum (xs ++ (xor_checksum xs ∷ [])) ≡ 0
unfolding xor_checksum xor_checksum_from
xor_checksum-append_self xs =
    xor_checksum_from-append 0 xs (xor_checksum xs ∷ []) ∙ bit_xor_self (xor_checksum xs)
