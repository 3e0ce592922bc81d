-- ===== src/MemoryCards/Card/Entries.antt =====
-- Lists of files on a card: the blocks they take, and that no two take the same.
use romcloud.Base.{
  ℕ, ◌≡◌, refl, inl, inr, Bool, true, false, ◌||◌, List, [], ◌∷◌, ◌++◌, arith, any, contains,
  nat_eq, All, All-append, Bool-cases,
}
use romcloud.Base.Keys.{str_le, insert_by, sort_by, All-insert_by, All-sort_by}
use romcloud.MemoryCards.Card.{ParsedEntry}

-- A file of `entries` takes the block.
unfoldable pub in_live : List ParsedEntry → ℕ → Bool
unfolding any
in_live entries a = any (λ entry. contains entry.blocks a) entries

abbrev pub Disjoint : ParsedEntry → ParsedEntry → Type 0
Disjoint x y = (a : ℕ) → contains x.blocks a ≡ true → contains y.blocks a ≡ false

abbrev pub Apart : List ParsedEntry → Type 0
Apart [] = Unit
Apart (x ∷ xs) = All (Disjoint x) xs × Apart xs

Disjoint-sym : (x y : ParsedEntry) → Disjoint x y → Disjoint y x
Disjoint-sym x y d a h = elim (Bool-cases (contains x.blocks a)) [
  | inl i ↦ absurd (ground (arith, d a i))
  | inr o ↦ o
]

Disjoint-insert :
    (x y : ParsedEntry) (ys : List ParsedEntry)
    → All (Disjoint x) (y ∷ ys)
    → All (Disjoint y) ys
    → All (Disjoint y) (insert_by (λ e. e.identity) x ys)
Disjoint-insert x y ys h k =
    All-insert_by (λ e. e.identity) (Disjoint y) x ys (Disjoint-sym x y h.0) k

Apart-insert_by :
    (x : ParsedEntry) (ys : List ParsedEntry)
    → All (Disjoint x) ys
    → Apart ys
    → Apart (insert_by (λ e. e.identity) x ys)
unfolding insert_by
Apart-insert_by x [] h k = (tt, tt)
Apart-insert_by x (y ∷ ys) h k = elim (Bool-cases (str_le x.identity y.identity)) [
  | inl le ↦ rw le (h, k)
  | inr gt ↦ rw gt (Disjoint-insert x y ys h k.0, Apart-insert_by x ys h.1 k.1)
]

pub Apart-sort_by : (xs : List ParsedEntry) → Apart xs → Apart (sort_by (λ e. e.identity) xs)
unfolding sort_by
Apart-sort_by [] h = tt
Apart-sort_by (x ∷ xs) h =
    Apart-insert_by x (sort_by (λ e. e.identity) xs)
      (All-sort_by (λ e. e.identity) (Disjoint x) xs h.0) (Apart-sort_by xs h.1)

pub Apart-snoc :
    (xs : List ParsedEntry) (y : ParsedEntry)
    → ((a : ℕ) → contains y.blocks a ≡ true → in_live xs a ≡ false)
    → Apart xs
    → Apart (xs ++ (y ∷ []))
unfolding in_live
Apart-snoc [] y h k = (tt, tt)
Apart-snoc (x ∷ xs) y h k = (
  All-append (Disjoint x) xs (y ∷ []) k.0 (Disjoint-sym y x (λ a i. ground (arith, h a)), tt),
  Apart-snoc xs y (λ a i. ground (arith, h a)) k.1,
)

in_live-insert_by :
    (x : ParsedEntry) (ys : List ParsedEntry) (a : ℕ)
    → in_live (insert_by (λ e. e.identity) x ys) a ≡ (contains x.blocks a || in_live ys a)
unfolding insert_by in_live
in_live-insert_by x [] a = refl
in_live-insert_by x (y ∷ ys) a = ground (arith, in_live-insert_by x ys a)

pub in_live-sort_by :
    (xs : List ParsedEntry) (a : ℕ) → in_live (sort_by (λ e. e.identity) xs) a ≡ in_live xs a
unfolding sort_by in_live
in_live-sort_by [] a = refl
in_live-sort_by (x ∷ xs) a =
    ground (arith, in_live-insert_by x (sort_by (λ e. e.identity) xs) a, in_live-sort_by xs a)

pub in_live-snoc :
    (xs : List ParsedEntry) (y : ParsedEntry) (a : ℕ)
    → in_live (xs ++ (y ∷ [])) a ≡ (contains y.blocks a || in_live xs a)
unfolding in_live
in_live-snoc [] y a = refl
in_live-snoc (x ∷ xs) y a = ground (arith, in_live-snoc xs y a)

-- What holds of every file holds of one that takes the block.
pub All-in_live {κ} :
    (P : ParsedEntry → Type κ) (xs : List ParsedEntry) (a : ℕ)
    → All P xs
    → in_live xs a ≡ true
    → (entry : ParsedEntry) × P entry × (contains entry.blocks a ≡ true)
unfolding in_live
All-in_live P [] a h i = absurd (ground arith)
All-in_live P (x ∷ xs) a h i = elim (Bool-cases (contains x.blocks a)) [
  | inl here ↦ (x, h.0, here)
  | inr other ↦ All-in_live P xs a h.1 (ground arith)
]
