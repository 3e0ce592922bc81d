-- ===== src/SaveJournal/Strip.antt =====
-- `str.strip`, which infrastructure/savesync_journal.py asks of a field. A text is the list of its code
-- points.
use romcloud.Base.{
  ℕ, ◌≡◌, refl, Bool, false, ◌&&◌, ◌||◌, List, [], ◌∷◌, if◌then◌else◌, leb, ◌==◌, nat_eq,
  Bool-cases, inl, inr,
}

abbrev pub Text : Type 0
Text = List ℕ

-- `str.isspace` of one code point
unfoldable pub is_space : ℕ → Bool
is_space c =
    (leb 9 c && leb c 13)
    || (leb 28 c && leb c 32)
    || c == 133
    || c == 160
    || c == 5760
    || (leb 8192 c && leb c 8202)
    || c == 8232
    || c == 8233
    || c == 8239
    || c == 8287
    || c == 12288

unfoldable pub lstrip : Text → Text
lstrip [] = []
lstrip (c ∷ t) = let rest = lstrip t in if is_space c then rest else c ∷ t

-- A code point before a text that is already stripped on the right.
unfoldable pub before_stripped : ℕ → Text → Text
before_stripped c [] = if is_space c then [] else c ∷ []
before_stripped c (d ∷ t) = c ∷ d ∷ t

unfoldable pub rstrip : Text → Text
rstrip [] = []
rstrip (c ∷ t) = before_stripped c (rstrip t)

unfoldable pub strip : Text → Text
strip t = rstrip (lstrip t)

unfoldable starts_blank : Text → Bool
starts_blank [] = false
starts_blank (c ∷ t) = is_space c

starts_blank-lstrip : (t : Text) → starts_blank (lstrip t) ≡ false
unfolding lstrip starts_blank
starts_blank-lstrip [] = refl
starts_blank-lstrip (c ∷ t) = elim (Bool-cases (is_space c)) [
  | inl e ↦ rw (e, starts_blank-lstrip t)
  | inr e ↦ rw (e, e)
]

lstrip-id : (t : Text) → starts_blank t ≡ false → lstrip t ≡ t
unfolding lstrip starts_blank
lstrip-id [] e = refl
lstrip-id (c ∷ t) e = rw e

starts_blank-before_stripped :
    (c : ℕ) (t : Text) → is_space c ≡ false → starts_blank (before_stripped c t) ≡ false
unfolding before_stripped starts_blank
starts_blank-before_stripped c [] e = rw (e, e)
starts_blank-before_stripped c (d ∷ t) e = e

starts_blank-rstrip : (t : Text) → starts_blank t ≡ false → starts_blank (rstrip t) ≡ false
unfolding rstrip starts_blank
starts_blank-rstrip [] e = refl
starts_blank-rstrip (c ∷ t) e = starts_blank-before_stripped c (rstrip t) e

rstrip-before_stripped :
    (c : ℕ) (t : Text) → rstrip t ≡ t → rstrip (before_stripped c t) ≡ before_stripped c t
unfolding rstrip before_stripped
rstrip-before_stripped c [] e = elim (Bool-cases (is_space c)) [ inl s ↦ rw s | inr s ↦ rw (s, s) ]
rstrip-before_stripped c (d ∷ t) e = rw e

rstrip-rstrip : (t : Text) → rstrip (rstrip t) ≡ rstrip t
unfolding rstrip
rstrip-rstrip [] = refl
rstrip-rstrip (c ∷ t) = rstrip-before_stripped c (rstrip t) (rstrip-rstrip t)

pub strip-strip : (t : Text) → strip (strip t) ≡ strip t
unfolding strip
strip-strip t = rw (
  lstrip-id (rstrip (lstrip t)) (starts_blank-rstrip (lstrip t) (starts_blank-lstrip t)),
  rstrip-rstrip (lstrip t),
)
