-- ===== src/SaveJournal/Rises.antt =====
-- The generations of a history: what appending and trimming in `append_mutations` of
-- infrastructure/savesync_journal.py keep of their order.
use mathlib.Core.Path.{subst}
use romcloud.Base.{
  ap, ◌⊎◌, length-drop, ltb→lt, ℕ, zero, suc, ◌+◌, ◌-◌, ◌≤◌, ◌≡◌, refl, sym, List, [], ◌∷◌, ◌++◌,
  inl, inr, ltb, drop, arith, Bool-cases, length, nat_eq,
}
use romcloud.SaveJournal.Strip.{Text}
use romcloud.SaveJournal.Validate.{
  returned, text, RawEntry, Entry, required_text, mutation_entry, last_generation_of,
}
use romcloud.SaveJournal.{entries_from, retained}
use romcloud.SaveJournal.Laws.{bind-returned, Rises, mutation_entry-IsStable, returned-injective}

pub last_generation_of-append :
    (start : ℕ) (xs ys : List Entry)
    → last_generation_of start (xs ++ ys) ≡ last_generation_of (last_generation_of start xs) ys
unfolding last_generation_of
last_generation_of-append start [] ys = refl
last_generation_of-append start (x ∷ xs) ys = last_generation_of-append x.generation xs ys

pub Rises-append :
    (start : ℕ) (xs ys : List Entry)
    → Rises start xs
    → Rises (last_generation_of start xs) ys
    → Rises start (xs ++ ys)
unfolding last_generation_of
Rises-append start [] ys r s = s
Rises-append start (x ∷ xs) ys (lt, stable, r) s = (lt, stable, Rises-append x.generation xs ys r s)

pub Rises-weaken : (low start : ℕ) (xs : List Entry) → low ≤ start → Rises start xs → Rises low xs
Rises-weaken low start [] h r = tt
Rises-weaken low start (x ∷ xs) h (lt, stable, r) = (omega (arith, h, lt), stable, r)

Rises-drop : (start n : ℕ) (xs : List Entry) → Rises start xs → Rises start (drop n xs)
Rises-drop start zero xs r = r
Rises-drop start (suc n) [] r = tt
Rises-drop start (suc n) (x ∷ xs) (lt, stable, r) =
    Rises-weaken start x.generation (drop n xs) (omega (arith, lt)) (Rises-drop x.generation n xs r)

last_generation_of-drop :
    (start n : ℕ) (xs : List Entry) → last_generation_of 0 (drop n xs) ≤ last_generation_of start xs
unfolding last_generation_of
last_generation_of-drop start zero [] = omega arith
last_generation_of-drop start zero (x ∷ xs) = omega arith
last_generation_of-drop start (suc n) [] = omega arith
last_generation_of-drop start (suc n) (x ∷ xs) = last_generation_of-drop x.generation n xs

pub entries_from-Rises :
    (generation : ℕ) (timestamp device_id revision : Text) (raws : List RawEntry) (es : List Entry)
    → required_text (text timestamp) ≡ returned timestamp
    → required_text (text device_id) ≡ returned device_id
    → required_text (text revision) ≡ returned revision
    → entries_from generation timestamp device_id revision raws ≡ returned es
    → Rises generation es × (last_generation_of generation es ≡ generation + length raws)
unfolding entries_from last_generation_of
entries_from-Rises generation timestamp device_id revision [] es t d r h =
    subst (λ xs. Rises generation xs × (last_generation_of generation xs ≡ generation + 0))
      (returned-injective h) (tt, omega arith)
entries_from-Rises generation timestamp device_id revision (raw ∷ raws) es t d r h =
    let (e, m, h1) =
      bind-returned (mutation_entry (suc generation) timestamp device_id revision raw) _ es h in
    let (rest, w, h2) =
      bind-returned (entries_from (suc generation) timestamp device_id revision raws) _ es h1 in
    let (stable, same) =
      mutation_entry-IsStable (suc generation) timestamp device_id revision raw e t d r m in
    let (rises, last) =
      entries_from-Rises (suc generation) timestamp device_id revision raws rest t d r w in
    subst
      (λ xs.
        Rises generation xs × (last_generation_of generation xs ≡ generation + suc (length raws)))
      (returned-injective h2)
      (
        (omega (arith, same), stable, subst (λ g. Rises g rest) (sym same) rises),
        rw (last_generation_of, same) (omega (arith, last)),
      )

pub retained-Rises : (n : ℕ) (xs : List Entry) → Rises 0 xs → Rises 0 (retained n xs)
unfolding retained
retained-Rises n xs r = elim (Bool-cases (ltb n (length xs))) [
  | inl e ↦ rw e (Rises-drop 0 (length xs - n) xs r)
  | inr e ↦ rw e (r)
]

pub last_generation_of-retained :
    (n : ℕ) (xs : List Entry) → last_generation_of 0 (retained n xs) ≤ last_generation_of 0 xs
unfolding retained
last_generation_of-retained n xs = elim (Bool-cases (ltb n (length xs))) [
  | inl e ↦ rw e (last_generation_of-drop 0 (length xs - n) xs)
  | inr e ↦ rw e (omega arith)
]

drop-suffix : (n : ℕ) (xs : List Entry) → (older : List Entry) × (xs ≡ older ++ drop n xs)
drop-suffix zero xs = ([], refl)
drop-suffix (suc n) [] = ([], refl)
drop-suffix (suc n) (x ∷ xs) = let (older, e) = drop-suffix n xs in (x ∷ older, ap (λ ys. x ∷ ys) e)

-- What is retained is an end of the history, as long as the limit where entries go.
pub retained-suffix :
    (n : ℕ) (xs : List Entry)
    → (older : List Entry) × (xs ≡ older ++ retained n xs)
      × (length (retained n xs) ≤ n)
      × ((older ≡ []) ⊎ (length (retained n xs) ≡ n))
unfolding retained
retained-suffix n xs = elim (Bool-cases (ltb n (length xs))) [
  | inl e ↦
      let (older, split) = drop-suffix (length xs - n) xs in
      let kept : length (drop (length xs - n) xs) ≡ n =
        omega (arith, length-drop (length xs - n) xs, ltb→lt n (length xs) e) in
      rw (retained, e) (older, split, omega (arith, kept), inr kept)
  | inr e ↦ rw (retained, e) ([], refl, ground (arith, e), inl refl)
]

pub last_generation_of_mono :
    (a b : ℕ) (xs : List Entry) → a ≤ b → last_generation_of a xs ≤ last_generation_of b xs
unfolding last_generation_of
last_generation_of_mono a b [] h = h
last_generation_of_mono a b (x ∷ xs) h = omega arith
