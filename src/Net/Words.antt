-- ===== src/Net/Words.antt =====
-- The words of a text, one by one: `aoe_strcspn`, and the skipping of spaces.
use aoe.Prelude.{
  ℕ, zero, suc, ◌≤◌, ◌≡◌, ◌⊎◌, refl, ap, sym, ◌∙◌, Bool, true, false, List, [], ◌∷◌, arith,
  if◌then◌else◌, length, Bool-cases, inl, inr,
}
use mathlib.Core.Path.{subst}
use aoe.Flush.{taken}
use aoe.Net.{whitespace, is_among, aoe_strcspn, skip_white, dropped}

abbrev pub is_white : ℕ → Bool
is_white c = is_among whitespace c

abbrev pub push : List ℕ → List (List ℕ) → List (List ℕ)
push [] ws = ws
push (c ∷ w) ws = (c ∷ w) ∷ ws

-- The characters before the first space, and the words behind it.
unfoldable pub split : List ℕ → List ℕ × List (List ℕ)
split [] = ([], [])
split (c ∷ cs) = let (w, ws) = split cs in if is_white c then ([], push w ws) else (c ∷ w, ws)

-- A text's words: what stands between spaces.
abbrev pub words : List ℕ → List (List ℕ)
words text = push (split text).0 (split text).1

abbrev pub Listed : List ℕ → List (List ℕ) → Type 0
Listed name [] = ⊥
Listed name (w ∷ ws) = (name ≡ w) ⊎ Listed name ws

module _ (c : ℕ) (cs : List ℕ) where
  split_at : is_white c ≡ true → split (c ∷ cs) ≡ ([], words cs)
  unfolding split
  split_at y = rw y refl

  split_in : is_white c ≡ false → split (c ∷ cs) ≡ (c ∷ (split cs).0, (split cs).1)
  unfolding split
  split_in n = rw n refl

  skip_at : is_white c ≡ true → skip_white (c ∷ cs) ≡ skip_white cs
  unfolding skip_white
  skip_at y = rw y refl

  skip_in : is_white c ≡ false → skip_white (c ∷ cs) ≡ c ∷ cs
  unfolding skip_white
  skip_in n = rw n refl

  upto_at : is_white c ≡ true → aoe_strcspn (c ∷ cs) whitespace ≡ 0
  unfolding aoe_strcspn
  upto_at y = rw y refl

  pub upto_in :
      is_white c ≡ false → aoe_strcspn (c ∷ cs) whitespace ≡ suc (aoe_strcspn cs whitespace)
  unfolding aoe_strcspn
  upto_in n = rw n refl

pub words-skip_white : (q : List ℕ) → words (skip_white q) ≡ words q
unfolding skip_white split
words-skip_white [] = refl
words-skip_white (c ∷ cs) = elim (Bool-cases (is_white c)) [
  | inl y ↦
      ap words (skip_at c cs y)
      ∙ words-skip_white cs
      ∙ ap (λ (r : List ℕ × List (List ℕ)). push r.0 r.1) (sym (split_at c cs y))
  | inr n ↦ ap words (skip_in c cs n)
]

abbrev pub upto : List ℕ → ℕ
upto p = aoe_strcspn p whitespace

-- What `split` gives at a text, said of the text that is left behind `n` characters.
abbrev Splits : List ℕ → ℕ → Type 0
Splits p n =
    ((split p).0 ≡ taken n p)
    × ((split p).1 ≡ (split (dropped n p)).1)
    × ((split (dropped n p)).0 ≡ [])

Splits-upto : (p : List ℕ) → Splits p (upto p)
unfolding aoe_strcspn split
Splits-upto [] = (refl, refl, refl)
Splits-upto (c ∷ cs) = elim (Bool-cases (is_white c)) [
  | inl y ↦
      let e = ap (λ (r : List ℕ × List (List ℕ)). r.0) (split_at c cs y) in
      subst (Splits (c ∷ cs)) (sym (upto_at c cs y)) (e, refl, e)
  | inr n ↦
      let h = Splits-upto cs in
      let e = split_in c cs n in
      subst (Splits (c ∷ cs)) (sym (upto_in c cs n)) (
        ap (λ (r : List ℕ × List (List ℕ)). r.0) e ∙ ap (λ w. c ∷ w) h.0,
        ap (λ (r : List ℕ × List (List ℕ)). r.1) e ∙ h.1,
        h.2,
      )
]

pub words_first :
    (p : List ℕ) → words p ≡ push (taken (upto p) p) (words (skip_white (dropped (upto p) p)))
words_first p =
    let h = Splits-upto p in
    let q = dropped (upto p) p in
    let behind : words q ≡ (split q).1 = ap (λ w. push w (split q).1) h.2 in
    ap (λ w. push w (split p).1) h.0
    ∙ ap (push (taken (upto p) p)) (h.1 ∙ sym behind ∙ sym (words-skip_white q))

-- A text that is empty or does not begin with a space.
abbrev pub Bare : List ℕ → Type 0
Bare [] = Unit
Bare (c ∷ cs) = is_white c ≡ false

pub Bare-skip_white : (q : List ℕ) → Bare (skip_white q)
unfolding skip_white
Bare-skip_white [] = tt
Bare-skip_white (c ∷ cs) = elim (Bool-cases (is_white c)) [
  | inl y ↦ subst Bare (sym (skip_at c cs y)) (Bare-skip_white cs)
  | inr n ↦ subst Bare (sym (skip_in c cs n)) n
]

pub length-skip_white : (q : List ℕ) → length (skip_white q) ≤ length q
unfolding skip_white
length-skip_white [] = omega arith
length-skip_white (c ∷ cs) = elim (Bool-cases (is_white c)) [
  | inl y ↦ omega (arith, ap length (skip_at c cs y), length-skip_white cs)
  | inr n ↦ omega (arith, ap length (skip_in c cs n))
]

pub length-dropped : (n : ℕ) (p : List ℕ) → length (dropped n p) ≤ length p
length-dropped zero p = omega arith
length-dropped (suc n) [] = omega arith
length-dropped (suc n) (c ∷ cs) = omega (arith, length-dropped n cs)

pub upto-length : (p : List ℕ) → upto p ≤ length p
unfolding aoe_strcspn
upto-length [] = omega arith
upto-length (c ∷ cs) = elim (Bool-cases (is_white c)) [
  | inl y ↦ omega (arith, upto_at c cs y)
  | inr n ↦ omega (arith, upto_in c cs n, upto-length cs)
]
