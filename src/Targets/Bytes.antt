-- ===== src/Targets/Bytes.antt =====
-- `setdbcnt`: the device's payload size is the least of its targets'.
use aoe.Prelude.{
  ℕ, ◌≤◌, ◌<◌, ◌≡◌, ◌⊎◌, inl, inr, refl, none, some, [], ◌∷◌, arith, sym, ltb, ◌==◌, ◌||◌,
  if◌then◌else◌,
}
use aoe.Types.{AoeTgt}
use aoe.Targets.{Slots, setdbcnt, least_bcnt, first_null}

-- `P` of every target at the front.
abbrev pub Every : (AoeTgt → Type 0) → Slots → Type 0
Every P [] = Unit
Every P (none ∷ ts) = Unit
Every P (some t ∷ ts) = P t × Every P ts

-- The size is that of some target at the front.
abbrev pub Attained : ℕ → Slots → Type 0
Attained n [] = ⊥
Attained n (none ∷ ts) = ⊥
Attained n (some t ∷ ts) = (t.minbcnt ≡ n) ⊎ Attained n ts

least_bcnt-pos :
    (ts : Slots) (b : ℕ)
    → 0 < b
    → Every (λ t. 0 < t.minbcnt) ts
    → (0 < least_bcnt ts b) × (least_bcnt ts b ≤ b)
least_bcnt-pos [] b h p = (h, omega arith)
least_bcnt-pos (none ∷ ts) b h p = (h, omega arith)
least_bcnt-pos (some t ∷ ts) b h p =
    ground (arith, least_bcnt-pos ts (if b == 0 || ltb t.minbcnt b then t.minbcnt else b))

least_bcnt-least :
    (ts : Slots) (b n : ℕ)
    → 0 < b
    → Every (λ t. 0 < t.minbcnt) ts
    → n ≡ least_bcnt ts b
    → Every (λ t. n ≤ t.minbcnt) ts
least_bcnt-least [] b n h p e = tt
least_bcnt-least (none ∷ ts) b n h p e = tt
least_bcnt-least (some t ∷ ts) b n h p e =
    let b' : ℕ = if b == 0 || ltb t.minbcnt b then t.minbcnt else b in
    let pos' : 0 < b' = ground arith in
    (ground (arith, least_bcnt-pos ts b' pos' p.1), least_bcnt-least ts b' n pos' p.1 e)

least_bcnt-Attained : (ts : Slots) (b n : ℕ) → n ≡ least_bcnt ts b → (n ≡ b) ⊎ Attained n ts
least_bcnt-Attained [] b n e = inl e
least_bcnt-Attained (none ∷ ts) b n e = inl e
least_bcnt-Attained (some t ∷ ts) b n e =
    ground (arith, least_bcnt-Attained ts (if b == 0 || ltb t.minbcnt b then t.minbcnt else b) n)

-- Where every target has a payload size, `setdbcnt` sets the device's to the least of them: no
-- target's is below it, and it is some target's, or 0 where there is none.
pub setdbcnt_lem :
    (ts : Slots)
    → Every (λ t. 0 < t.minbcnt) ts
    → Every (λ t. setdbcnt ts ≤ t.minbcnt) ts
      × (Attained (setdbcnt ts) ts ⊎ ((first_null ts ≡ 0) × (setdbcnt ts ≡ 0)))
unfolding setdbcnt
setdbcnt_lem [] p = (tt, inr (refl, refl))
setdbcnt_lem (none ∷ ts) p = (tt, inr (refl, refl))
setdbcnt_lem (some t ∷ ts) p = (
  ((least_bcnt-pos ts t.minbcnt p.0 p.1).1, least_bcnt-least ts t.minbcnt _ p.0 p.1 refl),
  inl (attained (least_bcnt-Attained ts t.minbcnt _ refl)),
)
  where
    attained :
        (least_bcnt ts t.minbcnt ≡ t.minbcnt) ⊎ Attained (least_bcnt ts t.minbcnt) ts
        → (t.minbcnt ≡ least_bcnt ts t.minbcnt) ⊎ Attained (least_bcnt ts t.minbcnt) ts
    attained (inl e) = inl (sym e)
    attained (inr a) = inr a
