-- ===== src/Tools/San/Targs.antt =====
-- The list of targets is sorted, with each target once: `inserttarg`.
use aoe.Prelude.{
  ℕ, ◌≡◌, ◌<◌, ◌⊎◌, inl, inr, ◌↔◌, ap, ◌∙◌, true, false, List, [], ◌∷◌, arith, Bool-cases,
}
use aoe.Tools.San.{Targ, is_same, is_less, insert_behind, inserttarg}

abbrev pub Less : Targ → Targ → Type 0
Less s t = (s.major < t.major) ⊎ ((s.major ≡ t.major) × (s.minor < t.minor))

abbrev pub LessHead : Targ → List Targ → Type 0
LessHead s [] = Unit
LessHead s (t ∷ ts) = Less s t

-- Strictly ascending.
abbrev pub IsSorted : List Targ → Type 0
IsSorted [] = Unit
IsSorted (t ∷ ts) = LessHead t ts × IsSorted ts

abbrev pub Among : Targ → List Targ → Type 0
Among x [] = ⊥
Among x (t ∷ ts) = (x ≡ t) ⊎ Among x ts

less : (s t : Targ) → is_less s t ≡ true → Less s t
less s t h = ground arith

same : (s t : Targ) → is_same s t ≡ true → (s.major ≡ t.major) × (s.minor ≡ t.minor)
same s t h = ground arith

greater : (s t : Targ) → is_less s t ≡ false → is_same s t ≡ false → Less t s
greater s t h k = ground arith

Targ-eq : (s t : Targ) → (s.major ≡ t.major) × (s.minor ≡ t.minor) → s ≡ t
Targ-eq s t h =
    let both : ℕ → ℕ → Targ = λ a b. record { major = a; minor = b } in
    ap (λ a. both a s.minor) h.0 ∙ ap (both t.major) h.1

LessHead-insert :
    (t nt : Targ) (ts : List Targ) → Less t nt → LessHead t ts → LessHead t (insert_behind nt ts)
unfolding insert_behind
LessHead-insert t nt [] h k = h
LessHead-insert t nt (u ∷ us) h k = elim (Bool-cases (is_same nt u)) [
  | inl y ↦ rw y k
  | inr n ↦ elim (Bool-cases (is_less nt u)) [ inl y ↦ rw (n, y) h | inr m ↦ rw (n, m) k ]
]

insert-IsSorted : (nt : Targ) (ts : List Targ) → IsSorted ts → IsSorted (insert_behind nt ts)
unfolding insert_behind
insert-IsSorted nt [] s = (tt, tt)
insert-IsSorted nt (t ∷ ts) s = elim (Bool-cases (is_same nt t)) [
  | inl y ↦ rw y s
  | inr n ↦ elim (Bool-cases (is_less nt t)) [
    | inl y ↦ rw (n, y) (less nt t y, s)
    | inr m ↦ rw (n, m) (LessHead-insert t nt ts (greater nt t m n) s.0, insert-IsSorted nt ts s.1)
  ]
]

-- What is in the list with `nt`.
abbrev With : Targ → Targ → List Targ → Type 0
With x nt ts = (x ≡ nt) ⊎ Among x ts

past : (x nt t : Targ) (ts : List Targ) → With x nt ts → With x nt (t ∷ ts)
past x nt t ts (inl e) = inl e
past x nt t ts (inr a) = inr (inr a)

back :
    (x nt t : Targ) (ts us : List Targ)
    → (With x nt ts → Among x us)
    → With x nt (t ∷ ts)
    → Among x (t ∷ us)
back x nt t ts us f (inl e) = inr (f (inl e))
back x nt t ts us f (inr (inl e)) = inl e
back x nt t ts us f (inr (inr a)) = inr (f (inr a))

merged : (x nt t : Targ) (ts : List Targ) → nt ≡ t → With x nt (t ∷ ts) → Among x (t ∷ ts)
merged x nt t ts e (inl d) = inl (d ∙ e)
merged x nt t ts e (inr a) = a

insert-Among : (x nt : Targ) (ts : List Targ) → Among x (insert_behind nt ts) ↔ With x nt ts
unfolding insert_behind
insert-Among x nt [] = (λ a. a, λ a. a)
insert-Among x nt (t ∷ ts) = elim (Bool-cases (is_same nt t)) [
  | inl y ↦ rw y (inr, merged x nt t ts (Targ-eq nt t (same nt t y)))
  | inr n ↦ elim (Bool-cases (is_less nt t)) [
    | inl y ↦ rw (n, y) (λ a. a, λ a. a)
    | inr m ↦
        let r = insert-Among x nt ts in
        rw (n, m)
          (
            λ a. elim a [ inl e ↦ inr (inl e) | inr b ↦ past x nt t ts (r.0 b) ],
            back x nt t ts (insert_behind nt ts) r.1,
          )
  ]
]

-- `inserttarg` keeps the list strictly ascending by shelf and slot, and adds the target to it, once.
pub inserttarg_lem :
    (nt : Targ) (ts : List Targ)
    → IsSorted ts
    → IsSorted (inserttarg nt ts)
      × ((x : Targ) → Among x (inserttarg nt ts) ↔ ((x ≡ nt) ⊎ Among x ts))
unfolding inserttarg
inserttarg_lem nt [] s = ((tt, tt), λ x. (λ a. a, λ a. a))
inserttarg_lem nt (t ∷ ts) s = elim (Bool-cases (is_less nt t)) [
  | inl y ↦ rw y ((less nt t y, s), λ x. (λ a. a, λ a. a))
  | inr m ↦ elim (Bool-cases (is_same nt t)) [
    | inl y ↦ rw (m, y) (s, λ x. (inr, merged x nt t ts (Targ-eq nt t (same nt t y))))
    | inr n ↦
        rw (m, n)
          (
            (LessHead-insert t nt ts (greater nt t m n) s.0, insert-IsSorted nt ts s.1),
            λ x.
                let r = insert-Among x nt ts in
                (
                  λ a. elim a [ inl e ↦ inr (inl e) | inr b ↦ past x nt t ts (r.0 b) ],
                  back x nt t ts (insert_behind nt ts) r.1,
                ),
          )
  ]
]
