-- ===== src/Tools/San/Luns.antt =====
-- The luns of an interface are sorted, with each lun once, and `findlun` finds or adds the packet's.
use aoe.Prelude.{
  ℕ, zero, suc, ◌≡◌, ◌<◌, ◌⊎◌, inl, inr, refl, ap, sym, ◌∙◌, Bool, true, false, Option, none, some,
  List, [], ◌∷◌, arith, ◌==◌, Bool-cases, get_elem?,
}
use mathlib.Core.Path.{subst}
use aoe.Types.{AoeHdr}
use aoe.Tools.San.{San, Lun, goes_on, is_it, walk, insert_at, new_lun, found_or_new, findlun}

-- Descending by shelf and slot, then ascending by address.
abbrev pub Before : Lun → Lun → Type 0
Before p q =
    (q.major < p.major)
    ⊎ ((p.major ≡ q.major) × ((q.minor < p.minor) ⊎ ((p.minor ≡ q.minor) × (p.ea < q.ea))))

abbrev pub BeforeHead : Lun → List Lun → Type 0
BeforeHead p [] = Unit
BeforeHead p (q ∷ qs) = Before p q

abbrev pub IsSorted : List Lun → Type 0
IsSorted [] = Unit
IsSorted (p ∷ ps) = BeforeHead p ps × IsSorted ps

-- The lun is the one of the address.
abbrev pub IsFor : ℕ → ℕ → ℕ → Lun → Type 0
IsFor maj min src p = (p.major ≡ maj) × (p.minor ≡ min) × (p.ea ≡ src)

module _ (maj min src : ℕ) where
  before : (p n : Lun) → IsFor maj min src n → goes_on maj min src p ≡ true → Before p n
  unfolding goes_on
  before p n f h = ground (arith, f.0, f.1, f.2)

  behind :
      (p n : Lun)
      → IsFor maj min src n
      → goes_on maj min src p ≡ false
      → is_it maj min src p ≡ false
      → Before n p
  unfolding goes_on
  behind p n f h k = ground (arith, f.0, f.1, f.2)

  it : (p : Lun) → is_it maj min src p ≡ true → IsFor maj min src p
  it p h = ground arith

  insert-BeforeHead :
      (p n : Lun) (ps : List Lun)
      → Before p n
      → BeforeHead p ps
      → BeforeHead p (insert_at ps (walk maj min src ps).0 n)
  unfolding walk
  insert-BeforeHead p n [] b h = b
  insert-BeforeHead p n (q ∷ qs) b h = elim (Bool-cases (goes_on maj min src q)) [
    | inl y ↦ rw y h
    | inr k ↦ rw k b
  ]

  insert-IsSorted :
      (n : Lun) (ps : List Lun)
      → IsFor maj min src n
      → (walk maj min src ps).1 ≡ false
      → IsSorted ps
      → IsSorted (insert_at ps (walk maj min src ps).0 n)
  unfolding walk
  insert-IsSorted n [] f m s = (tt, tt)
  insert-IsSorted n (p ∷ ps) f m s = elim (Bool-cases (goes_on maj min src p)) [
    | inl y ↦
        let rest : (walk maj min src ps).1 ≡ false = rw y at m in
        rw y (insert-BeforeHead p n ps (before p n f y) s.0, insert-IsSorted n ps f rest s.1)
    | inr k ↦ let other : is_it maj min src p ≡ false = rw k at m in rw k (behind p n f k other, s)
  ]

  -- Where the walk ends, if it has found the lun.
  found :
      (ps : List Lun)
      → (walk maj min src ps).1 ≡ true
      → (p : Lun) × (get_elem? ps (walk maj min src ps).0 ≡ some p) × IsFor maj min src p
  unfolding walk
  found [] m = absurd (cc m)
  found (p ∷ ps) m = elim (Bool-cases (goes_on maj min src p)) [
    | inl y ↦ let r = found ps (rw y at m) in (r.0, rw y r.1, r.2)
    | inr k ↦ (p, rw k refl, it p (rw k at m))
  ]

  added :
      (n : Lun) (ps : List Lun)
      → get_elem? (insert_at ps (walk maj min src ps).0 n) (walk maj min src ps).0 ≡ some n
  unfolding walk
  added n [] = refl
  added n (p ∷ ps) = elim (Bool-cases (goes_on maj min src p)) [
    | inl y ↦ rw y (added n ps)
    | inr k ↦ rw k refl
  ]

-- What `findlun` answers.
abbrev pub Found : AoeHdr → San → Option ℕ × San → Type 0
Found a e (none, e') = (a.cmd ≡ 0) × (e' ≡ e)
Found a e (some i, e') =
    (p : Lun) × (get_elem? e'.luns i ≡ some p) × IsFor a.major a.minor a.src p × IsSorted e'.luns

answer :
    (a : AoeHdr) (e : San) (r : ℕ × Bool)
    → r ≡ walk a.major a.minor a.src e.luns
    → IsSorted e.luns
    → Found a e (found_or_new a e r)
answer a e (i, true) w s =
    let h = found a.major a.minor a.src e.luns (ap (λ (x : ℕ × Bool). x.1) (sym w)) in
    (h.0, ap (λ (x : ℕ × Bool). get_elem? e.luns x.0) w ∙ h.1, h.2, s)
answer a e (i, false) w s =
    let n = new_lun a.major a.minor a.src e.id in
    let m = ap (λ (x : ℕ × Bool). x.1) (sym w) in
    let same : i ≡ (walk a.major a.minor a.src e.luns).0 = ap (λ (x : ℕ × Bool). x.0) w in
    elim (Bool-cases (a.cmd == 0)) [
      | inl y ↦ rw y (ground arith, refl)
      | inr k ↦ rw k (
        n,
        subst (λ j. get_elem? (insert_at e.luns j n) j ≡ some n) (sym same)
            (added a.major a.minor a.src n e.luns),
        (refl, refl, refl),
        subst (λ j. IsSorted (insert_at e.luns j n)) (sym same)
            (insert-IsSorted a.major a.minor a.src n e.luns (refl, refl, refl) m s),
      )
    ]

-- Where the luns of an interface are in order, descending by shelf and slot and ascending by address,
-- with no lun twice, `findlun` leaves them so and answers with the place of the packet's lun; or the
-- packet is an ATA response of no lun that is known, and nothing changes.
pub findlun_lem : (e : San) (a : AoeHdr) → IsSorted e.luns → Found a e (findlun e a)
unfolding findlun
findlun_lem e a s = answer a e (walk a.major a.minor a.src e.luns) refl s

-- In order, what stands further back comes after.
Before-trans : (p q r : Lun) → Before p q → Before q r → Before p r
Before-trans p q r h k = ground (arith, h, k)

chosen : (a b : Lun) → some a ≡ some b → a ≡ b
chosen a b h = ap (λ (o : Option Lun). elim o [ none ↦ a | some x ↦ x ]) h

Before-at :
    (p : Lun) (ps : List Lun) (i : ℕ) (l : Lun)
    → BeforeHead p ps
    → IsSorted ps
    → get_elem? ps i ≡ some l
    → Before p l
Before-at p [] i l b s g = absurd (cc g)
Before-at p (q ∷ qs) zero l b s g = subst (Before p) (chosen q l g) b
Before-at p (q ∷ qs) (suc i) l b s g = Before-trans p q l b (Before-at q qs i l s.0 s.1 g)

passes : (p l : Lun) → Before p l → goes_on l.major l.minor l.ea p ≡ true
unfolding goes_on
passes p l b = ground (arith, b)

stops : (l : Lun) → (goes_on l.major l.minor l.ea l ≡ false) × (is_it l.major l.minor l.ea l ≡ true)
unfolding goes_on
stops l = (ground arith, ground arith)

-- In a list in order, `walk` finds the lun at its place.
pub walk-at :
    (ps : List Lun) (i : ℕ) (l : Lun)
    → IsSorted ps
    → get_elem? ps i ≡ some l
    → walk l.major l.minor l.ea ps ≡ (i, true)
unfolding walk
walk-at [] i l s g = absurd (cc g)
walk-at (p ∷ ps) zero l s g =
    subst (λ q. walk l.major l.minor l.ea (q ∷ ps) ≡ (0, true)) (sym (chosen p l g))
      (rw (walk, (stops l).0, (stops l).1) refl)
walk-at (p ∷ ps) (suc i) l s g =
    rw (passes p l (Before-at p ps i l s.0 s.1 g), walk-at ps i l s.1 g) refl
