-- ===== src/Tools/Config/Words.antt =====
-- The words of aoecfg.c: `xlatecmd`.
use aoe.Prelude.{
  ℕ, ◌≡◌, ◌↔◌, ◌⊎◌, inl, inr, refl, sym, true, some, List, [], ◌∷◌, arith, Bool-cases, ltb,
  if◌then◌else◌,
}
use aoe.Tools.Report.{Cmp, below, above, strcmp}
use aoe.Tools.Smart.{is_zero, is_equal}
use aoe.Tools.Config.{tab, xlate, xlatecmd}

-- A table has the row.
abbrev pub HasRow : List ℕ → ℕ → List (List ℕ × ℕ) → Type 0
HasRow s c [] = ⊥
HasRow s c ((t, d) ∷ ts) = ((t ≡ s) × (d ≡ c)) ⊎ HasRow s c ts

heads :
    (a b : ℕ) (d : Cmp)
    → is_zero (if ltb a b then below else if ltb b a then above else d) ≡ true
    → (a ≡ b) × (is_zero d ≡ true)
heads a b d h = elim (Bool-cases (ltb a b)) [
  | inl y ↦ absurd (cc (rw y at h))
  | inr n ↦ elim (Bool-cases (ltb b a)) [
    | inl y ↦ absurd (cc (rw (n, y) at h))
    | inr m ↦ (ground (arith, n, m), rw (n, m) at h)
  ]
]

is_equal_lem : (s t : List ℕ) → is_equal s t ≡ true → s ≡ t
unfolding strcmp
is_equal_lem [] [] h = refl
is_equal_lem [] (b ∷ t) h = absurd (cc h)
is_equal_lem (a ∷ s) [] h = absurd (cc h)
is_equal_lem (a ∷ s) (b ∷ t) h =
    let e = heads a b (strcmp s t) h in rw (e.0, is_equal_lem s t e.1) refl

xlate-HasRow : (ts : List (List ℕ × ℕ)) (s : List ℕ) (c : ℕ) → xlate ts s ≡ some c → HasRow s c ts
unfolding xlate
xlate-HasRow [] s c h = absurd (cc h)
xlate-HasRow ((t, d) ∷ ts) s c h = elim (Bool-cases (is_equal t s)) [
  | inl y ↦ inl (is_equal_lem t s y, cc (rw y at h))
  | inr n ↦ inr (xlate-HasRow ts s c (rw n at h))
]

HasRow-xlatecmd : (s : List ℕ) (c : ℕ) → HasRow s c tab → xlatecmd s ≡ some c
unfolding xlatecmd strcmp
HasRow-xlatecmd s c (inl r) = rw (sym r.0, sym r.1) refl
HasRow-xlatecmd s c (inr (inl r)) = rw (sym r.0, sym r.1) refl
HasRow-xlatecmd s c (inr (inr (inl r))) = rw (sym r.0, sym r.1) refl
HasRow-xlatecmd s c (inr (inr (inr (inl r)))) = rw (sym r.0, sym r.1) refl
HasRow-xlatecmd s c (inr (inr (inr (inr (inl r))))) = rw (sym r.0, sym r.1) refl
HasRow-xlatecmd s c (inr (inr (inr (inr (inr r))))) = absurd r

-- A word is translated exactly where it is one of the table's, to its command.
pub xlatecmd_lem : (s : List ℕ) (c : ℕ) → (xlatecmd s ≡ some c) ↔ HasRow s c tab
unfolding xlatecmd
xlatecmd_lem s c = (xlate-HasRow tab s c, HasRow-xlatecmd s c)
