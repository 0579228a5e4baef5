-- ===== src/Tools/Smart/Lookup.antt =====
-- Which command a text finds: `smartcmd_lookup`.
use aoe.Prelude.{
  ℕ, ◌<◌, ◌≡◌, ◌≢◌, inl, inr, refl, ap, Bool, true, false, Option, none, some, List, [], ◌∷◌, ◌++◌,
  length, Bool-cases, arith, All, ◌==◌, ==_iff, ◌||◌, ◌&&◌, ltb, if◌then◌else◌,
}
use aoe.Flush.{is_same}
use aoe.Flush.Name.{Begins}
use aoe.Tools.Report.{Cmp, below, above, strcmp}
use aoe.Tools.Smart.{Smartcmd, smarts, colon, is_zero, is_equal, lookup_from, smartcmd_lookup}

both : (c q : ℕ) (b : Bool) → 0 < c → (q == c && (q == 0 || b)) ≡ true → (q ≡ c) × (b ≡ true)
both c q true h e = (ground arith, refl)
both c q false h e = ground arith

-- `strncmp` of a name and a text's first characters.
same-Begins :
    (pre name rest : List ℕ)
    → All (λ c. 0 < c) pre
    → is_same (length pre) name (pre ++ rest) ≡ true
    → Begins pre name
same-Begins [] name rest z h = (name, refl)
same-Begins (c ∷ pre) [] rest z h = absurd (let e : (c == 0) ≡ true = h in ground (arith, z.0, e))
same-Begins (c ∷ pre) (q ∷ name) rest z h =
    let e = both c q (is_same (length pre) name (pre ++ rest)) z.0 h in
    let b = same-Begins pre name rest z.1 e.1 in (b.0, rw (e.0, b.1) refl)

Begins-same :
    (pre suf rest : List ℕ)
    → All (λ c. 0 < c) pre
    → is_same (length pre) (pre ++ suf) (pre ++ rest) ≡ true
Begins-same [] suf rest z = refl
Begins-same (c ∷ pre) suf rest z =
    let e : (c == c) ≡ true = (==_iff c c).1 refl in
    let n : (c == 0) ≡ false = ground (arith, z.0) in rw (e, n) (Begins-same pre suf rest z.1)

abbrev NoColon : List ℕ → Type 0
NoColon cs = All (λ c. c ≢ 58) cs

colon_at : (pre rest : List ℕ) → NoColon pre → colon (pre ++ 58 ∷ rest) ≡ some (length pre)
unfolding colon
colon_at [] rest h = refl
colon_at (c ∷ pre) rest h =
    let n : (c == 58) ≡ false = ground (arith, h.0) in rw (n, colon_at pre rest h.1) refl

step :
    (q c : ℕ) (d : Cmp)
    → (q ≡ c → is_zero d ≡ false)
    → is_zero (if ltb q c then below else if ltb c q then above else d) ≡ false
step q c d f = elim (Bool-cases (ltb q c)) [
  | inl y ↦ rw y refl
  | inr n ↦ elim (Bool-cases (ltb c q)) [
    | inl y ↦ rw (n, y) refl
    | inr m ↦ rw (n, m) (f (ground (arith, n, m)))
  ]
]

-- `strcmp` of a name without a colon and a text with one.
differs : (name pre rest : List ℕ) → NoColon name → is_equal name (pre ++ 58 ∷ rest) ≡ false
unfolding strcmp
differs [] [] rest h = refl
differs [] (c ∷ pre) rest h = refl
differs (q ∷ name) [] rest h = step q 58 (strcmp name rest) (λ e. absurd (h.0 e))
differs (q ∷ name) (c ∷ pre) rest h =
    step q c (strcmp name (pre ++ 58 ∷ rest)) (λ e. differs name pre rest h.1)

-- What is found for a text before a colon: the first command whose name begins with it, or none
-- where no name does.
abbrev pub Finds : List ℕ → List Smartcmd → Option Smartcmd → Type 0
Finds pre ss none = All (λ s. ¬ Begins pre s.name) ss
Finds pre ss (some s) =
    (before after : List Smartcmd) × (ss ≡ before ++ s ∷ after)
    × All (λ r. ¬ Begins pre r.name) before
    × Begins pre s.name

Finds-behind :
    (pre : List ℕ) (s : Smartcmd) (ss : List Smartcmd) (o : Option Smartcmd)
    → ¬ Begins pre s.name
    → Finds pre ss o
    → Finds pre (s ∷ ss) o
Finds-behind pre s ss none n h = (n, h)
Finds-behind pre s ss (some r) n h = (s ∷ h.0, h.1, ap (λ w. s ∷ w) h.2, (n, h.3), h.4)

lookup_from-Finds :
    (pre rest : List ℕ) (ss : List Smartcmd)
    → All (λ c. 0 < c) pre
    → NoColon pre
    → All (λ s. NoColon s.name) ss
    → Finds pre ss (lookup_from ss (pre ++ 58 ∷ rest))
unfolding lookup_from
lookup_from-Finds pre rest [] z n a = tt
lookup_from-Finds pre rest (s ∷ ss) z n a =
    elim (Bool-cases (is_same (length pre) s.name (pre ++ 58 ∷ rest))) [
      | inl y ↦
          rw (colon_at pre rest n, y) ([], ss, refl, tt, same-Begins pre s.name (58 ∷ rest) z y)
      | inr k ↦
          rw (colon_at pre rest n, k, differs s.name pre rest a.0)
            (Finds-behind pre s ss (lookup_from ss (pre ++ 58 ∷ rest))
              (λ b. absurd (cc (k, Begins-same pre b.0 (58 ∷ rest) z, b.1)))
              (lookup_from-Finds pre rest ss z n a.1))
    ]

abbrev bare : List ℕ → Bool
bare [] = true
bare (c ∷ cs) = if c == 58 then false else bare cs

bare-NoColon : (cs : List ℕ) → bare cs ≡ true → NoColon cs
bare-NoColon [] h = tt
bare-NoColon (c ∷ cs) h = elim (Bool-cases (c == 58)) [
  | inl y ↦ absurd (cc (rw y at h))
  | inr n ↦ (ground (arith, n), bare-NoColon cs (rw n at h))
]

abbrev all_bare : List Smartcmd → Bool
all_bare [] = true
all_bare (s ∷ ss) = if bare s.name then all_bare ss else false

no_colons : (ss : List Smartcmd) → all_bare ss ≡ true → All (λ s. NoColon s.name) ss
no_colons [] h = tt
no_colons (s ∷ ss) h = elim (Bool-cases (bare s.name)) [
  | inl y ↦ (bare-NoColon s.name y, no_colons ss (rw y at h))
  | inr n ↦ absurd (cc (rw n at h))
]

-- Each SMART command is found by its name, whatever stands behind a colon.
pub smartcmd_lookup-name :
    (rest : List ℕ)
    → All
        (λ s. (smartcmd_lookup s.name ≡ some s) × (smartcmd_lookup (s.name ++ 58 ∷ rest) ≡ some s))
        smarts
unfolding smartcmd_lookup
smartcmd_lookup-name rest = (
  (refl, refl),
  (
    (refl, refl),
    ((refl, refl), ((refl, refl), ((refl, refl), ((refl, refl), ((refl, refl), tt))))),
  ),
)

-- With a colon, a text finds the first command whose name merely begins with what stands before the
-- colon, even with nothing there, and none where no name does.
pub smartcmd_lookup_lem :
    (pre rest : List ℕ)
    → All (λ c. 0 < c) pre
    → All (λ c. c ≢ 58) pre
    → Finds pre smarts (smartcmd_lookup (pre ++ 58 ∷ rest))
unfolding smartcmd_lookup
smartcmd_lookup_lem pre rest z n = lookup_from-Finds pre rest smarts z n (no_colons smarts refl)
