-- ===== src/Flush/Name.antt =====
-- Which devices a name stands for: `user_req`.
use aoe.Prelude.{
  ℕ, zero, suc, ◌-◌, ◌/◌, ◌≤◌, ◌<◌, ◌≡◌, ◌≢◌, ◌↔◌, refl, ap, sym, ◌∙◌, Bool, true, false, none,
  some, List, [], ◌∷◌, ◌++◌, arith, leb, ◌==◌, ◌&&◌, ◌||◌, ==_iff, length, min, All, All-append,
  Bool-cases, inl, inr,
}
use aoe.Types.{AoeDev}
use aoe.Flush.{
  digits, reversed, decimal, disk_name, behind_slash, base_name, is_same, disk_name_len, user_req,
}

-- The disk's name behind the slash.
abbrev pub unit_name : AoeDev → List ℕ
unit_name d = 101 ∷ (decimal d.aoemajor ++ 46 ∷ decimal d.aoeminor)

abbrev NoSlash : ℕ → Type 0
NoSlash c = c ≢ 47

digits-NoSlash : (fuel n : ℕ) → All NoSlash (digits fuel n)
digits-NoSlash zero n = tt
digits-NoSlash (suc fuel) n = elim (Bool-cases (leb n 9)) [
  | inl y ↦ rw y ((λ h. omega (arith, h)), tt)
  | inr k ↦ rw k ((λ h. omega (arith, h)), digits-NoSlash fuel (n / 10))
]

reversed-NoSlash :
    (cs acc : List ℕ) → All NoSlash cs → All NoSlash acc → All NoSlash (reversed cs acc)
reversed-NoSlash [] acc h k = k
reversed-NoSlash (c ∷ cs) acc h k = reversed-NoSlash cs (c ∷ acc) h.1 (h.0, k)

decimal-NoSlash : (n : ℕ) → All NoSlash (decimal n)
decimal-NoSlash n = reversed-NoSlash (digits (suc n) n) [] (digits-NoSlash (suc n) n) tt

unit_name-NoSlash : (d : AoeDev) → All NoSlash (unit_name d)
unit_name-NoSlash d = (
  (λ h. omega (arith, h)),
  All-append NoSlash (decimal d.aoemajor) (46 ∷ decimal d.aoeminor) (decimal-NoSlash d.aoemajor)
      ((λ h. omega (arith, h)), decimal-NoSlash d.aoeminor),
)

no_slash : (cs : List ℕ) → All NoSlash cs → behind_slash cs ≡ none
no_slash [] h = refl
no_slash (c ∷ cs) h = elim (Bool-cases (c == 47)) [
  | inl y ↦ absurd (h.0 ((==_iff c 47).0 y))
  | inr k ↦ rw (no_slash cs h.1, k) refl
]

base_name-disk_name : (d : AoeDev) → base_name (disk_name d) ≡ unit_name d
base_name-disk_name d = rw (base_name, no_slash (unit_name d) (unit_name-NoSlash d)) refl

-- The text is the beginning of the name.
abbrev pub Begins : List ℕ → List ℕ → Type 0
Begins s p = (rest : List ℕ) × (p ≡ s ++ rest)

both : (c q : ℕ) (b : Bool) → 0 < c → (c == q && (c == 0 || b)) ≡ true → (c ≡ q) × (b ≡ true)
both c q true h e = (ground arith, refl)
both c q false h e = ground arith

pub begins : (s p : List ℕ) → All (λ c. 0 < c) s → is_same (length s) s p ≡ true → Begins s p
begins [] p z h = (p, refl)
begins (c ∷ cs) [] z h = absurd (ground (arith, z.0))
begins (c ∷ cs) (q ∷ ps) z h =
    let r = both c q (is_same (length cs) cs ps) z.0 h in
    let b = begins cs ps z.1 r.1 in (b.0, rw (r.0, b.1) refl)

alike : (c : ℕ) (b : Bool) → b ≡ true → (c == c && (c == 0 || b)) ≡ true
alike c true h = ground arith
alike c false h = ground arith

pub same : (s rest : List ℕ) → is_same (length s) s (s ++ rest) ≡ true
same [] rest = refl
same (c ∷ cs) rest = alike c (is_same (length cs) cs (cs ++ rest)) (same cs rest)

compared :
    (s : List ℕ) (d : AoeDev) (n : ℕ)
    → length s ≤ 16
    → d.capacity ≡ some n
    → user_req s d ≡ is_same (length s) s (unit_name d)
unfolding user_req
compared s d n l c =
    let name = base_name-disk_name d in
    let lim : min (length s) (disk_name_len - (length (disk_name d) - length (unit_name d)))
        ≡ length s =
      grind arith in
    rw (c, name, lim) refl

-- A device that has a disk answers to a text of at most 16 characters, none of them a NUL, exactly
-- where its unit's name, "e<shelf>.<slot>", begins with it; so e1.2 stands for e1.20 as well.
pub user_req_lem :
    (s : List ℕ) (d : AoeDev) (n : ℕ)
    → All (λ c. 0 < c) s
    → length s ≤ 16
    → d.capacity ≡ some n
    → (user_req s d ≡ true) ↔ Begins s (unit_name d)
user_req_lem s d n z l c =
    let e = compared s d n l c in
    (
      (λ h. begins s (unit_name d) z (sym e ∙ h)),
      (λ b. e ∙ ap (is_same (length s) s) b.1 ∙ same s b.0),
    )

-- A device without a disk answers to none.
pub user_req-none : (s : List ℕ) (d : AoeDev) → d.capacity ≡ none → user_req s d ≡ false
unfolding user_req
user_req-none s d c = rw c refl
