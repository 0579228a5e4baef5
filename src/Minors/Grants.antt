-- ===== src/Minors/Grants.antt =====
-- A minor number that is granted was free, and freeing it undoes the grant.
use aoe.Prelude.{
  ℕ, zero, suc, ◌+◌, ◌*◌, ◌/◌, ◌%◌, ◌<◌, ◌≡◌, refl, ap, sym, Bool, true, false, some, List, [], ◌∷◌,
  arith, leb, length, get_or, set, Bool-cases, inl, inr,
}
use native.Mathlib.Nat.{mul-div_cancel, mul-mod_left}
use aoe.Minors.{FirstZero, Grant, npershelf, minor_get_dyn, minor_get_static, minor_get, minor_free}

-- The bit of the minor was clear, and is set now; no other bit has changed.
pub record Granted (parts : ℕ) (used : List Bool) (sysminor : ℕ) (used' : List Bool) : Type 0 where
  pub inside : sysminor / parts < length used
  pub free : get_or used (sysminor / parts) true ≡ false
  pub taken : used' ≡ set used (sysminor / parts) true
  pub aligned : sysminor % parts ≡ 0

-- What a call may answer: a failure leaves the bitmap.
abbrev pub Outcome : ℕ → List Bool → Grant → Type 0
Outcome parts used (true, minor, used') = Granted parts used minor used'
Outcome parts used (false, minor, used') = used' ≡ used

granted :
    (parts n : ℕ) (used : List Bool)
    → 0 < parts
    → n < length used
    → get_or used n true ≡ false
    → Granted parts used (n * parts) (set used n true)
granted parts n used p l z =
    let quotient : n * parts / parts ≡ n = mul-div_cancel n p in
    record {
      inside = rw quotient l;
      free = rw quotient z;
      taken = rw quotient refl;
      aligned = mul-mod_left n parts;
    }

dyn-Outcome :
    (find : List Bool → ℕ) (parts : ℕ) (used : List Bool)
    → FirstZero find
    → 0 < parts
    → Outcome parts used (minor_get_dyn find parts used)
unfolding minor_get_dyn
dyn-Outcome find parts used z p = elim (Bool-cases (leb (length used) (find used))) [
  | inl y ↦ rw y refl
  | inr n ↦
      let l : find used < length used = ground arith in
      rw n (granted parts (find used) used p l (z.clear used l))
]

static-Outcome :
    (parts : ℕ) (used : List Bool) (before maj min : ℕ)
    → 0 < parts
    → Outcome parts used (minor_get_static parts used before maj min)
unfolding minor_get_static
static-Outcome parts used before maj min p =
    let n = maj * npershelf + min in
    elim (Bool-cases (leb npershelf min)) [
      | inl y ↦ rw y refl
      | inr k ↦ rw k (elim (Bool-cases (leb (length used) n)) [
        | inl y ↦ rw y refl
        | inr l ↦ rw l (elim (Bool-cases (get_or used n true)) [
          | inl y ↦ rw y refl
          | inr z ↦ rw z (granted parts n used p (ground arith) z)
        ])
      ])
    ]

-- `minor_get`, dynamic or static, either fails and leaves the bitmap, or it grants a number that is
-- a multiple of the partitions of a device, whose bit was clear, and sets that bit alone.
pub minor_get_lem :
    (find : List Bool → ℕ) (dyndevs : Bool) (parts : ℕ) (used : List Bool) (before maj min : ℕ)
    → FirstZero find
    → 0 < parts
    → Outcome parts used (minor_get find dyndevs parts used before maj min)
unfolding minor_get
minor_get_lem find true parts used before maj min z p = dyn-Outcome find parts used z p
minor_get_lem find false parts used before maj min z p = static-Outcome parts used before maj min p

-- Dynamic numbers run out only when every bit of the bitmap is set.
pub minor_get_dyn_full :
    (find : List Bool → ℕ) (parts : ℕ) (used : List Bool) (i : ℕ)
    → FirstZero find
    → (minor_get_dyn find parts used).0 ≡ false
    → i < length used
    → get_or used i true ≡ true
unfolding minor_get_dyn
minor_get_dyn_full find parts used i z e l =
    z.below used i (elim (Bool-cases (leb (length used) (find used))) [
      | inl y ↦ ground arith
      | inr n ↦ absurd (ground arith)
    ])

length-set : (used : List Bool) (n : ℕ) (b : Bool) → length (set used n b) ≡ length used
length-set [] n b = refl
length-set (u ∷ us) zero b = refl
length-set (u ∷ us) (suc n) b = ap suc (length-set us n b)

set-undone :
    (used : List Bool) (n : ℕ) → get_or used n true ≡ false → set (set used n true) n false ≡ used
set-undone [] n e = refl
set-undone (u ∷ us) zero e = ap (λ x. x ∷ us) (sym e)
set-undone (u ∷ us) (suc n) e = ap (λ x. u ∷ x) (set-undone us n e)

-- Freeing a number that was granted succeeds and restores the bitmap.
pub minor_free-Granted :
    (parts : ℕ) (used : List Bool) (minor : ℕ) (used' : List Bool)
    → Granted parts used minor used'
    → minor_free parts used' minor ≡ some used
unfolding minor_free
minor_free-Granted parts used minor used' g =
    let n = minor / parts in
    let l : length (set used n true) ≡ length used = length-set used n true in
    let in_range : leb (length (set used n true)) n ≡ false = ground (arith, g.inside) in
    rw g.taken (rw in_range (ap some (set-undone used n g.free)))
