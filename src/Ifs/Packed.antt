-- ===== src/Ifs/Packed.antt =====
-- The shape of an interface table: entries in use first, no interface twice.
use aoe.Prelude.{
  ℕ, zero, suc, ◌+◌, ◌≤◌, ◌<◌, ◌≡◌, refl, some, List, [], ◌∷◌, arith, length, All, get_or,
  if◌then◌else◌, true, false,
}
use aoe.Types.{AoeIf, zero_if}
use aoe.Ifs.{is_null, same}

-- The entries in use before the first that is not.
abbrev pub in_use : List AoeIf → ℕ
in_use [] = 0
in_use (p ∷ ps) = if is_null p.nd then 0 else suc (in_use ps)

abbrev pub IsUnused : AoeIf → Type 0
IsUnused p = is_null p.nd ≡ true

-- No entry behind an unused one is in use.
abbrev pub IsPacked : List AoeIf → Type 0
IsPacked [] = Unit
IsPacked (p ∷ ps) = (IsUnused p → All IsUnused ps) × IsPacked ps

-- How many entries hold the interface.
abbrev pub occurs : ℕ → List AoeIf → ℕ
occurs d [] = 0
occurs d (p ∷ ps) = (if same p.nd (some d) then 1 else 0) + occurs d ps

-- No two entries hold the same interface.
abbrev pub IsDistinct : List AoeIf → Type 0
IsDistinct ps = (d : ℕ) → occurs d ps ≤ 1

pub in_use-le-length : (ps : List AoeIf) → in_use ps ≤ length ps
in_use-le-length [] = omega arith
in_use-le-length (p ∷ ps) = ground (arith, in_use-le-length ps)

pub in_use_of_unused : (ps : List AoeIf) → All IsUnused ps → in_use ps ≡ 0
in_use_of_unused [] h = refl
in_use_of_unused (p ∷ ps) h = ground arith

pub occurs_of_unused : (d : ℕ) (ps : List AoeIf) → All IsUnused ps → occurs d ps ≡ 0
occurs_of_unused d [] h = refl
occurs_of_unused d (p ∷ ps) h = ground (arith, occurs_of_unused d ps)

pub get_or-in_use :
    (ps : List AoeIf) (i : ℕ) → i < in_use ps → is_null (get_or ps i zero_if).nd ≡ false
get_or-in_use [] i h = absurd (omega arith)
get_or-in_use (p ∷ ps) zero h = ground arith
get_or-in_use (p ∷ ps) (suc i) h = ground (arith, get_or-in_use ps i)

pub get_or-unused :
    (ps : List AoeIf) (i : ℕ) → All IsUnused ps → is_null (get_or ps i zero_if).nd ≡ true
get_or-unused [] i h = refl
get_or-unused (p ∷ ps) zero h = h.0
get_or-unused (p ∷ ps) (suc i) h = get_or-unused ps i h.1

pub get_or-not_in_use :
    (ps : List AoeIf) (i : ℕ)
    → IsPacked ps
    → in_use ps ≤ i
    → is_null (get_or ps i zero_if).nd ≡ true
get_or-not_in_use [] i k h = refl
get_or-not_in_use (p ∷ ps) zero k h = ground arith
get_or-not_in_use (p ∷ ps) (suc i) k h =
    ground (arith, get_or-not_in_use ps i k.1, get_or-unused ps i)
