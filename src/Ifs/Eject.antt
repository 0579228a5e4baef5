-- ===== src/Ifs/Eject.antt =====
-- `ejectif` takes out one interface and keeps the table packed.
use aoe.Prelude.{
  ℕ, zero, suc, ◌+◌, ◌<◌, ◌≡◌, some, List, [], ◌∷◌, arith, length, All, get_or, if◌then◌else◌, refl,
}
use aoe.Types.{AoeIf, zero_if}
use aoe.Ifs.{ejectif, same}
use aoe.Ifs.Packed.{in_use, IsUnused, IsPacked, occurs}

length-ejectif : (ps : List AoeIf) (i : ℕ) → length (ejectif ps i) ≡ length ps
unfolding ejectif
length-ejectif [] i = refl
length-ejectif (p ∷ []) zero = refl
length-ejectif (p ∷ []) (suc i) = refl
length-ejectif (p ∷ q ∷ ps) zero = omega (arith, length-ejectif (q ∷ ps) zero)
length-ejectif (p ∷ q ∷ ps) (suc i) = omega (arith, length-ejectif (q ∷ ps) i)

IsUnused-ejectif : (ps : List AoeIf) (i : ℕ) → All IsUnused ps → All IsUnused (ejectif ps i)
unfolding ejectif
IsUnused-ejectif [] i h = tt
IsUnused-ejectif (p ∷ []) zero h = (refl, tt)
IsUnused-ejectif (p ∷ []) (suc i) h = h
IsUnused-ejectif (p ∷ q ∷ ps) zero h = (h.1.0, IsUnused-ejectif (q ∷ ps) zero h.1)
IsUnused-ejectif (p ∷ q ∷ ps) (suc i) h = (h.0, IsUnused-ejectif (q ∷ ps) i h.1)

ejectif-IsPacked : (ps : List AoeIf) (i : ℕ) → IsPacked ps → IsPacked (ejectif ps i)
unfolding ejectif
ejectif-IsPacked [] i k = tt
ejectif-IsPacked (p ∷ []) zero k = (λ _. tt, tt)
ejectif-IsPacked (p ∷ []) (suc i) k = k
ejectif-IsPacked (p ∷ q ∷ ps) zero k =
    (λ u. IsUnused-ejectif (q ∷ ps) zero (u, k.1.0 u), ejectif-IsPacked (q ∷ ps) zero k.1)
ejectif-IsPacked (p ∷ q ∷ ps) (suc i) k =
    (λ u. IsUnused-ejectif (q ∷ ps) i (k.0 u), ejectif-IsPacked (q ∷ ps) i k.1)

occurs-ejectif :
    (d : ℕ) (ps : List AoeIf) (i : ℕ)
    → i < length ps
    → occurs d ps
      ≡ occurs d (ejectif ps i) + (if same (get_or ps i zero_if).nd (some d) then 1 else 0)
unfolding ejectif
occurs-ejectif d [] i h = absurd (omega arith)
occurs-ejectif d (p ∷ []) zero h = ground arith
occurs-ejectif d (p ∷ []) (suc i) h = absurd (omega arith)
occurs-ejectif d (p ∷ q ∷ ps) zero h = omega (arith, occurs-ejectif d (q ∷ ps) zero (omega arith))
occurs-ejectif d (p ∷ q ∷ ps) (suc i) h = omega (arith, occurs-ejectif d (q ∷ ps) i (omega arith))

in_use-ejectif : (ps : List AoeIf) (i : ℕ) → i < in_use ps → in_use ps ≡ suc (in_use (ejectif ps i))
unfolding ejectif
in_use-ejectif [] i h = absurd (omega arith)
in_use-ejectif (p ∷ []) zero h = ground arith
in_use-ejectif (p ∷ []) (suc i) h = ground arith
in_use-ejectif (p ∷ q ∷ ps) zero h = ground (arith, in_use-ejectif (q ∷ ps) zero)
in_use-ejectif (p ∷ q ∷ ps) (suc i) h = ground (arith, in_use-ejectif (q ∷ ps) i)

-- Ejecting an interface in use keeps the table's length and shape, leaves one entry less in use,
-- and takes out that interface: every other is held as often as before.
pub ejectif_lem :
    (ps : List AoeIf) (i d : ℕ)
    → IsPacked ps
    → i < in_use ps
    → i < length ps
    → IsPacked (ejectif ps i)
      × (length (ejectif ps i) ≡ length ps)
      × (in_use ps ≡ suc (in_use (ejectif ps i)))
      × (occurs d ps
          ≡ occurs d (ejectif ps i) + (if same (get_or ps i zero_if).nd (some d) then 1 else 0))
ejectif_lem ps i d k h l =
    (ejectif-IsPacked ps i k, length-ejectif ps i, in_use-ejectif ps i h, occurs-ejectif d ps i l)
