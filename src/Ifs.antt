-- ===== src/Ifs.antt =====
-- A target's table of local interfaces, aoecmd.c: `ifrotate`, `getif`, `ejectif` and the loop of
-- `setifbcnt`. The table has NAOEIFS entries, and those in use stand at its front.
pub mod Packed
pub mod Place
pub mod Rotate
pub mod Eject
use aoe.Prelude.{
  ℕ, zero, suc, ◌+◌, Bool, true, false, Option, none, some, List, [], ◌∷◌, ltb, leb, ◌==◌, ◌||◌,
  if◌then◌else◌, get_or,
}
use aoe.Types.{AoeIf, AoeTgt, naoeifs, zero_if}

-- Equality of pointers that may be NULL.
abbrev pub same : Option ℕ → Option ℕ → Bool
same none none = true
same none (some b) = false
same (some a) none = false
same (some a) (some b) = a == b

abbrev pub is_null : Option ℕ → Bool
is_null none = true
is_null (some a) = false

-- `none` is the NULL that `ifrotate` returns; `t->ifp` is then as it was.
unfoldable pub ifrotate : AoeTgt → Option AoeTgt
ifrotate t =
    let next = t.ifp + 1 in
    let i : ℕ = if leb naoeifs next || is_null (get_or t.ifs next zero_if).nd then 0 else next in
    if is_null (get_or t.ifs i zero_if).nd then none else some (record t { ifp = i })

-- The place of the first entry with the interface.
pub getif_from : List AoeIf → Option ℕ → ℕ → Option ℕ
getif_from [] nd i = none
getif_from (p ∷ ps) nd i = if same p.nd nd then some i else getif_from ps nd (i + 1)

unfoldable pub getif : AoeTgt → Option ℕ → Option ℕ
unfolding getif_from
getif t nd = getif_from t.ifs nd 0

-- The `memmove` moves the entries behind `i` down by one; the last keeps its counts, not its
-- interface.
unfoldable pub ejectif : List AoeIf → ℕ → List AoeIf
ejectif [] i = []
ejectif (p ∷ []) zero = record p { nd = none } ∷ []
ejectif (p ∷ q ∷ ps) zero = q ∷ ejectif (q ∷ ps) zero
ejectif (p ∷ ps) (suc i) = p ∷ ejectif ps i

abbrev pub cons_fst : AoeIf → Option (List AoeIf × ℕ) → Option (List AoeIf × ℕ)
cons_fst p none = none
cons_fst p (some (ps, m)) = some (p ∷ ps, m)

-- The loop of `setifbcnt` from an entry on, with `nd` and `minbcnt` as they are there, and what it
-- does behind the loop: `none` is "too many interfaces".
unfoldable pub place : List AoeIf → Option ℕ → ℕ → ℕ → Option (List AoeIf × ℕ)
place [] none bcnt least = some ([], least)
place [] (some nd) bcnt least = none
place (p ∷ ps) nd bcnt least = elim p.nd [
  | none ↦ elim nd [
    | none ↦ some (p ∷ ps, least)
    | some d ↦ some (record p { nd = some d; bcnt = bcnt } ∷ ps, least)
  ]
  | some q ↦
      let updated = cons_fst (record p { bcnt = bcnt }) (place ps none bcnt least) in
      let passed = cons_fst p (place ps nd bcnt (if ltb p.bcnt least then p.bcnt else least)) in
      if same (some q) nd then updated else passed
]
