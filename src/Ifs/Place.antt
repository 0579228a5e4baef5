-- ===== src/Ifs/Place.antt =====
-- The loop of `setifbcnt` against what it is for: one entry for the interface, and the least byte
-- count of the interfaces in use.
use aoe.Prelude.{
  ℕ, ◌≤◌, ◌≡◌, Option, some, none, List, [], ◌∷◌, arith, length, ltb, ◌==◌, ◌&&◌, if◌then◌else◌,
  min, refl, Option-cases, inl, inr, All, Bool, true, false, not, Bool-cases,
}
use aoe.Types.{AoeIf}
use aoe.Ifs.{place, same, is_null, cons_fst}
use aoe.Ifs.Packed.{in_use, IsUnused, IsPacked, occurs, occurs_of_unused, in_use-le-length}

-- The least byte count among `m` and the entries in use.
abbrev pub least_in_use : ℕ → List AoeIf → ℕ
least_in_use m [] = m
least_in_use m (p ∷ ps) = if is_null p.nd then m else least_in_use (min m p.bcnt) ps

abbrev pub is_failed : Option (List AoeIf × ℕ) → Bool
is_failed none = true
is_failed (some r) = false

-- The table and the byte count that a call returns; what stands for them where it fails.
abbrev pub table_of : List AoeIf → Option (List AoeIf × ℕ) → List AoeIf
table_of ps none = ps
table_of ps (some (qs, least)) = qs

abbrev pub least_of : ℕ → Option (List AoeIf × ℕ) → ℕ
least_of m none = m
least_of m (some (qs, least)) = least

place-length :
    (ps : List AoeIf) (nd : Option ℕ) (bcnt m : ℕ)
    → length (table_of ps (place ps nd bcnt m)) ≡ length ps
unfolding place
place-length [] none bcnt m = refl
place-length [] (some nd) bcnt m = refl
place-length (p ∷ ps) nd bcnt m = ground (
  arith,
  place-length ps none bcnt m,
  place-length ps nd bcnt (if ltb p.bcnt m then p.bcnt else m),
)

abbrev IsLeast : ℕ → Option (List AoeIf × ℕ) → Type 0
IsLeast m r = least_of m r ≡ least_in_use m (table_of [] r)

cons_fst-IsLeast :
    (p : AoeIf) (m m' : ℕ) (r : Option (List AoeIf × ℕ))
    → is_null p.nd ≡ false
    → m' ≡ min m p.bcnt
    → IsLeast m' r
    → IsLeast m (cons_fst p r)
cons_fst-IsLeast p m m' none u e h = refl
cons_fst-IsLeast p m m' (some (qs, least)) u e h = rw u (rw (← e) h)

least_of_unused : (m : ℕ) (ps : List AoeIf) → All IsUnused ps → least_in_use m ps ≡ m
least_of_unused m [] h = refl
least_of_unused m (p ∷ ps) h = ground arith

place-IsLeast :
    (ps : List AoeIf) (nd : Option ℕ) (bcnt m : ℕ)
    → IsPacked ps
    → m ≤ bcnt
    → IsLeast m (place ps nd bcnt m)
unfolding place
place-IsLeast [] none bcnt m k h = refl
place-IsLeast [] (some nd) bcnt m k h = refl
place-IsLeast (p ∷ ps) nd bcnt m k h = elim (Option-cases p.nd) [
  | inl e ↦ unused nd e
  | inr (q, e) ↦ elim (Bool-cases (same (some q) nd)) [
    | inl s ↦
        rw (e, place)
          (rw s (
            cons_fst-IsLeast (record p { bcnt = bcnt }) m m (place ps none bcnt m) (rw e)
              (omega arith) (place-IsLeast ps none bcnt m k.1 h)))
    | inr s ↦
        rw (e, place)
          (rw s (
            cons_fst-IsLeast p m _ (place ps nd bcnt _) (rw e) (ground arith)
              (place-IsLeast ps nd bcnt (if ltb p.bcnt m then p.bcnt else m) k.1 (ground arith))))
  ]
]
  where
    unused : (nd : Option ℕ) → p.nd ≡ none → IsLeast m (place (p ∷ ps) nd bcnt m)
    unused none e = rw (e, place) (rw e)
    unused (some d) e = rw (e, place) (ground (arith, least_of_unused (min m bcnt) ps))

place-occurs :
    (d : ℕ) (ps : List AoeIf) (nd : Option ℕ) (bcnt m : ℕ)
    → IsPacked ps
    → occurs d (table_of ps (place ps nd bcnt m)) ≡ (
        if same (some d) nd && (occurs d ps == 0) && not (is_failed (place ps nd bcnt m))
        then 1
        else occurs d ps)
unfolding place
place-occurs d [] none bcnt m k = refl
place-occurs d [] (some nd) bcnt m k = ground arith
place-occurs d (p ∷ ps) nd bcnt m k = ground (
  arith,
  occurs_of_unused d ps,
  place-occurs d ps none bcnt m k.1,
  place-occurs d ps nd bcnt (if ltb p.bcnt m then p.bcnt else m) k.1,
)

place-IsPacked :
    (ps : List AoeIf) (nd : Option ℕ) (bcnt m : ℕ)
    → IsPacked ps
    → IsPacked (table_of ps (place ps nd bcnt m))
unfolding place
place-IsPacked [] none bcnt m k = tt
place-IsPacked [] (some nd) bcnt m k = tt
place-IsPacked (p ∷ ps) nd bcnt m k = ground (
  arith,
  place-IsPacked ps none bcnt m k.1,
  place-IsPacked ps nd bcnt (if ltb p.bcnt m then p.bcnt else m) k.1,
)

place-none : (ps : List AoeIf) (bcnt m : ℕ) → is_failed (place ps none bcnt m) ≡ false
unfolding place
place-none [] bcnt m = refl
place-none (p ∷ ps) bcnt m = ground (arith, place-none ps bcnt (if ltb p.bcnt m then p.bcnt else m))

place-fails :
    (ps : List AoeIf) (d bcnt m : ℕ)
    → is_failed (place ps (some d) bcnt m) ≡ ((in_use ps == length ps) && (occurs d ps == 0))
unfolding place
place-fails [] d bcnt m = refl
place-fails (p ∷ ps) d bcnt m = ground (
  arith,
  place-none ps bcnt m,
  in_use-le-length ps,
  place-fails ps d bcnt (if ltb p.bcnt m then p.bcnt else m),
)

-- `setifbcnt` at a packed table fails exactly when every entry is in use and none holds the
-- interface, and then the table stays. Otherwise the table stays packed and keeps its length, the
-- interface is held (once, where it was not held before), every other is held as often as before,
-- and the target's byte count is the least of those in use, the new one among them.
pub place_lem :
    (ps : List AoeIf) (nd bcnt d : ℕ)
    → IsPacked ps
    → let r = place ps (some nd) bcnt bcnt in
      (is_failed r ≡ ((in_use ps == length ps) && (occurs nd ps == 0)))
      × (length (table_of ps r) ≡ length ps)
      × IsPacked (table_of ps r)
      × (occurs d (table_of ps r) ≡ (
          if same (some d) (some nd) && (occurs d ps == 0) && not (is_failed r)
          then 1
          else occurs d ps))
      × (least_of bcnt r ≡ least_in_use bcnt (table_of [] r))
place_lem ps nd bcnt d k = (
  place-fails ps nd bcnt bcnt,
  place-length ps (some nd) bcnt bcnt,
  place-IsPacked ps (some nd) bcnt bcnt k,
  place-occurs d ps (some nd) bcnt bcnt k,
  place-IsLeast ps (some nd) bcnt bcnt k (omega arith),
)
