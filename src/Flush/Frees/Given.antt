-- ===== src/Flush/Frees/Given.antt =====
-- Which interfaces a target gives back: `freetgt`.
use aoe.Prelude.{ℕ, ◌≡◌, refl, Bool, false, Option, none, some, List, [], ◌∷◌, ◌==◌, count, ap}
use aoe.Types.{AoeIf, AoeTgt}
use aoe.Ifs.{is_null, same}
use aoe.Ifs.Packed.{IsPacked, IsUnused, occurs, occurs_of_unused}
use aoe.Flush.Frees.{put_ifs, freetgt}

by_nd :
    (o : Option ℕ) (i : AoeIf) (ifs : List AoeIf) (d : ℕ)
    → i.nd ≡ o
    → IsPacked (i ∷ ifs)
    → count (λ x. x == d) (put_ifs ifs) ≡ occurs d ifs
    → count (λ x. x == d) (elim o [ none ↦ [] | some nd ↦ nd ∷ put_ifs ifs ]) ≡ occurs d (i ∷ ifs)
by_nd none i ifs d e p r =
    let u : IsUnused i = ap is_null e in
    let z : same i.nd (some d) ≡ false = ap (λ o. same o (some d)) e in
    rw (z, occurs_of_unused d ifs (p.0 u)) refl
by_nd (some nd) i ifs d e p r =
    let z : same i.nd (some d) ≡ (nd == d) = ap (λ o. same o (some d)) e in rw (z, r) refl

put_ifs-occurs :
    (ifs : List AoeIf) (d : ℕ) → IsPacked ifs → count (λ x. x == d) (put_ifs ifs) ≡ occurs d ifs
unfolding put_ifs
put_ifs-occurs [] d p = refl
put_ifs-occurs (i ∷ ifs) d p = by_nd i.nd i ifs d refl p (put_ifs-occurs ifs d p.1)

-- A target whose interfaces stand at the front of its table gives back as many references to each
-- interface as its table has entries for it.
pub freetgt_lem :
    (holds : ℕ → ℕ → Bool) (t : AoeTgt) (d : ℕ)
    → IsPacked t.ifs
    → count (λ x. x == d) (freetgt holds t).0 ≡ occurs d t.ifs
unfolding freetgt
freetgt_lem holds t d p = put_ifs-occurs t.ifs d p
