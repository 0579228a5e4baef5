-- ===== src/Show/Whole.antt =====
-- What debugfs reads of a target's interfaces: `aoedisk_debugfs_show`.
use aoe.Prelude.{
  ℕ, ◌+◌, ◌≤◌, ◌<◌, ◌≡◌, ◌≢◌, ◌↔◌, refl, Option, none, some, List, [], ◌∷◌, arith, length, All,
}
use aoe.Types.{AoeIf}
use aoe.Show.{shown_ifs, one_more}

-- All of the array's entries are set.
abbrev pub IsFull : List AoeIf → Type 0
IsFull ifs = All (λ i. i.nd ≢ none) ifs

-- What is said of a loop that looks so far, over the array.
abbrev Looks : List AoeIf → List ℕ × ℕ → Type 0
Looks ifs r =
    ((r.1 ≡ length r.0 + 1) × (length r.0 ≤ length ifs)) × ((length ifs < r.1) ↔ IsFull ifs)

by_nd :
    (i : AoeIf) (ifs : List AoeIf) (o : Option ℕ)
    → i.nd ≡ o
    → Looks ifs (shown_ifs ifs)
    → Looks (i ∷ ifs) (elim o [ none ↦ ([], 1) | some nd ↦ one_more (shown_ifs ifs) nd ])
by_nd i ifs none e r =
    ((refl, omega arith), ((λ h. absurd (omega (arith, h))), (λ f. absurd (f.0 e))))
by_nd i ifs (some nd) e r = (
  (omega (arith, r.0.0), omega (arith, r.0.1)),
  (
    (λ h. ((λ k. absurd (cc (k, e))), r.1.0 (omega (arith, h)))),
    (λ f. let k = r.1.1 f.1 in omega (arith, k)),
  ),
)

-- The loop looks at one entry more than it prints, which is behind the array exactly where all of the
-- array's entries are set.
pub shown_ifs_lem :
    (ifs : List AoeIf)
    → (((shown_ifs ifs).1 ≡ length (shown_ifs ifs).0 + 1) × (length (shown_ifs ifs).0 ≤ length ifs))
      × ((length ifs < (shown_ifs ifs).1) ↔ IsFull ifs)
unfolding shown_ifs
shown_ifs_lem [] = ((refl, omega arith), ((λ h. tt), (λ h. omega arith)))
shown_ifs_lem (i ∷ ifs) = by_nd i ifs i.nd refl (shown_ifs_lem ifs)
