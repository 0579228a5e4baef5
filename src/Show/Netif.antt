-- ===== src/Show/Netif.antt =====
-- Which interfaces the file `netif` lists: `aoedisk_show_netif`.
use aoe.Prelude.{
  ℕ, ◌≤◌, ◌<◌, ◌≡◌, ◌↔◌, ◌⊎◌, inl, inr, sym, true, false, Option, none, some, List, [], ◌∷◌, arith,
  ◌==◌, ==_iff, Bool-cases, length, length-append, Among, IsDistinct, Among-end, IsDistinct-end,
}
use mathlib.Core.Path.{subst}
use aoe.Types.{AoeDev, AoeTgt, AoeIf}
use aoe.Show.{is_in, noted, note_ifs, note_targets, aoedisk_show_netif}

-- The interface is one of a target's, before the first that is not set.
abbrev SetAt : ℕ → Option ℕ → Type 0 → Type 0
SetAt x none P = ⊥
SetAt x (some nd) P = (x ≡ nd) ⊎ P

abbrev pub HasNd : ℕ → List AoeIf → Type 0
HasNd x [] = ⊥
HasNd x (i ∷ ifs) = SetAt x i.nd (HasNd x ifs)

-- It is one of a target that comes before the first place without one.
abbrev pub IsReached : ℕ → List (Option AoeTgt) → Type 0
IsReached x [] = ⊥
IsReached x (none ∷ ts) = ⊥
IsReached x (some t ∷ ts) = HasNd x t.ifs ⊎ IsReached x ts

is_in-Among : (nd : ℕ) (nds : List ℕ) → is_in nd nds ≡ true → Among nd nds
is_in-Among nd [] h = absurd (cc h)
is_in-Among nd (n ∷ nds) h = elim (Bool-cases (n == nd)) [
  | inl y ↦ inl (sym ((==_iff n nd).0 y))
  | inr k ↦ inr (is_in-Among nd nds (rw k at h))
]

is_in-not : (nd : ℕ) (nds : List ℕ) → is_in nd nds ≡ false → ¬ Among nd nds
is_in-not nd [] h a = a
is_in-not nd (n ∷ nds) h a = elim (Bool-cases (n == nd)) [
  | inl y ↦ absurd (cc (rw y at h))
  | inr k ↦ elim a [
    | inl e ↦ absurd (cc (k, (==_iff n nd).1 (sym e)))
    | inr b ↦ is_in-not nd nds (rw k at h) b
  ]
]

-- From `nds`, the list `ms` is made by interfaces of which `P` tells: no interface twice, at most 8,
-- none but the given ones, and all of them while there is room.
abbrev Made : (ℕ → Type 0) → List ℕ → List ℕ → Type 0
Made P nds ms =
    IsDistinct ms
    × (length ms ≤ 8)
    × (length nds ≤ length ms)
    × ((x : ℕ) → Among x ms → Among x nds ⊎ P x)
    × ((x : ℕ) → Among x nds → Among x ms)
    × (length ms < 8 → (x : ℕ) → P x → Among x ms)

unchanged :
    (P : ℕ → Type 0) (nds : List ℕ)
    → IsDistinct nds
    → length nds ≤ 8
    → ((x : ℕ) → ¬ P x)
    → Made P nds nds
unchanged P nds d l n = (d, l, omega arith, (λ x a. inl a), (λ x a. a), (λ k x p. absurd (n x p)))

-- Two steps.
composed :
    (P Q R : ℕ → Type 0) (nds ms ks : List ℕ)
    → ((x : ℕ) → R x ↔ (P x ⊎ Q x))
    → Made P nds ms
    → Made Q ms ks
    → Made R nds ks
composed P Q R nds ms ks r f g = (
  g.0,
  g.1,
  omega (arith, f.2, g.2),
  (λ x a. elim (g.3 x a) [
    | inl b ↦ elim (f.3 x b) [ inl c ↦ inl c | inr p ↦ inr ((r x).1 (inl p)) ]
    | inr q ↦ inr ((r x).1 (inr q))
  ]),
  (λ x a. g.4 x (f.4 x a)),
  (λ k x p. elim ((r x).0 p) [
    | inl b ↦ g.4 x (f.5 (omega (arith, k, g.2)) x b)
    | inr q ↦ g.5 k x q
  ]),
)

noted-Made :
    (nd : ℕ) (nds : List ℕ)
    → IsDistinct nds
    → length nds ≤ 8
    → Made (λ x. x ≡ nd) nds (noted nd nds)
noted-Made nd nds d l = elim (Bool-cases (is_in nd nds)) [
  | inl y ↦ rw y (
    d,
    l,
    omega arith,
    (λ x a. inl a),
    (λ x a. a),
    (λ k x p. subst (λ z. Among z nds) (sym p) (is_in-Among nd nds y)),
  )
  | inr n ↦ elim (Bool-cases (length nds == 8)) [
    | inl y ↦
        rw (n, y)
          (d, l, omega arith, (λ x a. inl a), (λ x a. a), (λ k x p. absurd (ground (arith, k, y))))
    | inr m ↦
        rw (n, m)
          (
            IsDistinct-end nd nds (is_in-not nd nds n) d,
            ground (arith, l, m, length-append nds (nd ∷ [])),
            omega (arith, length-append nds (nd ∷ [])),
            (λ x. (Among-end x nd nds).0),
            (λ x a. (Among-end x nd nds).1 (inl a)),
            (λ k x p. (Among-end x nd nds).1 (inr p)),
          )
  ]
]

ifs_step :
    (o : Option ℕ) (P : ℕ → Type 0) (nds : List ℕ) (k : List ℕ → List ℕ)
    → IsDistinct nds
    → length nds ≤ 8
    → ((ms : List ℕ) → IsDistinct ms → length ms ≤ 8 → Made P ms (k ms))
    → Made (λ x. SetAt x o (P x)) nds (elim o [ none ↦ nds | some nd ↦ k (noted nd nds) ])
ifs_step none P nds k d l f = unchanged (λ x. ⊥) nds d l (λ x b. b)
ifs_step (some nd) P nds k d l f =
    let m = noted-Made nd nds d l in
    composed (λ x. x ≡ nd) P (λ x. (x ≡ nd) ⊎ P x) nds (noted nd nds) (k (noted nd nds))
      (λ x. ((λ a. a), (λ a. a))) m (f (noted nd nds) m.0 m.1)

note_ifs-Made :
    (ifs : List AoeIf) (nds : List ℕ)
    → IsDistinct nds
    → length nds ≤ 8
    → Made (λ x. HasNd x ifs) nds (note_ifs ifs nds)
unfolding note_ifs
note_ifs-Made [] nds d l = unchanged (λ x. ⊥) nds d l (λ x b. b)
note_ifs-Made (i ∷ ifs) nds d l =
    ifs_step i.nd (λ x. HasNd x ifs) nds (note_ifs ifs) d l (λ ms d' l'. note_ifs-Made ifs ms d' l')

note_targets-Made :
    (ts : List (Option AoeTgt)) (nds : List ℕ)
    → IsDistinct nds
    → length nds ≤ 8
    → Made (λ x. IsReached x ts) nds (note_targets ts nds)
unfolding note_targets
note_targets-Made [] nds d l = unchanged (λ x. ⊥) nds d l (λ x b. b)
note_targets-Made (none ∷ ts) nds d l = unchanged (λ x. ⊥) nds d l (λ x b. b)
note_targets-Made (some t ∷ ts) nds d l =
    let m = note_ifs-Made t.ifs nds d l in
    composed (λ x. HasNd x t.ifs) (λ x. IsReached x ts) (λ x. HasNd x t.ifs ⊎ IsReached x ts) nds
      (note_ifs t.ifs nds) (note_targets ts (note_ifs t.ifs nds)) (λ x. ((λ a. a), (λ a. a))) m
      (note_targets-Made ts (note_ifs t.ifs nds) m.0 m.1)

-- The file `netif` lists no interface twice and at most 8, only interfaces that the device's targets
-- use, and all of those where it lists fewer than 8.
pub show_netif_lem :
    (d : AoeDev)
    → IsDistinct (aoedisk_show_netif d)
      × (length (aoedisk_show_netif d) ≤ 8)
      × ((x : ℕ) → Among x (aoedisk_show_netif d) → IsReached x d.targets)
      × (length (aoedisk_show_netif d) < 8
          → (x : ℕ) → IsReached x d.targets
          → Among x (aoedisk_show_netif d))
unfolding aoedisk_show_netif
show_netif_lem d =
    let m = note_targets-Made d.targets [] tt (omega arith) in
    (m.0, m.1, (λ x a. elim (m.3 x a) [ inl b ↦ absurd b | inr r ↦ r ]), m.5)
