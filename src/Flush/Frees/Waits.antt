-- ===== src/Flush/Frees/Waits.antt =====
-- How long a device that goes waits for its skbs.
use aoe.Prelude.{
  ℕ, zero, suc, ◌+◌, ◌≤◌, ◌<◌, ◌≡◌, Bool, true, false, some, arith, ◌==◌, ==_iff, Bool-cases, inl,
  inr,
}
use mathlib.Core.Path.{subst}
use aoe.Types.{Skb}
use aoe.Flush.Frees.{Fate, no_skb, free_after, leaked, free_loop, skbfree}

-- What a fate says of the answers from the k-th on, with `i` sleeps left.
abbrev Says : ℕ → ℕ → (ℕ → Bool) → Fate → Type 0
Says i k holds no_skb = ⊥
Says i k holds (free_after n) =
    (k ≤ n) × (n ≤ k + i) × (holds n ≡ false) × ((j : ℕ) → k ≤ j → j < n → holds j ≡ true)
Says i k holds leaked = (j : ℕ) → k ≤ j → j ≤ k + i → holds j ≡ true

-- All from the k-th on, by the k-th and those behind it.
from :
    (k j : ℕ) (holds : ℕ → Bool)
    → holds k ≡ true
    → (suc k ≤ j → holds j ≡ true)
    → k ≤ j
    → holds j ≡ true
from k j holds h f l = elim (Bool-cases (k == j)) [
  | inl y ↦ subst (λ n. holds n ≡ true) ((==_iff k j).0 y) h
  | inr n ↦ f (ground (arith, l, n))
]

further :
    (i k : ℕ) (holds : ℕ → Bool) (r : Fate)
    → holds k ≡ true
    → Says i (suc k) holds r
    → Says (suc i) k holds r
further i k holds no_skb h s = s
further i k holds (free_after n) h s =
    (omega (arith, s.0), omega (arith, s.1), s.2, (λ j l m. from k j holds h (λ l'. s.3 j l' m) l))
further i k holds leaked h s = λ j l m. from k j holds h (λ l'. s j l' (omega (arith, m))) l

free_loop-Says : (i k : ℕ) (holds : ℕ → Bool) → Says i k holds (free_loop i k holds)
unfolding free_loop
free_loop-Says zero k holds = elim (Bool-cases (holds k)) [
  | inl y ↦ rw y (λ j l m. from k j holds y (λ l'. absurd (omega (arith, l', m))) l)
  | inr n ↦ rw n (omega arith, omega arith, n, (λ j l m. absurd (omega (arith, l, m))))
]
free_loop-Says (suc i) k holds = elim (Bool-cases (holds k)) [
  | inl y ↦ rw y (further i k holds (free_loop i (suc k) holds) y (free_loop-Says i (suc k) holds))
  | inr n ↦ rw n (omega arith, omega arith, n, (λ j l m. absurd (omega (arith, l, m))))
]

-- What becomes of an skb.
abbrev pub Waited : (ℕ → Bool) → Fate → Type 0
Waited holds no_skb = ⊥
Waited holds (free_after n) = (n ≤ 120) × (holds n ≡ false) × ((j : ℕ) → j < n → holds j ≡ true)
Waited holds leaked = (j : ℕ) → j ≤ 120 → holds j ≡ true

of_says : (holds : ℕ → Bool) (r : Fate) → Says 120 0 holds r → Waited holds r
of_says holds no_skb s = s
of_says holds (free_after n) s = (s.1, s.2, (λ j m. s.3 j (omega arith) m))
of_says holds leaked s = λ j m. s j (omega arith) m

-- `skbfree` frees an skb as soon as the network layer no longer holds its data, and leaks it only
-- where the network layer holds it at all of 121 looks, which are 30 seconds.
pub skbfree_lem : (s : Skb) (holds : ℕ → Bool) → Waited holds (skbfree (some s) holds)
unfolding skbfree
skbfree_lem s holds = of_says holds (free_loop 120 0 holds) (free_loop-Says 120 0 holds)
