-- ===== src/Io/Loop/Bounds.antt =====
-- How a round of a completion thread ends: `ktio`.
use aoe.Prelude.{
  ℕ, zero, suc, ◌+◌, ◌≤◌, ◌<◌, ◌≡◌, ◌⊎◌, inl, inr, refl, Bool, true, false, Option, none, some,
  List, [], ◌∷◌, ◌++◌, ◌&&◌, not, if◌then◌else◌, Bool-cases, arith,
}
use aoe.Types.{Frame, Env}
use aoe.Send.Account.{IsBalanced}
use aoe.Io.Account.{ktiocomplete-Balanced}
use aoe.Io.Loop.{
  Thread, Load, Result, at_limit, remain, done, bug, complete_one, spawned, is_active, ktio_loop,
  ktio,
}

-- The round has ended without `BUG_ON`: with an empty list, or with the limit of a round reached;
-- and the device's account is kept.
abbrev pub Ends : Load → Option Result → Type 0
Ends l none = ⊥
Ends l (some (bug, q, k)) = ⊥
Ends l (some (done, q, k)) = (q ≡ []) × IsBalanced k.state
Ends l (some (remain, q, k)) = (0 < l.aoe_maxioc) × IsBalanced k.state

spawned-Balanced :
    (l : Load) (i : ℕ) (k : Thread) → IsBalanced k.state → IsBalanced (spawned l i k).state
spawned-Balanced l i k b = elim (Bool-cases (not (is_active l k) && l.starts i)) [
  | inl y ↦ rw y b
  | inr n ↦ rw n b
]

turned-Balanced :
    (e : Env) (l : Load) (i : ℕ) (f : Frame) (k : Thread)
    → IsBalanced k.state
    → IsBalanced (spawned l i (complete_one e f k)).state
unfolding complete_one
turned-Balanced e l i f k b =
    spawned-Balanced l i (complete_one e f k) (ktiocomplete-Balanced e f k.state b)

-- The first thread may start others.
no_bug :
    (b : Bool) (l : Load) (o o' : Option Result) → Ends l o → Ends l (if b && false then o' else o)
no_bug true l o o' h = h
no_bug false l o o' h = h

below_limit : (l : Load) (i : ℕ) → at_limit l i ≡ true → 0 < l.aoe_maxioc
below_limit l i h = ground (arith, h)

over_limit : (l : Load) (i : ℕ) → at_limit l i ≡ false → (l.aoe_maxioc ≡ 0) ⊎ (i < l.aoe_maxioc)
over_limit l i h = ground (arith, h)

-- With a limit, and with as much fuel as turns are left.
loop_limited :
    (fuel : ℕ) (e : Env) (l : Load) (i : ℕ) (q : List Frame) (k : Thread)
    → 0 < l.aoe_maxioc
    → l.aoe_maxioc < fuel + i
    → i ≤ l.aoe_maxioc
    → IsBalanced k.state
    → Ends l (ktio_loop fuel e l 0 i q k)
unfolding ktio_loop
loop_limited zero e l i q k z h m b = absurd (omega (arith, h, m))
loop_limited (suc fuel) e l i [] k z h m b = elim (Bool-cases (at_limit l i)) [
  | inl y ↦ rw y (z, b)
  | inr n ↦ rw n (refl, b)
]
loop_limited (suc fuel) e l i (f ∷ q) k z h m b = elim (Bool-cases (at_limit l i)) [
  | inl y ↦ rw y (z, b)
  | inr n ↦ rw n (
      no_bug (not (is_active l (complete_one e f k))) l
        (ktio_loop fuel e l 0 (suc i) (q ++ l.arrive i) (spawned l i (complete_one e f k)))
        (some (bug, q, complete_one e f k))
        (loop_limited fuel e l (suc i) (q ++ l.arrive i) (spawned l i (complete_one e f k)) z
          (omega (arith, h))
          (elim (over_limit l i n) [
            | inl y ↦ absurd (omega (arith, y, z))
            | inr y ↦ omega (arith, y)
          ])
          (turned-Balanced e l i f k b)))
]

-- With a limit on the frames of a round, a round of the first thread ends after that many at most,
-- however many come meanwhile; where it says that none remain, its list is empty. It never meets
-- `BUG_ON`, and it keeps the account of outstanding commands.
pub ktio_lem :
    (e : Env) (l : Load) (q : List Frame) (k : Thread)
    → 0 < l.aoe_maxioc
    → IsBalanced k.state
    → Ends l (ktio l.aoe_maxioc e l 0 q k)
unfolding ktio
ktio_lem e l q k z b = loop_limited (suc l.aoe_maxioc) e l 0 q k z (omega arith) (omega arith) b
