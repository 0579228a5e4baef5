-- ===== src/Frames/Home.antt =====
-- A target's free frames are its own, and a frame that `newframe` gives is of a target with room.
use aoe.Prelude.{
  ℕ, zero, suc, ◌+◌, ◌*◌, ◌≡◌, refl, sym, Bool, true, false, Option, none, some, List, [], ◌∷◌,
  arith, All, leb, ltb, if◌then◌else◌, Bool-cases, inl, inr,
}
use mathlib.Core.Path.{subst}
use aoe.Types.{AoeTgt, Frame, Skb, State, Kern, Env, next_alloc, nskbpoolmax}
use aoe.Targets.{Slots, at_slot}
use aoe.Frames.{
  on_target, aoe_freetframe, newtframe, new_skb, count_skb, grow_skb_pool, get_from_pool,
  skb_pool_get, skb_pool_put, fresh_frame, frame_for, trimmed, swap_skb, with_idle_skb, first_skb,
  any_skb, with_skb,
}

abbrev pub IsOf : ℕ → Frame → Type 0
IsOf i f = f.t ≡ i

-- Every free frame of slot `n` and those behind it is of its slot.
abbrev pub HomedFrom : ℕ → Slots → Type 0
HomedFrom n [] = Unit
HomedFrom n (none ∷ ts) = HomedFrom (suc n) ts
HomedFrom n (some t ∷ ts) = All (IsOf n) t.ffree × HomedFrom (suc n) ts

abbrev pub IsHomed : State → Type 0
IsHomed s = HomedFrom 0 s.dev.targets

at_slot-HomedFrom :
    (g : AoeTgt → AoeTgt) (n i k : ℕ) (ts : Slots)
    → k ≡ n + i
    → ((t : AoeTgt) → All (IsOf k) t.ffree → All (IsOf k) (g t).ffree)
    → HomedFrom n ts
    → HomedFrom n (at_slot g ts i)
at_slot-HomedFrom g n i k [] e h w = tt
at_slot-HomedFrom g n zero k (none ∷ ts) e h w = w
at_slot-HomedFrom g n zero k (some t ∷ ts) e h w =
    let same : k ≡ n = omega arith in
    (
      subst (λ m. All (IsOf m) (g t).ffree) same
          (h t (subst (λ m. All (IsOf m) t.ffree) (sym same) w.0)),
      w.1,
    )
at_slot-HomedFrom g n (suc i) k (none ∷ ts) e h w =
    at_slot-HomedFrom g (suc n) i k ts (omega arith) h w
at_slot-HomedFrom g n (suc i) k (some t ∷ ts) e h w =
    (w.0, at_slot-HomedFrom g (suc n) i k ts (omega arith) h w.1)

pub on_target-IsHomed :
    (g : AoeTgt → AoeTgt) (i : ℕ) (s : State)
    → ((t : AoeTgt) → All (IsOf i) t.ffree → All (IsOf i) (g t).ffree)
    → IsHomed s
    → IsHomed (on_target g i s)
on_target-IsHomed g i s h w = at_slot-HomedFrom g 0 i i s.dev.targets (omega arith) h w

pub freetframe-IsHomed : (f : Frame) (s : State) → IsHomed s → IsHomed (aoe_freetframe f s)
unfolding aoe_freetframe
freetframe-IsHomed f s w = on_target-IsHomed _ f.t s (λ t a. (refl, a)) w

-- The skb pool is none of the targets' concern.
abbrev Still : State → State → Type 0
Still s s' = s'.dev.targets ≡ s.dev.targets

Still-count_skb : (r : Option Skb × Kern) (s : State) → Still s (count_skb r s).1
unfolding count_skb
Still-count_skb (none, k) s = refl
Still-count_skb (some skb, k) s = refl

Still-grow : (s : State) → Still s (grow_skb_pool s).1
unfolding grow_skb_pool
Still-grow s = elim (Bool-cases (ltb s.dev.nskbpool nskbpoolmax)) [
  | inl y ↦ rw y (Still-count_skb (new_skb s.kern) s)
  | inr n ↦ rw n
]

Still-pool : (e : Env) (pool : List Skb) (s : State) → Still s (get_from_pool e pool s).1
unfolding get_from_pool
Still-pool e [] s = Still-grow s
Still-pool e (skb ∷ rest) s = elim (Bool-cases (e.busy skb.id)) [
  | inl y ↦ rw y (Still-grow s)
  | inr n ↦ rw n
]

-- What a call that gives a frame of slot `i`, or none, leaves.
abbrev pub GivesFrom : ℕ → Option Frame × State → Type 0
GivesFrom i (none, s) = IsHomed s
GivesFrom i (some f, s) = IsOf i f × IsHomed s

given :
    (i : ℕ) (c : Bool) (x y : Option Frame × State)
    → GivesFrom i x
    → GivesFrom i y
    → GivesFrom i (if c then x else y)
given i true x y h k = h
given i false x y h k = k

swap_skb-GivesFrom :
    (i : ℕ) (f : Frame) (skb : Skb) (r : Option Skb × State)
    → IsOf i f
    → IsHomed r.1
    → GivesFrom i (swap_skb f skb r)
unfolding swap_skb skb_pool_put
swap_skb-GivesFrom i f skb (none, s) o w = freetframe-IsHomed (record f { skb = some skb }) s w
swap_skb-GivesFrom i f skb (some other, s) o w = (o, w)

idle-GivesFrom :
    (i : ℕ) (e : Env) (f : Frame) (skb : Skb) (s : State)
    → IsOf i f
    → IsHomed s
    → GivesFrom i (with_idle_skb e f skb s)
unfolding with_idle_skb skb_pool_get
idle-GivesFrom i e f skb s o w =
    given i (e.busy skb.id) (swap_skb f skb (skb_pool_get e s))
      (some (record f { skb = some (trimmed skb) }), s)
      (swap_skb-GivesFrom i f skb (skb_pool_get e s) o
        (subst (HomedFrom 0) (sym (Still-pool e s.dev.skbpool s)) w))
      (o, w)

first_skb-GivesFrom :
    (i : ℕ) (e : Env) (f : Frame) (r : Option Skb × Kern) (s : State)
    → IsOf i f
    → IsHomed s
    → GivesFrom i (first_skb e f r s)
unfolding first_skb
first_skb-GivesFrom i e f (none, k) s o w = freetframe-IsHomed f (record s { kern = k }) w
first_skb-GivesFrom i e f (some skb, k) s o w = idle-GivesFrom i e f skb (record s { kern = k }) o w

any_skb-GivesFrom :
    (i : ℕ) (e : Env) (f : Frame) (o : Option Skb) (s : State)
    → IsOf i f
    → IsHomed s
    → GivesFrom i (any_skb e f o s)
unfolding any_skb
any_skb-GivesFrom i e f none s o w = first_skb-GivesFrom i e f (new_skb s.kern) s o w
any_skb-GivesFrom i e f (some skb) s o w = idle-GivesFrom i e f skb s o w

with_skb-GivesFrom :
    (i : ℕ) (e : Env) (r : Option Frame × State) → GivesFrom i r → GivesFrom i (with_skb e r)
unfolding with_skb
with_skb-GivesFrom i e (none, s) h = h
with_skb-GivesFrom i e (some f, s) h = any_skb-GivesFrom i e f f.skb s h.0 h.1

fresh_frame-GivesFrom :
    (ok : Bool) (i : ℕ) (s : State) → IsHomed s → GivesFrom i (fresh_frame ok i s)
unfolding fresh_frame
fresh_frame-GivesFrom false i s w = w
fresh_frame-GivesFrom true i s w = (refl, on_target-IsHomed _ i s (λ t a. a) w)

frame_for-GivesFrom :
    (t : AoeTgt) (fs : List Frame) (i : ℕ) (s : State)
    → All (IsOf i) fs
    → IsHomed s
    → GivesFrom i (frame_for t fs i s)
unfolding frame_for
frame_for-GivesFrom t [] i s a w =
    let s' = record s { kern = record s.kern { allocs = (next_alloc s.kern.allocs).1 } } in
    given i (leb (nskbpoolmax * 2) t.falloc) (none, s)
      (fresh_frame (next_alloc s.kern.allocs).0 i s') w
      (fresh_frame-GivesFrom (next_alloc s.kern.allocs).0 i s' w)
frame_for-GivesFrom t (f ∷ fs) i s a w = (a.0, on_target-IsHomed _ i s (λ t b. a.1) w)

pub newtframe-GivesFrom :
    (e : Env) (t : AoeTgt) (i : ℕ) (s : State)
    → All (IsOf i) t.ffree
    → IsHomed s
    → GivesFrom i (newtframe e t i s)
unfolding newtframe
newtframe-GivesFrom e t i s a w =
    with_skb-GivesFrom i e (frame_for t t.ffree i s) (frame_for-GivesFrom t t.ffree i s a w)
