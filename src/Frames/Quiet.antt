-- ===== src/Frames/Quiet.antt =====
-- What allocating and freeing frames leaves alone: everything but the free lists, their counts, the
-- choice of an interface and the skb pool.
use aoe.Prelude.{
  ℕ, zero, suc, ◌*◌, ◌≡◌, refl, ap, ◌∙◌, Bool, true, false, Option, none, some, List, [], ◌∷◌, leb,
  ltb, Bool-cases, inl, inr,
}
use aoe.Types.{AoeTgt, Frame, Skb, State, Kern, Env, next_alloc, nskbpoolmax}
use aoe.Targets.{Slots, at_slot}
use aoe.Frames.{
  on_target, aoe_freetframe, new_skb, grow_skb_pool, get_from_pool, skb_pool_get, skb_pool_put,
  frame_for, with_idle_skb, with_skb, newtframe, count_skb, fresh_frame, swap_skb, first_skb,
  any_skb,
}

-- A slot without what the free list and `ifrotate` change.
abbrev pub bare_slot : Option AoeTgt → Option AoeTgt
bare_slot none = none
bare_slot (some t) = some (record t { ffree = []; falloc = 0; ifp = 0 })

abbrev pub bare : Slots → Slots
bare [] = []
bare (t ∷ ts) = bare_slot t ∷ bare ts

-- The state without what `newtframe` and `aoe_freetframe` change.
unfoldable pub core : State → State
core s = record {
  dev = record s.dev { targets = bare s.dev.targets; skbpool = []; nskbpool = 0 };
  kern = record s.kern { allocs = []; fresh = 0 };
}

pub bare-at_slot :
    (g : AoeTgt → AoeTgt) (ts : Slots) (i : ℕ)
    → ((t : AoeTgt) → bare_slot (some (g t)) ≡ bare_slot (some t))
    → bare (at_slot g ts i) ≡ bare ts
bare-at_slot g [] i h = refl
bare-at_slot g (none ∷ ts) zero h = refl
bare-at_slot g (some t ∷ ts) zero h = ap (λ x. x ∷ bare ts) (h t)
bare-at_slot g (none ∷ ts) (suc i) h = ap (λ x. none ∷ x) (bare-at_slot g ts i h)
bare-at_slot g (some t ∷ ts) (suc i) h = ap (λ x. bare_slot (some t) ∷ x) (bare-at_slot g ts i h)

pub core-on_target :
    (g : AoeTgt → AoeTgt) (i : ℕ) (s : State)
    → ((t : AoeTgt) → bare_slot (some (g t)) ≡ bare_slot (some t))
    → core (on_target g i s) ≡ core s
unfolding core
core-on_target g i s h =
    ap
      (λ ts. record {
        dev = record s.dev { targets = ts; skbpool = []; nskbpool = 0 };
        kern = record s.kern { allocs = []; fresh = 0 };
      })
      (bare-at_slot g s.dev.targets i h)

pub core-aoe_freetframe : (f : Frame) (s : State) → core (aoe_freetframe f s) ≡ core s
unfolding aoe_freetframe
core-aoe_freetframe f s = core-on_target _ f.t s (λ t. refl)

core-new_skb : (s : State) → core (record s { kern = (new_skb s.kern).1 }) ≡ core s
unfolding new_skb core
core-new_skb s = elim (Bool-cases (next_alloc s.kern.allocs).0) [ inl y ↦ rw y | inr n ↦ rw n ]

core-count_skb :
    (r : Option Skb × Kern) (s : State) → core (count_skb r s).1 ≡ core (record s { kern = r.1 })
unfolding count_skb core
core-count_skb (none, k) s = refl
core-count_skb (some skb, k) s = refl

core-grow_skb_pool : (s : State) → core (grow_skb_pool s).1 ≡ core s
unfolding grow_skb_pool
core-grow_skb_pool s = elim (Bool-cases (ltb s.dev.nskbpool nskbpoolmax)) [
  | inl y ↦ rw y (core-count_skb (new_skb s.kern) s ∙ core-new_skb s)
  | inr n ↦ rw n
]

core-get_from_pool :
    (e : Env) (pool : List Skb) (s : State) → core (get_from_pool e pool s).1 ≡ core s
unfolding get_from_pool core
core-get_from_pool e [] s = unfold core in core-grow_skb_pool s
core-get_from_pool e (skb ∷ rest) s = elim (Bool-cases (e.busy skb.id)) [
  | inl y ↦ rw y (core-grow_skb_pool s)
  | inr n ↦ rw n
]

core-skb_pool_get : (e : Env) (s : State) → core (skb_pool_get e s).1 ≡ core s
unfolding skb_pool_get
core-skb_pool_get e s = core-get_from_pool e s.dev.skbpool s

core-fresh_frame : (ok : Bool) (i : ℕ) (s : State) → core (fresh_frame ok i s).1 ≡ core s
unfolding fresh_frame
core-fresh_frame false i s = refl
core-fresh_frame true i s = core-on_target _ i s (λ t. refl)

core-allocs :
    (s : State) (l : List Bool) → core (record s { kern = record s.kern { allocs = l } }) ≡ core s
unfolding core
core-allocs s l = refl

core-frame_for :
    (t : AoeTgt) (fs : List Frame) (i : ℕ) (s : State) → core (frame_for t fs i s).1 ≡ core s
unfolding frame_for
core-frame_for t [] i s = elim (Bool-cases (leb (nskbpoolmax * 2) t.falloc)) [
  | inl y ↦ rw y
  | inr n ↦ rw n (core-fresh_frame _ i _ ∙ core-allocs s _)
]
core-frame_for t (f ∷ fs) i s = core-on_target _ i s (λ t. refl)

core-swap_skb :
    (f : Frame) (skb : Skb) (r : Option Skb × State) → core (swap_skb f skb r).1 ≡ core r.1
unfolding swap_skb skb_pool_put core
core-swap_skb f skb (none, s) = core-aoe_freetframe (record f { skb = some skb }) s
core-swap_skb f skb (some other, s) = refl

core-with_idle_skb :
    (e : Env) (f : Frame) (skb : Skb) (s : State) → core (with_idle_skb e f skb s).1 ≡ core s
unfolding with_idle_skb
core-with_idle_skb e f skb s = elim (Bool-cases (e.busy skb.id)) [
  | inl y ↦ rw y (core-swap_skb f skb (skb_pool_get e s) ∙ core-skb_pool_get e s)
  | inr n ↦ rw n
]

core-first_skb :
    (e : Env) (f : Frame) (r : Option Skb × Kern) (s : State)
    → core (first_skb e f r s).1 ≡ core (record s { kern = r.1 })
unfolding first_skb
core-first_skb e f (none, k) s = core-aoe_freetframe f _
core-first_skb e f (some skb, k) s = core-with_idle_skb e f skb _

core-any_skb :
    (e : Env) (f : Frame) (o : Option Skb) (s : State) → core (any_skb e f o s).1 ≡ core s
unfolding any_skb
core-any_skb e f none s = core-first_skb e f (new_skb s.kern) s ∙ core-new_skb s
core-any_skb e f (some skb) s = core-with_idle_skb e f skb s

core-with_skb : (e : Env) (r : Option Frame × State) → core (with_skb e r).1 ≡ core r.1
unfolding with_skb
core-with_skb e (none, s) = refl
core-with_skb e (some f, s) = core-any_skb e f f.skb s

-- Taking a frame, or failing to, changes nothing but what `core` leaves out.
pub core-newtframe :
    (e : Env) (t : AoeTgt) (i : ℕ) (s : State) → core (newtframe e t i s).1 ≡ core s
unfolding newtframe
core-newtframe e t i s = core-with_skb e (frame_for t t.ffree i s) ∙ core-frame_for t t.ffree i s
