-- ===== src/Frames/Sound.antt =====
-- What the search for frames needs of a device's targets, and that it lasts: every free frame is of
-- its slot, and every window fits its 16 bits.
use aoe.Prelude.{ℕ, zero, suc, ◌^◌, ◌<◌, ◌≡◌, ap, sym, Option, none, some, [], ◌∷◌, arith, All}
use mathlib.Core.Path.{subst}
use aoe.Types.{AoeTgt, Frame, State, Env}
use aoe.Targets.{Slots, at_slot}
use aoe.Frames.{on_target, aoe_freetframe, newtframe, newframe}
use aoe.Frames.Quiet.{bare}
use aoe.Frames.View.{View, view, view-freetframe, view-newtframe, view-newframe}
use aoe.Frames.Home.{
  IsOf, HomedFrom, IsHomed, GivesFrom, on_target-IsHomed, freetframe-IsHomed, newtframe-GivesFrom,
}
use aoe.Frames.Chosen.{Chosen, newframe-Chosen}

-- Every window fits its 16 bits.
abbrev pub NarrowIn : Slots → Type 0
NarrowIn [] = Unit
NarrowIn (none ∷ ts) = NarrowIn ts
NarrowIn (some t ∷ ts) = (t.maxout < 2 ^ 16) × NarrowIn ts

pub NarrowIn-bare : (ts : Slots) → NarrowIn ts → NarrowIn (bare ts)
NarrowIn-bare [] w = tt
NarrowIn-bare (none ∷ ts) w = NarrowIn-bare ts w
NarrowIn-bare (some t ∷ ts) w = (w.0, NarrowIn-bare ts w.1)

pub NarrowIn-of_bare : (ts : Slots) → NarrowIn (bare ts) → NarrowIn ts
NarrowIn-of_bare [] w = tt
NarrowIn-of_bare (none ∷ ts) w = NarrowIn-of_bare ts w
NarrowIn-of_bare (some t ∷ ts) w = (w.0, NarrowIn-of_bare ts w.1)

pub NarrowIn-at_slot :
    (g : AoeTgt → AoeTgt) (ts : Slots) (i : ℕ)
    → ((t : AoeTgt) → (g t).maxout ≡ t.maxout)
    → NarrowIn ts
    → NarrowIn (at_slot g ts i)
NarrowIn-at_slot g [] i m w = tt
NarrowIn-at_slot g (none ∷ ts) zero m w = w
NarrowIn-at_slot g (some t ∷ ts) zero m w = (omega (arith, m t, w.0), w.1)
NarrowIn-at_slot g (none ∷ ts) (suc i) m w = NarrowIn-at_slot g ts i m w
NarrowIn-at_slot g (some t ∷ ts) (suc i) m w = (w.0, NarrowIn-at_slot g ts i m w.1)

pub record SoundAt (ts : Slots) : Type 0 where
  pub homed : HomedFrom 0 ts
  pub narrow : NarrowIn ts

abbrev pub IsSound : State → Type 0
IsSound s = SoundAt s.dev.targets

pub IsSound-of_targets : (s s' : State) → s'.dev.targets ≡ s.dev.targets → IsSound s → IsSound s'
IsSound-of_targets s s' e w = subst SoundAt (sym e) w

pub on_target-IsSound :
    (g : AoeTgt → AoeTgt) (i : ℕ) (s : State)
    → ((t : AoeTgt) → (g t).ffree ≡ t.ffree)
    → ((t : AoeTgt) → (g t).maxout ≡ t.maxout)
    → IsSound s
    → IsSound (on_target g i s)
on_target-IsSound g i s f m w = record {
  homed = on_target-IsHomed g i s (λ t a. subst (All (IsOf i)) (sym (f t)) a) w.homed;
  narrow = NarrowIn-at_slot g s.dev.targets i m w.narrow;
}

-- A call that keeps the view keeps the windows.
narrow_of_view : (s s' : State) → view s' ≡ view s → IsSound s → NarrowIn s'.dev.targets
narrow_of_view s s' e w =
    NarrowIn-of_bare s'.dev.targets
      (subst NarrowIn (sym (ap (λ (x : View). x.0) e)) (NarrowIn-bare s.dev.targets w.narrow))

pub freetframe-IsSound : (f : Frame) (s : State) → IsSound s → IsSound (aoe_freetframe f s)
freetframe-IsSound f s w = record {
  homed = freetframe-IsHomed f s w.homed;
  narrow = narrow_of_view s (aoe_freetframe f s) (view-freetframe f s) w;
}

IsHomed-of_given : (i : ℕ) (r : Option Frame × State) → GivesFrom i r → IsHomed r.1
IsHomed-of_given i (none, s) g = g
IsHomed-of_given i (some f, s) g = g.1

IsHomed-of_Chosen : (v : Slots) (r : Option Frame × State) → Chosen v r → IsHomed r.1
IsHomed-of_Chosen v (none, s) c = c
IsHomed-of_Chosen v (some f, s) c = c.2

pub newtframe-IsSound :
    (e : Env) (t : AoeTgt) (i : ℕ) (s : State)
    → All (IsOf i) t.ffree
    → IsSound s
    → IsSound (newtframe e t i s).1
newtframe-IsSound e t i s a w = record {
  homed = IsHomed-of_given i (newtframe e t i s) (newtframe-GivesFrom e t i s a w.homed);
  narrow = narrow_of_view s (newtframe e t i s).1 (view-newtframe e t i s) w;
}

pub newframe-IsSound : (e : Env) (s : State) → IsSound s → IsSound (newframe e s).1
newframe-IsSound e s w = record {
  homed = IsHomed-of_Chosen (bare s.dev.targets) (newframe e s) (newframe-Chosen e s w.homed);
  narrow = narrow_of_view s (newframe e s).1 (view-newframe e s) w;
}
