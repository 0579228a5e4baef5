-- ===== src/Frames/View.antt =====
-- The targets and the active frames under the search for a frame: it leaves both alone, up to the
-- free lists and the choice of an interface.
use aoe.Prelude.{
  ℕ, zero, suc, ◌*◌, length, ◌≡◌, refl, ap, ◌∙◌, Bool, Option, none, some, arith, get_or, ◌==◌,
  Bool-cases, inl, inr, not, ◌&&◌,
}
use aoe.Types.{AoeTgt, Frame, State, Env}
use aoe.Ifs.{ifrotate}
use aoe.Targets.{Slots, first_null}
use aoe.Frames.{
  Search, found, gave_up, out_of_fuel, Hunt, Round, stop, go, after_try, tally, visit, search_round,
  search_from, start_hunt, conclude, newframe, settle, try_target, is_usable, rotated, next_slot,
  on_target, aoe_freetframe, newtframe,
}
use aoe.Frames.Hash.{Buckets}
use aoe.Frames.Quiet.{core, bare, bare_slot, bare-at_slot, core-newtframe, core-aoe_freetframe}

abbrev pub View : Type 0
View = Slots × Buckets

-- What the account is about: the targets but for their free lists, and the active frames.
abbrev pub view : State → View
view s = (bare s.dev.targets, s.dev.factive)

pub view_of_core : (s s' : State) → core s' ≡ core s → view s' ≡ view s
unfolding core
view_of_core s s' e = ap (λ (x : State). (x.dev.targets, x.dev.factive)) e

pub bare-rotated : (t : AoeTgt) → bare_slot (some (rotated t)) ≡ bare_slot (some t)
unfolding ifrotate
bare-rotated t = ground arith

pub view-rotated : (i : ℕ) (s : State) → view (on_target rotated i s) ≡ view s
view-rotated i s =
    ap (λ (ts : Slots). (ts, s.dev.factive)) (bare-at_slot rotated s.dev.targets i bare-rotated)

pub view-freetframe : (f : Frame) (s : State) → view (aoe_freetframe f s) ≡ view s
view-freetframe f s = view_of_core s _ (core-aoe_freetframe f s)

pub view-newtframe :
    (e : Env) (t : AoeTgt) (i : ℕ) (s : State) → view (newtframe e t i s).1 ≡ view s
view-newtframe e t i s = view_of_core s _ (core-newtframe e t i s)

view-settle : (i : ℕ) (r : Option Frame × State) → view (settle i r).1 ≡ view r.1
unfolding settle
view-settle i (none, s) = refl
view-settle i (some f, s) = view-rotated i s

pub view-try_target :
    (e : Env) (t : AoeTgt) (i : ℕ) (u : Bool) (s : State) → view (try_target e t i u s).1 ≡ view s
unfolding try_target
view-try_target e t i u s = elim (Bool-cases (is_usable t u)) [
  | inl y ↦ rw y (view-settle i (newtframe e t i s) ∙ view-newtframe e t i s)
  | inr n ↦ rw n
]

abbrev state_of : Round → State
state_of (stop r s) = s
state_of (go h) = h.state

view-after_try : (h : Hunt) (r : Option Frame × State) → view (state_of (after_try h r)) ≡ view r.1
unfolding after_try
view-after_try h (some f, s) = refl
view-after_try h (none, s) = elim (Bool-cases (h.slot == s.dev.tgt)) [
  | inl y ↦ elim (Bool-cases (not h.use_tainted && not h.has_untainted)) [
    | inl z ↦ rw y (rw z)
    | inr z ↦ rw y (rw z)
  ]
  | inr n ↦ rw n
]

view-visit : (e : Env) (h : Hunt) (o : Option AoeTgt) → view (state_of (visit e h o)) ≡ view h.state
unfolding visit
view-visit e h none = refl
view-visit e h (some t) =
    view-after_try (tally h t) _ ∙ view-try_target e t h.slot h.use_tainted h.state

view-search_round : (e : Env) (h : Hunt) → view (state_of (search_round e h)) ≡ view h.state
unfolding search_round
view-search_round e h =
    view-visit e (record h { slot = next_slot h.state.dev.targets h.slot })
      (get_or h.state.dev.targets (next_slot h.state.dev.targets h.slot) none)

view-search_from : (fuel : ℕ) (e : Env) (h : Hunt) → view (search_from fuel e h).1 ≡ view h.state
unfolding search_from
view-search_from zero e h = refl
view-search_from (suc fuel) e h =
    step (view-search_from fuel e) (search_round e h) (view-search_round e h)
  where
    step :
        ((h' : Hunt) → view (search_from fuel e h').1 ≡ view h'.state)
        → (o : Round) → view (state_of o) ≡ view h.state
        → view
            (elim o as (λ _. Search × State) [
              | stop q s ↦ (q, s)
              | go h' ↦ search_from fuel e h'
            ]).1
          ≡ view h.state
    step rec (stop q s) g = g
    step rec (go h') g = rec h' ∙ g

view-conclude : (r : Search × State) → view (conclude r).1 ≡ view r.1
unfolding conclude
view-conclude (found f, s) = refl
view-conclude (out_of_fuel, s) = refl
view-conclude (gave_up n, s) = elim (Bool-cases (n == 0)) [ inl y ↦ rw y | inr z ↦ rw z ]

pub view-newframe : (e : Env) (s : State) → view (newframe e s).1 ≡ view s
unfolding newframe
view-newframe e s = elim (Bool-cases (first_null s.dev.targets == 0)) [
  | inl y ↦ rw y
  | inr n ↦
      let fuel = 2 * length s.dev.targets in
      rw n
        (view-conclude (search_from fuel e (start_hunt s)) ∙ view-search_from fuel e (start_hunt s))
]
