-- ===== src/Frames/Chosen.antt =====
-- The frame that `newframe` gives belongs to the target that `d->tgt` points at, which has room.
use aoe.Prelude.{
  ℕ, zero, suc, ◌+◌, ◌-◌, ◌*◌, ◌<◌, ◌≡◌, refl, ap, sym, ◌∙◌, Bool, true, false, Option, none, some,
  [], ◌∷◌, arith, All, get_or, length, ◌==◌, ◌&&◌, not, if◌then◌else◌, Bool-cases, inl, inr,
}
use mathlib.Core.Path.{subst}
use aoe.Types.{AoeTgt, Frame, State, Env}
use aoe.Ifs.{ifrotate}
use aoe.Targets.{Slots, first_null}
use aoe.Frames.{
  Search, found, gave_up, out_of_fuel, Hunt, Round, stop, go, after_try, tally, visit, search_round,
  search_from, start_hunt, conclude, newframe, settle, try_target, is_usable, rotated, next_slot,
  newtframe,
}
use aoe.Frames.Quiet.{bare}
use aoe.Frames.View.{View, view-try_target}
use aoe.Frames.Home.{IsOf, HomedFrom, IsHomed, GivesFrom, on_target-IsHomed, newtframe-GivesFrom}

-- What the window of the target in a slot leaves room for.
abbrev pub room_in : Slots → ℕ → ℕ
room_in [] i = 0
room_in (none ∷ ts) zero = 0
room_in (some t ∷ ts) zero = t.maxout - t.nout
room_in (t ∷ ts) (suc i) = room_in ts i

room_in-slot :
    (ts : Slots) (i : ℕ) (t : AoeTgt)
    → get_or ts i none ≡ some t
    → room_in (bare ts) i ≡ t.maxout - t.nout
room_in-slot [] i t e = absurd (cc e)
room_in-slot (none ∷ ts) zero t e = absurd (cc e)
room_in-slot (some u ∷ ts) zero t e = ap room_of e
  where
    room_of : Option AoeTgt → ℕ
    room_of none = 0
    room_of (some t) = t.maxout - t.nout
room_in-slot (none ∷ ts) (suc i) t e = room_in-slot ts i t e
room_in-slot (some u ∷ ts) (suc i) t e = room_in-slot ts i t e

FreeOf : ℕ → Option AoeTgt → Type 0
FreeOf i none = Unit
FreeOf i (some t) = All (IsOf i) t.ffree

homed_slot : (n i k : ℕ) (ts : Slots) → k ≡ n + i → HomedFrom n ts → FreeOf k (get_or ts i none)
unfolding FreeOf
homed_slot n i k [] e w = tt
homed_slot n zero k (none ∷ ts) e w = tt
homed_slot n zero k (some t ∷ ts) e w = subst (λ m. All (IsOf m) t.ffree) (omega arith) w.0
homed_slot n (suc i) k (none ∷ ts) e w = homed_slot (suc n) i k ts (omega arith) w
homed_slot n (suc i) k (some t ∷ ts) e w = homed_slot (suc n) i k ts (omega arith) w.1

-- What a search leaves: if it gives a frame, `d->tgt` is its target, which has room in `v`.
abbrev pub Chosen : Slots → Option Frame × State → Type 0
Chosen v (none, s) = IsHomed s
Chosen v (some f, s) = IsOf s.dev.tgt f × (0 < room_in v f.t) × IsHomed s

ffree-rotated : (t : AoeTgt) → (rotated t).ffree ≡ t.ffree
unfolding ifrotate
ffree-rotated t = ground arith

settle-Chosen :
    (v : Slots) (i : ℕ) (r : Option Frame × State)
    → 0 < room_in v i
    → GivesFrom i r
    → Chosen v (settle i r)
unfolding settle
settle-Chosen v i (none, s) l g = g
settle-Chosen v i (some f, s) l g = (
  g.0,
  subst (λ j. 0 < room_in v j) (sym g.0) l,
  on_target-IsHomed rotated i s (λ t a. subst (All (IsOf i)) (sym (ffree-rotated t)) a) g.1,
)

Chosen-either :
    (v : Slots) (c : Bool) (x y : Option Frame × State)
    → (c ≡ true → Chosen v x)
    → Chosen v y
    → Chosen v (if c then x else y)
Chosen-either v true x y h k = h refl
Chosen-either v false x y h k = k

try_target-Chosen :
    (v : Slots) (e : Env) (t : AoeTgt) (i : ℕ) (u : Bool) (s : State)
    → room_in v i ≡ t.maxout - t.nout
    → All (IsOf i) t.ffree
    → IsHomed s
    → Chosen v (try_target e t i u s)
unfolding try_target
try_target-Chosen v e t i u s q a w =
    Chosen-either v (is_usable t u) (settle i (newtframe e t i s)) (none, s)
      (λ y.
        settle-Chosen v i (newtframe e t i s) (ground (arith, q)) (newtframe-GivesFrom e t i s a w))
      w

-- A hunt over the targets that `v` shows.
record Hunting (v : Slots) (s : State) : Type 0 where
  homed : IsHomed s
  shown : bare s.dev.targets ≡ v

-- A round ends the search with what was chosen, or goes on over the same targets.
abbrev RoundChosen : Slots → Round → Type 0
RoundChosen v (stop (found f) s) = Chosen v (some f, s)
RoundChosen v (stop q s) = IsHomed s
RoundChosen v (go h) = Hunting v h.state

hunting_either :
    (v : Slots) (c : Bool) (x y : Round)
    → RoundChosen v x
    → RoundChosen v y
    → RoundChosen v (if c then x else y)
hunting_either v true x y h k = h
hunting_either v false x y h k = k

after_try-RoundChosen :
    (v : Slots) (h : Hunt) (r : Option Frame × State)
    → Chosen v r
    → bare r.1.dev.targets ≡ v
    → RoundChosen v (after_try h r)
unfolding after_try
after_try-RoundChosen v h (some f, s) c b = c
after_try-RoundChosen v h (none, s) c b =
    let again : Round = go (record h { use_tainted = true; state = s }) in
    let ends : Round = stop (gave_up h.totout) s in
    let hunting : Hunting v s = record { homed = c; shown = b } in
    let wanted = not h.use_tainted && not h.has_untainted in
    hunting_either v (h.slot == s.dev.tgt) (if wanted then again else ends)
      (go (record h { state = s })) (hunting_either v wanted again ends hunting c) hunting

visit-RoundChosen :
    (v : Slots) (e : Env) (h : Hunt) (o : Option AoeTgt)
    → get_or h.state.dev.targets h.slot none ≡ o
    → Hunting v h.state
    → RoundChosen v (visit e h o)
unfolding visit tally FreeOf
visit-RoundChosen v e h none q w = w.homed
visit-RoundChosen v e h (some t) q w =
    let s = h.state in
    let r = try_target e t h.slot h.use_tainted s in
    let same = ap (λ (x : View). x.0) (view-try_target e t h.slot h.use_tainted s) in
    let room =
      subst (λ u. room_in u h.slot ≡ t.maxout - t.nout) w.shown
        (room_in-slot s.dev.targets h.slot t q) in
    let mine =
      subst (FreeOf h.slot) q (homed_slot 0 h.slot h.slot s.dev.targets (omega arith) w.homed) in
    after_try-RoundChosen v (tally h t) r
      (try_target-Chosen v e t h.slot h.use_tainted s room mine w.homed) (same ∙ w.shown)

search_round-RoundChosen :
    (v : Slots) (e : Env) (h : Hunt) → Hunting v h.state → RoundChosen v (search_round e h)
unfolding search_round
search_round-RoundChosen v e h w =
    let i = next_slot h.state.dev.targets h.slot in
    visit-RoundChosen v e (record h { slot = i }) (get_or h.state.dev.targets i none) refl w

abbrev SearchChosen : Slots → Search × State → Type 0
SearchChosen v (found f, s) = Chosen v (some f, s)
SearchChosen v (q, s) = IsHomed s

search_from-SearchChosen :
    (v : Slots) (fuel : ℕ) (e : Env) (h : Hunt)
    → Hunting v h.state
    → SearchChosen v (search_from fuel e h)
unfolding search_from
search_from-SearchChosen v zero e h w = w.homed
search_from-SearchChosen v (suc fuel) e h w =
    ends (search_from-SearchChosen v fuel e) (search_round e h) (search_round-RoundChosen v e h w)
  where
    ends :
        ((h' : Hunt) → Hunting v h'.state → SearchChosen v (search_from fuel e h'))
        → (o : Round) → RoundChosen v o
        → SearchChosen v
            (elim o as (λ _. Search × State) [ stop q s ↦ (q, s) | go h' ↦ search_from fuel e h' ])
    ends rec (stop (found f) s) c = c
    ends rec (stop (gave_up n) s) c = c
    ends rec (stop out_of_fuel s) c = c
    ends rec (go h') c = rec h' c

conclude-Chosen : (v : Slots) (r : Search × State) → SearchChosen v r → Chosen v (conclude r)
unfolding conclude
conclude-Chosen v (found f, s) c = c
conclude-Chosen v (out_of_fuel, s) c = c
conclude-Chosen v (gave_up n, s) c = elim (Bool-cases (n == 0)) [ inl y ↦ rw y c | inr z ↦ rw z c ]

-- Where every free frame is of its slot, it stays so under `newframe`, and a frame that it gives is of
-- the target that `d->tgt` points at, whose window has room.
pub newframe-Chosen : (e : Env) (s : State) → IsHomed s → Chosen (bare s.dev.targets) (newframe e s)
unfolding newframe
newframe-Chosen e s w =
    let v = bare s.dev.targets in
    let r = search_from (2 * length s.dev.targets) e (start_hunt s) in
    Chosen-either v (first_null s.dev.targets == 0) (none, s) (conclude r) (λ y. w)
      (conclude-Chosen v r (
        search_from-SearchChosen v (2 * length s.dev.targets) e (start_hunt s)
          (record { homed = w; shown = refl })))
