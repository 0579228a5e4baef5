-- ===== src/Frames/Newframe.antt =====
-- The search of `newframe` ends, and settles on a usable target.
use aoe.Prelude.{
  ℕ, zero, suc, ◌+◌, ◌*◌, ◌-◌, ◌≤◌, ◌<◌, ◌≡◌, ◌≢◌, refl, ap, sym, ◌∙◌, Bool, Option, none, some, [],
  ◌∷◌, arith, get_or, length, ltb, ◌==◌, ◌&&◌, not, if◌then◌else◌, All, Bool-cases, inl, inr,
}
use mathlib.Core.Path.{subst}
use aoe.Types.{AoeTgt, Frame, State, Env}
use aoe.Targets.{Slots, first_null}
use aoe.Targets.Shape.{IsFront, first_null-le-length}
use aoe.Frames.{
  Search, out_of_fuel, Hunt, Round, stop, go, after_try, tally, start_hunt, visit, search_round,
  newtframe, settle, try_target, is_usable, next_slot, search_from,
}
use aoe.Frames.Quiet.{core, bare, core-newtframe}

pub first_null-bare : (ts : Slots) → first_null (bare ts) ≡ first_null ts
first_null-bare [] = refl
first_null-bare (none ∷ ts) = refl
first_null-bare (some t ∷ ts) = ap suc (first_null-bare ts)

empty-bare : (ts : Slots) → All (λ t. t ≡ none) ts → All (λ t. t ≡ none) (bare ts)
empty-bare [] h = tt
empty-bare (none ∷ ts) h = (refl, empty-bare ts h.1)
empty-bare (some t ∷ ts) h = cc h.0

bare-IsFront : (ts : Slots) → IsFront ts → IsFront (bare ts)
bare-IsFront [] h = tt
bare-IsFront (none ∷ ts) h = empty-bare ts h
bare-IsFront (some t ∷ ts) h = bare-IsFront ts h

slot-some : (ts : Slots) (i : ℕ) → i < first_null ts → (t : AoeTgt) × (get_or ts i none ≡ some t)
slot-some [] i h = absurd (omega arith)
slot-some (none ∷ ts) i h = absurd (omega arith)
slot-some (some t ∷ ts) zero h = (t, refl)
slot-some (some t ∷ ts) (suc i) h = slot-some ts i (omega arith)

slot-empty : (ts : Slots) (i : ℕ) → All (λ t. t ≡ none) (bare ts) → get_or ts i none ≡ none
slot-empty [] i h = refl
slot-empty (none ∷ ts) zero h = refl
slot-empty (none ∷ ts) (suc i) h = slot-empty ts i h.1
slot-empty (some t ∷ ts) i h = cc h.0

slot-none : (ts : Slots) (i : ℕ) → IsFront (bare ts) → first_null ts ≤ i → get_or ts i none ≡ none
slot-none [] i f h = refl
slot-none (none ∷ ts) zero f h = refl
slot-none (none ∷ ts) (suc i) f h = slot-empty ts i f
slot-none (some t ∷ ts) zero f h = absurd (omega arith)
slot-none (some t ∷ ts) (suc i) f h = slot-none ts i f (omega arith)

next_slot-eq :
    (ts : Slots) (i : ℕ)
    → IsFront (bare ts)
    → next_slot ts i ≡ (if ltb (i + 1) (first_null ts) then i + 1 else 0)
next_slot-eq ts i f = elim (Bool-cases (ltb (i + 1) (first_null ts))) [
  | inl y ↦ let (t, e) = slot-some ts (i + 1) (ground arith) in rw (e, next_slot) (rw y)
  | inr n ↦ rw (slot-none ts (i + 1) f (ground arith), next_slot) (rw n)
]

-- The steps that the search takes from slot `i` round to `tgt`, among `k` targets.
abbrev steps : ℕ → ℕ → ℕ → ℕ
steps k i tgt = if ltb i tgt then tgt - i else k + tgt - i

core-settle :
    (i : ℕ) (r : Option Frame × State) → (settle i r).0 ≡ none → core (settle i r).1 ≡ core r.1
unfolding settle
core-settle i (none, s) e = refl
core-settle i (some f, s) e = cc

pub core-try_target :
    (e : Env) (t : AoeTgt) (i : ℕ) (u : Bool) (s : State)
    → (try_target e t i u s).0 ≡ none
    → core (try_target e t i u s).1 ≡ core s
unfolding try_target
core-try_target e t i u s h = elim (Bool-cases (is_usable t u)) [
  | inl y ↦ rw y (core-settle i (newtframe e t i s) (rw y at h) ∙ core-newtframe e t i s)
  | inr n ↦ rw n
]

-- What the search needs of a state: `k` targets at the table's front, `tgt` among them.
record Ready (k tgt : ℕ) (s : State) : Type 0 where
  front : IsFront (bare s.dev.targets)
  count : first_null s.dev.targets ≡ k
  last : s.dev.tgt ≡ tgt
  inside : tgt < k

Ready-of_core : (k tgt : ℕ) (s s' : State) → core s' ≡ core s → Ready k tgt s → Ready k tgt s'
unfolding core
Ready-of_core k tgt s s' e r =
    let ts : bare s'.dev.targets ≡ bare s.dev.targets = ap (λ (x : State). x.dev.targets) e in
    record {
      front = subst IsFront (sym ts) r.front;
      count =
          sym (first_null-bare s'.dev.targets)
          ∙ ap first_null ts
          ∙ first_null-bare s.dev.targets
          ∙ r.count;
      last = ap (λ (x : State). x.dev.tgt) e ∙ r.last;
      inside = r.inside;
    }

-- The rounds that may be left, at most.
abbrev left : ℕ → ℕ → Hunt → ℕ
left k tgt h = steps k h.slot tgt + (if h.use_tainted then 0 else k)

-- A round that goes on leaves a hunt with fewer rounds left.
abbrev Goes : ℕ → ℕ → ℕ → Round → Type 0
Goes k tgt n (stop r s) = r ≢ out_of_fuel
Goes k tgt n (go h) = Ready k tgt h.state × (h.slot < k) × (left k tgt h < n)

after_try-Goes :
    (k tgt n : ℕ) (h : Hunt) (r : Option Frame × State)
    → (r.0 ≡ none → Ready k tgt r.1)
    → h.slot < k
    → n ≡ (if h.slot == tgt then 1 else steps k h.slot tgt + 1) + (if h.use_tainted then 0 else k)
    → Goes k tgt n (after_try h r)
unfolding after_try
after_try-Goes k tgt n h (some f, s) r l m = λ e. cc
after_try-Goes k tgt n h (none, s) r l m = elim (Bool-cases (h.slot == s.dev.tgt)) [
  | inl y ↦ elim (Bool-cases (not h.use_tainted && not h.has_untainted)) [
    | inl z ↦ rw y (rw z (ready, l, ground (arith, ready.last)))
    | inr z ↦ rw y (rw z (λ e. cc))
  ]
  | inr z ↦ rw z (ready, l, ground (arith, ready.last))
]
  where
    ready : Ready k tgt s
    ready = r refl

visit-Goes :
    (k tgt n : ℕ) (e : Env) (h : Hunt) (o : Option AoeTgt)
    → Ready k tgt h.state
    → h.slot < k
    → n ≡ (if h.slot == tgt then 1 else steps k h.slot tgt + 1) + (if h.use_tainted then 0 else k)
    → Goes k tgt n (visit e h o)
unfolding visit tally
visit-Goes k tgt n e h none r l m = λ e. cc
visit-Goes k tgt n e h (some t) r l m =
    after_try-Goes k tgt n (tally h t) _ keeps (ground arith) (ground arith)
  where
    keeps :
        (try_target e t h.slot h.use_tainted h.state).0 ≡ none
        → Ready k tgt (try_target e t h.slot h.use_tainted h.state).1
    keeps q = Ready-of_core k tgt h.state _ (core-try_target e t h.slot h.use_tainted h.state q) r

search_round-Goes :
    (k tgt : ℕ) (e : Env) (h : Hunt)
    → Ready k tgt h.state
    → h.slot < k
    → Goes k tgt (left k tgt h) (search_round e h)
unfolding search_round
search_round-Goes k tgt e h r l =
    visit-Goes k tgt (left k tgt h) e (record h { slot = next_slot h.state.dev.targets h.slot })
      (get_or h.state.dev.targets (next_slot h.state.dev.targets h.slot) none) r
      (ground (arith, next_slot-eq h.state.dev.targets h.slot r.front, r.count))
      (ground (arith, next_slot-eq h.state.dev.targets h.slot r.front, r.count, r.inside))

search_from-ends :
    (k tgt fuel : ℕ) (e : Env) (h : Hunt)
    → Ready k tgt h.state
    → h.slot < k
    → left k tgt h ≤ fuel
    → (search_from fuel e h).0 ≢ out_of_fuel
unfolding search_from
search_from-ends k tgt zero e h r l m = absurd (ground (arith, r.inside))
search_from-ends k tgt (suc fuel) e h r l m =
    ends (search_from-ends k tgt fuel e) (search_round e h) (search_round-Goes k tgt e h r l)
  where
    ends :
        ((h' : Hunt)
          → Ready k tgt h'.state
          → h'.slot < k
          → left k tgt h' ≤ fuel
          → (search_from fuel e h').0 ≢ out_of_fuel)
        → (o : Round) → Goes k tgt (left k tgt h) o
        → (elim o as (λ _. Search × State) [ stop q s ↦ (q, s) | go h' ↦ search_from fuel e h' ]).0
          ≢ out_of_fuel
    ends rec (stop q s) g = g
    ends rec (go h') g = rec h' g.0 g.1 (omega (arith, g.2))

-- With its targets at the table's front and the one used last among them, `newframe`'s search comes
-- to an end: two rounds of the table are fuel enough, whatever allocations fail on the way.
pub newframe_ends :
    (e : Env) (s : State)
    → IsFront s.dev.targets
    → s.dev.tgt < first_null s.dev.targets
    → (search_from (2 * length s.dev.targets) e (start_hunt s)).0 ≢ out_of_fuel
newframe_ends e s f l =
    search_from-ends (first_null s.dev.targets) s.dev.tgt (2 * length s.dev.targets) e
      (start_hunt s)
      (record { front = bare-IsFront s.dev.targets f; count = refl; last = refl; inside = l }) l
      (ground (arith, first_null-le-length s.dev.targets))
