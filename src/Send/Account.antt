-- ===== src/Send/Account.antt =====
-- Each target's `nout` counts its frames in the hash of active frames, modulo the 16 bits of the
-- counter.
use aoe.Prelude.{
  ℕ, zero, suc, ◌+◌, ◌%◌, ◌^◌, ◌<◌, ◌≡◌, refl, ap, sym, Bool, false, none, some, [], ◌∷◌, arith,
  get_or, ◌==◌, if◌then◌else◌, Bool-cases, inl, inr,
}
use mathlib.Core.Path.{subst}
use aoe.Types.{AoeTgt, Frame, State, Env, zero_if, next_alloc}
use aoe.Ifs.{is_null}
use aoe.Targets.{Slots, at_slot, first_null}
use aoe.Targets.Bytes.{Every}
use aoe.Frames.{on_target}
use aoe.Frames.Hash.{active, IsHashed, fhash_lem}
use aoe.Frames.View.{View, view}
use aoe.Frames.Newframe.{first_null-bare}
use aoe.Frames.Quiet.{bare}
use aoe.Send.{dev_tag, ata_rw_frameinit, transmit, hash_frame}

abbrev pub nout_in : Slots → ℕ → ℕ
nout_in [] i = 0
nout_in (none ∷ ts) zero = 0
nout_in (some t ∷ ts) zero = t.nout
nout_in (t ∷ ts) (suc i) = nout_in ts i

abbrev pub is_of : ℕ → Frame → Bool
is_of i f = f.t == i

abbrev pub HasInterface : AoeTgt → Type 0
HasInterface t = is_null (get_or t.ifs 0 zero_if).nd ≡ false

-- The hash is in order, each target has an interface, and its `nout` is the number of its active
-- frames; `extra` counts frames of a slot that are about to be hashed.
pub record Balanced (extra : ℕ → ℕ) (v : View) : Type 0 where
  pub hashed : IsHashed v.1
  pub wired : Every HasInterface v.0
  pub nouts :
      (i : ℕ) → i < first_null v.0 → nout_in v.0 i ≡ (active (is_of i) v.1 + extra i) % 2 ^ 16

abbrev pub nothing_more : ℕ → ℕ
nothing_more i = 0

abbrev pub one_of : ℕ → ℕ → ℕ
one_of j i = if j == i then 1 else 0

-- The account of a state between operations.
abbrev pub IsBalanced : State → Type 0
IsBalanced s = Balanced nothing_more (view s)

nout_in-at_slot :
    (g : AoeTgt → AoeTgt) (ts : Slots) (i j : ℕ)
    → i < first_null ts
    → ((t : AoeTgt) → (g t).nout ≡ (t.nout + 1) % 2 ^ 16)
    → nout_in (bare (at_slot g ts j)) i
      ≡ (if j == i then (nout_in (bare ts) i + 1) % 2 ^ 16 else nout_in (bare ts) i)
nout_in-at_slot g [] i j l h = absurd (omega arith)
nout_in-at_slot g (none ∷ ts) i j l h = absurd (omega arith)
nout_in-at_slot g (some t ∷ ts) zero zero l h = h t
nout_in-at_slot g (some t ∷ ts) zero (suc j) l h = ground arith
nout_in-at_slot g (some t ∷ ts) (suc i) zero l h = ground arith
nout_in-at_slot g (some t ∷ ts) (suc i) (suc j) l h =
    ground (arith, nout_in-at_slot g ts i j (omega arith) h)

pub first_null-at_slot :
    (g : AoeTgt → AoeTgt) (ts : Slots) (j : ℕ)
    → first_null (bare (at_slot g ts j)) ≡ first_null (bare ts)
first_null-at_slot g [] j = refl
first_null-at_slot g (none ∷ ts) zero = refl
first_null-at_slot g (some t ∷ ts) zero = refl
first_null-at_slot g (none ∷ ts) (suc j) = refl
first_null-at_slot g (some t ∷ ts) (suc j) = ap suc (first_null-at_slot g ts j)

pub wired-at_slot :
    (g : AoeTgt → AoeTgt) (ts : Slots) (j : ℕ)
    → ((t : AoeTgt) → HasInterface t → HasInterface (g t))
    → Every HasInterface (bare ts)
    → Every HasInterface (bare (at_slot g ts j))
wired-at_slot g [] j h w = tt
wired-at_slot g (none ∷ ts) zero h w = tt
wired-at_slot g (some t ∷ ts) zero h w = (h t w.0, w.1)
wired-at_slot g (none ∷ ts) (suc j) h w = tt
wired-at_slot g (some t ∷ ts) (suc j) h w = (w.0, wired-at_slot g ts j h w.1)

-- Counting a frame of slot `j` before it is hashed.
pub inc-Balanced :
    (g : AoeTgt → AoeTgt) (j : ℕ) (s : State)
    → ((t : AoeTgt) → (g t).nout ≡ (t.nout + 1) % 2 ^ 16)
    → ((t : AoeTgt) → HasInterface t → HasInterface (g t))
    → IsBalanced s
    → Balanced (one_of j) (view (on_target g j s))
inc-Balanced g j s n w b =
    let same = first_null-at_slot g s.dev.targets j in
    record {
      hashed = b.hashed;
      wired = wired-at_slot g s.dev.targets j w b.wired;
      nouts = λ i l. ground (
        arith,
        same,
        nout_in-at_slot g s.dev.targets i j (omega (arith, same, first_null-bare s.dev.targets)) n,
        b.nouts i (omega (arith, same)),
      );
    }

nout_in-at_slot_same :
    (g : AoeTgt → AoeTgt) (ts : Slots) (i j : ℕ)
    → ((t : AoeTgt) → (g t).nout ≡ t.nout)
    → nout_in (bare (at_slot g ts j)) i ≡ nout_in (bare ts) i
nout_in-at_slot_same g [] i j h = refl
nout_in-at_slot_same g (none ∷ ts) i zero h = refl
nout_in-at_slot_same g (some t ∷ ts) zero zero h = h t
nout_in-at_slot_same g (some t ∷ ts) (suc i) zero h = refl
nout_in-at_slot_same g (none ∷ ts) zero (suc j) h = refl
nout_in-at_slot_same g (none ∷ ts) (suc i) (suc j) h = nout_in-at_slot_same g ts i j h
nout_in-at_slot_same g (some t ∷ ts) zero (suc j) h = refl
nout_in-at_slot_same g (some t ∷ ts) (suc i) (suc j) h = nout_in-at_slot_same g ts i j h

-- A change of a target that leaves its count alone, and an interface.
pub same-Balanced :
    {extra : ℕ → ℕ} (g : AoeTgt → AoeTgt) (j : ℕ) (s : State)
    → ((t : AoeTgt) → (g t).nout ≡ t.nout)
    → ((t : AoeTgt) → HasInterface t → HasInterface (g t))
    → Balanced extra (view s)
    → Balanced extra (view (on_target g j s))
same-Balanced g j s n w b =
    let same = first_null-at_slot g s.dev.targets j in
    record {
      hashed = b.hashed;
      wired = wired-at_slot g s.dev.targets j w b.wired;
      nouts = λ i l.
          omega
            (arith, nout_in-at_slot_same g s.dev.targets i j n, b.nouts i (omega (arith, same)));
    }

-- Hashing the frame that was counted.
pub hash-Balanced :
    (f : Frame) (s : State) → Balanced (one_of f.t) (view s) → IsBalanced (hash_frame (f, s))
unfolding hash_frame
hash-Balanced f s b =
    let hashed = fhash_lem f s.dev.factive b.hashed in
    record {
      hashed = hashed.0;
      wired = b.wired;
      nouts = λ i l. ground (arith, b.nouts i l, hashed.1 (is_of i));
    }

pub IsBalanced-of_view : (s s' : State) → view s' ≡ view s → IsBalanced s → IsBalanced s'
IsBalanced-of_view s s' e b = subst (Balanced nothing_more) (sym e) b

-- What sending does to the account: the frame is counted, and then hashed.
pub frameinit-Balanced :
    (e : Env) (f : Frame) (s : State)
    → IsBalanced s
    → Balanced (one_of f.t) (view (ata_rw_frameinit e f s).1)
unfolding ata_rw_frameinit dev_tag
frameinit-Balanced e f s b =
    inc-Balanced _ f.t (record s { dev = (dev_tag e s.dev).1 }) (λ t. refl) (λ t w. w) b

pub t-frameinit : (e : Env) (f : Frame) (s : State) → (ata_rw_frameinit e f s).0.t ≡ f.t
unfolding ata_rw_frameinit
t-frameinit e f s = refl

pub transmit_lem :
    (e : Env) (f : Frame) (s : State)
    → ((transmit e f s).0.t ≡ f.t) × (view (transmit e f s).1 ≡ view s)
unfolding transmit
transmit_lem e f s = elim (Bool-cases (next_alloc s.kern.allocs).0) [
  | inl y ↦ rw y (refl, refl)
  | inr n ↦ rw n (refl, refl)
]

pub sent-Balanced :
    (e : Env) (f : Frame) (s : State)
    → Balanced (one_of f.t) (view s)
    → IsBalanced (hash_frame (transmit e f s))
sent-Balanced e f s b =
    let t = transmit_lem e f s in
    hash-Balanced (transmit e f s).0 (transmit e f s).1 (
      subst (λ j. Balanced (one_of j) (view (transmit e f s).1)) (sym t.0)
        (subst (Balanced (one_of f.t)) (sym t.1) b))

-- A command built and sent keeps the account, whether or not its skb could be cloned.
pub command-Balanced :
    (e : Env) (f : Frame) (s : State)
    → IsBalanced s
    → let r = ata_rw_frameinit e f s in IsBalanced (hash_frame (transmit e r.0 r.1))
command-Balanced e f s b =
    let r = ata_rw_frameinit e f s in
    sent-Balanced e r.0 r.1 (
      subst (λ j. Balanced (one_of j) (view r.1)) (sym (t-frameinit e f s))
        (frameinit-Balanced e f s b))
