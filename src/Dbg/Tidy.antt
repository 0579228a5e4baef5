-- ===== src/Dbg/Tidy.antt =====
-- What lives of a device's debugging: `aoedbg_devinit`, `aoedbg_rtt`, `aoedbg_undbg`.
use aoe.Prelude.{
  ℕ, ◌≡◌, refl, Bool, true, false, Option, none, some, List, [], ◌∷◌, ◌||◌, Bool-cases, inl, inr,
  arith,
}
use aoe.Types.{AoeDev, AoeTgt, Frame, AoeHdr, AtaHdr}
use aoe.Dbg.{
  Ddbg, Debug, RttRecord, Timeval, begin_at, devinit_begin, end_at, devinit_end, undbg_of,
  aoedbg_undbg, rtt_record, rtt_at, aoedbg_rtt,
}

-- Whether `aoedbg_devinit` is between its parts, and the state.
abbrev pub World : Type 0
World = Bool × Debug

-- A device has its one object with its one channel, or neither; while the channel is being opened,
-- the object alone.
abbrev pub IsTidyAt : Bool → Option Ddbg → ℕ → ℕ → Type 0
IsTidyAt false none objects channels = (objects ≡ 0) × (channels ≡ 0)
IsTidyAt false (some g) objects channels = (g.rttchan ≡ true) × (objects ≡ 1) × (channels ≡ 1)
IsTidyAt true none objects channels = ⊥
IsTidyAt true (some g) objects channels = (g.rttchan ≡ false) × (objects ≡ 1) × (channels ≡ 0)

-- And nothing that is not there has been used.
abbrev pub IsTidy : World → Type 0
IsTidy (opening, s) = IsTidyAt opening s.dbg s.objects s.channels × (s.faulted ≡ false)

-- What happens to a device. Its work, which has the two parts of `aoedbg_devinit`, runs once at a
-- time.
pub data DbgStep : Type 0 where
  begins : Bool → Bool → DbgStep
  opens : Bool → DbgStep
  rtt : Timeval → Timeval → AoeDev → AoeHdr → AtaHdr → Option (Frame × AoeTgt) → ℕ → DbgStep
  undbg : DbgStep
  killed : DbgStep

abbrev pub dbg_step : DbgStep → World → World
dbg_step (begins active allocs) (o, s) = let r = devinit_begin active allocs s in (o || r.0, r.1)
dbg_step (opens ok) (true, s) = (false, devinit_end ok s)
dbg_step (opens ok) (false, s) = (false, s)
dbg_step (rtt start now d h ah f n) (o, s) = (o, aoedbg_rtt start now d h ah f n s)
dbg_step undbg (o, s) = (o, aoedbg_undbg s)
dbg_step killed (o, s) = (o, record s { tkill = true })

abbrev pub dbg_steps : List DbgStep → World → World
dbg_steps [] w = w
dbg_steps (a ∷ as') w = dbg_steps as' (dbg_step a w)

-- `freedev` does not free the device between the parts of `aoedbg_devinit`: a flush that is not the
-- module's exit takes no device with DEVFL_GDALLOC, which has no disk to be named by.
abbrev pub Waits : DbgStep → World → Type 0
Waits (begins active allocs) w = Unit
Waits (opens ok) w = Unit
Waits (rtt start now d h ah f n) w = Unit
Waits undbg w = w.0 ≡ false
Waits killed w = Unit

abbrev pub AllWait : List DbgStep → World → Type 0
AllWait [] w = Unit
AllWait (a ∷ as') w = Waits a w × AllWait as' (dbg_step a w)

begin_at-IsTidy :
    (b : Bool) (o : Option Ddbg) (s : Debug)
    → s.dbg ≡ o
    → IsTidyAt b o s.objects s.channels
    → s.faulted ≡ false
    → let r = begin_at o s in IsTidy (b || r.0, r.1)
begin_at-IsTidy true (some g) s e t f = (rw e t, f)
begin_at-IsTidy false (some g) s e t f = (rw e t, f)
begin_at-IsTidy true none s e t f = absurd t
begin_at-IsTidy false none s e t f = elim (Bool-cases s.tkill) [
  | inl y ↦ rw y (rw e t, f)
  | inr n ↦ rw n ((refl, omega (arith, t.0), t.1), f)
]

begin-IsTidy :
    (active allocs b : Bool) (s : Debug)
    → IsTidy (b, s)
    → let r = devinit_begin active allocs s in IsTidy (b || r.0, r.1)
unfolding devinit_begin
begin-IsTidy true true b s t = begin_at-IsTidy b s.dbg s refl t.0 t.1
begin-IsTidy false allocs true s t = t
begin-IsTidy false allocs false s t = t
begin-IsTidy true false true s t = t
begin-IsTidy true false false s t = t

end_at-IsTidy :
    (ok : Bool) (o : Option Ddbg) (s : Debug)
    → IsTidyAt true o s.objects s.channels
    → s.faulted ≡ false
    → IsTidy (false, end_at ok o s)
end_at-IsTidy ok none s t f = absurd t
end_at-IsTidy true (some g) s t f = ((refl, t.1, omega (arith, t.2)), f)
end_at-IsTidy false (some g) s t f = ((omega (arith, t.1), t.2), f)

rtt_at-IsTidy :
    (r : ℕ → RttRecord) (b : Bool) (o : Option Ddbg) (s : Debug)
    → s.dbg ≡ o
    → IsTidyAt b o s.objects s.channels
    → s.faulted ≡ false
    → IsTidy (b, rtt_at r o s)
rtt_at-IsTidy r b none s e t f = (rw e t, f)
rtt_at-IsTidy r false (some g) s e t f = rw t.0 ((refl, t.1, t.2), f)
rtt_at-IsTidy r true (some g) s e t f = rw t.0 (rw e t, f)

undbg_of-IsTidy :
    (o : Option Ddbg) (s : Debug)
    → s.dbg ≡ o
    → IsTidyAt false o s.objects s.channels
    → let s' = undbg_of o s in
      (s'.dbg ≡ none) × (s'.objects ≡ 0) × (s'.channels ≡ 0) × (s'.faulted ≡ s.faulted)
undbg_of-IsTidy none s e t = (e, t.0, t.1, refl)
undbg_of-IsTidy (some g) s e t = rw t.0 (refl, omega (arith, t.1), omega (arith, t.2), refl)

undbg-none :
    (s : Debug)
    → IsTidy (false, s)
    → let s' = aoedbg_undbg s in
      (s'.dbg ≡ none) × (s'.objects ≡ 0) × (s'.channels ≡ 0) × (s'.faulted ≡ s.faulted)
unfolding aoedbg_undbg
undbg-none s t = undbg_of-IsTidy s.dbg s refl t.0

step-IsTidy : (a : DbgStep) (w : World) → Waits a w → IsTidy w → IsTidy (dbg_step a w)
unfolding aoedbg_rtt devinit_end
step-IsTidy (begins active allocs) (b, s) q t = begin-IsTidy active allocs b s t
step-IsTidy (opens ok) (true, s) q t = end_at-IsTidy ok s.dbg s t.0 t.1
step-IsTidy (opens ok) (false, s) q t = t
step-IsTidy (rtt start now d h ah f n) (b, s) q t =
    rtt_at-IsTidy (rtt_record start now d h ah f n) b s.dbg s refl t.0 t.1
step-IsTidy undbg (false, s) q t = let u = undbg-none s t in rw u.0 ((u.1, u.2), rw u.3 t.1)
step-IsTidy undbg (true, s) q t = absurd (ground (arith, q))
step-IsTidy killed (b, s) q t = t

steps-IsTidy :
    (as' : List DbgStep) (w : World) → AllWait as' w → IsTidy w → IsTidy (dbg_steps as' w)
steps-IsTidy [] w q t = t
steps-IsTidy (a ∷ as') w q t = steps-IsTidy as' (dbg_step a w) q.1 (step-IsTidy a w q.0 t)

-- `aoedbg_undbg` leaves nothing, unless a channel is being opened.
abbrev pub Cleared : World → Type 0
Cleared (true, s) = Unit
Cleared (false, s) =
    let s' = aoedbg_undbg s in (s'.dbg ≡ none) × (s'.objects ≡ 0) × (s'.channels ≡ 0)

Cleared-IsTidy : (w : World) → IsTidy w → Cleared w
Cleared-IsTidy (true, s) t = tt
Cleared-IsTidy (false, s) t = let u = undbg-none s t in (u.0, u.1, u.2)

-- Whatever happens to a device, also between the parts of `aoedbg_devinit`, where `aoedbg_undbg` does
-- not come between those parts: the device has one object with one channel for its times, or neither,
-- or the object alone while its channel is being opened; no response is written to a channel that is
-- not there; and once no channel is being opened, `aoedbg_undbg` leaves nothing of them.
pub dbg_steps-IsTidy :
    (as' : List DbgStep) (w : World)
    → AllWait as' w
    → IsTidy w
    → IsTidy (dbg_steps as' w) × Cleared (dbg_steps as' w)
dbg_steps-IsTidy as' w q t =
    let k = steps-IsTidy as' w q t in (k, Cleared-IsTidy (dbg_steps as' w) k)
