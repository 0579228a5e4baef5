-- ===== src/Timer.antt =====
-- The timer of a device, aoecmd.c: `rexmit_timer`.
pub mod Account
use aoe.Prelude.{
  ℕ, ◌+◌, ◌*◌, ◌/◌, ◌%◌, ◌^◌, Bool, true, false, Option, none, some, List, [], ◌∷◌, ◌++◌, ltb, ◌==◌,
  ◌&&◌, ◌||◌, not, if◌then◌else◌, get_or, modify,
}
use aoe.Prelude.Int.{pos, ltb_ℤ, char_dec}
use aoe.Types.{AoeTgt, Frame, Skb, State, Env, Request, zero_if, usec_per_sec, hard_scorn_secs}
use aoe.Clock.{tsince_hr, rto}
use aoe.Ifs.{getif, ejectif, is_null}
use aoe.Tgt.{scorn, note_loss}
use aoe.Targets.{first_null}
use aoe.Frames.{on_dev, on_target}
use aoe.Send.{nout_dec}
use aoe.Rexmit.{add_wait, rexmit_deferred}
use aoe.Work.{aoeblk_request}
use aoe.Fail.{aoedev_downdev}

-- The expired frames at a bucket's front, up to the first that has not waited long enough.
abbrev pub split_expired : Env → ℕ → List Frame → List Frame × List Frame
split_expired e timeout [] = ([], [])
split_expired e timeout (f ∷ fs) =
    let (old, young) = split_expired e timeout fs in
    if ltb_ℤ (tsince_hr e f) (pos timeout) then ([], f ∷ fs) else (f ∷ old, young)

-- `flist`, and what stays of the buckets.
abbrev pub collect : Env → ℕ → List (List Frame) → List Frame × List (List Frame)
collect e timeout [] = ([], [])
collect e timeout (b ∷ bs) =
    let (old, young) = split_expired e timeout b in
    let (olds, youngs) = collect e timeout bs in (old ++ olds, young ∷ youngs)

-- The whole seconds of a frame's wait, of which `n` microseconds are from earlier transmissions.
abbrev pub secs_waited : Env → ℕ → Frame → ℕ
secs_waited e n f = add_wait n (tsince_hr e f) / usec_per_sec

-- The frame has waited too long for its device.
abbrev pub is_dead : Env → Frame → Bool
is_dead e f =
    not (e.aoe_deadsecs == 0) && ltb e.aoe_deadsecs (secs_waited e f.waited_total f) && not f.probe

-- The frame has waited too long for one of `utgts` targets.
abbrev pub is_slow : Env → ℕ → Frame → Bool
is_slow e utgts f =
    let n = secs_waited e f.waited f in
    not (e.aoe_deadsecs == 0)
    && ltb 0 utgts
    && (ltb (e.aoe_deadsecs / utgts) n || ltb hard_scorn_secs n)

-- The interface has lost one more; it goes if that is too many and it is not the only one.
pub blame : Option ℕ → AoeTgt → AoeTgt
unfolding ejectif
blame none t = t
blame (some i) t =
    let lost = ((get_or t.ifs i zero_if).lost + 1) % 2 ^ 64 in
    let ifs = modify (λ p. record p { lost = lost }) t.ifs i in
    if ltb (t.nframes * 2) lost && (not (i == 0) || not (is_null (get_or t.ifs 1 zero_if).nd))
    then record t { ifs = ejectif ifs i }
    else record t { ifs = ifs }

abbrev pub sent_on : Option Skb → Option ℕ
sent_on none = none
sent_on (some skb) = skb.dev

pub scorned : Bool → AoeTgt → AoeTgt
unfolding scorn
scorned slow t = if slow then scorn t else t

-- A lost probe is counted off, any other loss goes to the interface.
pub charge : Frame → AoeTgt → AoeTgt
unfolding blame getif
charge f t =
    if f.probe
    then record t { nout_probes = char_dec t.nout_probes }
    else blame (getif t (sent_on f.skb)) t

-- The target of an expired frame.
pub charged : Env → ℕ → Frame → AoeTgt → AoeTgt
unfolding scorned note_loss charge
charged e utgts f t = charge f (note_loss (scorned (is_slow e utgts f) t))

unfoldable pub expire : Env → ℕ → Frame → State → State
unfolding charged
expire e utgts f s =
    on_target (λ t. nout_dec (charged e utgts f t)) f.t
      (on_dev (λ d. record d { rexmitq = d.rexmitq ++ f ∷ [] }) s)

-- `list_splice` to the front of the first bucket.
abbrev pub splice : List Frame → List (List Frame) → List (List Frame)
splice fs [] = []
splice fs (b ∷ bs) = (fs ++ b) ∷ bs

-- The loop over `flist` and what follows it: the device has failed, or its deferred frames are
-- looked at.
unfoldable pub expire_all : Env → ℕ → List Frame → State → State
unfolding expire aoedev_downdev rexmit_deferred
expire_all e utgts [] s = rexmit_deferred e s
expire_all e utgts (f ∷ fs) s =
    let rest = expire_all e utgts fs (expire e utgts f s) in
    if is_dead e f
    then aoedev_downdev e (on_dev (λ d. record d { factive = splice (f ∷ fs) d.factive }) s)
    else rest

abbrev pub has_queue : Option (List Request) → Bool
has_queue none = false
has_queue (some q) = true

-- The queue is run where something asked for that.
unfoldable pub kick : Env → State → State
unfolding aoeblk_request
kick e s =
    if s.dev.flags.kickme && has_queue s.dev.blkq
    then aoeblk_request e (on_dev (λ d. record d { flags = record d.flags { kickme = false } }) s)
    else s

-- `rexmit_timer`, but that the timer is set again.
unfoldable pub rexmit_timer : Env → State → State
unfolding kick expire_all
rexmit_timer e s =
    let (flist, young) = collect e (rto s.dev.rttavg s.dev.rttdev) s.dev.factive in
    let utgts = first_null s.dev.targets in
    if s.dev.flags.tkill
    then s
    else kick e (expire_all e utgts flist (on_dev (λ d. record d { factive = young }) s))
