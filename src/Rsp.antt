-- ===== src/Rsp.antt =====
-- A response to an ATA command, aoecmd.c: `calc_rttavg`, `aoecmd_ata_rsp`; aoedev.c: the look-up of
-- the device, `aoedev_put`.
pub mod Account
use aoe.Prelude.{
  ℕ, ◌+◌, ◌-◌, ◌%◌, ◌^◌, Bool, true, false, Option, none, some, List, [], ◌∷◌, ◌++◌, ◌==◌, ◌&&◌,
  not, if◌then◌else◌,
}
use aoe.Prelude.Int.{ℤ, pos, char_dec}
use aoe.Types.{AoeDev, AoeTgt, Frame, Response, State, Env, Message, unexpected_rsp, unknown_device}
use aoe.Clock.{tsince, tsince_hr, to_int, rtt_update}
use aoe.Tgt.{grow_window}
use aoe.Targets.{gettgt}
use aoe.Frames.{getframe, getframe_deferred, on_dev, on_target}
use aoe.Send.{nout_dec}
use aoe.Rexmit.{ktcomplete}
use aoe.Work.{aoecmd_work}

abbrev pub averaged : ℤ → AoeDev → AoeDev
averaged rtt d =
    let (avg, dev) = rtt_update d.rttavg d.rttdev rtt in record d { rttavg = avg; rttdev = dev }

-- `calc_rttavg`; `none` is a NULL target, whose window is left alone.
unfoldable pub calc_rttavg : Option ℕ → ℤ → State → State
unfolding rtt_update grow_window
calc_rttavg none rtt s = on_dev (averaged rtt) s
calc_rttavg (some i) rtt s = on_target grow_window i (on_dev (averaged rtt) s)

abbrev pub say : Message → State → State
say m s = record s { kern = record s.kern { messages = s.kern.messages ++ m ∷ [] } }

-- `t->lost--` of an `unsigned long`.
abbrev pub found_late : AoeTgt → AoeTgt
found_late t = record t { lost = (t.lost + 2 ^ 64 - 1) % 2 ^ 64 }

pub late_at : Option ℕ → State → State
late_at none s = s
late_at (some i) s = on_target found_late i s

abbrev pub aoedev_put : AoeDev → AoeDev
aoedev_put d = record d { ref = (d.ref + 2 ^ 64 - 1) % 2 ^ 64 }

-- A response that no frame waits for.
pub unexpected : Env → Response → State → Bool × State
unfolding calc_rttavg late_at
unexpected e r s =
    let rtt = to_int (pos (tsince e.jiffies_to_usecs e.jiffies r.hdr.tag)) in
    let late = late_at (gettgt s.dev.targets r.hdr.src) (calc_rttavg none rtt s) in
    (true, say (unexpected_rsp r.hdr.tag) (on_dev aoedev_put late))

-- The response goes to the completion threads with its frame, behind what work it made room for.
unfoldable pub answered : Env → Response → Frame → State → Bool × State
unfolding ktcomplete aoecmd_work
answered e r f s = (false, ktcomplete (record f { r_skb = some r }) (aoecmd_work e s))

pub rsp_deferred : Env → Response → Option Frame × List Frame → State → Bool × State
unfolding unexpected answered calc_rttavg
rsp_deferred e r (none, q) s = unexpected e r s
rsp_deferred e r (some f, q) s =
    answered e r f (calc_rttavg none (tsince_hr e f) (on_dev (λ d. record d { rexmitq = q }) s))

-- The target of an active frame that was answered.
abbrev pub credited : Frame → AoeTgt → AoeTgt
credited f t = record (nout_dec t) {
  nout_probes = if f.probe then char_dec t.nout_probes else t.nout_probes;
}

pub rsp_active : Env → Response → Option Frame × List (List Frame) → State → Bool × State
unfolding rsp_deferred answered calc_rttavg getframe_deferred
rsp_active e r (none, bs) s = rsp_deferred e r (getframe_deferred r.hdr.tag s.dev.rexmitq) s
rsp_active e r (some f, bs) s = answered e r f (
    on_target (credited f) f.t
      (calc_rttavg (some f.t) (tsince_hr e f) (on_dev (λ d. record d { factive = bs }) s)))

-- Whether `aoedev_by_aoeaddr` finds the device, with no allocation asked for.
abbrev pub is_for : AoeDev → Response → Bool
is_for d r = (d.aoemajor == r.hdr.major && d.aoeminor == r.hdr.minor) && not d.flags.tkill

-- `aoecmd_ata_rsp`: whether the response is handed back, to be freed by the caller.
unfoldable pub aoecmd_ata_rsp : Env → Response → State → Bool × State
unfolding rsp_active getframe
aoecmd_ata_rsp e r s =
    let s' = on_dev (λ d. record d { ref = d.ref + 1 }) s in
    if is_for s.dev r
    then rsp_active e r (getframe r.hdr.tag s.dev.factive) s'
    else (true, say (unknown_device r.hdr.major r.hdr.minor) s)
