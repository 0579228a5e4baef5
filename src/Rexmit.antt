-- ===== src/Rexmit.antt =====
-- Sending again, aoecmd.c: `ktcomplete`, `resend`, `probe`, `reassign_frame`, `rexmit_deferred`.
pub mod Account
pub mod Sound
use aoe.Prelude.{
  ℕ, zero, suc, ◌+◌, ◌-◌, ◌*◌, ◌/◌, ◌%◌, ◌^◌, Bool, true, false, Option, none, some, List, [], ◌∷◌,
  ◌++◌, ltb, leb, ◌==◌, ◌&&◌, ◌||◌, not, if◌then◌else◌,
}
use aoe.Prelude.Int.{ℤ, pos, ◌+ℤ◌, char_inc, ltb_ℤ, to_ulong}
use aoe.Types.{AoeDev, AoeTgt, Frame, Skb, State, Env, Message, retransmit, zero_pages}
use aoe.Clock.{tsince_hr, rto}
use aoe.Ifs.{ifrotate}
use aoe.Targets.{count_untainted}
use aoe.Frames.{aoe_freetframe, newtframe, newframe, on_dev, on_target, rotated}
use aoe.Send.{
  target_in, nd_of, addr_of, dev_tag, nout_inc, ata_rw_frameinit, transmit, hash_frame,
  payload_size,
}

-- `ktcomplete`: to the completion threads.
unfoldable pub ktcomplete : Frame → State → State
ktcomplete f s = record s { kern = record s.kern { completions = s.kern.completions ++ f ∷ [] } }

abbrev pub readdress : ℕ → ℕ → ℕ → Option ℕ → Option Skb → Option Skb
readdress tag src dst nd none = none
readdress tag src dst nd (some skb) =
    some (record skb { hdr = record skb.hdr { tag = tag; src = src; dst = dst }; dev = nd })

-- The frame under its new tag, with the addresses of both ends anew.
pub readdressed : Env → Frame → ℕ → AoeTgt → Frame
readdressed e f tag t = record f {
  nout = t.nout;
  tag = tag;
  skb = readdress tag (addr_of e (nd_of t)) t.addr (nd_of t) f.skb;
}

-- Retransmissions are reported, but for probes.
pub report : Frame → ℕ → State → State
report f tag s =
    let said : List Message = if f.probe then [] else retransmit f.tag tag ∷ [] in
    record s { kern = record s.kern { messages = s.kern.messages ++ said } }

-- `resend` where its target has an interface `t.ifp`, after `ifrotate`.
pub resend_on : Env → Frame → ℕ → AoeTgt → State → State
unfolding hash_frame transmit readdressed report
resend_on e f tag t s = hash_frame (transmit e (readdressed e f tag t) (report f tag s))

pub resend_rotated : Env → Frame → ℕ → Option AoeTgt → State → State
unfolding resend_on ktcomplete
resend_rotated e f tag none s = ktcomplete (record f { r_skb = none }) s
resend_rotated e f tag (some t) s = resend_on e f tag t (on_target rotated f.t s)

unfoldable pub resend : Env → Frame → State → State
unfolding resend_rotated dev_tag ifrotate
resend e f s =
    let (tag, d) = dev_tag e s.dev in
    resend_rotated e f tag (ifrotate (target_in s.dev.targets f.t)) (record s { dev = d })

-- The fragments of a probe: pages of zeros. `fuel` bounds their number.
abbrev pub zero_frags : ℕ → ℕ → ℕ → List ℕ
zero_frags zero page n = []
zero_frags (suc fuel) page n =
    let rest = zero_frags fuel page (n - page) in
    if n == 0 then [] else (if ltb n page then n else page) ∷ rest

abbrev pub add_zeros : ℕ → ℕ → Option Skb → Option Skb
add_zeros page n none = none
add_zeros page n (some skb) =
    some (record skb { data_len = skb.data_len + n; payload = zero_pages (zero_frags n page n) })

pub zero_filled : Env → ℕ → Frame → Frame
zero_filled e n f = record f { skb = add_zeros e.page_size n f.skb }

pub probe_frame : ℕ → Frame → Frame
probe_frame n f = record f { probe = true; iter = record f.iter { size = n } }

pub send_probe : Env → Option Frame × State → State
unfolding hash_frame transmit ata_rw_frameinit probe_frame zero_filled
send_probe e (none, s) = s
send_probe e (some f, s) =
    let n = payload_size s.dev in
    let (f', s') = ata_rw_frameinit e (probe_frame n f) (on_target rotated f.t s) in
    hash_frame (transmit e (zero_filled e n f') s')

-- `probe` of the target in slot `i`.
unfoldable pub probe : Env → ℕ → State → State
unfolding send_probe newtframe
probe e i s = send_probe e (newtframe e (target_in s.dev.targets i) i s)

-- `reassign_frame` with the frame that `newframe` gave: none if that is none or the same target's.
-- The new frame takes over the command, the old one gets the new one's skb.
pub reassign : Frame → Option Frame × State → Option (Frame × Frame) × State
unfolding aoe_freetframe
reassign f (none, s) = (none, s)
reassign f (some nf, s) = if nf.t == f.t then (none, aoe_freetframe nf s) else (
  some (
    record f { skb = nf.skb },
    record nf {
      skb = f.skb;
      buf = f.buf;
      iter = f.iter;
      waited = 0;
      waited_total = f.waited_total;
      sent = f.sent;
      sent_jiffs = f.sent_jiffs;
    },
  ),
  s,
)

unfoldable pub reassign_frame : Env → Frame → State → Option (Frame × Frame) × State
unfolding reassign newframe
reassign_frame e f s = reassign f (newframe e s)

-- The probe of a tainted target that has none outstanding, where some target is untainted.
unfoldable pub probe_if : Env → Bool → ℕ → State → State
unfolding probe
probe_if e want i s =
    if want
    then on_target (λ t. record t { nout_probes = char_inc t.nout_probes }) i (probe e i s)
    else s

abbrev pub is_zero : ℤ → Bool
is_zero (pos n) = n == 0
is_zero _ = false

-- What becomes of a deferred frame before the window is looked at: it is freed, kept where it is, or
-- may be sent, itself or the frame that it was reassigned to.
pub data Deferred : Type 0 where
  drop : Deferred
  keep : Deferred
  ready : Frame → Deferred

pub reassigned : Env → ℕ → Frame → Option (Frame × Frame) × State → Deferred × State
unfolding probe_if aoe_freetframe
reassigned e untainted f (none, s) = (ready f, s)
reassigned e untainted f (some (old, nf), s) =
    let t = target_in s.dev.targets f.t in
    (ready nf, aoe_freetframe old (probe_if e (is_zero t.nout_probes && ltb 0 untainted) f.t s))

abbrev pub scaled_rto : AoeDev → AoeTgt → ℤ
scaled_rto d t = pos (t.taint * rto d.rttavg d.rttdev)

pub classify : Env → ℕ → Frame → State → Deferred × State
unfolding reassigned reassign_frame
classify e untainted f s =
    let t = target_in s.dev.targets f.t in
    if t.taint == 0
    then (if f.probe then (drop, s) else (ready f, s))
    else if not f.probe
    then reassigned e untainted f (reassign_frame e f s)
    else if untainted == 0
    then (drop, s)
    else if ltb_ℤ (tsince_hr e f) (scaled_rto s.dev t)
    then (keep, s)
    else (ready f, s)

abbrev pub add_wait : ℕ → ℤ → ℕ
add_wait n since = (n + to_ulong since) % 2 ^ 64

-- A deferred frame goes out again, if its target's window is open; else it stays queued.
pub release : Env → Frame → State → List Frame × State
unfolding resend
release e f s =
    let t = target_in s.dev.targets f.t in
    let since = tsince_hr e f in
    let f' = record f {
      waited = add_wait f.waited since;
      waited_total = add_wait f.waited_total since;
    } in
    let inc = λ (t : AoeTgt). record (nout_inc t) {
      nout_probes = if f.probe then char_inc t.nout_probes else t.nout_probes;
    } in
    if leb t.maxout t.nout then (f ∷ [], s) else ([], resend e f' (on_target inc f.t s))

pub settle_deferred : Env → Frame → Deferred × State → List Frame × State
unfolding release aoe_freetframe
settle_deferred e f (drop, s) =
    ([], on_dev (λ d. record d { flags = record d.flags { kickme = true } }) (aoe_freetframe f s))
settle_deferred e f (keep, s) = (f ∷ [], s)
settle_deferred e f (ready g, s) = release e g s

-- The walk over `rexmitq`, with the frames that stay.
pub walk_deferred : Env → ℕ → List Frame → State → List Frame × State
unfolding settle_deferred classify
walk_deferred e untainted [] s = ([], s)
walk_deferred e untainted (f ∷ fs) s =
    let (mine, s') = settle_deferred e f (classify e untainted f s) in
    let (others, s'') = walk_deferred e untainted fs s' in (mine ++ others, s'')

unfoldable pub rexmit_deferred : Env → State → State
unfolding walk_deferred
rexmit_deferred e s =
    let (kept, s') = walk_deferred e (count_untainted s.dev.targets) s.dev.rexmitq s in
    on_dev (λ d. record d { rexmitq = kept }) s'
