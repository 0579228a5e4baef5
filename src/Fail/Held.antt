-- ===== src/Fail/Held.antt =====
-- What failing frames and requests leaves alone, on a device that is down: the lists of frames, the
-- minor number and the disk, and the targets up to their free lists.
use aoe.Prelude.{
  ℕ, ◌≡◌, refl, ap, ◌∙◌, Bool, true, false, Option, none, some, List, [], ◌∷◌, if◌then◌else◌, ◌==◌,
}
use aoe.Types.{DevFlags, Frame, State, Env, Buf, Request}
use aoe.Targets.{Slots}
use aoe.Frames.{aoe_freetframe, on_dev}
use aoe.Frames.Hash.{Buckets}
use aoe.Frames.Quiet.{core, bare, core-aoe_freetframe}
use aoe.Blk.{find_rq, find_buf, end_request, fail_each, fail_queue, fail_pending}
use aoe.Work.{aoecmd_work, aoeblk_request}
use aoe.Fail.{
  aoe_end_request, end_if_done, aoe_end_buf, fail_found, aoe_failbuf, fail_bios, fail_rest,
  fail_request, aoe_failip, one_frame_less, ulong_dec, special_of, buf_gone, buf_failed,
  bios_failed, downdev_frame, downdev_frames,
}

abbrev pub Holding : Type 0
Holding = DevFlags × List Frame × Buckets × Slots × ℕ × Option ℕ

abbrev pub held : State → Holding
held s =
    (s.dev.flags, s.dev.rexmitq, s.dev.factive, bare s.dev.targets, s.dev.sysminor, s.dev.capacity)

abbrev pub IsDown : State → Type 0
IsDown s = s.dev.flags.up ≡ false

-- What `t` holds, `s` held, and so it is down as well.
abbrev pub Keeps : State → State → Type 0
Keeps s t = held t ≡ held s

pub Keeps-IsDown : (s t : State) → IsDown s → Keeps s t → IsDown t
Keeps-IsDown s t d k = ap (λ (h : Holding). h.0.up) k ∙ d

held-fail_each : (q : List Request) (s : State) → Keeps s (fail_each q s)
unfolding fail_each end_request
held-fail_each [] s = refl
held-fail_each (rq ∷ rest) s =
    let s' = record s { dev = record s.dev { started = rq ∷ s.dev.started } } in
    held-fail_each rest (end_request rq.id true s')

held-fail_queue : (o : Option (List Request)) (s : State) → Keeps s (fail_queue o s)
unfolding fail_queue
held-fail_queue none s = refl
held-fail_queue (some q) s = held-fail_each q s

pub held-fail_pending : (s : State) → Keeps s (fail_pending s)
unfolding fail_pending
held-fail_pending s = held-fail_queue s.dev.blkq s

either : (c : Bool) (s x y : State) → Keeps s x → Keeps s y → Keeps s (if c then x else y)
either true s x y k l = k
either false s x y k l = l

second : (c : Bool) (s x y : State) → c ≡ false → Keeps s y → Keeps s (if c then x else y)
second true s x y e l = absurd (cc e)
second false s x y e l = l

held-aoeblk_request : (e : Env) (s : State) → IsDown s → Keeps s (aoeblk_request e s)
unfolding aoeblk_request
held-aoeblk_request e s d =
    second s.dev.flags.up s (aoecmd_work e s) (fail_pending s) d (held-fail_pending s)

held-aoe_end_request :
    (e : Env) (id : ℕ) (ff : Bool) (s : State) → IsDown s → Keeps s (aoe_end_request e id ff s)
unfolding aoe_end_request end_request
held-aoe_end_request e id true s d = refl
held-aoe_end_request e id false s d = held-aoeblk_request e (end_request id false s) d

held-end_if_done : (e : Env) (id n : ℕ) (s : State) → IsDown s → Keeps s (end_if_done e id n s)
unfolding end_if_done
held-end_if_done e id n s d =
    either (n == 0) s (aoe_end_request e id false s) s (held-aoe_end_request e id false s d) refl

held-aoe_end_buf : (e : Env) (b : Buf) (s : State) → IsDown s → Keeps s (aoe_end_buf e b s)
unfolding aoe_end_buf
held-aoe_end_buf e b s d =
    let n = ulong_dec (special_of (find_rq b.rq s.dev.started)) in
    held-end_if_done e b.rq n (on_dev (buf_gone b n) s) d

held-fail_found : (e : Env) (o : Option Buf) (s : State) → IsDown s → Keeps s (fail_found e o s)
unfolding fail_found
held-fail_found e none s d = refl
held-fail_found e (some b) s d =
    let s' = on_dev (buf_failed b) s in
    either (b.nframesout == 0) s (aoe_end_buf e b s') s' (held-aoe_end_buf e b s' d) refl

held-aoe_failbuf : (e : Env) (o : Option ℕ) (s : State) → IsDown s → Keeps s (aoe_failbuf e o s)
unfolding aoe_failbuf
held-aoe_failbuf e none s d = refl
held-aoe_failbuf e (some id) s d = held-fail_found e (find_buf id s.dev.bufs) s d

held-fail_rest : (e : Env) (o : Option Request) (s : State) → IsDown s → Keeps s (fail_rest e o s)
unfolding fail_rest
held-fail_rest e none s d = refl
held-fail_rest e (some rq) s d =
    let r = fail_bios s.dev.ip.nxbio rq.bios rq.special in
    held-end_if_done e rq.id r.1 (on_dev (bios_failed rq r.0 r.1) s) d

held-fail_request : (e : Env) (o : Option ℕ) (s : State) → IsDown s → Keeps s (fail_request e o s)
unfolding fail_request
held-fail_request e none s d = refl
held-fail_request e (some id) s d = held-fail_rest e (find_rq id s.dev.started) s d

pub held-aoe_failip : (e : Env) (s : State) → IsDown s → Keeps s (aoe_failip e s)
unfolding aoe_failip
held-aoe_failip e s d =
    let s' = aoe_failbuf e s.dev.ip.buf s in
    let k = held-aoe_failbuf e s.dev.ip.buf s d in
    held-fail_request e s'.dev.ip.rq s' (Keeps-IsDown s s' d k) ∙ k

held-freetframe : (f : Frame) (s : State) → Keeps s (aoe_freetframe f s)
unfolding core
held-freetframe f s =
    ap
      (λ (x : State).
        (x.dev.flags, x.dev.rexmitq, x.dev.factive, x.dev.targets, x.dev.sysminor, x.dev.capacity))
      (core-aoe_freetframe f s)

held-one_less : (o : Option ℕ) (s : State) → Keeps s (on_dev (one_frame_less o) s)
held-one_less none s = refl
held-one_less (some id) s = refl

held-downdev_frame : (e : Env) (f : Frame) (s : State) → IsDown s → Keeps s (downdev_frame e f s)
unfolding downdev_frame
held-downdev_frame e f s d =
    let s1 = on_dev (one_frame_less f.buf) s in
    let s2 = aoe_failbuf e f.buf s1 in
    held-freetframe f s2
    ∙ held-aoe_failbuf e f.buf s1 (Keeps-IsDown s s1 d (held-one_less f.buf s))
    ∙ held-one_less f.buf s

pub held-downdev_frames :
    (e : Env) (fs : List Frame) (s : State) → IsDown s → Keeps s (downdev_frames e fs s)
unfolding downdev_frames
held-downdev_frames e [] s d = refl
held-downdev_frames e (f ∷ fs) s d =
    let s' = downdev_frame e f s in
    let k = held-downdev_frame e f s d in held-downdev_frames e fs s' (Keeps-IsDown s s' d k) ∙ k
