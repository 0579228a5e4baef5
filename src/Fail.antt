-- ===== src/Fail.antt =====
-- The end of a request, and the failure of a device, aoecmd.c: `aoe_end_request`, `aoe_end_buf`,
-- `aoe_failbuf`; aoedev.c: `aoe_failip`, `downdev_frame`, `aoedev_downdev`.
pub mod Held
pub mod Downdev
pub mod Account
use aoe.Prelude.{
  ℕ, zero, suc, ◌+◌, ◌-◌, ◌%◌, ◌^◌, Bool, true, false, Option, none, some, List, [], ◌∷◌, ◌++◌,
  ◌==◌, if◌then◌else◌, length, modify,
}
use aoe.Types.{AoeDev, AoeTgt, Frame, State, Env, Buf, Bio, Request}
use aoe.Ifs.{same}
use aoe.Tgt.{aoecmd_wreset}
use aoe.Targets.{each_target}
use aoe.Frames.{aoe_freetframe, on_dev}
use aoe.Blk.{find_rq, on_rq, find_buf, on_buf, drop_buf, end_request, fail_pending}
use aoe.Work.{aoeblk_request}

-- `aoe_end_request`; `__blk_run_queue` calls `aoeblk_request`.
unfoldable pub aoe_end_request : Env → ℕ → Bool → State → State
unfolding end_request aoeblk_request
aoe_end_request e id fastfail s =
    if fastfail then end_request id true s else aoeblk_request e (end_request id false s)

-- `--n` of an `unsigned long`.
abbrev pub ulong_dec : ℕ → ℕ
ulong_dec n = (n + 2 ^ 64 - 1) % 2 ^ 64

abbrev pub special_of : Option Request → ℕ
special_of none = 0
special_of (some rq) = rq.special

-- The end of a request whose bios have all been counted.
unfoldable pub end_if_done : Env → ℕ → ℕ → State → State
unfolding aoe_end_request
end_if_done e id n s = if n == 0 then aoe_end_request e id false s else s

-- The buf is freed, its request's `special` is `n`.
abbrev pub buf_gone : Buf → ℕ → AoeDev → AoeDev
buf_gone b n d = record d {
  ip = record d.ip { buf = if same (some b.id) d.ip.buf then none else d.ip.buf };
  bufs = drop_buf b.id d.bufs;
  started = on_rq (λ r. record r { special = n }) b.rq d.started;
}

unfoldable pub aoe_end_buf : Env → Buf → State → State
unfolding end_if_done
aoe_end_buf e b s =
    let n = ulong_dec (special_of (find_rq b.rq s.dev.started)) in
    end_if_done e b.rq n (on_dev (buf_gone b n) s)

abbrev pub fail_bio : Bio → Bio
fail_bio b = record b { error = true }

-- Nothing is left of the buf, its bio has failed.
abbrev pub buf_failed : Buf → AoeDev → AoeDev
buf_failed b d = record d {
  bufs = on_buf (λ b. record b { iter = record b.iter { size = 0 } }) b.id d.bufs;
  started = on_rq (λ r. record r { bios = modify fail_bio r.bios b.bio }) b.rq d.started;
}

-- `aoe_failbuf`.
pub fail_found : Env → Option Buf → State → State
unfolding aoe_end_buf
fail_found e none s = s
fail_found e (some b) s =
    let s' = on_dev (buf_failed b) s in if b.nframesout == 0 then aoe_end_buf e b s' else s'

unfoldable pub aoe_failbuf : Env → Option ℕ → State → State
unfolding fail_found
aoe_failbuf e none s = s
aoe_failbuf e (some id) s = fail_found e (find_buf id s.dev.bufs) s

-- The loop of `aoe_failip`: the bios from the `k`-th on fail, and `special` loses one for each.
pub fail_bios : ℕ → List Bio → ℕ → List Bio × ℕ
fail_bios k [] n = ([], n)
fail_bios zero (b ∷ bs) n = let (bs', m) = fail_bios zero bs (ulong_dec n) in (fail_bio b ∷ bs', m)
fail_bios (suc k) (b ∷ bs) n = let (bs', m) = fail_bios k bs n in (b ∷ bs', m)

abbrev pub bios_failed : Request → List Bio → ℕ → AoeDev → AoeDev
bios_failed rq bios n d = record d {
  ip = record d.ip { nxbio = length rq.bios };
  started = on_rq (λ r. record r { bios = bios; special = n }) rq.id d.started;
}

pub fail_rest : Env → Option Request → State → State
unfolding fail_bios end_if_done
fail_rest e none s = s
fail_rest e (some rq) s =
    let (bios, n) = fail_bios s.dev.ip.nxbio rq.bios rq.special in
    end_if_done e rq.id n (on_dev (bios_failed rq bios n) s)

pub fail_request : Env → Option ℕ → State → State
unfolding fail_rest
fail_request e none s = s
fail_request e (some id) s = fail_rest e (find_rq id s.dev.started) s

-- `aoe_failip`.
unfoldable pub aoe_failip : Env → State → State
unfolding fail_request aoe_failbuf
aoe_failip e s = let s' = aoe_failbuf e s.dev.ip.buf s in fail_request e s'.dev.ip.rq s'

abbrev pub one_frame_less : Option ℕ → AoeDev → AoeDev
one_frame_less none d = d
one_frame_less (some id) d = record d {
  bufs = on_buf (λ b. record b { nframesout = ulong_dec b.nframesout }) id d.bufs;
}

-- `downdev_frame` of a frame that is off its list.
unfoldable pub downdev_frame : Env → Frame → State → State
unfolding aoe_failbuf aoe_freetframe
downdev_frame e f s = aoe_freetframe f (aoe_failbuf e f.buf (on_dev (one_frame_less f.buf) s))

unfoldable pub downdev_frames : Env → List Frame → State → State
unfolding downdev_frame
downdev_frames e [] s = s
downdev_frames e (f ∷ fs) s = downdev_frames e fs (downdev_frame e f s)

abbrev pub all_frames : List (List Frame) → List Frame
all_frames [] = []
all_frames (b ∷ bs) = b ++ all_frames bs

abbrev pub reset_target : AoeTgt → AoeTgt
reset_target t = record (aoecmd_wreset t) { nout = 0 }

abbrev pub empty_lists : List (List Frame) → List (List Frame)
empty_lists [] = []
empty_lists (b ∷ bs) = [] ∷ empty_lists bs

-- The device is down and its lists of frames are empty.
abbrev pub emptied : AoeDev → AoeDev
emptied d = record d {
  flags = record d.flags { up = false };
  factive = empty_lists d.factive;
  rexmitq = [];
}

abbrev pub no_capacity : Option ℕ → Option ℕ
no_capacity none = none
no_capacity (some n) = some 0

-- `aoedev_downdev`. Nothing that happens to a frame here looks at the lists of frames.
unfoldable pub aoedev_downdev : Env → State → State
unfolding downdev_frames aoe_failip fail_pending
aoedev_downdev e s =
    let frames = all_frames s.dev.factive ++ s.dev.rexmitq in
    let freed = downdev_frames e frames (on_dev emptied s) in
    let reset = on_dev (λ d. record d { targets = each_target reset_target d.targets }) freed in
    let failed = fail_pending (aoe_failip e reset) in
    on_dev (λ d. record d { capacity = no_capacity d.capacity }) failed
