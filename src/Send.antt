-- ===== src/Send.antt =====
-- Sending a part of a buf, aoecmd.c: `ata_rw_frameinit`, `aoecmd_ata_rw`.
-- The code hashes a frame before it has filled it in; all of that happens under the device's lock, so
-- here the frame is hashed when it is complete.
pub mod Account
pub mod Parts
use aoe.Prelude.{
  ℕ, ◌+◌, ◌-◌, ◌*◌, ◌/◌, ◌%◌, ◌^◌, Bool, true, false, Option, none, some, List, [], ◌∷◌, ◌++◌, ◌==◌,
  ◌&&◌, ◌||◌, if◌then◌else◌, get_or, min,
}
use aoe.Prelude.Int.{◌+ℤ◌}
use aoe.Types.{
  AoeDev, AoeTgt, Frame, Skb, State, Env, Buf, Iter, AoeHdr, AtaHdr, from_bio, nothing, Payload,
  zero_if, next_alloc, default_bcnt,
}
use aoe.Clock.{newtag}
use aoe.Hdr.{aoehdr_atainit, ata_header}
use aoe.Tgt.{new_target}
use aoe.Targets.{Slots}
use aoe.Frames.{fhash, newframe, on_dev, on_target}
use aoe.Blk.{nextbuf, on_buf, find_buf}

-- The target in a slot; an empty slot, which no frame names, reads as a blank target.
abbrev pub target_in : Slots → ℕ → AoeTgt
target_in ts i = elim (get_or ts i none) [ none ↦ new_target 0 0 | some t ↦ t ]

abbrev pub nd_of : AoeTgt → Option ℕ
nd_of t = (get_or t.ifs t.ifp zero_if).nd

abbrev pub addr_of : Env → Option ℕ → ℕ
addr_of e none = 0
addr_of e (some nd) = e.dev_addr nd

-- `newtag` of a device.
unfoldable pub dev_tag : Env → AoeDev → ℕ × AoeDev
unfolding newtag
dev_tag e d = let (tag, last) = newtag d.lasttag e.jiffies in (tag, record d { lasttag = last })

-- `nout++` and `nout--`, of an `unsigned short`.
abbrev pub nout_inc : AoeTgt → AoeTgt
nout_inc t = record t { nout = (t.nout + 1) % 2 ^ 16 }

abbrev pub nout_dec : AoeTgt → AoeTgt
nout_dec t = record t { nout = (t.nout + 2 ^ 16 - 1) % 2 ^ 16 }

abbrev pub fill_skb : AoeHdr → AtaHdr → Option ℕ → ℕ → Payload → Option Skb → Option Skb
fill_skb h ah nd n p none = none
fill_skb h ah nd n p (some skb) =
    some (record skb { hdr = h; ata = ah; dev = nd; data_len = n; payload = p })

abbrev pub writes : Option Buf → Bool
writes none = false
writes (some b) = b.write

abbrev pub buf_of : AoeDev → Frame → Option Buf
buf_of d f = elim f.buf [ none ↦ none | some id ↦ find_buf id d.bufs ]

abbrev pub payload_of : Option Buf → Iter → Payload
payload_of none it = nothing
payload_of (some b) it = if b.write then from_bio b.rq b.bio it else nothing

-- `ata_rw_frameinit`: the headers, the counts of the target, and the frame, still to be hashed.
unfoldable pub ata_rw_frameinit : Env → Frame → State → Frame × State
unfolding dev_tag aoehdr_atainit ata_header
ata_rw_frameinit e f s =
    let t = target_in s.dev.targets f.t in
    let (tag, d) = dev_tag e s.dev in
    let b = buf_of s.dev f in
    let h = aoehdr_atainit tag (addr_of e (nd_of t)) t.addr d.aoemajor d.aoeminor in
    let ah = ata_header d.flags.ext (writes b) f.iter in
    let n : ℕ = if writes b then f.iter.size else 0 in
    (
      record f {
        tag = tag;
        nout = (t.nout + 1) % 2 ^ 16;
        waited = 0;
        waited_total = 0;
        skb = fill_skb h ah (nd_of t) n (payload_of b f.iter) f.skb;
      },
      on_target
          (λ t. record (nout_inc t) {
            wpkts = if writes b then t.wpkts + 1 else t.wpkts;
            rpkts = if writes b then t.rpkts else t.rpkts + 1;
          })
          f.t (record s { dev = d }),
    )

abbrev pub sent_skb : Option Skb → List Skb → List Skb
sent_skb none tx = tx
sent_skb (some skb) tx = tx ++ skb ∷ []

-- The clone of the frame's skb goes to `aoenet_xmit`; if it cannot be made, nothing is sent and the
-- times are as they were.
unfoldable pub transmit : Env → Frame → State → Frame × State
transmit e f s =
    let (ok, rest) = next_alloc s.kern.allocs in
    if ok
    then (
      record f { sent = e.now; sent_jiffs = e.jiffies % 2 ^ 32 },
      record s { kern = record s.kern { allocs = rest; tx = sent_skb f.skb s.kern.tx } },
    )
    else (f, record s { kern = record s.kern { allocs = rest } })

unfoldable pub hash_frame : Frame × State → State
unfolding fhash
hash_frame (f, s) = on_dev (λ d. record d { factive = fhash f d.factive }) s

abbrev pub payload_size : AoeDev → ℕ
payload_size d = if d.maxbcnt == 0 then default_bcnt else d.maxbcnt

-- `ata_rw_frameinit`, the transmission and the hash.
unfoldable pub send_command : Env → Frame → State → State
unfolding hash_frame transmit ata_rw_frameinit
send_command e f s = let (f', s') = ata_rw_frameinit e f s in hash_frame (transmit e f' s')

abbrev pub part_size : AoeDev → Buf → ℕ
part_size d b = min (payload_size d) b.iter.size

-- The frame takes the next part of the buf, at most the payload's size.
unfoldable pub part_frame : AoeDev → Buf → Frame → Frame
part_frame d b f = record f { buf = some b.id; iter = record b.iter { size = part_size d b } }

-- The buf moves on by that part, and is no longer in progress when nothing is left of it.
unfoldable pub part_dev : Env → Buf → AoeDev → AoeDev
part_dev e b d =
    let rest = e.bio_advance_iter b.iter (part_size d b) in
    record d {
      bufs = on_buf (λ b. record b { iter = rest; nframesout = b.nframesout + 1 }) b.id d.bufs;
      ip = if rest.size == 0 then record d.ip { buf = none } else d.ip;
    }

-- `aoecmd_ata_rw` from where it has its frame.
unfoldable pub send_part : Env → Buf → Frame → State → State
unfolding send_command part_frame part_dev
send_part e b f s = send_command e (part_frame s.dev b f) (record s { dev = part_dev e b s.dev })

unfoldable pub rw_frame : Env → Buf → Option Frame × State → Bool × State
unfolding send_part
rw_frame e b (none, s) = (false, s)
rw_frame e b (some f, s) = (true, send_part e b f s)

unfoldable pub rw_buf : Env → Option Buf × State → Bool × State
unfolding rw_frame newframe
rw_buf e (none, s) = (false, s)
rw_buf e (some b, s) = rw_frame e b (newframe e s)

-- `aoecmd_ata_rw`: whether it sent a part of the next buf.
unfoldable pub aoecmd_ata_rw : Env → State → Bool × State
unfolding rw_buf nextbuf
aoecmd_ata_rw e s = rw_buf e (nextbuf s)
