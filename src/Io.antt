-- ===== src/Io.antt =====
-- The end of a command, aoecmd.c: `bvcpy`, `ktiocomplete`, `aoe_flush_iocq_by_index`. The locks are
-- taken twice, around what a response means and around what it ends; the frame and its buf are
-- this thread's in between.
pub mod Account
pub mod Loop
use aoe.Prelude.{
  ℕ, ◌+◌, ◌-◌, ◌*◌, ◌/◌, ◌%◌, ◌^◌, Bool, true, false, Option, none, some, List, [], ◌∷◌, ◌++◌, ltb,
  ◌==◌, ◌&&◌, ◌||◌, not, if◌then◌else◌, modify,
}
use aoe.Prelude.Int.{char_inc}
use aoe.Types.{
  AoeDev, AoeTgt, AoeIf, AtaHdr, Copied, Frame, Response, Skb, State, Kern, Env, Buf, zero_ata,
  next_alloc,
}
use aoe.Ifs.{getif}
use aoe.Tgt.{less_tainted}
use aoe.Targets.{count_untainted}
use aoe.Frames.{aoe_freetframe, on_dev, on_target}
use aoe.Blk.{find_buf, on_buf, on_rq}
use aoe.Send.{target_in}
use aoe.Rexmit.{probe_if, is_zero}
use aoe.Fail.{aoe_end_buf, aoe_failbuf, fail_bio, ulong_dec}
use aoe.Rsp.{aoedev_put}
use aoe.Ident.{ataid_complete}

-- `cmdstat & 0xa9`.
abbrev pub ata_failed : ℕ → Bool
ata_failed c =
    not (c % 2 == 0)
    || not (c / 2 ^ 3 % 2 == 0)
    || not (c / 2 ^ 5 % 2 == 0)
    || not (c / 2 ^ 7 % 2 == 0)

-- The ATA header that the frame was sent with.
abbrev pub sent_ata : Option Skb → AtaHdr
sent_ata none = zero_ata
sent_ata (some skb) = skb.ata

-- `buf->bio->bi_error = -EIO`.
unfoldable pub fail_buf : Option Buf → State → State
fail_buf none s = s
fail_buf (some b) s =
    on_dev
      (λ d. record d {
        started = on_rq (λ r. record r { bios = modify fail_bio r.bios b.bio }) b.rq d.started;
      })
      s

abbrev pub take_bytes : ℕ → List ℕ → List ℕ
take_bytes n [] = []
take_bytes n (b ∷ bs) = let rest = take_bytes (n - 1) bs in if n == 0 then [] else b ∷ rest

-- `bvcpy` of `n` bytes at the frame's place in its bio.
unfoldable pub bvcpy : Option Buf → Frame → Response → ℕ → State → State
bvcpy none f r n s = s
bvcpy (some b) f r n s = record s {
  kern = record s.kern {
    copied =
        s.kern.copied
        ++ (record {
          rq = b.rq;
          bio = b.bio;
          iter = record f.iter { size = n };
          bytes = take_bytes n r.bytes;
        })
          ∷ [];
  };
}

-- The interface that a response came by has lost nothing.
unfoldable pub found_at : Option ℕ → AoeTgt → AoeTgt
found_at none t = t
found_at (some i) t = record t { ifs = modify (λ p. record p { lost = 0 }) t.ifs i }

unfoldable pub no_loss : Frame → Response → State → State
unfolding found_at getif
no_loss f r s = on_target (λ t. found_at (getif t r.dev) t) f.t s

-- A read: too little data, or more than the frame asked for, fails the bio.
unfoldable pub read_done : Option Buf → Frame → Response → ℕ → State → State
unfolding fail_buf bvcpy no_loss
read_done b f r n s =
    if ltb r.len n
    then fail_buf b s
    else if ltb f.iter.size n
    then fail_buf b s
    else no_loss f r (bvcpy b f r n s)

-- An identification, whose data may have to be copied to one place.
unfoldable pub ident_done : Response → State → State
unfolding ataid_complete
ident_done r s =
    let (ok, rest) = next_alloc s.kern.allocs in
    let s' = record s { kern = record s.kern { allocs = rest } } in
    if ltb r.len 512 then s else if ok then ataid_complete r.bytes s' else s'

-- The command bytes of the `switch`.
unfoldable pub dispatch : Option Buf → Frame → Response → State → State
unfolding read_done no_loss ident_done
dispatch b f r s =
    let out = sent_ata f.skb in
    let c = out.cmdstat in
    if c == 0x20 || c == 0x24
    then read_done b f r (out.scnt * 2 ^ 9) s
    else if c == 0x30 || c == 0x34
    then no_loss f r s
    else if c == 0xec
    then ident_done r s
    else s

-- The first part of `ktiocomplete`: what the response to a frame that is no probe means; without a
-- response, or with an error in it, the bio fails.
unfoldable pub ktio_check : Option Buf → Frame → Option Response → State → State
unfolding fail_buf dispatch
ktio_check b f none s = fail_buf b s
ktio_check b f (some r) s = if ata_failed r.ata.cmdstat then fail_buf b s else dispatch b f r s

-- The target's taint goes down by one; while some is left, a probe asks whether the target is back.
unfoldable pub untaint : Env → ℕ → State → State
unfolding probe_if
untaint e i s =
    let t = target_in s.dev.targets i in
    let s' = on_target less_tainted i s in
    if t.taint == 0
    then s
    else probe_if e
        (ltb 1 t.taint && is_zero t.nout_probes && ltb 0 (count_untainted s'.dev.targets)) i s'

-- The buf ends with its last frame, once all of it has been sent.
unfoldable pub end_if_last : Env → Option Buf → State → State
unfolding aoe_end_buf
end_if_last e none s = s
end_if_last e (some b) s = if b.nframesout == 0 && b.iter.size == 0 then aoe_end_buf e b s else s

abbrev pub buf_at : Option ℕ → State → Option Buf
buf_at none s = none
buf_at (some id) s = find_buf id s.dev.bufs

unfoldable pub one_less : Option ℕ → State → State
one_less none s = s
one_less (some id) s =
    on_dev
      (λ d. record d {
        bufs = on_buf (λ b. record b { nframesout = ulong_dec b.nframesout }) id d.bufs;
      })
      s

-- The second part of `ktiocomplete`, and `aoedev_put`.
unfoldable pub ktio_finish : Env → Frame → State → State
unfolding untaint aoe_freetframe one_less end_if_last
ktio_finish e f s =
    let s' = one_less f.buf (aoe_freetframe f (untaint e f.t s)) in
    on_dev aoedev_put (end_if_last e (buf_at f.buf s') s')

unfoldable pub ktiocomplete : Env → Frame → State → State
unfolding ktio_check ktio_finish
ktiocomplete e f s =
    ktio_finish e f (if f.probe then s else ktio_check (buf_at f.buf s) f f.r_skb s)

-- What `aoe_flush_iocq_by_index` does to each of the frames that it takes off a thread's list.
unfoldable pub flush_frame : Env → Frame → State → State
unfolding one_less aoe_failbuf aoe_freetframe
flush_frame e f s = on_dev aoedev_put (aoe_freetframe f (aoe_failbuf e f.buf (one_less f.buf s)))

unfoldable pub flush_frames : Env → List Frame → State → State
unfolding flush_frame
flush_frames e [] s = s
flush_frames e (f ∷ fs) s = flush_frames e fs (flush_frame e f s)

-- `aoe_flush_iocq`, with the lists of all threads as one.
unfoldable pub aoe_flush_iocq : Env → State → State
unfolding flush_frames
aoe_flush_iocq e s =
    flush_frames e s.kern.completions (record s { kern = record s.kern { completions = [] } })
