-- ===== src/Dbg.antt =====
-- The times that aoedbg.c keeps of a device's responses: `rttstart`, `rttstop`, `aoedbg_devinit`,
-- `aoedbg_rtt`, `aoedbg_undbg`. The relay channel is the kernel's; the model counts the objects
-- and channels that live, and keeps the records that are written. AOEDBG_ACTIVE of aoe.h is an
-- argument.
pub mod Tidy
pub mod Records
use aoe.Prelude.{
  ℕ, zero, suc, ◌+◌, ◌-◌, ◌*◌, ◌/◌, ◌%◌, ◌^◌, Bool, true, false, Option, none, some, List, [], ◌∷◌,
  ◌++◌, ◌||◌, not, if◌then◌else◌,
}
use aoe.Types.{AoeDev, AoeTgt, Frame, AoeHdr, AtaHdr, usec_per_sec}

-- `struct ddbg`, with whether it has a channel.
pub record Ddbg : Type 0 where
  pub rttchan : Bool
  pub rttseq : ℕ

-- The record of a response; the address of the blocks is six bytes.
pub record RttRecord : Type 0 where
  pub seqno : ℕ
  pub rtt : ℕ
  pub reltime : ℕ
  pub rttavg : ℕ
  pub rttdev : ℕ
  pub send_nout : ℕ
  pub rcv_nout : ℕ
  pub ssthresh : ℕ
  pub cwnd : ℕ
  pub lba : List ℕ
  pub flags : ℕ
  pub remote : ℕ
  pub local : ℕ

-- A device's debugging: `dbg`, DEVFL_TKILL, what lives or is written, and whether
-- a pointer that is not there has been used.
pub record Debug : Type 0 where
  pub dbg : Option Ddbg
  pub tkill : Bool
  pub objects : ℕ
  pub channels : ℕ
  pub written : List RttRecord
  pub faulted : Bool

-- `rttstart`, where the channel can be had.
abbrev pub rttstart : Ddbg → Debug → Debug
rttstart g s = record s {
  dbg = some (record g { rttchan = true; rttseq = 0 });
  channels = s.channels + 1;
}

-- `aoedbg_devinit` up to where it lets go of the lock, from `active` and whether memory can be had:
-- whether it goes on, and the state.
abbrev pub begin_at : Option Ddbg → Debug → Bool × Debug
begin_at (some g) s = (false, s)
begin_at none s =
    let fresh : Ddbg = record { rttchan = false; rttseq = 0 } in
    if s.tkill then (false, s) else (true, record s { dbg = some fresh; objects = s.objects + 1 })

unfoldable pub devinit_begin : Bool → Bool → Debug → Bool × Debug
devinit_begin active allocs s =
    if not active then (false, s) else if not allocs then (false, s) else begin_at s.dbg s

-- The rest of it, without the lock, from whether a channel can be had. Where the object has gone
-- meanwhile it goes wrong.
abbrev pub end_at : Bool → Option Ddbg → Debug → Debug
end_at opens none s = record s { faulted = true }
end_at true (some g) s = rttstart g s
end_at false (some g) s = record s { dbg = none; objects = s.objects - 1 }

unfoldable pub devinit_end : Bool → Debug → Debug
devinit_end opens s = end_at opens s.dbg s

-- `rttstop` and `kfree` of `aoedbg_undbg`.
abbrev pub rttstop : Ddbg → Debug → Debug
rttstop g s = if not g.rttchan then s else record s { channels = s.channels - 1 }

abbrev pub undbg_of : Option Ddbg → Debug → Debug
undbg_of none s = s
undbg_of (some g) s = let s' = rttstop g s in record s' { dbg = none; objects = s'.objects - 1 }

unfoldable pub aoedbg_undbg : Debug → Debug
aoedbg_undbg s = undbg_of s.dbg s

-- `struct timeval`.
pub record Timeval : Type 0 where
  pub sec : ℕ
  pub usec : ℕ

-- `reltime`, of 32 bits.
unfoldable pub reltime_of : Timeval → Timeval → ℕ
reltime_of start now =
    let usecs = (now.usec + (2 ^ 32 - start.usec % 2 ^ 32)) % 2 ^ 32 in
    let secs = now.sec + (2 ^ 32 - start.sec % 2 ^ 32) in (usecs + secs * usec_per_sec) % 2 ^ 32

abbrev pub bit : Bool → ℕ
bit false = 0
bit true = 1

-- `r.flags`: R_ORPHAN where there is no frame; then `!!(ah->aflags & AOEAFL_WRITE)`.
abbrev pub flags_of : Bool → Bool → ℕ
flags_of orphan write = bit (orphan || write)

abbrev pub counts : Option (Frame × AoeTgt) → ℕ × ℕ × ℕ × ℕ
counts none = (0, 0, 0, 0)
counts (some (f, t)) = (f.nout % 2 ^ 8, t.nout % 2 ^ 8, t.ssthresh % 2 ^ 8, t.maxout % 2 ^ 8)

abbrev pub is_orphan : Option (Frame × AoeTgt) → Bool
is_orphan none = true
is_orphan (some f) = false

unfoldable pub rtt_record :
    Timeval → Timeval → AoeDev → AoeHdr → AtaHdr → Option (Frame × AoeTgt) → ℕ → ℕ → RttRecord
unfolding reltime_of
rtt_record start now d h ah f rtt seq =
    let c = counts f in
    record {
      seqno = seq;
      rtt = rtt % 2 ^ 32;
      reltime = reltime_of start now;
      rttavg = d.rttavg / 2 ^ 8;
      rttdev = d.rttdev / 2 ^ 3;
      send_nout = c.0;
      rcv_nout = c.1;
      ssthresh = c.2;
      cwnd = c.3;
      lba = ah.lba0 ∷ ah.lba1 ∷ ah.lba2 ∷ ah.lba3 ∷ ah.lba4 ∷ ah.lba5 ∷ [];
      flags = flags_of (is_orphan f) ah.write;
      remote = h.src;
      local = h.dst;
    }

-- `relay_write`; there has to be a channel.
abbrev pub relay_write : Ddbg → RttRecord → Debug → Debug
relay_write g r s =
    if g.rttchan then record s { written = s.written ++ r ∷ [] } else record s { faulted = true }

abbrev pub rtt_at : (ℕ → RttRecord) → Option Ddbg → Debug → Debug
rtt_at r none s = s
rtt_at r (some g) s =
    let seq = (g.rttseq + 1) % 2 ^ 32 in
    if not g.rttchan
    then s
    else relay_write g (r seq) (record s { dbg = some (record g { rttseq = seq }) })

-- `aoedbg_rtt` of a response, with the frame that it answers and the frame's target.
unfoldable pub aoedbg_rtt :
    Timeval → Timeval → AoeDev → AoeHdr → AtaHdr → Option (Frame × AoeTgt) → ℕ → Debug → Debug
unfolding rtt_record
aoedbg_rtt start now d h ah f rtt s = rtt_at (rtt_record start now d h ah f rtt) s.dbg s
