-- ===== src/Tgt.antt =====
-- One target's congestion window and taint, aoecmd.c: `aoecmd_wreset`, `scorn`, the last part of
-- `calc_rttavg`, what `rexmit_timer` does to the target of an expired frame, and `addtgt`'s
-- initialisation.
pub mod Window
use aoe.Prelude.{ℕ, ◌+◌, ◌-◌, ◌*◌, ◌/◌, ◌%◌, ◌^◌, [], ltb, leb, ◌==◌, if◌then◌else◌, replicate}
use aoe.Prelude.Int.{pos}
use aoe.Types.{AoeTgt, naoeifs, max_taint, zero_if}

unfoldable pub aoecmd_wreset : AoeTgt → AoeTgt
aoecmd_wreset t = record t { maxout = 1; ssthresh = t.nframes / 2; next_cwnd = t.nframes }

-- `taint` is an `int`; below 2 ^ 29 the products do not overflow.
unfoldable pub scorn : AoeTgt → AoeTgt
scorn t =
    let n = t.taint in
    let taint = t.taint + 1 + (t.taint + 1) * 2 in
    let kept = if ltb taint n then n else taint in
    record t { taint = if ltb max_taint kept then max_taint else kept }

-- `next_cwnd--` wraps at 0, where it is set anew; `maxout += 1` happens below `nframes`.
unfoldable pub grow_window : AoeTgt → AoeTgt
grow_window t =
    if leb t.nframes t.maxout
    then t
    else if ltb t.maxout t.ssthresh
    then record t { maxout = t.maxout + 1 }
    else if t.nout == t.maxout
    then (if t.next_cwnd == 0
        then record t { maxout = t.maxout + 1; next_cwnd = t.maxout + 1 }
        else record t { next_cwnd = t.next_cwnd - 1 })
    else t

-- `lost` is an `unsigned long`.
unfoldable pub note_loss : AoeTgt → AoeTgt
note_loss t =
    let t' = record t { lost = (t.lost + 1) % 2 ^ 64 } in
    if t.maxout == 1 then t' else record t' { ssthresh = t.maxout / 2; maxout = 1 }

-- What `ktiocomplete` does to the taint of a target that has some.
abbrev pub less_tainted : AoeTgt → AoeTgt
less_tainted t = record t { taint = t.taint - 1 }

-- The new target of `addtgt`.
unfoldable pub new_target : ℕ → ℕ → AoeTgt
unfolding aoecmd_wreset
new_target addr nframes =
    let t = aoecmd_wreset (record {
      addr = addr;
      nframes = nframes;
      ffree = [];
      ifs = replicate naoeifs zero_if;
      ifp = 0;
      nout = 0;
      maxout = 0;
      next_cwnd = 0;
      ssthresh = 0;
      falloc = 0;
      lost = 0;
      taint = 0;
      minbcnt = 0;
      wpkts = 0;
      rpkts = 0;
      nout_probes = pos 0;
    }) in
    record t { maxout = t.nframes / 2 }

-- What `aoecmd_cfg_rsp` does to a target that it knows.
unfoldable pub set_nframes : AoeTgt → ℕ → AoeTgt
unfolding aoecmd_wreset
set_nframes t n =
    let t' = record t { nframes = n } in if ltb n t'.maxout then aoecmd_wreset t' else t'
