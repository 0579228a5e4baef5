-- ===== src/Clock.antt =====
-- Time in aoecmd.c: the tags that carry the transmission tick, and the two measures of a round trip.
-- `ulong` and `long` have 64 bits, `int` and `u32` have 32.
pub mod Tag
pub mod Elapsed
pub mod Rtt
use aoe.Prelude.{ℕ, ◌+◌, ◌-◌, ◌*◌, ◌/◌, ◌%◌, ◌^◌, ltb, if◌then◌else◌}
use aoe.Prelude.Int.{ℤ, pos, ◌+ℤ◌, ◌-ℤ◌, ◌*ℤ◌, ltb_ℤ, sub_ℕ, signed32, to_u32}
use aoe.Types.{Env, Frame, usec_per_sec}

-- `newtag`, given `lasttag` (16 bits) and `jiffies`: the tag, and the new `lasttag`. The two parts
-- of the `|` share no bit, so it is a sum.
unfoldable pub newtag : ℕ → ℕ → ℕ × ℕ
newtag lasttag jiffies =
    let last = (lasttag + 1) % 2 ^ 16 in (jiffies % 2 ^ 16 + last % 2 ^ 15 * 2 ^ 16, last)

-- The ticks that `tsince` hands to `jiffies_to_usecs`.
unfoldable pub tsince_ticks : ℕ → ℕ → ℕ
tsince_ticks jiffies tag =
    let j = jiffies % 2 ^ 16 in
    let k = tag % 2 ^ 16 in (if ltb j k then j + 2 ^ 16 - k else j - k) + 1

unfoldable pub tsince : (ℕ → ℕ) → ℕ → ℕ → ℕ
unfolding tsince_ticks
tsince jiffies_to_usecs jiffies tag = jiffies_to_usecs (tsince_ticks jiffies tag)

-- A conversion to `int`, and the negation of one, which wraps at the least `int`.
abbrev pub to_int : ℤ → ℤ
to_int n = signed32 (to_u32 n)

-- `tsince_hr` at the times that it reads: `now` and `sent` in microseconds, and the two counts of
-- jiffies, of which it takes the low 32 bits.
unfoldable pub elapsed : ℕ → ℕ → ℕ → ℕ → ℕ → ℤ
elapsed hz now sent jiffies sent_jiffs =
    let n = to_int (sub_ℕ now sent) in
    let m = if ltb_ℤ n (pos 0) then to_int (pos 0 -ℤ n) else n in
    if ltb_ℤ (pos (usec_per_sec / 4)) m
    then to_int
        (signed32 ((jiffies % 2 ^ 32 + 2 ^ 32 - sent_jiffs) % 2 ^ 32) *ℤ pos (usec_per_sec / hz))
    else m

unfoldable pub tsince_hr : Env → Frame → ℤ
tsince_hr e f = elapsed e.hz e.now f.sent e.jiffies f.sent_jiffs

-- `rto`, in unsigned 32-bit arithmetic as far as the shifts.
unfoldable pub rto : ℕ → ℕ → ℕ
rto rttavg rttdev =
    let t = 2 * rttavg % 2 ^ 32 / 2 ^ 8 + 8 * rttdev % 2 ^ 32 / 2 ^ 3 in if ltb 0 t then t else 1

abs_ℤ : ℤ → ℤ
abs_ℤ n = if ltb_ℤ n (pos 0) then pos 0 -ℤ n else n

-- The averages of `calc_rttavg`: `rttavg` and `rttdev` are `u32`, `n` is a `long`.
unfoldable pub rtt_update : ℕ → ℕ → ℤ → ℕ × ℕ
unfolding abs_ℤ
rtt_update rttavg rttdev rtt =
    let n = rtt -ℤ pos (rttavg / 2 ^ 8) in
    let avg = to_u32 (pos rttavg +ℤ n) in
    let m = abs_ℤ n -ℤ pos (rttdev / 2 ^ 3) in (avg, to_u32 (pos rttdev +ℤ m))
