-- ===== src/Clock/Rtt.antt =====
-- `calc_rttavg`'s averages and the timeout that `rto` draws from them.
use aoe.Prelude.{ℕ, ◌+◌, ◌-◌, ◌*◌, ◌/◌, ◌^◌, ◌≤◌, ◌<◌, ◌≡◌, arith}
use aoe.Prelude.Int.{pos, ◌+ℤ◌, ◌-ℤ◌, to_u32}
use aoe.Clock.{rto, rtt_update}

-- Where round trips take at most `m` microseconds (below 2 ^ 23), the scaled averages stay below
-- 2 ^ 8 * (m + 1) and 2 ^ 3 * (m + 1): neither 32-bit sum of an update wraps. The new average is the
-- old one less a 256th of it plus the sample.
pub rtt_update_bounds :
    (m avg dev rtt : ℕ)
    → m < 2 ^ 23
    → rtt ≤ m
    → avg < 2 ^ 8 * (m + 1)
    → dev < 2 ^ 3 * (m + 1)
    → let (avg', dev') = rtt_update avg dev (pos rtt) in
      (avg' ≡ avg - avg / 2 ^ 8 + rtt) × (avg' < 2 ^ 8 * (m + 1)) × (dev' < 2 ^ 3 * (m + 1))
unfolding rtt_update ◌+ℤ◌ ◌-ℤ◌ to_u32
rtt_update_bounds m avg dev rtt hm hr ha hd = ground arith

-- Under the same bounds `rto` does not wrap: it is twice the average plus the scaled deviation's
-- eighth of eight, at least one microsecond and at most ten times the longest round trip.
pub rto_bounds :
    (m avg dev : ℕ)
    → m < 2 ^ 23
    → avg < 2 ^ 8 * (m + 1)
    → dev < 2 ^ 3 * (m + 1)
    → (1 ≤ rto avg dev) × (2 * avg / 2 ^ 8 + dev ≤ rto avg dev) × (rto avg dev ≤ 10 * (m + 1))
unfolding rto
rto_bounds m avg dev hm ha hd = ground arith
