-- ===== src/Clock/Elapsed.antt =====
-- `tsince_hr` against the time that went by.
use aoe.Prelude.{ℕ, ◌+◌, ◌-◌, ◌*◌, ◌/◌, ◌%◌, ◌^◌, ◌≤◌, ◌<◌, ◌≡◌, arith}
use aoe.Prelude.Int.{pos, ◌*ℤ◌, ◌-ℤ◌, sub_ℕ, signed32, to_u32}
use aoe.Types.{usec_per_sec}
use aoe.Clock.{elapsed}

int_of_small : (n : ℕ) → n < 2 ^ 31 → signed32 (to_u32 (pos n)) ≡ pos n
unfolding signed32 to_u32
int_of_small n h = ground arith

wall_time : (t d : ℕ) → d < 2 ^ 31 → signed32 (to_u32 (sub_ℕ (t + d) t)) ≡ pos d
unfolding signed32 to_u32
wall_time t d h = ground arith

jiffies_passed :
    (j n : ℕ) → n < 2 ^ 31 → signed32 (((j + n) % 2 ^ 32 + 2 ^ 32 - j % 2 ^ 32) % 2 ^ 32) ≡ pos n
unfolding signed32
jiffies_passed j n h = ground arith

pos-*ℤ : (n k : ℕ) → pos n *ℤ pos k ≡ pos (n * k)
unfolding ◌*ℤ◌
pos-*ℤ n k = ground arith

-- Up to a quarter of a second the result is the time that went by, and it is so also where
-- the wall clock was set back by that much.
pub elapsed_short :
    (hz t d j s : ℕ)
    → d ≤ usec_per_sec / 4
    → (elapsed hz (t + d) t j s ≡ pos d) × (elapsed hz t (t + d) j s ≡ pos d)
unfolding elapsed signed32 to_u32 ◌-ℤ◌
elapsed_short hz t d j s h = (ground arith, ground arith)

-- Beyond a quarter of a second, and below 2 ^ 31 microseconds on the wall clock, the jiffies count:
-- `n` ticks after the frame was sent the result is `n` ticks' worth of microseconds, also where the
-- 32-bit count of jiffies wraps in between, as long as that fits an `int`.
pub elapsed_long :
    (hz t d j n : ℕ)
    → usec_per_sec / 4 < d
    → d < 2 ^ 31
    → n < 2 ^ 31
    → n * (usec_per_sec / hz) < 2 ^ 31
    → elapsed hz (t + d) t (j + n) (j % 2 ^ 32) ≡ pos (n * (usec_per_sec / hz))
unfolding elapsed
elapsed_long hz t d j n lo hi hn hp = ground (
  arith,
  wall_time t d hi,
  jiffies_passed j n hn,
  pos-*ℤ n (usec_per_sec / hz),
  int_of_small (n * (usec_per_sec / hz)) hp,
)
