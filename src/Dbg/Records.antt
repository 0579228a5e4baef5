-- ===== src/Dbg/Records.antt =====
-- What the record of a response says: `aoedbg_rtt`.
use aoe.Prelude.{
  ℕ, ◌+◌, ◌*◌, ◌/◌, ◌%◌, ◌^◌, ◌≡◌, ◌≤◌, ◌<◌, refl, Option, arith, ◌||◌, Bool-cases, inl, inr,
}
use aoe.Types.{AoeDev, AoeTgt, Frame, AoeHdr, AtaHdr}
use aoe.Dbg.{Timeval, reltime_of, rtt_record, is_orphan, bit}

-- A time in microseconds.
abbrev pub micros : Timeval → ℕ
micros t = t.sec * 1000000 + t.usec

-- `reltime` is the time since the start as long as that is less than 2^32 microseconds, also where
-- the microseconds of the clock are fewer than those of the start.
pub reltime_lem :
    (start now : Timeval)
    → start.usec < 1000000
    → now.usec < 1000000
    → micros start ≤ micros now
    → micros now < micros start + 2 ^ 32
    → reltime_of start now + micros start ≡ micros now
unfolding reltime_of
reltime_lem start now h k l m = omega (arith, h, k, l, m)

-- The flags of a record: the bit of a write, 2, is never set, and a write's record has the bit of a
-- response without a frame, 1.
pub flags_lem :
    (start now : Timeval) (d : AoeDev) (h : AoeHdr) (ah : AtaHdr) (f : Option (Frame × AoeTgt))
    (rtt seq : ℕ)
    → ((rtt_record start now d h ah f rtt seq).flags / 2 % 2 ≡ 0)
      × ((rtt_record start now d h ah f rtt seq).flags % 2 ≡ bit (is_orphan f || ah.write))
unfolding rtt_record
flags_lem start now d h ah f rtt seq = elim (Bool-cases (is_orphan f || ah.write)) [
  | inl y ↦ rw y (refl, refl)
  | inr n ↦ rw n (refl, refl)
]
