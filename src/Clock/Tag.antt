-- ===== src/Clock/Tag.antt =====
-- What the tags of `newtag` promise.
use aoe.Prelude.{ℕ, zero, suc, ◌+◌, ◌-◌, ◌%◌, ◌^◌, ◌<◌, ◌≡◌, ◌≢◌, arith}
use aoe.Clock.{newtag, tsince_ticks}

-- A tag leaves the top bit clear, carries the low sixteen bits of the tick, and never takes
-- the value 2 ^ 32 - 1 that stands for an unused frame.
pub newtag_bits :
    (last j : ℕ)
    → let tag = (newtag last j).0 in
      (tag < 2 ^ 31)
      × (tag % 2 ^ 16 ≡ j % 2 ^ 16)
      × (tag ≢ 2 ^ 32 - 1)
      × ((newtag last j).1 < 2 ^ 16)
unfolding newtag
newtag_bits last j = omega arith

-- `lasttag` after `n` more tags.
pub lasttag_after : ℕ → ℕ → ℕ
lasttag_after last zero = last
lasttag_after last (suc n) = (lasttag_after last n + 1) % 2 ^ 16

lasttag_after-mod : (last n : ℕ) → last < 2 ^ 16 → lasttag_after last n ≡ (last + n) % 2 ^ 16
unfolding lasttag_after
lasttag_after-mod last zero h = omega arith
lasttag_after-mod last (suc n) h = omega (arith, lasttag_after-mod last n h)

-- Two tags of a device fewer than 2 ^ 15 apart differ, whatever the ticks at which they are made.
pub newtag-ne :
    (last n j k : ℕ)
    → last < 2 ^ 16
    → n + 1 < 2 ^ 15
    → (newtag last j).0 ≢ (newtag (lasttag_after (newtag last j).1 n) k).0
unfolding newtag
newtag-ne last n j k h m = omega (arith, lasttag_after-mod ((last + 1) % 2 ^ 16) n (omega arith))

-- Fewer than 2 ^ 16 ticks after a tag is made, `tsince` counts those ticks, and one more.
pub tsince-newtag : (last j d : ℕ) → d < 2 ^ 16 → tsince_ticks (j + d) (newtag last j).0 ≡ d + 1
unfolding newtag tsince_ticks
tsince-newtag last j d h = ground arith
