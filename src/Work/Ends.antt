-- ===== src/Work/Ends.antt =====
-- The loop of `aoecmd_work` comes to its end: each command takes one place of the targets' windows.
use aoe.Prelude.{ℕ, suc, ◌+◌, ◌≡◌, Bool, true, if◌then◌else◌}
use aoe.Types.{AoeTgt, State}
use aoe.Frames.View.{View}
use aoe.Frames.Sound.{IsSound}
use aoe.Frames.Chosen.{Chosen}
use aoe.Send.{nout_inc}
use aoe.Work.{room}

counted : Bool → AoeTgt → AoeTgt
counted w t = record (nout_inc t) {
  wpkts = if w then t.wpkts + 1 else t.wpkts;
  rpkts = if w then t.rpkts else t.rpkts + 1;
}

-- A step of the loop: where it sends, it takes one place; it leaves a sound state.
abbrev Stepped : ℕ → Bool × State → Type 0
Stepped n (sent, s) = IsSound s × (sent ≡ true → suc (room s.dev.targets) ≡ n)
