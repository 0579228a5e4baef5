-- ===== src/Work.antt =====
-- The device's work, aoecmd.c: `aoecmd_work`; aoeblk.c: `aoeblk_request`.
pub mod Account
pub mod Ends
use aoe.Prelude.{
  ℕ, zero, suc, ◌+◌, ◌-◌, ◌*◌, ◌/◌, ◌%◌, ◌^◌, Bool, true, false, none, some, [], ◌∷◌, ◌++◌, ◌==◌,
  ◌&&◌, ◌||◌, if◌then◌else◌,
}
use aoe.Prelude.Int.{◌+ℤ◌}
use aoe.Types.{State, Env}
use aoe.Targets.{Slots}
use aoe.Send.{aoecmd_ata_rw}
use aoe.Rexmit.{rexmit_deferred}
use aoe.Blk.{fail_pending}

-- `while (aoecmd_ata_rw(d));` on fuel, with whether the loop ended by its test.
unfoldable pub work_loop : ℕ → Env → State → Bool × State
unfolding aoecmd_ata_rw
work_loop zero e s = (false, s)
work_loop (suc fuel) e s =
    let (sent, s') = aoecmd_ata_rw e s in
    elim sent [ true ↦ work_loop fuel e s' | false ↦ (true, s') ]

-- What the windows of the targets leave room for.
abbrev pub room : Slots → ℕ
room [] = 0
room (none ∷ ts) = room ts
room (some t ∷ ts) = (t.maxout - t.nout) + room ts

unfoldable pub aoecmd_work : Env → State → State
unfolding rexmit_deferred work_loop
aoecmd_work e s = let s' = rexmit_deferred e s in (work_loop (room s'.dev.targets + 1) e s').1

-- `aoeblk_request`, which the block layer also calls by `__blk_run_queue`.
unfoldable pub aoeblk_request : Env → State → State
unfolding aoecmd_work fail_pending
aoeblk_request e s = if s.dev.flags.up then aoecmd_work e s else fail_pending s
