-- ===== src/Work/Account.antt =====
-- The account of outstanding commands while a device works on its queue.
use aoe.Prelude.{ℕ, zero, suc, ◌+◌, Bool, true, false}
use aoe.Types.{State, Env}
use aoe.Blk.{fail_pending}
use aoe.Blk.View.{view-fail_pending}
use aoe.Send.{aoecmd_ata_rw}
use aoe.Send.Account.{IsBalanced, IsBalanced-of_view}
use aoe.Send.Parts.{ata_rw-Balanced}
use aoe.Rexmit.{rexmit_deferred}
use aoe.Rexmit.Account.{rexmit_deferred-Balanced, choice-Balanced}
use aoe.Work.{work_loop, room, aoecmd_work, aoeblk_request}

work_loop-Balanced :
    (fuel : ℕ) (e : Env) (s : State) → IsBalanced s → IsBalanced (work_loop fuel e s).1
unfolding work_loop
work_loop-Balanced zero e s b = b
work_loop-Balanced (suc fuel) e s b =
    on_sent (aoecmd_ata_rw e s).0
      (work_loop-Balanced fuel e (aoecmd_ata_rw e s).1 (ata_rw-Balanced e s b))
      (ata_rw-Balanced e s b)
  where
    on_sent :
        (sent : Bool)
        → IsBalanced (work_loop fuel e (aoecmd_ata_rw e s).1).1
        → IsBalanced (aoecmd_ata_rw e s).1
        → IsBalanced
            (elim sent as (λ _. Bool × State) [
              | true ↦ work_loop fuel e (aoecmd_ata_rw e s).1
              | false ↦ (true, (aoecmd_ata_rw e s).1)
            ]).1
    on_sent true r h = r
    on_sent false r h = h

pub aoecmd_work-Balanced : (e : Env) (s : State) → IsBalanced s → IsBalanced (aoecmd_work e s)
unfolding aoecmd_work
aoecmd_work-Balanced e s b =
    let s' = rexmit_deferred e s in
    work_loop-Balanced (room s'.dev.targets + 1) e s' (rexmit_deferred-Balanced e s b)

-- `aoeblk_request` keeps each target's count of outstanding commands equal to the number of its
-- frames in the hash: sending deferred frames again, sending parts of the queue's requests for as
-- long as frames are to be had, and failing the queue where the device is down.
pub aoeblk_request-Balanced : (e : Env) (s : State) → IsBalanced s → IsBalanced (aoeblk_request e s)
unfolding aoeblk_request
aoeblk_request-Balanced e s b =
    choice-Balanced s.dev.flags.up (aoecmd_work e s) (fail_pending s) (aoecmd_work-Balanced e s b)
      (IsBalanced-of_view s (fail_pending s) (view-fail_pending s) b)
