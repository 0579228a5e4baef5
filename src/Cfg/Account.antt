-- ===== src/Cfg/Account.antt =====
-- An identification that is asked for is counted among the target's outstanding commands.
use aoe.Prelude.{refl, sym, Option, none, some}
use mathlib.Core.Path.{subst}
use aoe.Types.{Frame, State, Env}
use aoe.Send.{dev_tag, nout_inc, target_in}
use aoe.Send.Account.{Balanced, IsBalanced, IsBalanced-of_view, one_of, inc-Balanced, sent-Balanced}
use aoe.Frames.{newframe, on_target}
use aoe.Frames.Quiet.{bare}
use aoe.Frames.View.{view, view-newframe}
use aoe.Frames.Home.{IsHomed}
use aoe.Frames.Chosen.{Chosen, newframe-Chosen}
use aoe.Targets.{Slots}
use aoe.Cfg.{ata_id_frame, rtt_reset, ata_id_with, aoecmd_ata_id}

ata_id_with-Balanced :
    (v : Slots) (e : Env) (r : Option Frame × State)
    → Chosen v r
    → IsBalanced r.1
    → IsBalanced (ata_id_with e r)
unfolding ata_id_with dev_tag ata_id_frame
ata_id_with-Balanced v e (none, s) c b = b
ata_id_with-Balanced v e (some f, s) c b =
    let d = (dev_tag e s.dev).1 in
    let g = ata_id_frame e d (target_in s.dev.targets s.dev.tgt) (dev_tag e s.dev).0 f in
    let counted =
      inc-Balanced nout_inc s.dev.tgt (record s { dev = rtt_reset d }) (λ t. refl) (λ t w. w) b in
    sent-Balanced e g (on_target nout_inc s.dev.tgt (record s { dev = rtt_reset d })) (
      subst
        (λ j.
          Balanced (one_of j)
            (view (on_target nout_inc s.dev.tgt (record s { dev = rtt_reset d }))))
        (sym c.0) counted)

-- Where every free frame belongs to its slot, `aoecmd_ata_id` keeps the account: the frame that it
-- counts for the target at `d->tgt` is one of that target's.
pub ata_id-Balanced :
    (e : Env) (s : State) → IsHomed s → IsBalanced s → IsBalanced (aoecmd_ata_id e s)
unfolding aoecmd_ata_id
ata_id-Balanced e s h b =
    ata_id_with-Balanced (bare s.dev.targets) e (newframe e s) (newframe-Chosen e s h)
      (IsBalanced-of_view s (newframe e s).1 (view-newframe e s) b)
