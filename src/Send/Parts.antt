-- ===== src/Send/Parts.antt =====
-- Sending the parts of a buf keeps the account.
use aoe.Prelude.{Option, none, some}
use aoe.Types.{Frame, State, Env, Buf}
use aoe.Blk.{nextbuf}
use aoe.Blk.View.{view-nextbuf}
use aoe.Frames.{newframe}
use aoe.Frames.View.{view-newframe}
use aoe.Send.{part_frame, part_dev, send_command, send_part, rw_frame, rw_buf, aoecmd_ata_rw}
use aoe.Send.Account.{IsBalanced, IsBalanced-of_view, command-Balanced}

part-Balanced :
    (e : Env) (b : Buf) (s : State)
    → IsBalanced s
    → IsBalanced (record s { dev = part_dev e b s.dev })
unfolding part_dev
part-Balanced e b s h = h

send_part-Balanced :
    (e : Env) (b : Buf) (f : Frame) (s : State) → IsBalanced s → IsBalanced (send_part e b f s)
unfolding send_part send_command
send_part-Balanced e b f s h =
    command-Balanced e (part_frame s.dev b f) (record s { dev = part_dev e b s.dev })
      (part-Balanced e b s h)

rw_frame-Balanced :
    (e : Env) (b : Buf) (r : Option Frame × State) → IsBalanced r.1 → IsBalanced (rw_frame e b r).1
unfolding rw_frame
rw_frame-Balanced e b (none, s) h = h
rw_frame-Balanced e b (some f, s) h = send_part-Balanced e b f s h

rw_buf-Balanced : (e : Env) (r : Option Buf × State) → IsBalanced r.1 → IsBalanced (rw_buf e r).1
unfolding rw_buf
rw_buf-Balanced e (none, s) h = h
rw_buf-Balanced e (some b, s) h =
    rw_frame-Balanced e b (newframe e s)
      (IsBalanced-of_view s (newframe e s).1 (view-newframe e s) h)

-- `aoecmd_ata_rw`, whether it sends or not, keeps the account.
pub ata_rw-Balanced : (e : Env) (s : State) → IsBalanced s → IsBalanced (aoecmd_ata_rw e s).1
unfolding aoecmd_ata_rw
ata_rw-Balanced e s h =
    rw_buf-Balanced e (nextbuf s) (IsBalanced-of_view s (nextbuf s).1 (view-nextbuf s) h)
