-- ===== src/Fail/Account.antt =====
-- Ending requests and bufs, and failing them, keeps the account of outstanding commands.
use aoe.Prelude.{ℕ, false, Option, none, some, ◌==◌}
use aoe.Types.{State, Env, Buf}
use aoe.Frames.{on_dev}
use aoe.Send.Account.{IsBalanced}
use aoe.Rexmit.Account.{choice-Balanced}
use aoe.Work.Account.{aoeblk_request-Balanced}
use aoe.Blk.{find_rq, find_buf, end_request}
use aoe.Fail.{
  aoe_end_request, end_if_done, aoe_end_buf, special_of, ulong_dec, buf_gone, buf_failed,
  fail_found, aoe_failbuf,
}

-- Ending requests and bufs, which may start work.
end_request-Balanced :
    (e : Env) (id : ℕ) (s : State) → IsBalanced s → IsBalanced (aoe_end_request e id false s)
unfolding aoe_end_request end_request
end_request-Balanced e id s b = aoeblk_request-Balanced e (end_request id false s) b

end_if_done-Balanced :
    (e : Env) (id n : ℕ) (s : State) → IsBalanced s → IsBalanced (end_if_done e id n s)
unfolding end_if_done
end_if_done-Balanced e id n s b =
    choice-Balanced (n == 0) (aoe_end_request e id false s) s (end_request-Balanced e id s b) b

pub end_buf-Balanced :
    (e : Env) (c : Buf) (s : State) → IsBalanced s → IsBalanced (aoe_end_buf e c s)
unfolding aoe_end_buf
end_buf-Balanced e c s b =
    let n = ulong_dec (special_of (find_rq c.rq s.dev.started)) in
    end_if_done-Balanced e c.rq n (on_dev (buf_gone c n) s) b

fail_found-Balanced :
    (e : Env) (o : Option Buf) (s : State) → IsBalanced s → IsBalanced (fail_found e o s)
unfolding fail_found
fail_found-Balanced e none s b = b
fail_found-Balanced e (some c) s b =
    let s' = on_dev (buf_failed c) s in
    choice-Balanced (c.nframesout == 0) (aoe_end_buf e c s') s' (end_buf-Balanced e c s' b) b

pub failbuf-Balanced :
    (e : Env) (o : Option ℕ) (s : State) → IsBalanced s → IsBalanced (aoe_failbuf e o s)
unfolding aoe_failbuf
failbuf-Balanced e none s b = b
failbuf-Balanced e (some id) s b = fail_found-Balanced e (find_buf id s.dev.bufs) s b
