-- ===== src/Tools/San/Check.antt =====
-- The thread of an interface in aoe-sancheck.c: `jcheck` behind `ethopen`. What `poll`, `read` and
-- `time` say in each turn is an argument.
use aoe.Prelude.{ℕ, ◌+◌, false, Option, none, some, List, [], ◌∷◌, ◌++◌, leb, if◌then◌else◌}
use aoe.Types.{AoeHdr}
use aoe.Tools.San.{San, Sent, Input, discover, jinput}

-- A turn: the time, the packet that is read, with its byte `scnt`, and the time behind it.
pub record Turn : Type 0 where
  pub nt : ℕ
  pub packet : Option (AoeHdr × ℕ)
  pub later : ℕ

abbrev pub heard : ℕ → ℕ → San → Option (AoeHdr × ℕ) → Input
heard ea mtu e none = (false, [], e)
heard ea mtu e (some (a, scnt)) = jinput ea mtu e a scnt

abbrev pub sent_before : List Sent → List Sent × San → List Sent × San
sent_before ps (qs, e) = (ps ++ qs, e)

-- The loop, which ends once nothing useful came for `waitsecs` seconds since `t`.
unfoldable pub turns : ℕ → ℕ → ℕ → ℕ → List Turn → San → List Sent × San
unfolding jinput
turns waitsecs ea mtu t [] e = ([], e)
turns waitsecs ea mtu t (k ∷ ks) e =
    let r = heard ea mtu e k.packet in
    let rest = turns waitsecs ea mtu (if r.0 then k.later else t) ks r.2 in
    if leb (t + waitsecs) k.nt then ([], e) else sent_before r.1 rest

unfoldable pub jcheck : ℕ → ℕ → ℕ → ℕ → List Turn → San → List Sent × San
unfolding turns
jcheck waitsecs ea mtu t ks e = sent_before (discover ea ∷ []) (turns waitsecs ea mtu t ks e)
