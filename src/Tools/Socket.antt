-- ===== src/Tools/Socket.antt =====
-- The raw socket as aoeping.c and aoecfg.c use it: what `write` and `read` will answer stands in two
-- lists, and a tool sends, receives or ends. A list of writes that is over stands for writes that
-- all succeed.
pub mod First
pub mod Numbered
use aoe.Prelude.{
  ℕ, zero, suc, ◌+◌, Bool, true, false, List, [], ◌∷◌, ◌&&◌, not, if◌then◌else◌, ltb, length,
}
use aoe.Types.{AoeHdr}

pub record Packet : Type 0 where
  pub kind : ℕ
  pub hdr : AoeHdr
  pub body : List ℕ

abbrev pub len_of : Packet → ℕ
len_of p = 24 + length p.body

-- How a wait for a packet ends. The time is over where `alarm` ends the process, or `select` says
-- so.
pub data Event : Type 0 where
  failed : Event
  timed_out : Event
  got : Packet → Event

-- How a tool ends; `waiting` where no more comes.
pub data Exit : Type 0 where
  success : Exit
  failure : Exit
  late : Exit
  waiting : Exit

-- What was sent, the last packet first.
pub record Socket : Type 0 where
  pub writes : List Bool
  pub reads : List Event
  pub sent : List Packet

pub data Ran (A : Type 0) : Type 0 where
  stopped : Exit → Socket → Ran A
  ran : A → Socket → Ran A

abbrev pub and_then : {A B : Type 0} → Ran A → (A → Socket → Ran B) → Ran B
and_then (stopped e s) k = stopped e s
and_then (ran a s) k = k a s

-- `write` of a packet; the tool ends where it fails.
abbrev pub written : List Bool → Packet → Socket → Ran Unit
written [] p s = ran tt (record s { sent = p ∷ s.sent })
written (true ∷ ws) p s = ran tt (record s { writes = ws; sent = p ∷ s.sent })
written (false ∷ ws) p s = stopped failure (record s { writes = ws })

unfoldable pub send : Packet → Socket → Ran Unit
send p s = written s.writes p s

-- The loop of `read` that goes on until a packet of 60 bytes or more passes the test.
abbrev pub fits : (Packet → Bool) → Packet → Bool
fits ok p = not (ltb (len_of p) 60) && ok p

unfoldable pub read_until : (Packet → Bool) → List Event → Socket → Ran Packet
read_until ok [] s = stopped waiting (record s { reads = [] })
read_until ok (failed ∷ rs) s = stopped failure (record s { reads = rs })
read_until ok (timed_out ∷ rs) s = stopped late (record s { reads = rs })
read_until ok (got p ∷ rs) s =
    let rest = read_until ok rs s in if fits ok p then ran p (record s { reads = rs }) else rest

unfoldable pub receive : (Packet → Bool) → Socket → Ran Packet
unfolding read_until
receive ok s = read_until ok s.reads s
