-- ===== src/Tools/Smart/Sent.antt =====
-- What a SMART command sends: `smart_registers`, `smart`.
use aoe.Prelude.{ℕ, ◌≡◌, Option, none, some, List}
use aoe.Tools.{byte}
use aoe.Tools.Socket.{Packet}
use aoe.Tools.Ping.{Ata}
use aoe.Tools.Smart.{Smartcmd, Transfer, no_data, put_data, ret_data, sectors_of}

-- The flags in the headers: the version, and the bit that the command's data sets.
abbrev pub flags_of : Transfer → ℕ
flags_of no_data = 0x10
flags_of put_data = 0x11
flags_of ret_data = 0x10

abbrev AreSet : ℕ → Ata → Ata → Type 0
AreSet cmd b a =
    (a.aflag ≡ b.aflag)
    × (a.err ≡ cmd)
    × (a.sectors ≡ b.sectors)
    × (a.cmd ≡ b.cmd)
    × (a.lba1 ≡ 0x4f)
    × (a.lba2 ≡ 0xc2)

-- The registers of a SMART command with its feature; AOEAFL_WRITE is never set, and the bit of its
-- value is set in the headers' flags instead.
abbrev pub IsSmart : Smartcmd → Packet → Type 0
IsSmart s q =
    (q.hdr.verfl ≡ flags_of s.transfer)
    × (byte q.body 0 ≡ 0)
    × (byte q.body 1 ≡ s.cmd)
    × (byte q.body 2 ≡ sectors_of s.transfer)
    × (byte q.body 3 ≡ 0xb0)
    × (byte q.body 5 ≡ 0x4f)
    × (byte q.body 6 ≡ 0xc2)

abbrev pub Sends : Option (List ℕ) → Smartcmd → Option Packet → Type 0
Sends stdin s none = (s.transfer ≡ put_data) × (stdin ≡ none)
Sends stdin s (some q) = IsSmart s q
