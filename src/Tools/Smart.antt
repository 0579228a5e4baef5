-- ===== src/Tools/Smart.antt =====
-- The SMART commands of aoeping.c: `smartcmd_lookup`, `smart_registers`, `show_smart_regs`, `smart`.
pub mod Lookup
pub mod Sent
use aoe.Prelude.{
  ℕ, zero, suc, ◌+◌, ◌/◌, ◌%◌, ◌^◌, Bool, true, false, Option, none, some, List, [], ◌∷◌, ◌++◌,
  ◌==◌, ◌||◌, not, if◌then◌else◌, length,
}
use aoe.Types.{AoeHdr}
use aoe.Net.{dropped}
use aoe.Flush.{is_same, taken}
use aoe.Tools.{byte}
use aoe.Tools.Report.{Cmp, strcmp, below, equal, above}
use aoe.Tools.Socket.{Packet, failure, Socket, Ran, stopped, ran, and_then, send}
use aoe.Tools.Ping.{Ata, no_ata, ata_packet, ata_prep, aoe_pkt_read, data_of}

-- The data of a SMART subcommand: none, to the disk, or from it.
pub data Transfer : Type 0 where
  no_data : Transfer
  put_data : Transfer
  ret_data : Transfer

pub record Smartcmd : Type 0 where
  pub name : List ℕ
  pub cmd : ℕ
  pub transfer : Transfer

-- `smarts`: read_data, offline_immediate, read_log, write_log, enable, disable, return_status.
abbrev pub read_data : List ℕ
read_data = 114 ∷ 101 ∷ 97 ∷ 100 ∷ 95 ∷ 100 ∷ 97 ∷ 116 ∷ 97 ∷ []

abbrev pub offline_immediate : List ℕ
offline_immediate =
    111 ∷ 102 ∷ 102 ∷ 108 ∷ 105 ∷ 110 ∷ 101 ∷ 95 ∷ 105 ∷ 109 ∷ 109 ∷ 101 ∷ 100 ∷ 105 ∷ 97 ∷ 116
    ∷ 101 ∷ []

abbrev pub read_log : List ℕ
read_log = 114 ∷ 101 ∷ 97 ∷ 100 ∷ 95 ∷ 108 ∷ 111 ∷ 103 ∷ []

abbrev pub write_log : List ℕ
write_log = 119 ∷ 114 ∷ 105 ∷ 116 ∷ 101 ∷ 95 ∷ 108 ∷ 111 ∷ 103 ∷ []

abbrev pub enable : List ℕ
enable = 101 ∷ 110 ∷ 97 ∷ 98 ∷ 108 ∷ 101 ∷ []

abbrev pub disable : List ℕ
disable = 100 ∷ 105 ∷ 115 ∷ 97 ∷ 98 ∷ 108 ∷ 101 ∷ []

abbrev pub return_status : List ℕ
return_status = 114 ∷ 101 ∷ 116 ∷ 117 ∷ 114 ∷ 110 ∷ 95 ∷ 115 ∷ 116 ∷ 97 ∷ 116 ∷ 117 ∷ 115 ∷ []

abbrev pub smarts : List Smartcmd
smarts =
    record { name = read_data; cmd = 0xd0; transfer = ret_data }
    ∷ record { name = offline_immediate; cmd = 0xd4; transfer = no_data }
    ∷ record { name = read_log; cmd = 0xd5; transfer = ret_data }
    ∷ record { name = write_log; cmd = 0xd6; transfer = put_data }
    ∷ record { name = enable; cmd = 0xd8; transfer = no_data }
    ∷ record { name = disable; cmd = 0xd9; transfer = no_data }
    ∷ record { name = return_status; cmd = 0xda; transfer = no_data }
    ∷ []

-- `strchr(nam, ':')`: how many characters come before a colon.
unfoldable pub colon : List ℕ → Option ℕ
colon [] = none
colon (c ∷ cs) =
    let rest = colon cs in
    if c == 58 then some 0 else elim rest [ none ↦ none | some k ↦ some (suc k) ]

abbrev pub is_zero : Cmp → Bool
is_zero below = false
is_zero equal = true
is_zero above = false

abbrev pub is_equal : List ℕ → List ℕ → Bool
is_equal a b = is_zero (strcmp a b)

abbrev pub is_named : List ℕ → Option ℕ → Smartcmd → Bool
is_named nam none s = is_equal s.name nam
is_named nam (some k) s = is_same k s.name nam || is_equal s.name nam

-- The loop of `smartcmd_lookup`.
unfoldable pub lookup_from : List Smartcmd → List ℕ → Option Smartcmd
unfolding colon strcmp
lookup_from [] nam = none
lookup_from (s ∷ ss) nam =
    let rest = lookup_from ss nam in if is_named nam (colon nam) s then some s else rest

unfoldable pub smartcmd_lookup : List ℕ → Option Smartcmd
unfolding lookup_from
smartcmd_lookup nam = lookup_from smarts nam

-- `smart_registers`; `strtol` of what stands behind the colon, cut to a byte, is an argument.
unfoldable pub smart_registers : (List ℕ → ℕ) → List ℕ → Smartcmd → Ata → Ata
unfolding colon
smart_registers strtol nam s a =
    let set = record a { err = s.cmd; lba1 = 0x4f; lba2 = 0xc2 } in
    elim (colon nam) [
      | none ↦ set
      | some k ↦ record set { lba0 = strtol (dropped (suc k) nam) % 2 ^ 8 }
    ]

-- `read` of the standard input, none for a failure: what comes stands at the front of the data.
abbrev pub over : List ℕ → List ℕ → List ℕ
over bs rest = taken 512 bs ++ dropped (length (taken 512 bs)) rest

-- The command and its headers once the data is there: AOEAFL_WRITE's bit is set in the headers.
abbrev pub with_data : Transfer → Option (List ℕ) → AoeHdr → Ata → Option (AoeHdr × Ata)
with_data no_data stdin h a = some (h, a)
with_data ret_data stdin h a = some (h, a)
with_data put_data none h a = none
with_data put_data (some bs) h a =
    some (record h { verfl = h.verfl + 1 }, record a { payload = over bs a.payload })

abbrev pub sectors_of : Transfer → ℕ
sectors_of no_data = 0
sectors_of put_data = 1
sectors_of ret_data = 1

-- The packet of a SMART command.
unfoldable pub smart_packet :
    (List ℕ → ℕ) → Option (List ℕ) → ℕ → Packet → ℕ → List ℕ → Smartcmd → Option Packet
unfolding smart_registers ata_prep
smart_packet strtol stdin mac c tag nam s =
    let a =
      smart_registers strtol nam s
        (record no_ata { sectors = sectors_of s.transfer; cmd = 0xb0 }) in
    elim (with_data s.transfer stdin (ata_prep mac c tag) a) [
      | none ↦ none
      | some r ↦ some (ata_packet r.0 r.1)
    ]

-- `show_smart_regs`: the registers, unless the command was aborted.
unfoldable pub show_smart_regs : Packet → Option (List ℕ)
show_smart_regs p =
    let reg = byte p.body in
    if not (reg 1 / 2 ^ 2 % 2 == 0)
    then none
    else some (reg 1 ∷ reg 2 ∷ reg 4 ∷ reg 5 ∷ reg 6 ∷ reg 3 ∷ [])

-- What is shown: the registers, and the data that a command answers.
abbrev pub Shown : Type 0
Shown = List ℕ × List ℕ

abbrev pub returned : Transfer → Packet → List ℕ
returned no_data p = []
returned put_data p = []
returned ret_data p = taken 512 (data_of p)

abbrev pub shown : Smartcmd → Packet → Socket → Option (List ℕ) → Ran Shown
shown s p k none = stopped failure k
shown s p k (some regs) = ran (regs, returned s.transfer p) k

abbrev pub exchanged : Packet → ℕ → Smartcmd → Socket → Option Packet → Ran Shown
exchanged c tag s k none = stopped failure k
exchanged c tag s k (some q) =
    and_then (send q k)
      (λ u k1. and_then (aoe_pkt_read c tag k1) (λ p k2. shown s p k2 (show_smart_regs p)))

abbrev pub smart_of :
    (List ℕ → ℕ) → Option (List ℕ) → ℕ → Packet → ℕ → List ℕ → Socket → Option Smartcmd → Ran Shown
smart_of strtol stdin mac c tag nam k none = stopped failure k
smart_of strtol stdin mac c tag nam k (some s) =
    exchanged c tag s k (smart_packet strtol stdin mac c tag nam s)

unfoldable pub smart : (List ℕ → ℕ) → Option (List ℕ) → ℕ → Packet → ℕ → List ℕ → Socket → Ran Shown
smart strtol stdin mac c tag nam k = smart_of strtol stdin mac c tag nam k (smartcmd_lookup nam)
