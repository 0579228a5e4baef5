-- ===== src/Tools/Ping.antt =====
-- aoeping.c up to its identify command: `check_timeout`, `init_opts`, `find_blade`,
-- `aoe_pkt_read`, `ata_prep`, `pp_idtext`, `smart_supported`, `disk_identify`. An `int` is its 32
-- bits; what is printed of a packet is left out, but for the texts of `pp_idtext`. A byte
-- behind the end of a packet reads as 0.
pub mod Run
pub mod Tags
use aoe.Prelude.{
  ℕ, zero, suc, ◌+◌, ◌/◌, ◌%◌, ◌^◌, Bool, true, false, Option, none, some, List, [], ◌∷◌, ◌++◌, ◌⊎◌,
  inl, inr, ltb, leb, ◌==◌, ◌&&◌, ◌||◌, not, if◌then◌else◌, replicate,
}
use aoe.Types.{AoeHdr, zero_hdr}
use aoe.Net.{dropped}
use aoe.Tools.{aoe_eth_proto, broadcast, with_top, byte}
use aoe.Tools.Socket.{
  Packet, Exit, success, failure, Socket, Ran, stopped, ran, and_then, send, receive,
}

-- `struct progopts`, as far as it says what is sent.
pub record Progopts : Type 0 where
  pub shelf : ℕ
  pub slot : ℕ
  pub timeout : ℕ
  pub tag : ℕ
  pub smart : Option (List ℕ)
  pub ata_ident : Bool
  pub pp_ataid : Bool

abbrev pub defaults : Progopts
defaults = record {
  shelf = 0;
  slot = 0;
  timeout = 0;
  tag = 0;
  smart = none;
  ata_ident = false;
  pp_ataid = false;
}

-- What `getopt` finds, with the numbers as `atoi` reads them.
pub data Item : Type 0 where
  help : Item
  verbose : Item
  ident : Item
  ident_fields : Item
  start_tag : ℕ → Item
  seconds : ℕ → Item
  smart_cmd : List ℕ → Item
  unrecognized : Item

-- `check_timeout`: less than one, as an `int`.
abbrev pub check_timeout : ℕ → Bool
check_timeout secs = not (secs == 0) && ltb secs (2 ^ 31)

-- The loop of `init_opts`.
unfoldable pub options : List Item → Progopts → Exit ⊎ Progopts
options [] o = inr o
options (help ∷ is) o = inl success
options (verbose ∷ is) o = options is o
options (ident ∷ is) o = options is (record o { ata_ident = true })
options (ident_fields ∷ is) o = options is (record o { ata_ident = true; pp_ataid = true })
options (start_tag n ∷ is) o = options is (record o { tag = n })
options (seconds n ∷ is) o =
    let rest = options is (record o { timeout = n }) in
    if check_timeout n then rest else inl failure
options (smart_cmd t ∷ is) o = options is (record o { smart = some t })
options (unrecognized ∷ is) o = inl failure

-- The shelf and the slot, where three words are left; the third is the interface's name.
abbrev pub placed : Option (ℕ × ℕ) → Exit ⊎ Progopts → Exit ⊎ Progopts
placed args (inl e) = inl e
placed none (inr o) = inl failure
placed (some (shelf, slot)) (inr o) = inr (record o { shelf = shelf; slot = slot })

unfoldable pub init_opts : List Item → Option (ℕ × ℕ) → Exit ⊎ Progopts
unfolding options
init_opts is args = placed args (options is defaults)

-- The config query of `find_blade`; 1024 bytes of data.
unfoldable pub blade_query : ℕ → Progopts → Packet
blade_query mac o = record {
  kind = aoe_eth_proto;
  hdr = record zero_hdr {
    dst = broadcast;
    src = mac;
    verfl = 0x10;
    major = o.shelf % 2 ^ 16;
    minor = o.slot % 2 ^ 8;
    cmd = 1;
    tag = o.tag;
  };
  body = 0 ∷ 0 ∷ 0 ∷ 0 ∷ 0 ∷ 0 ∷ 4 ∷ 0 ∷ replicate 1024 0xed;
}

abbrev pub is_blade : Progopts → Packet → Bool
is_blade o p =
    p.kind == aoe_eth_proto
    && (p.hdr.major == o.shelf && (p.hdr.minor == o.slot && p.hdr.tag == o.tag))

unfoldable pub find_blade : ℕ → Progopts → Socket → Ran Packet
find_blade mac o s = and_then (send (blade_query mac o) s) (λ u s'. receive (is_blade o) s')

-- `aoe_pkt_read`.
abbrev pub is_from : Packet → ℕ → Packet → Bool
is_from c tag p =
    p.kind == aoe_eth_proto
    && (p.hdr.major == c.hdr.major && (p.hdr.minor == c.hdr.minor && p.hdr.tag == tag))

unfoldable pub aoe_pkt_read : Packet → ℕ → Socket → Ran Packet
aoe_pkt_read c tag s = receive (is_from c tag) s

-- `struct Ata` behind its headers: `aflag`, the registers and the data; the other bytes are 0.
pub record Ata : Type 0 where
  pub aflag : ℕ
  pub err : ℕ
  pub sectors : ℕ
  pub cmd : ℕ
  pub lba0 : ℕ
  pub lba1 : ℕ
  pub lba2 : ℕ
  pub lba3 : ℕ
  pub payload : List ℕ

abbrev pub no_ata : Ata
no_ata = record {
  aflag = 0;
  err = 0;
  sectors = 0;
  cmd = 0;
  lba0 = 0;
  lba1 = 0;
  lba2 = 0;
  lba3 = 0;
  payload = replicate 1024 0;
}

abbrev pub ata_bytes : Ata → List ℕ
ata_bytes a =
    a.aflag ∷ a.err ∷ a.sectors ∷ a.cmd ∷ a.lba0 ∷ a.lba1 ∷ a.lba2 ∷ a.lba3 ∷ 0 ∷ 0 ∷ 0 ∷ 0
    ∷ a.payload

abbrev pub data_of : Packet → List ℕ
data_of p = dropped 12 p.body

-- `ata_prep`: the headers of a command to the device that sent `c`; the rest is cleared.
unfoldable pub ata_prep : ℕ → Packet → ℕ → AoeHdr
ata_prep mac c tag = record zero_hdr {
  dst = c.hdr.src;
  src = mac;
  verfl = 0x10;
  major = c.hdr.major;
  minor = c.hdr.minor;
  tag = tag;
}

abbrev pub ata_packet : AoeHdr → Ata → Packet
ata_packet h a = record { kind = aoe_eth_proto; hdr = h; body = ata_bytes a }

-- `pp_idtext`: the characters up to one that is neither printed nor a space, of ASCII.
abbrev pub is_shown : ℕ → Bool
is_shown c = leb 32 c && ltb c 127

unfoldable pub pp_idtext : List ℕ → List ℕ
pp_idtext [] = []
pp_idtext (c ∷ cs) = let rest = pp_idtext cs in if is_shown c then c ∷ rest else []

-- `smart_supported`: bit 0 of word 82.
unfoldable pub smart_supported : List ℕ → Bool
smart_supported p = not (byte p 164 % 2 == 0)

unfoldable pub identify_packet : ℕ → Packet → ℕ → Packet
unfolding ata_prep
identify_packet mac c tag =
    ata_packet (ata_prep mac c tag) (record no_ata { sectors = 1; cmd = 0xec; lba3 = 0xa0 })

-- `disk_identify`: whether the disk supports SMART.
unfoldable pub disk_identify : ℕ → Packet → Progopts → Socket → Ran Bool
disk_identify mac c o s =
    and_then (send (identify_packet mac c o.tag) s)
      (λ u s1. and_then (aoe_pkt_read c o.tag s1) (λ p s2. ran (smart_supported (data_of p)) s2))
