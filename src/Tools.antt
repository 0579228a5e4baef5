-- ===== src/Tools.antt =====
-- The user's tools, aoetools-36: what their packets share. A packet has the headers that the driver's
-- packets have, `struct Aoehdr` of dat.h, and the Ethernet type; what follows them is a list of
-- bytes, which `hnputl`, `hnputs`, `nhgetl` and `nhgets` of aoe-sancheck.c write and read.
pub mod San
pub mod Report
pub mod Socket
pub mod Ping
pub mod Smart
pub mod Config
pub mod Apart
pub mod Bytes
use aoe.Prelude.{ℕ, zero, suc, ◌+◌, ◌*◌, ◌/◌, ◌%◌, ◌^◌, List, [], ◌∷◌, if◌then◌else◌, ltb}

abbrev pub aoe_eth_proto : ℕ
aoe_eth_proto = 0x88a2

-- Everybody's address.
abbrev pub broadcast : ℕ
broadcast = 0xffffffffffff

-- `n | 1UL << 31` of 32 bits: the tags of the tools have their highest bit set.
abbrev pub with_top : ℕ → ℕ
with_top n = if ltb (n % 2 ^ 32) (2 ^ 31) then n % 2 ^ 32 + 2 ^ 31 else n % 2 ^ 32

-- The four and two bytes of a number, the highest first.
unfoldable pub hnputl : ℕ → List ℕ
hnputl n = n / 2 ^ 24 % 2 ^ 8 ∷ n / 2 ^ 16 % 2 ^ 8 ∷ n / 2 ^ 8 % 2 ^ 8 ∷ n % 2 ^ 8 ∷ []

unfoldable pub hnputs : ℕ → List ℕ
hnputs s = s / 2 ^ 8 % 2 ^ 8 ∷ s % 2 ^ 8 ∷ []

-- A byte that is missing reads as 0.
abbrev pub byte : List ℕ → ℕ → ℕ
byte [] i = 0
byte (b ∷ bs) zero = b
byte (b ∷ bs) (suc i) = byte bs i

unfoldable pub nhgetl : List ℕ → ℕ
nhgetl p = ((byte p 0 * 2 ^ 8 + byte p 1) * 2 ^ 8 + byte p 2) * 2 ^ 8 + byte p 3

unfoldable pub nhgets : List ℕ → ℕ
nhgets p = (byte p 0 * 2 ^ 8 + byte p 1) % 2 ^ 16
