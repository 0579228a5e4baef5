-- ===== src/Net/Received.antt =====
-- The driver's own commands and their answers on the network: `aoenet_rcv`.
use aoe.Prelude.{ℕ, ◌+◌, ◌/◌, ◌%◌, ◌^◌, ◌≡◌, refl, ◌∙◌, true, List, arith, ◌==◌}
use aoe.Types.{AoeHdr}
use aoe.Clock.{newtag}
use aoe.Clock.Tag.{newtag_bits}
use aoe.Hdr.{aoehdr_atainit}
use aoe.Net.{ignored, to_ata_rsp, rcv_hdr, Arrival, aoenet_rcv, is_aoe_netif}

-- The header of a command, and the one that answers it: AOEFL_RSP is set.
abbrev pub command : ℕ → ℕ → ℕ → ℕ → ℕ → ℕ → AoeHdr
command last j src dst maj min = aoehdr_atainit (newtag last j).0 src dst maj min

abbrev pub answer : AoeHdr → AoeHdr
answer h = record h { verfl = h.verfl + 2 ^ 3 }

-- The packet comes over an interface that the driver uses, and the kernel hands it over.
abbrev pub Arrives : List ℕ → Arrival → Type 0
Arrives l a =
    (a.init_net ≡ true) × (a.unshared ≡ true) × (a.pulled ≡ true) × (is_aoe_netif l a.name ≡ true)

arrived : (l : List ℕ) (a : Arrival) → Arrives l a → aoenet_rcv l a ≡ rcv_hdr a.hdr
unfolding aoenet_rcv
arrived l a h = rw (h.0, h.1, h.2, h.3) (ground arith)

-- An ATA command with a tag of `newtag`, seen on the network, is ignored, and its answer without an
-- error goes to `aoecmd_ata_rsp`, over each interface that the driver uses.
pub aoenet_rcv_lem :
    (l : List ℕ) (a : Arrival) (last j src dst maj min : ℕ)
    → Arrives l a
    → let h = command last j src dst maj min in
      (aoenet_rcv l (record a { hdr = h }) ≡ ignored)
      × (aoenet_rcv l (record a { hdr = answer h }) ≡ to_ata_rsp)
unfolding aoehdr_atainit rcv_hdr
aoenet_rcv_lem l a last j src dst maj min w =
    let h = command last j src dst maj min in
    let b = newtag_bits last j in
    let clear : (h.tag / 2 ^ 31 % 2 == 0) ≡ true = ground (arith, b.0) in
    (arrived l (record a { hdr = h }) w, arrived l (record a { hdr = answer h }) w ∙ rw clear refl)
