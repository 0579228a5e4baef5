-- ===== src/Tools/Apart.antt =====
-- The tools and the driver on one host: each leaves the other's answers alone.
use aoe.Prelude.{
  ℕ, ◌*◌, ◌/◌, ◌%◌, ◌^◌, ◌≡◌, ◌≤◌, ◌<◌, refl, true, false, List, [], arith, ◌==◌, ◌||◌, not, ltb,
  ltb→lt, Bool-cases, inl, inr,
}
use aoe.Types.{AoeHdr}
use aoe.Clock.Tag.{newtag_bits}
use aoe.Hdr.{aoehdr_atainit}
use aoe.Net.{rcv_hdr, ignored}
use aoe.Net.Received.{command, answer}
use aoe.Tools.{with_top}
use aoe.Tools.San.{San, Lun, discover, probe, jinput}
use aoe.Tools.Bytes.{probe_tag_lem}
use aoe.Tools.San.Probes.{answer_to}
use aoe.Tools.Config.{aoe_tag, config_query}

-- Whatever else stands in its headers.
high_tag : (h : AoeHdr) → (h.tag / 2 ^ 31 % 2 == 0) ≡ false → rcv_hdr h ≡ ignored
unfolding rcv_hdr
high_tag h t = rw t (ground arith)

low_tag :
    (ea mtu : ℕ) (e : San) (a : AoeHdr) (scnt : ℕ)
    → (a.tag / 2 ^ 31 % 2 == 0) ≡ true
    → jinput ea mtu e a scnt ≡ (false, [], e)
unfolding jinput
low_tag ea mtu e a scnt t =
    elim (Bool-cases (a.verfl / 2 ^ 3 % 2 == 0 || not (a.verfl / 2 ^ 2 % 2 == 0))) [
      | inl y ↦ rw y refl
      | inr n ↦ rw (n, t) refl
    ]

top_bit : (n : ℕ) → (with_top n / 2 ^ 31 % 2 == 0) ≡ false
top_bit n = elim (Bool-cases (ltb (n % 2 ^ 32) (2 ^ 31))) [
  | inl y ↦ rw y (let l = ltb→lt (n % 2 ^ 32) (2 ^ 31) y in ground (arith, l))
  | inr z ↦ rw z (ground (arith, z))
]

-- The driver ignores the answers to the queries and probes of aoe-sancheck, for luns with an id in
-- 16 bits whose highest bit is set, and to the query of aoecfg; and aoe-sancheck leaves its
-- state as it is and sends nothing for the answer to an ATA command of the driver.
pub tools_apart :
    (ea mtu : ℕ) (e : San) (lun : Lun) (k scnt : ℕ)
    → 2 ^ 15 ≤ lun.id
    → lun.id < 2 ^ 16
    → k < 2 ^ 8
    → (last j src dst maj min usec cmd : ℕ) (cfgstr rest : List ℕ)
    → (rcv_hdr (answer_to (discover ea).hdr) ≡ ignored)
      × (rcv_hdr (answer_to (probe ea lun (k * 512)).hdr) ≡ ignored)
      × (rcv_hdr (answer_to (config_query ea cmd maj min (aoe_tag usec) cfgstr rest).hdr) ≡ ignored)
      × (jinput ea mtu e (answer (command last j src dst maj min)) scnt ≡ (false, [], e))
unfolding discover probe config_query aoehdr_atainit
tools_apart ea mtu e lun k scnt lo hi s last j src dst maj min usec cmd cfgstr rest =
    let t = probe_tag_lem lun.id k hi s in
    let b = newtag_bits last j in
    (
      high_tag (answer_to (discover ea).hdr) refl,
      high_tag (answer_to (probe ea lun (k * 512)).hdr) (ground (arith, t, lo, hi, s)),
      high_tag (answer_to (config_query ea cmd maj min (aoe_tag usec) cfgstr rest).hdr)
          (top_bit usec),
      low_tag ea mtu e (answer (command last j src dst maj min)) scnt (ground (arith, b.0)),
    )
