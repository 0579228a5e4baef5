-- ===== src/Cfg.antt =====
-- Config responses, aoecmd.c: `aoecmd_cfg_pkts`, `aoecmd_cfg`, `aoecmd_ata_id`, `setifbcnt` of a
-- device, `aoecmd_cfg_rsp`. A config response is its headers and the interface that it came by.
pub mod Broadcast
pub mod Size
pub mod Account
use aoe.Prelude.{
  ℕ, ◌+◌, ◌-◌, ◌*◌, ◌/◌, ◌%◌, ◌^◌, Bool, true, false, Option, none, some, List, [], ◌∷◌, ◌++◌, ltb,
  leb, ◌==◌, ◌||◌, not, if◌then◌else◌, min,
}
use aoe.Types.{
  AoeDev, AoeTgt, AoeHdr, Frame, Skb, State, Kern, Env, nothing, zero_hdr, zero_ata, next_alloc,
  default_bcnt, rttavg_init, rttdev_init,
}
use aoe.Hdr.{aoehdr_atainit, ata_cmd_id_ata}
use aoe.Tgt.{set_nframes}
use aoe.Targets.{Slots, gettgt, addtgt, setifbcnt, setdbcnt, at_slot}
use aoe.Frames.{new_skb, newframe, on_dev, on_target}
use aoe.Send.{target_in, nd_of, addr_of, dev_tag, nout_inc, fill_skb, transmit, hash_frame}
use aoe.Rsp.{aoedev_put}

-- `struct aoe_cfghdr` behind `struct aoe_hdr`.
pub record CfgResponse : Type 0 where
  pub hdr : AoeHdr
  pub bufcnt : ℕ
  pub fwver : ℕ
  pub scnt : ℕ
  pub dev : ℕ

-- A config query for one interface, to everybody.
abbrev pub cfg_skb : Env → ℕ → ℕ → ℕ → Skb → Skb
cfg_skb e aoemajor aoeminor ifp skb = record skb {
  hdr = record zero_hdr {
    dst = 0xffffffffffff;
    src = e.dev_addr ifp;
    verfl = 0x10;
    major = aoemajor;
    minor = aoeminor;
    cmd = 1;
  };
  ata = zero_ata;
  data_len = 0;
  payload = nothing;
  dev = some ifp;
}

abbrev pub linked : Env → ℕ → ℕ → ℕ → Option Skb → List Skb → List Skb
linked e aoemajor aoeminor ifp none sl = sl
linked e aoemajor aoeminor ifp (some skb) sl = cfg_skb e aoemajor aoeminor ifp skb ∷ sl

-- The loop of `aoecmd_cfg_pkts` over the network's interfaces; each query goes to the front of `sl`.
-- `is_aoe_netif` is the test of the interface's name.
unfoldable pub cfg_pkts_from : Env → (ℕ → Bool) → ℕ → ℕ → List ℕ → List Skb → Kern → List Skb × Kern
unfolding new_skb
cfg_pkts_from e is_aoe_netif aoemajor aoeminor [] sl k = (sl, k)
cfg_pkts_from e is_aoe_netif aoemajor aoeminor (ifp ∷ ifps) sl k =
    let (o, k') = new_skb k in
    let skipped = cfg_pkts_from e is_aoe_netif aoemajor aoeminor ifps sl k in
    let taken =
      cfg_pkts_from e is_aoe_netif aoemajor aoeminor ifps (linked e aoemajor aoeminor ifp o sl)
        k' in
    if is_aoe_netif ifp then taken else skipped

unfoldable pub aoecmd_cfg_pkts : Env → (ℕ → Bool) → List ℕ → ℕ → ℕ → Kern → List Skb × Kern
unfolding cfg_pkts_from
aoecmd_cfg_pkts e is_aoe_netif netdevs aoemajor aoeminor k =
    cfg_pkts_from e is_aoe_netif aoemajor aoeminor netdevs [] k

-- `aoecmd_cfg`: the queries go to the transmitter.
unfoldable pub aoecmd_cfg : Env → (ℕ → Bool) → List ℕ → ℕ → ℕ → Kern → Kern
unfolding aoecmd_cfg_pkts
aoecmd_cfg e is_aoe_netif netdevs aoemajor aoeminor k =
    let (sl, k') = aoecmd_cfg_pkts e is_aoe_netif netdevs aoemajor aoeminor k in
    record k' { tx = k'.tx ++ sl }

-- The frame of `aoecmd_ata_id`.
unfoldable pub ata_id_frame : Env → AoeDev → AoeTgt → ℕ → Frame → Frame
unfolding aoehdr_atainit
ata_id_frame e d t tag f =
    let h = aoehdr_atainit tag (addr_of e (nd_of t)) t.addr d.aoemajor d.aoeminor in
    let ah = record zero_ata { scnt = 1; cmdstat = ata_cmd_id_ata; lba3 = 0xa0 } in
    record f {
      tag = tag;
      waited = 0;
      waited_total = 0;
      skb = fill_skb h ah (nd_of t) 0 nothing f.skb;
    }

abbrev pub rtt_reset : AoeDev → AoeDev
rtt_reset d = record d { rttavg = rttavg_init; rttdev = rttdev_init }

-- `aoecmd_ata_id` with the frame that `newframe` gave, for the target that `d->tgt` points at.
unfoldable pub ata_id_with : Env → Option Frame × State → State
unfolding dev_tag ata_id_frame transmit hash_frame
ata_id_with e (none, s) = s
ata_id_with e (some f, s) =
    let i = s.dev.tgt in
    let (tag, d) = dev_tag e s.dev in
    hash_frame (
      transmit e (ata_id_frame e d (target_in s.dev.targets i) tag f)
        (on_target nout_inc i (record s { dev = rtt_reset d })))

-- `aoecmd_ata_id`; its caller hands the clone of the skb to the transmitter.
unfoldable pub aoecmd_ata_id : Env → State → State
unfolding ata_id_with newframe
aoecmd_ata_id e s = ata_id_with e (newframe e s)

-- The size of the payload that a response allows: what the interface's packets hold behind 36 bytes
-- of headers, in 16 bits, and no more than the target's own sector count; the default where that is
-- nothing.
unfoldable pub rsp_bcnt : ℕ → ℕ → ℕ
rsp_bcnt mtu scnt =
    let room = (mtu % 2 ^ 16 + 2 ^ 16 - 36) % 2 ^ 16 / 512 in
    let n = if ltb scnt room then scnt else room in if n == 0 then default_bcnt else n * 512

abbrev pub set_maxbcnt : AoeDev → AoeDev
set_maxbcnt d = record d { maxbcnt = setdbcnt d.targets }

-- What becomes of the target in slot `i`: nothing, where it has too many interfaces.
unfoldable pub with_ifs : ℕ → Option AoeTgt → AoeDev → AoeDev
unfolding setdbcnt
with_ifs i none d = d
with_ifs i (some t) d = set_maxbcnt (record d { targets = at_slot (λ u. t) d.targets i })

-- `setifbcnt` of the target in slot `i`.
unfoldable pub setifbcnt_at : ℕ → ℕ → ℕ → AoeDev → AoeDev
unfolding with_ifs setifbcnt
setifbcnt_at i nd bcnt d = with_ifs i (setifbcnt (target_in d.targets i) nd bcnt) d

-- The rest of `aoecmd_cfg_rsp`, for the target in slot `i`.
unfoldable pub cfg_target : Env → CfgResponse → ℕ → State → State
unfolding rsp_bcnt setifbcnt_at aoecmd_ata_id
cfg_target e r i s =
    let s' = on_dev (setifbcnt_at i r.dev (rsp_bcnt (e.mtu r.dev) r.scnt)) s in
    if s.dev.nopen == 0
    then aoecmd_ata_id e (on_dev (λ d. record d { fw_ver = r.fwver }) s')
    else s'

unfoldable pub cfg_new : Env → CfgResponse → Option ℕ × Slots × List Bool → State → State
unfolding cfg_target
cfg_new e r (none, ts, allocs) s = record {
  dev = record s.dev { targets = ts };
  kern = record s.kern { allocs = allocs };
}
cfg_new e r (some i, ts, allocs) s =
    cfg_target e r i
      (record { dev = record s.dev { targets = ts }; kern = record s.kern { allocs = allocs } })

-- The target that answered is looked up, or added.
unfoldable pub cfg_found : Env → CfgResponse → ℕ → Option ℕ → State → State
unfolding cfg_new addtgt cfg_target set_nframes
cfg_found e r n (some i) s = cfg_target e r i (on_target (λ t. set_nframes t n) i s)
cfg_found e r n none s = cfg_new e r (addtgt s.dev.targets r.hdr.src n s.kern.allocs) s

-- `aoecmd_cfg_rsp` from where it has its device.
unfoldable pub cfg_rsp_dev : Env → CfgResponse → State → State
unfolding cfg_found gettgt
cfg_rsp_dev e r s =
    let n = min r.bufcnt e.aoe_maxout in
    on_dev aoedev_put (cfg_found e r n (gettgt s.dev.targets r.hdr.src) s)

-- The addresses that `aoecmd_cfg_rsp` does not believe.
abbrev pub is_bad_addr : AoeHdr → Bool
is_bad_addr h = h.major == 0xfff || h.major == 0xffff || h.minor == 0xff
