-- ===== src/Types.antt =====
-- The driver's data: linux/drivers/block/aoe/aoe.h.
-- A device's flag word is a record with one Boolean for each DEVFL bit. A frame is a value that
-- stands in exactly one list, as its one `list_head` allows; its target is an index into the
-- device's `targets`, and its buf, bio and request are numbers that stand for the pointers.
-- A hardware address is the number of its six bytes. `data_len` of an skb is the payload's size.
use aoe.Prelude.{ℕ, ◌*◌, ◌/◌, ◌^◌, Bool, false, Option, none, List, []}
use aoe.Prelude.Int.{ℤ}

-- `struct bvec_iter`, the position in a bio.
pub record Iter : Type 0 where
  pub sector : ℕ
  pub size : ℕ

-- `struct aoe_hdr`, in host byte order.
pub record AoeHdr : Type 0 where
  pub dst : ℕ
  pub src : ℕ
  pub verfl : ℕ
  pub err : ℕ
  pub major : ℕ
  pub minor : ℕ
  pub cmd : ℕ
  pub tag : ℕ

-- `struct aoe_atahdr`. The two bits of `aflags` that the driver sets are Booleans.
pub record AtaHdr : Type 0 where
  pub ext : Bool
  pub write : Bool
  pub scnt : ℕ
  pub cmdstat : ℕ
  pub lba0 : ℕ
  pub lba1 : ℕ
  pub lba2 : ℕ
  pub lba3 : ℕ
  pub lba4 : ℕ
  pub lba5 : ℕ

-- What the page fragments of an outgoing skb point at.
pub data Payload : Type 0 where
  nothing : Payload
  from_bio : ℕ → ℕ → Iter → Payload
  zero_pages : List ℕ → Payload

-- `struct sk_buff`, as far as the driver fills it in; `dev` is the interface.
pub record Skb : Type 0 where
  pub id : ℕ
  pub hdr : AoeHdr
  pub ata : AtaHdr
  pub data_len : ℕ
  pub payload : Payload
  pub dev : Option ℕ

-- A response from the network: its headers, its length and its bytes past them, and the interface.
pub record Response : Type 0 where
  pub hdr : AoeHdr
  pub ata : AtaHdr
  pub len : ℕ
  pub bytes : List ℕ
  pub dev : Option ℕ

-- `struct frame`; `probe` is FFL_PROBE.
pub record Frame : Type 0 where
  pub tag : ℕ
  pub sent : ℕ
  pub sent_jiffs : ℕ
  pub waited : ℕ
  pub waited_total : ℕ
  pub t : ℕ
  pub skb : Option Skb
  pub r_skb : Option Response
  pub buf : Option ℕ
  pub iter : Iter
  pub nout : ℕ
  pub probe : Bool

-- `struct aoeif`; `nd` is NULL or an interface.
pub record AoeIf : Type 0 where
  pub nd : Option ℕ
  pub lost : ℕ
  pub bcnt : ℕ

-- `struct aoetgt`; `ifp` is an index into `ifs`.
pub record AoeTgt : Type 0 where
  pub addr : ℕ
  pub nframes : ℕ
  pub ffree : List Frame
  pub ifs : List AoeIf
  pub ifp : ℕ
  pub nout : ℕ
  pub maxout : ℕ
  pub next_cwnd : ℕ
  pub ssthresh : ℕ
  pub falloc : ℕ
  pub lost : ℕ
  pub taint : ℕ
  pub minbcnt : ℕ
  pub wpkts : ℕ
  pub rpkts : ℕ
  pub nout_probes : ℤ

-- The DEVFL bits.
pub record DevFlags : Type 0 where
  pub up : Bool
  pub tkill : Bool
  pub ext : Bool
  pub gdalloc : Bool
  pub gd_now : Bool
  pub kickme : Bool
  pub newsize : Bool
  pub freeing : Bool
  pub freed : Bool

-- `struct bio` with `bi_error`, and the request that the block layer hands out. `special` is the
-- count of bios still to end.
pub record Bio : Type 0 where
  pub write : Bool
  pub iter : Iter
  pub error : Bool

pub record Request : Type 0 where
  pub id : ℕ
  pub bios : List Bio
  pub special : ℕ

-- `struct buf`: `rq` is the request and `bio` the place of the bio in it; `write` is that bio's
-- data direction.
pub record Buf : Type 0 where
  pub id : ℕ
  pub nframesout : ℕ
  pub bio : ℕ
  pub write : Bool
  pub iter : Iter
  pub rq : ℕ

-- The pointers to work in progress: `nxbio` counts the bios of `rq` that have been taken.
pub record InProgress : Type 0 where
  pub buf : Option ℕ
  pub nxbio : ℕ
  pub rq : Option ℕ

pub record Geometry : Type 0 where
  pub cylinders : ℕ
  pub heads : ℕ
  pub sectors : ℕ

-- `struct aoedev`. `blkq` is the queue of requests not yet started, or NULL; `started` and `bufs`
-- are the requests and bufs that pointers reach; `capacity` is the size of `gd`, or no disk.
pub record AoeDev : Type 0 where
  pub sysminor : ℕ
  pub aoemajor : ℕ
  pub aoeminor : ℕ
  pub rttavg : ℕ
  pub rttdev : ℕ
  pub flags : DevFlags
  pub nopen : ℕ
  pub fw_ver : ℕ
  pub lasttag : ℕ
  pub ref : ℕ
  pub capacity : Option ℕ
  pub geo : Geometry
  pub ssize : ℕ
  pub ident : List ℕ
  pub skbpool : List Skb
  pub nskbpool : ℕ
  pub blkq : Option (List Request)
  pub started : List Request
  pub bufs : List Buf
  pub ip : InProgress
  pub maxbcnt : ℕ
  pub factive : List (List Frame)
  pub rexmitq : List Frame
  pub targets : List (Option AoeTgt)
  pub tgt : ℕ
  pub kicked : ℕ

-- A request that has ended, with what each of its bios reported.
pub record Ended : Type 0 where
  pub rq : ℕ
  pub bios : List Bool

-- What the driver says through `aoechr_error`.
pub data Message : Type 0 where
  retransmit : ℕ → ℕ → Message
  unexpected_rsp : ℕ → Message
  unknown_device : ℕ → ℕ → Message

-- Bytes of a response that went into the pages of a bio: the request, the bio's place in it, where
-- in the bio, and how many.
pub record Copied : Type 0 where
  pub rq : ℕ
  pub bio : ℕ
  pub iter : Iter
  pub bytes : List ℕ

-- What lies outside a device: `allocs` holds the outcomes of the allocations to come, `fresh` is
-- the next unused pointer, `tx` the packets given to the transmitter, `completions` the frames given to
-- the completion threads, oldest first.
pub record Kern : Type 0 where
  pub allocs : List Bool
  pub fresh : ℕ
  pub tx : List Skb
  pub messages : List Message
  pub completions : List Frame
  pub ended : List Ended
  pub copied : List Copied
  pub work_scheduled : Bool

pub record State : Type 0 where
  pub dev : AoeDev
  pub kern : Kern

-- What the kernel answers while a handler runs, and the module's parameters. `busy` tells of an skb
-- whether the network layer still holds its data (`dataref` is not 1).
pub record Env : Type 0 where
  pub hz : ℕ
  pub jiffies : ℕ
  pub now : ℕ
  pub busy : ℕ → Bool
  pub dev_addr : ℕ → ℕ
  pub mtu : ℕ → ℕ
  pub bio_advance_iter : Iter → ℕ → Iter
  pub page_size : ℕ
  pub jiffies_to_usecs : ℕ → ℕ
  pub aoe_deadsecs : ℕ
  pub aoe_maxout : ℕ
  pub aoe_dyndevs : Bool
  pub aoe_partitions : ℕ
  pub find_first_zero_bit : List Bool → ℕ
  pub work_pending : ℕ → Bool

-- The constants of the header's `enum`.
abbrev pub default_bcnt : ℕ
default_bcnt = 1024

abbrev pub ntargets : ℕ
ntargets = 4

abbrev pub naoeifs : ℕ
naoeifs = 8

abbrev pub nskbpoolmax : ℕ
nskbpoolmax = 256

abbrev pub nfactive : ℕ
nfactive = 61

abbrev pub usec_per_sec : ℕ
usec_per_sec = 1000000

abbrev pub rttavg_init : ℕ
rttavg_init = usec_per_sec / 4 * 2 ^ 8

abbrev pub rttdev_init : ℕ
rttdev_init = rttavg_init / 4

abbrev pub hard_scorn_secs : ℕ
hard_scorn_secs = 10

abbrev pub max_taint : ℕ
max_taint = 1000

-- Zeroed memory.
abbrev pub zero_iter : Iter
zero_iter = record { sector = 0; size = 0 }

abbrev pub zero_hdr : AoeHdr
zero_hdr = record { dst = 0; src = 0; verfl = 0; err = 0; major = 0; minor = 0; cmd = 0; tag = 0 }

abbrev pub zero_ata : AtaHdr
zero_ata = record {
  ext = false;
  write = false;
  scnt = 0;
  cmdstat = 0;
  lba0 = 0;
  lba1 = 0;
  lba2 = 0;
  lba3 = 0;
  lba4 = 0;
  lba5 = 0;
}

abbrev pub zero_if : AoeIf
zero_if = record { nd = none; lost = 0; bcnt = 0 }

-- The next allocation: its outcome, and what is left.
abbrev pub next_alloc : List Bool → Bool × List Bool
next_alloc [] = (false, [])
next_alloc (List.◌∷◌ ok rest) = (ok, rest)
