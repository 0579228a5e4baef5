-- ===== src/Init.antt =====
-- The start and the end of the module: `aoe_init`, `aoe_exit`, `discover_timer` (aoemain.c) and what
-- they call (aoechr.c, aoeblk.c, aoenet.c, aoecmd.c). A request that can fail is a field of `Boot`, with the
-- kernel's answer to it; what the module holds of the kernel is a record of Booleans.
pub mod Unwound
use aoe.Prelude.{Bool, true, false, not, if◌then◌else◌}

-- The kernel's answers: whether each request is granted.
pub record Boot : Type 0 where
  pub register_chrdev : Bool
  pub class_create : Bool
  pub kmem_cache_create : Bool
  pub debugfs_create_dir : Bool
  pub tx_thread : Bool
  pub get_zeroed_page : Bool
  pub iocq_alloc : Bool
  pub kts_alloc : Bool
  pub ktiowq_alloc : Bool
  pub io_thread : Bool
  pub register_blkdev : Bool

pub record Held : Type 0 where
  pub dbg_chan : Bool
  pub chrdev : Bool
  pub class : Bool
  pub chardevs : Bool
  pub buf_pool_cache : Bool
  pub debugfs_dir : Bool
  pub tx_kts : Bool
  pub aoe_pt : Bool
  pub empty_page : Bool
  pub iocq : Bool
  pub kts : Bool
  pub ktiowq : Bool
  pub io_kts : Bool
  pub blkdev : Bool
  pub timer : Bool

abbrev pub nothing_held : Held
nothing_held = record {
  dbg_chan = false;
  chrdev = false;
  class = false;
  chardevs = false;
  buf_pool_cache = false;
  debugfs_dir = false;
  tx_kts = false;
  aoe_pt = false;
  empty_page = false;
  iocq = false;
  kts = false;
  ktiowq = false;
  io_kts = false;
  blkdev = false;
  timer = false;
}

-- An init function: whether it returns 0, and what is held then.
abbrev pub Started : Type 0
Started = Bool × Held

unfoldable pub aoechr_init : Boot → Held → Started
aoechr_init b h =
    if not b.register_chrdev
    then (false, h)
    else if not b.class_create
    then (false, record h { chrdev = false })
    else (true, record h { chrdev = true; class = true; chardevs = true })

unfoldable pub aoechr_exit : Held → Held
aoechr_exit h = record h { chardevs = false; class = false; chrdev = false }

-- `aoeblk_init` does without its debugfs directory.
unfoldable pub aoeblk_init : Boot → Held → Started
aoeblk_init b h =
    if not b.kmem_cache_create
    then (false, h)
    else (true, record h { buf_pool_cache = true; debugfs_dir = b.debugfs_create_dir })

unfoldable pub aoeblk_exit : Held → Held
aoeblk_exit h = record h { debugfs_dir = false; buf_pool_cache = false }

unfoldable pub aoenet_init : Boot → Held → Started
aoenet_init b h =
    if not b.tx_thread then (false, h) else (true, record h { tx_kts = true; aoe_pt = true })

unfoldable pub aoenet_exit : Held → Held
aoenet_exit h = record h { tx_kts = false; aoe_pt = false }

-- `aoecmd_init`; its failures free what it has allocated, the page apart.
unfoldable pub aoecmd_init : Boot → Held → Started
aoecmd_init b h =
    let page = record h { empty_page = true } in
    if not b.get_zeroed_page
    then (false, h)
    else if not b.iocq_alloc
    then (false, page)
    else if not b.kts_alloc
    then (false, record page { iocq = false })
    else if not b.ktiowq_alloc
    then (false, record page { kts = false; iocq = false })
    else if not b.io_thread
    then (false, record page { ktiowq = false; kts = false; iocq = false })
    else (true, record page { iocq = true; kts = true; ktiowq = true; io_kts = true })

unfoldable pub aoecmd_exit : Held → Held
aoecmd_exit h = record h {
  io_kts = false;
  iocq = false;
  kts = false;
  ktiowq = false;
  empty_page = false;
}

-- The labels of `aoe_init`; each falls through to the next.
abbrev pub chr_fail : Held → Started
chr_fail h = (false, h)

abbrev pub blk_fail : Held → Started
blk_fail h = chr_fail (aoechr_exit h)

abbrev pub net_fail : Held → Started
net_fail h = blk_fail (aoeblk_exit h)

abbrev pub cmd_fail : Held → Started
cmd_fail h = net_fail (aoenet_exit h)

abbrev pub blkreg_fail : Held → Started
blkreg_fail h = cmd_fail (aoecmd_exit h)

abbrev pub register : Boot → Started → Started
register b (false, h) = cmd_fail h
register b (true, h) =
    if b.register_blkdev then (true, record h { blkdev = true; timer = true }) else blkreg_fail h

abbrev pub start_cmd : Boot → Started → Started
start_cmd b (false, h) = net_fail h
start_cmd b (true, h) = register b (aoecmd_init b h)

abbrev pub start_net : Boot → Started → Started
start_net b (false, h) = blk_fail h
start_net b (true, h) = start_cmd b (aoenet_init b h)

abbrev pub start_blk : Boot → Started → Started
start_blk b (false, h) = chr_fail h
start_blk b (true, h) = start_net b (aoeblk_init b h)

-- `aoe_init`, given whether the debugging channel is opened.
unfoldable pub aoe_init : Bool → Boot → Started
unfolding aoechr_init aoechr_exit aoeblk_init aoeblk_exit aoenet_init aoenet_exit aoecmd_init
    aoecmd_exit
aoe_init dbg b = start_blk b (aoechr_init b (record nothing_held { dbg_chan = dbg }))

-- `aoe_exit`.
unfoldable pub aoe_exit : Held → Held
unfolding aoechr_exit aoeblk_exit aoenet_exit aoecmd_exit
aoe_exit h =
    let stopped = record h { timer = false } in
    let quiet = record (aoenet_exit stopped) { blkdev = false } in
    record (aoeblk_exit (aoechr_exit (aoecmd_exit quiet))) { dbg_chan = false }

-- The state of `discover_timer`: `die`, and whether the timer is set.
pub record DiscoverTimer : Type 0 where
  pub die : Bool
  pub is_set : Bool

pub data TimerCall : Type 0 where
  tinit : TimerCall
  trun : TimerCall
  tkill : TimerCall

abbrev pub run_timer : DiscoverTimer → DiscoverTimer
run_timer t = record t { is_set = not t.die }

-- `discover_timer`: whether it asks everybody for its configuration, and its state. A timer that
-- has run is no longer set.
unfoldable pub discover_timer : TimerCall → DiscoverTimer → Bool × DiscoverTimer
discover_timer tinit t = (true, run_timer (record t { die = false }))
discover_timer trun t = (true, run_timer t)
discover_timer tkill t = (false, record { die = true; is_set = false })
