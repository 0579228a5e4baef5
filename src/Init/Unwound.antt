-- ===== src/Init/Unwound.antt =====
-- What a start that fails, and an end, leave behind: `aoe_init`, `aoe_exit`.
use aoe.Prelude.{◌≡◌, refl, Bool, true, false, ◌&&◌, not}
use aoe.Init.{Boot, Held, nothing_held, Started, aoe_init, aoe_exit}

-- What is held apart from the page of zeros and the debugging channel.
abbrev pub but_page : Held → Held
but_page h = record h { empty_page = false; dbg_chan = false }

-- The page was granted, and a later request of `aoecmd_init` was not.
abbrev pub is_page_left : Boot → Bool
is_page_left b =
    b.register_chrdev
    && b.class_create
    && b.kmem_cache_create
    && b.tx_thread
    && b.get_zeroed_page
    && not (b.iocq_alloc && b.kts_alloc && b.ktiowq_alloc && b.io_thread)

abbrev pub Unwound : Bool → Started → Type 0
Unwound left (true, h) = aoe_exit h ≡ nothing_held
Unwound left (false, h) = (but_page h ≡ nothing_held) × (h.empty_page ≡ left)

abbrev boot : (chr class cache dir tx page iocq kts wq io blk : Bool) → Boot
boot chr class cache dir tx page iocq kts wq io blk = record {
  register_chrdev = chr;
  class_create = class;
  kmem_cache_create = cache;
  debugfs_create_dir = dir;
  tx_thread = tx;
  get_zeroed_page = page;
  iocq_alloc = iocq;
  kts_alloc = kts;
  ktiowq_alloc = wq;
  io_thread = io;
  register_blkdev = blk;
}

unwound :
    (dbg chr class cache dir tx page iocq kts wq io blk : Bool)
    → let b = boot chr class cache dir tx page iocq kts wq io blk in
      Unwound (is_page_left b) (aoe_init dbg b)
unfolding aoe_init aoe_exit
unwound dbg false class cache dir tx page iocq kts wq io blk = (refl, refl)
unwound dbg true false cache dir tx page iocq kts wq io blk = (refl, refl)
unwound dbg true true false dir tx page iocq kts wq io blk = (refl, refl)
unwound dbg true true true dir false page iocq kts wq io blk = (refl, refl)
unwound dbg true true true dir true false iocq kts wq io blk = (refl, refl)
unwound dbg true true true dir true true false kts wq io blk = (refl, refl)
unwound dbg true true true dir true true true false wq io blk = (refl, refl)
unwound dbg true true true dir true true true true false io blk = (refl, refl)
unwound dbg true true true dir true true true true true false blk = (refl, refl)
unwound dbg true true true dir true true true true true true false = (refl, refl)
unwound dbg true true true dir true true true true true true true = refl

-- Whatever the kernel grants: where `aoe_init` succeeds, `aoe_exit` gives everything back; where it
-- fails, it has given back everything but the debugging channel, which is not looked at here, and
-- the page of zeros, which is left exactly where a request of `aoecmd_init` after it was refused.
pub aoe_init_lem : (dbg : Bool) (b : Boot) → Unwound (is_page_left b) (aoe_init dbg b)
aoe_init_lem dbg b =
    unwound dbg b.register_chrdev b.class_create b.kmem_cache_create b.debugfs_create_dir
      b.tx_thread b.get_zeroed_page b.iocq_alloc b.kts_alloc b.ktiowq_alloc b.io_thread
      b.register_blkdev
