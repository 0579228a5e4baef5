-- ===== src/Lib.antt =====
-- The ATA over Ethernet driver, linux/drivers/block/aoe.
--
-- The block layer hands requests to a device (aoeblk.c), which cuts their bios into commands of
-- at most `maxbcnt` bytes (aoecmd.c). A command is a frame: it is taken from a target, sent over
-- one of that target's interfaces under a fresh tag, and kept in a hash of active frames until
-- its response comes. A timer moves frames that have waited too long to a queue of deferred
-- frames, from which they are sent again, perhaps to another target of the device.
--
-- The state is one device and what the driver sees of the kernel (Types.antt). An operation is a
-- function of the state, composed as the code composes it; the code holds the device's lock
-- throughout, so operations do not interleave. Where it lets go of the lock in between, as
-- `aoeblk_gdalloc` does, the parts are operations of their own, and other events come between
-- them. Pointers to bufs, requests, skbs and interfaces are numbers, a frame's target is an
-- index. The outcomes of the allocations to come are a list of the state. The clocks, the network
-- layer's hold on an skb, the interfaces' addresses, and `bio_advance_iter` and
-- `jiffies_to_usecs`, which are the kernel's, are fields of `Env`, a parameter of everything.
--
-- - Types: aoe.h.
-- - Clock: `newtag`, `tsince`, `tsince_hr`, `rto`, the averages of `calc_rttavg`.
-- - Hdr: `put_lba`, `aoehdr_atainit`, the ATA header of `ata_rw_frameinit`.
-- - Ifs: a target's table of interfaces (`ifrotate`, `getif`, `ejectif`, the loop of `setifbcnt`).
-- - Tgt: a target's congestion window and taint.
-- - Targets: a device's table of targets (`gettgt`, `grow_targets`, `addtgt`, `setdbcnt`,
--   `count_targets`, `aoecmd_cleanslate`).
-- - Frames: `getframe`, `fhash`, `aoe_freetframe`, the skb pool, `newtframe`, `newframe`.
-- - Blk: `nextbuf`, `aoe_end_request`, the failing of a queue.
-- - Send: `ata_rw_frameinit`, `aoecmd_ata_rw`.
-- - Rexmit: `resend`, `probe`, `reassign_frame`, `rexmit_deferred`.
-- - Work: `aoecmd_work`, `aoeblk_request`.
-- - Fail: `aoe_end_buf`, `aoe_failbuf`, `aoe_failip`, `aoedev_downdev` (aoecmd.c, aoedev.c).
-- - Timer: `rexmit_timer`.
-- - Rsp: `calc_rttavg`, `aoecmd_ata_rsp`.
-- - Ident: `ataid_complete`, `ata_ident_fixstring`, the new size of `aoecmd_sleepwork`.
-- - Io: `ktiocomplete`, `bvcpy`, `aoe_flush_iocq`; Io/Loop: `ktio`.
-- - Cfg: `aoecmd_cfg_pkts`, `aoecmd_cfg`, `aoecmd_ata_id`, `aoecmd_cfg_rsp` of one device.
-- - Devs: the list of devices, `aoedev_by_aoeaddr` (aoedev.c), `aoecmd_cfg_rsp`.
-- - Flush: `user_req`, `freedev`, `flush` with the work that `flush_scheduled_work` runs,
--   `aoedev_flush`; Flush/Frees: `skbfree`, `skbpoolfree`,
--   `freetgt` (aoedev.c).
-- - Open: `aoeblk_open`, `aoeblk_release`, `aoeblk_getgeo`, `aoeblk_ioctl`, `aoeblk_gdalloc`
--   (aoeblk.c), `aoecmd_sleepwork`, and the life of a device's disk as sequences of events.
-- - Minors: `minor_get_dyn`, `minor_get_static`, `minor_get`, `minor_free` (aoedev.c).
-- - Net: `aoe_strcspn`, `is_aoe_netif`, `set_aoe_iflist`, `aoenet_rcv`; Net/Transmit: `aoenet_xmit`,
--   `tx` (aoenet.c). The list `tx` of the state is what `aoenet_xmit` gets.
-- - Init: `aoe_init`, `aoe_exit`, `discover_timer` (aoemain.c), and the init and exit functions of the
--   other files.
-- - Control: `aoechr_open`, `aoechr_write`, `discover`, `interfaces`, `revalidate` (aoechr.c).
-- - Chr: the ring of error messages, `aoechr_error`, `aoechr_read` (aoechr.c).
-- - Show: a disk's files in sysfs and debugfs (aoeblk.c).
-- - Dbg: the times of a device's responses (aoedbg.c).
-- - Tools: the user's tools, aoetools-36, whose tags the driver on the same host must ignore.
--   Tools/San is what aoe-sancheck.c learns, Tools/Report what it prints; Tools/Socket is the raw
--   socket of the other two, Tools/Ping and Tools/Smart are aoeping.c, with `main` in
--   Tools/Ping/Run, and Tools/Config is aoecfg.c.
-- - Tests: runs at concrete states.
--
-- The integers of the code keep their widths: tags, averages and `sent_jiffs` are 32 bits,
-- `lasttag` and `nout` 16, `lost` and the waiting times 64. The search of `newframe` has fuel for
-- two rounds of the table of targets, which is shown to be enough. The loop of `aoecmd_work` has
-- fuel for what the targets' windows leave room for, and one more, which is shown to be enough. A
-- round of `ktio` has fuel for as many frames as `aoe_maxioc` allows, which is shown to be enough
-- for a limit that is set; without one, a round goes on while frames come.
--
-- Not modelled: locks, what else happens to the list of devices while a flush has let go of
-- `devlist_lock` to free a device, the start and stop of the completion threads, which choose
-- when `ktio` runs, the making of the files in sysfs and debugfs and of the relay channels,
-- which are the kernel's, the raw sockets of aoetools-36/linux.c, the start of the threads of
-- aoe-sancheck.c, the layout of what the tools print, and the probes of conf, which the build
-- runs to adapt the sources.
pub mod Prelude
pub mod Types
pub mod Clock
pub mod Ifs
pub mod Tgt
pub mod Targets
pub mod Frames
pub mod Blk
pub mod Hdr
pub mod Send
pub mod Rexmit
pub mod Work
pub mod Fail
pub mod Timer
pub mod Rsp
pub mod Ident
pub mod Io
pub mod Minors
pub mod Cfg
pub mod Devs
pub mod Flush
pub mod Open
pub mod Net
pub mod Init
pub mod Chr
pub mod Control
pub mod Show
pub mod Dbg
pub mod Tools
pub mod Tests
