-- ===== src/Open.antt =====
-- The block device of a disk, aoeblk.c: `aoeblk_open`, `aoeblk_release`, `aoeblk_getgeo`,
-- `aoeblk_ioctl`, `aoeblk_gdalloc`. `aoeblk_gdalloc` lets go of the lock between its parts.
pub mod Life
pub mod Work
pub mod Parts
pub mod Coherent
use aoe.Prelude.{
  ℕ, ◌+◌, ◌-◌, ◌%◌, ◌^◌, Bool, true, false, Option, none, some, List, [], ◌∷◌, ◌==◌, ◌&&◌, not,
  if◌then◌else◌,
}
use aoe.Types.{AoeDev, DevFlags, Geometry, State, Kern, Env, next_alloc}
use aoe.Frames.{on_dev}
use aoe.Ident.{schedule_work, sleepwork_newsize}
use aoe.Cfg.{aoecmd_cfg}

-- A device whose disk may be opened.
abbrev pub is_open_to_all : AoeDev → Bool
is_open_to_all d = d.flags.up && not d.flags.tkill

-- `aoeblk_open`; none is -ENODEV. `nopen` has 16 bits. The test without the lock is the one with it.
unfoldable pub aoeblk_open : AoeDev → Option AoeDev
aoeblk_open d =
    if is_open_to_all d then some (record d { nopen = (d.nopen + 1) % 2 ^ 16 }) else none

-- `aoeblk_release`: behind the last user the device is asked for its configuration.
unfoldable pub aoeblk_release : Env → (ℕ → Bool) → List ℕ → State → State
unfolding aoecmd_cfg
aoeblk_release e is_aoe_netif netdevs s =
    let n = (s.dev.nopen + 2 ^ 16 - 1) % 2 ^ 16 in
    let s' = on_dev (λ d. record d { nopen = n }) s in
    if n == 0
    then record s' { kern = aoecmd_cfg e is_aoe_netif netdevs s.dev.aoemajor s.dev.aoeminor s.kern }
    else s'

-- `aoeblk_getgeo`; none is -ENODEV.
unfoldable pub aoeblk_getgeo : AoeDev → Option Geometry
aoeblk_getgeo d = if d.flags.up then some d.geo else none

pub data IoctlAnswer : Type 0 where
  einval : IoctlAnswer
  enodev : IoctlAnswer
  efault : IoctlAnswer
  enotty : IoctlAnswer
  identity : List ℕ → IoctlAnswer

-- HDIO_GET_IDENTITY.
abbrev pub hdio_get_identity : ℕ
hdio_get_identity = 0x030d

-- `aoeblk_ioctl`; `copied` tells whether the user's memory took the identification.
unfoldable pub aoeblk_ioctl : Bool → ℕ → ℕ → AoeDev → IoctlAnswer
aoeblk_ioctl copied cmd arg d =
    if arg == 0
    then einval
    else if not d.flags.up
    then enodev
    else if cmd == hdio_get_identity
    then (if copied then identity d.ident else efault)
    else enotty

-- The first part of `aoeblk_gdalloc`: whether it goes on, and with which device.
unfoldable pub gd_begin : AoeDev → Bool × AoeDev
gd_begin d =
    let now = d.flags.gdalloc && not d.flags.tkill && not d.flags.gd_now in
    if now then (true, record d { flags = record d.flags { gd_now = true } }) else (false, d)

abbrev pub no_gd_now : AoeDev → AoeDev
no_gd_now d = record d { flags = record d.flags { gd_now = false } }

-- A failed allocation: the work is put off.
unfoldable pub gd_fail : State → State
gd_fail s = record { dev = no_gd_now s.dev; kern = schedule_work s.kern }

-- What the WARN_ONs of the second part want: the device is in the making, has no disk, and is
-- neither up nor to go.
abbrev pub in_making : DevFlags → Option ℕ → Bool
in_making f o =
    f.gd_now && f.gdalloc && not f.tkill && elim o [ none ↦ true | some n ↦ false ] && not f.up

abbrev pub is_in_making : AoeDev → Bool
is_in_making d = in_making d.flags d.capacity

-- The second part: the disk is there, with an empty queue.
unfoldable pub gd_publish : AoeDev → AoeDev
gd_publish d = record d {
  blkq = some [];
  capacity = some d.ssize;
  flags = record d.flags { gdalloc = false; up = true };
}

-- The allocations of the disk, the pool of bufs and the queue; one that fails ends them.
abbrev pub three_allocs : List Bool → Bool × List Bool
three_allocs allocs =
    let (gd, r) = next_alloc allocs in
    let (mp, r') = next_alloc r in
    let (q, r'') = next_alloc r' in
    if not gd then (false, r) else if not mp then (false, r') else (q, r'')

-- The parts where nothing comes between them; the last takes DEVFL_GD_NOW away.
unfoldable pub aoeblk_gdalloc : State → State
unfolding gd_begin gd_fail gd_publish
aoeblk_gdalloc s =
    let (now, d) = gd_begin s.dev in
    let (ok, rest) = three_allocs s.kern.allocs in
    let s' : State = record { dev = d; kern = record s.kern { allocs = rest } } in
    if not now then s else if ok then record s' { dev = no_gd_now (gd_publish d) } else gd_fail s'

-- `aoecmd_sleepwork`, where nothing comes between its parts.
unfoldable pub aoecmd_sleepwork : State → State
unfolding aoeblk_gdalloc sleepwork_newsize
aoecmd_sleepwork s = on_dev sleepwork_newsize (if s.dev.flags.gdalloc then aoeblk_gdalloc s else s)
