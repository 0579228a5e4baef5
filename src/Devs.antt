-- ===== src/Devs.antt =====
-- The list of devices: `aoedev_by_aoeaddr` (aoedev.c), and `aoecmd_cfg_rsp` (aoecmd.c), which runs
-- on the device where the driver finds it. `devlist_lock` covers the search.
pub mod Find
pub mod Numbered
use aoe.Prelude.{
  ℕ, zero, suc, ◌+◌, ◌%◌, ◌^◌, Bool, true, false, Option, none, some, List, [], ◌∷◌, ◌++◌, leb,
  ◌==◌, ◌&&◌, ◌||◌, not, if◌then◌else◌, replicate, length,
}
use aoe.Types.{
  AoeDev, AoeTgt, DevFlags, Frame, Response, State, Kern, Env, unknown_device, ntargets, nfactive,
  rttavg_init, rttdev_init, next_alloc,
}
use aoe.Minors.{minor_get}
use aoe.Cfg.{CfgResponse, cfg_rsp_dev, is_bad_addr}

-- The devices, what lies outside them, and `used_minors`.
pub record Driver : Type 0 where
  pub devlist : List AoeDev
  pub kern : Kern
  pub used_minors : List Bool

abbrev no_flags : DevFlags
no_flags = record {
  up = false;
  tkill = false;
  ext = false;
  gdalloc = false;
  gd_now = false;
  kickme = false;
  newsize = false;
  freeing = false;
  freed = false;
}

-- The device that `aoedev_by_aoeaddr` makes.
abbrev pub new_device : ℕ → ℕ → ℕ → AoeDev
new_device sysminor maj min = record {
  sysminor = sysminor;
  aoemajor = maj;
  aoeminor = min;
  rttavg = rttavg_init;
  rttdev = rttdev_init;
  flags = no_flags;
  nopen = 0;
  fw_ver = 0;
  lasttag = 0;
  ref = 1;
  capacity = none;
  geo = record { cylinders = 0; heads = 0; sectors = 0 };
  ssize = 0;
  ident = [];
  skbpool = [];
  nskbpool = 0;
  blkq = none;
  started = [];
  bufs = [];
  ip = record { buf = none; nxbio = 0; rq = none };
  maxbcnt = 0;
  factive = replicate nfactive [];
  rexmitq = [];
  targets = replicate ntargets none;
  tgt = 0;
  kicked = 0;
}

abbrev pub next : Option (ℕ × Bool) → Option (ℕ × Bool)
next none = none
next (some (i, b)) = some (suc i, b)

-- The place of the first device with the address, and whether it is being taken down.
abbrev pub find_device : ℕ → ℕ → List AoeDev → Option (ℕ × Bool)
find_device maj min [] = none
find_device maj min (d ∷ ds) =
    let rest = next (find_device maj min ds) in
    if d.aoemajor == maj && d.aoeminor == min then some (0, d.flags.tkill) else rest

abbrev pub at_device : (AoeDev → AoeDev) → ℕ → List AoeDev → List AoeDev
at_device g i [] = []
at_device g zero (d ∷ ds) = g d ∷ ds
at_device g (suc i) (d ∷ ds) = d ∷ at_device g i ds

abbrev pub get_ref : AoeDev → AoeDev
get_ref d = record d { ref = d.ref + 1 }

-- The allocations of a device whose number has been taken; where one fails, the number stays taken.
unfoldable pub new_at : ℕ → ℕ → Bool × ℕ × List Bool → Driver → Option ℕ × Driver
new_at maj min (false, sysminor, used) drv = (none, record drv { used_minors = used })
new_at maj min (true, sysminor, used) drv =
    let (ok, rest) = next_alloc drv.kern.allocs in
    let (ok', rest') = next_alloc rest in
    let failed = record drv { used_minors = used; kern = record drv.kern { allocs = rest } } in
    let failed' = record drv { used_minors = used; kern = record drv.kern { allocs = rest' } } in
    if not ok
    then (none, failed)
    else if not ok'
    then (none, failed')
    else (some 0, record failed' { devlist = new_device sysminor maj min ∷ drv.devlist })

unfoldable pub by_found : Env → ℕ → ℕ → Bool → Option (ℕ × Bool) → Driver → Option ℕ × Driver
unfolding new_at minor_get
by_found e maj min do_alloc (some (i, true)) drv = (none, drv)
by_found e maj min do_alloc (some (i, false)) drv =
    (some i, record drv { devlist = at_device get_ref i drv.devlist })
by_found e maj min false none drv = (none, drv)
by_found e maj min true none drv =
    new_at maj min
      (minor_get e.find_first_zero_bit e.aoe_dyndevs e.aoe_partitions drv.used_minors 0 maj min) drv

-- `aoedev_by_aoeaddr`: the place of the device, or none for NULL.
unfoldable pub aoedev_by_aoeaddr : Env → ℕ → ℕ → Bool → Driver → Option ℕ × Driver
unfolding by_found
aoedev_by_aoeaddr e maj min do_alloc drv =
    by_found e maj min do_alloc (find_device maj min drv.devlist) drv

-- An operation of the device in place `i`, under its lock.
unfoldable pub run_at : (State → State) → ℕ → List AoeDev → Kern → List AoeDev × Kern
run_at op i [] k = ([], k)
run_at op zero (d ∷ ds) k = let s = op (record { dev = d; kern = k }) in (s.dev ∷ ds, s.kern)
run_at op (suc i) (d ∷ ds) k = let (ds', k') = run_at op i ds k in (d ∷ ds', k')

unfoldable pub on_device : (State → State) → ℕ → Driver → Driver
unfolding run_at
on_device op i drv =
    let (ds, k) = run_at op i drv.devlist drv.kern in record drv { devlist = ds; kern = k }

unfoldable pub cfg_rsp_at : Env → CfgResponse → Option ℕ × Driver → Driver
unfolding on_device cfg_rsp_dev
cfg_rsp_at e r (none, drv) = drv
cfg_rsp_at e r (some i, drv) = on_device (cfg_rsp_dev e r) i drv

-- `aoecmd_cfg_rsp`: a response from an address that nobody should have is left alone.
unfoldable pub aoecmd_cfg_rsp : Env → CfgResponse → Driver → Driver
unfolding cfg_rsp_at aoedev_by_aoeaddr
aoecmd_cfg_rsp e r drv =
    if is_bad_addr r.hdr
    then drv
    else cfg_rsp_at e r (aoedev_by_aoeaddr e r.hdr.major r.hdr.minor true drv)
