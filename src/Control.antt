-- ===== src/Control.antt =====
-- The files of /dev/etherd that are written, aoechr.c: `aoechr_open`, `discover`, `interfaces`,
-- `revalidate`, `aoechr_write`.
pub mod Refused
use aoe.Prelude.{
  ℕ, zero, suc, ◌+◌, Bool, true, false, Option, none, some, List, [], ◌∷◌, leb, ◌==◌, ◌||◌, ◌&&◌,
  not, if◌then◌else◌, length,
}
use aoe.Types.{AoeDev, Frame, State, Env, next_alloc}
use aoe.Targets.{aoecmd_cleanslate}
use aoe.Frames.{newframe, on_dev}
use aoe.Rsp.{aoedev_put}
use aoe.Cfg.{aoecmd_cfg, aoecmd_ata_id}
use aoe.Devs.{Driver, aoedev_by_aoeaddr, on_device}
use aoe.Flush.{aoedev_flush}
use aoe.Net.{IflistAnswer, stored, einval, efault, is_aoe_netif, set_aoe_iflist}

-- What a write meets in the kernel: the network's interfaces and their names, whether the user's
-- memory can be read, what a copy that fails leaves of the list in place, `sscanf` of "e%d.%d", and
-- for each sleep between two tries of `revalidate` whether it goes undisturbed; the first after those in the list is interrupted.
pub record Host : Type 0 where
  pub netdevs : List ℕ
  pub if_name : ℕ → List ℕ
  pub readable : Bool
  pub torn : List ℕ → List ℕ
  pub scan : List ℕ → Option (ℕ × ℕ)
  pub sleeps : List Bool

-- The devices, and the list of interfaces.
pub record Control : Type 0 where
  pub driver : Driver
  pub aoe_iflist : List ℕ

-- -EINVAL, -EFAULT, the number of bytes written, or a BUG.
pub data WriteAnswer : Type 0 where
  invalid : WriteAnswer
  fault : WriteAnswer
  wrote : ℕ → WriteAnswer
  bug : WriteAnswer

abbrev pub minor_err : ℕ
minor_err = 2

abbrev pub minor_discover : ℕ
minor_discover = 3

abbrev pub minor_interfaces : ℕ
minor_interfaces = 4

abbrev pub minor_revalidate : ℕ
minor_revalidate = 5

abbrev pub minor_flush : ℕ
minor_flush = 6

-- `aoechr_open`: whether there is such a file.
unfoldable pub aoechr_open : ℕ → Bool
aoechr_open n =
    n == minor_err
    || n == minor_discover
    || n == minor_interfaces
    || n == minor_revalidate
    || n == minor_flush

abbrev pub uses : Host → Control → ℕ → Bool
uses w c ifp = is_aoe_netif c.aoe_iflist (w.if_name ifp)

-- `discover`: everybody is asked.
unfoldable pub discover : Env → Host → Control → Control
unfolding aoecmd_cfg
discover e w c =
    let k = aoecmd_cfg e (uses w c) w.netdevs 0xffff 0xff c.driver.kern in
    record c { driver = record c.driver { kern = k } }

-- `interfaces`: any failure is -EINVAL.
abbrev pub set_answer : ℕ → IflistAnswer → WriteAnswer
set_answer n einval = invalid
set_answer n efault = invalid
set_answer n stored = wrote n

unfoldable pub interfaces : Host → List ℕ → Control → WriteAnswer × Control
unfolding set_aoe_iflist
interfaces w text c =
    let (a, l) = set_aoe_iflist w.readable w.torn text c.aoe_iflist in
    (set_answer (length text) a, record c { aoe_iflist = l })

-- Whether `aoecmd_ata_id` gives an skb: a frame was to be had, and its skb could be cloned.
unfoldable pub is_given : Option Frame × State → Bool
is_given (none, s) = false
is_given (some f, s) = (next_alloc s.kern.allocs).0

-- The loop of `revalidate`, with the sleeps between its tries. The lock is free while it sleeps;
-- what else may happen then is left out.
unfoldable pub tries : Env → List Bool → State → State
unfolding aoecmd_ata_id is_given newframe
tries e [] s = aoecmd_ata_id e s
tries e (undisturbed ∷ sleeps) s =
    let s' = aoecmd_ata_id e s in
    let again = tries e sleeps s' in
    if is_given (newframe e s) then s' else if undisturbed then again else s'

-- What `revalidate` does to the device.
unfoldable pub revalidate_dev : Env → Host → Control → ℕ → ℕ → State → State
unfolding aoecmd_cleanslate aoecmd_cfg tries
revalidate_dev e w c major minor s =
    let asked = record (on_dev aoecmd_cleanslate s) {
      kern = aoecmd_cfg e (uses w c) w.netdevs major minor s.kern;
    } in
    on_dev aoedev_put (tries e w.sleeps asked)

abbrev pub revalidate_at : Env → Host → ℕ × ℕ → Control → Option ℕ × Driver → WriteAnswer × Control
revalidate_at e w a c (none, drv) = (invalid, record c { driver = drv })
revalidate_at e w (major, minor) c (some i, drv) =
    (wrote 0, record c { driver = on_device (revalidate_dev e w c major minor) i drv })

abbrev pub revalidate_scanned : Env → Host → Option (ℕ × ℕ) → Control → WriteAnswer × Control
revalidate_scanned e w none c = (invalid, c)
revalidate_scanned e w (some (major, minor)) c =
    revalidate_at e w (major, minor) c (aoedev_by_aoeaddr e major minor false c.driver)

-- `revalidate`; an answer of 0 is `wrote`.
unfoldable pub revalidate : Env → Host → List ℕ → Control → WriteAnswer × Control
unfolding aoedev_by_aoeaddr on_device revalidate_dev
revalidate e w text c =
    if leb 16 (length text)
    then (invalid, c)
    else if not w.readable
    then (fault, c)
    else revalidate_scanned e w (w.scan text) c

-- A flush of text that cannot be read fails, if it is long enough to be read at all.
abbrev pub flushed_to : ℕ → Control → Option Driver → WriteAnswer × Control
flushed_to n c none = (bug, c)
flushed_to n c (some drv) = (wrote n, record c { driver = drv })

abbrev pub counted : ℕ → WriteAnswer × Control → WriteAnswer × Control
counted n (wrote m, c) = (wrote n, c)
counted n (a, c) = (a, c)

-- `aoechr_write` of the file with the minor number `n`.
unfoldable pub aoechr_write : Env → Host → ℕ → List ℕ → Control → WriteAnswer × Control
unfolding discover interfaces revalidate aoedev_flush
aoechr_write e w n text c =
    let cnt = length text in
    if n == minor_discover
    then (wrote cnt, discover e w c)
    else if n == minor_interfaces
    then interfaces w text c
    else if n == minor_revalidate
    then counted cnt (revalidate e w text c)
    else if n == minor_flush
    then (if leb 3 cnt && not w.readable
        then (fault, c)
        else flushed_to cnt c (aoedev_flush e text c.driver))
    else (invalid, c)
