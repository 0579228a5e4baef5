-- ===== src/Flush.antt =====
-- Taking devices out of the list, aoedev.c: `user_req`, `freedev`, `flush`, `aoedev_flush`.
-- `devlist_lock` covers each pass over the list, but is free while `freedev` frees a device; that
-- another device is found or used meanwhile is left out. Text is a list of bytes.
pub mod Frees
pub mod Name
pub mod Kept
pub mod Worked
pub mod Left
pub mod Orderly
use aoe.Prelude.{
  ℕ, zero, suc, ◌+◌, ◌-◌, ◌/◌, ◌%◌, Bool, true, false, Option, none, some, List, [], ◌∷◌, ◌++◌, leb,
  ◌==◌, ◌&&◌, ◌||◌, ◌>>=◌, not, if◌then◌else◌, length, min,
}
use aoe.Types.{AoeDev, State, Kern, Env}
use aoe.Frames.{on_dev}
use aoe.Minors.{minor_free}
use aoe.Fail.{aoedev_downdev}
use aoe.Devs.{Driver}
use aoe.Open.{aoecmd_sleepwork}

-- A number's decimal digits, least first, with fuel for as many as it has.
abbrev pub digits : ℕ → ℕ → List ℕ
digits zero n = []
digits (suc fuel) n =
    let rest = digits fuel (n / 10) in if leb n 9 then (48 + n) ∷ [] else (48 + n % 10) ∷ rest

abbrev reversed : List ℕ → List ℕ → List ℕ
reversed [] acc = acc
reversed (c ∷ cs) acc = reversed cs (c ∷ acc)

abbrev pub decimal : ℕ → List ℕ
decimal n = reversed (digits (suc n) n) []

-- "etherd/e", the shelf, ".", the slot: the name that `aoeblk_gdalloc` gives the disk.
abbrev pub disk_name : AoeDev → List ℕ
disk_name d =
    101 ∷ 116 ∷ 104 ∷ 101 ∷ 114 ∷ 100 ∷ 47 ∷ 101 ∷ (decimal d.aoemajor ++ 46 ∷ decimal d.aoeminor)

abbrev pub or_else : Option (List ℕ) → Option (List ℕ) → Option (List ℕ)
or_else none o = o
or_else (some cs) o = some cs

-- What stands behind the last slash, if there is one.
abbrev pub behind_slash : List ℕ → Option (List ℕ)
behind_slash [] = none
behind_slash (c ∷ cs) = or_else (behind_slash cs) (if c == 47 then some cs else none)

abbrev pub base_name : List ℕ → List ℕ
base_name cs = elim (behind_slash cs) [ none ↦ cs | some p ↦ p ]

-- Whether `strncmp` finds no difference in `lim` characters; a name ends with a NUL.
abbrev pub is_same : ℕ → List ℕ → List ℕ → Bool
is_same zero s p = true
is_same (suc lim) [] [] = true
is_same (suc lim) [] (q ∷ ps) = q == 0
is_same (suc lim) (c ∷ cs) [] = c == 0
is_same (suc lim) (c ∷ cs) (q ∷ ps) = let rest = is_same lim cs ps in c == q && (c == 0 || rest)

-- The size of `disk_name`, DISK_NAME_LEN.
abbrev pub disk_name_len : ℕ
disk_name_len = 32

-- `user_req`.
unfoldable pub user_req : List ℕ → AoeDev → Bool
user_req s d =
    let p = base_name (disk_name d) in
    let lim = disk_name_len - (length (disk_name d) - length p) in
    elim d.capacity [ none ↦ false | some n ↦ is_same (min (length s) lim) s p ]

-- What a flush is for: everything at exit, the devices of a name, all that are idle, or those that
-- are down and idle.
pub data Wanted : Type 0 where
  exiting : Wanted
  specified : List ℕ → Wanted
  all_idle : Wanted
  down_idle : Wanted

-- No flag of `skipflags` is set, nobody has the device open or works on it.
abbrev pub is_idle : AoeDev → Bool
is_idle d = not (d.flags.gdalloc || d.flags.newsize || d.flags.tkill) && d.nopen == 0 && d.ref == 0

-- Whether the first pass takes the device down.
abbrev pub is_doomed : Wanted → AoeDev → Bool
is_doomed exiting d = true
is_doomed (specified s) d = user_req s d
is_doomed all_idle d = is_idle d
is_doomed down_idle d = not d.flags.up && is_idle d

abbrev pub marked : AoeDev → AoeDev
marked d = record d { flags = record d.flags { tkill = true } }

-- The first pass: `aoedev_downdev` and DEVFL_TKILL for the devices that go.
unfoldable pub kill : Env → State → State
unfolding aoedev_downdev
kill e s = on_dev marked (aoedev_downdev e s)

unfoldable pub pass_one : Env → Wanted → List AoeDev → Kern → List AoeDev × Kern
unfolding kill user_req
pass_one e w [] k = ([], k)
pass_one e w (d ∷ ds) k =
    let s = kill e (record { dev = d; kern = k }) in
    let killed = pass_one e w ds s.kern in
    let spared = pass_one e w ds k in
    if is_doomed w d then (s.dev ∷ killed.0, killed.1) else (d ∷ spared.0, spared.1)

abbrev pub going : AoeDev → Bool
going d = d.flags.tkill && not d.flags.freeing

abbrev pub gone : AoeDev → AoeDev
gone d = record d { skbpool = []; flags = record d.flags { freeing = true; freed = true } }

abbrev pub with_dev : AoeDev → Option (List Bool) → Option (AoeDev × List Bool)
with_dev d none = none
with_dev d (some used) = some (d, used)

-- `freedev`, for the device and `used_minors`; none is the BUG_ON of `minor_free`.
unfoldable pub freedev : Env → AoeDev → List Bool → Option (AoeDev × List Bool)
unfolding minor_free
freedev e d used =
    if going d
    then with_dev (gone d) (minor_free e.aoe_partitions used d.sysminor)
    else some (d, used)

-- The second pass. It starts again from the front behind each device that it frees; the devices
-- before that one are not to go any more, so it goes on where it was.
unfoldable pub pass_two : Env → List AoeDev → List Bool → Option (List AoeDev × List Bool)
unfolding freedev
pass_two e [] used = some ([], used)
pass_two e (d ∷ ds) used = do
  (d', used') ← freedev e d used
  (ds', used'') ← pass_two e ds used'
  some (d' ∷ ds', used'')

-- The third pass.
unfoldable pub pass_three : List AoeDev → List AoeDev
pass_three [] = []
pass_three (d ∷ ds) = if d.flags.freed then pass_three ds else d ∷ pass_three ds

abbrev pub remaining : Driver → Kern → List AoeDev × List Bool → Driver
remaining drv k (ds, used) = record { devlist = pass_three ds; kern = k; used_minors = used }

-- `flush_scheduled_work`: the work that is scheduled for the devices, by minor number, runs.
unfoldable pub scheduled : Env → List AoeDev → Kern → List AoeDev × Kern
unfolding aoecmd_sleepwork
scheduled e [] k = ([], k)
scheduled e (d ∷ ds) k =
    let s : State = record { dev = d; kern = k } in
    let s' = if e.work_pending d.sysminor then aoecmd_sleepwork s else s in
    let rest = scheduled e ds s'.kern in (s'.dev ∷ rest.0, rest.1)

-- The three passes of `flush`.
unfoldable pub sweep : Env → Wanted → Driver → Option Driver
unfolding pass_one pass_two pass_three
sweep e w drv =
    let (ds, k) = pass_one e w drv.devlist drv.kern in
    do r ← pass_two e ds drv.used_minors; some (remaining drv k r)

abbrev pub worked : Env → Driver → Driver
worked e drv =
    let (ds, k) = scheduled e drv.devlist drv.kern in record drv { devlist = ds; kern = k }

-- `flush`.
unfoldable pub flush : Env → Wanted → Driver → Option Driver
unfolding scheduled sweep
flush e w drv = sweep e w (worked e drv)

abbrev pub taken : ℕ → List ℕ → List ℕ
taken zero s = []
taken (suc n) [] = []
taken (suc n) (c ∷ cs) = c ∷ taken n cs

-- What the user wrote: at least three characters, of which 16 count, are "all" or a name.
abbrev pub wanted : List ℕ → Wanted
wanted s =
    let buf = taken 16 s in
    if leb 3 (length s)
    then (if is_same 3 buf (97 ∷ 108 ∷ 108 ∷ []) then all_idle else specified buf)
    else down_idle

-- `aoedev_flush`.
unfoldable pub aoedev_flush : Env → List ℕ → Driver → Option Driver
unfolding flush
aoedev_flush e s drv = flush e (wanted s) drv
