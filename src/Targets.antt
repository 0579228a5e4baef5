-- ===== src/Targets.antt =====
-- A device's table of targets, aoecmd.c: `gettgt`, `grow_targets`, `addtgt`, `setdbcnt`,
-- `setifbcnt`, `count_targets`, `aoecmd_cleanslate`. A slot is NULL or a target; the targets stand
-- at the table's front.
pub mod Shape
pub mod Bytes
use aoe.Prelude.{
  ℕ, zero, suc, ◌+◌, ◌*◌, Bool, Option, none, some, List, [], ◌∷◌, ◌++◌, ltb, ◌==◌, ◌||◌,
  if◌then◌else◌, length, set, replicate,
}
use aoe.Types.{AoeTgt, AoeIf, AoeDev, next_alloc, rttavg_init, rttdev_init}
use aoe.Ifs.{place}
use aoe.Tgt.{aoecmd_wreset, new_target}

abbrev pub Slots : Type 0
Slots = List (Option AoeTgt)

-- The slot of the first target with the address.
abbrev pub gettgt_from : Slots → ℕ → ℕ → Option ℕ
gettgt_from [] addr i = none
gettgt_from (none ∷ ts) addr i = none
gettgt_from (some t ∷ ts) addr i = if t.addr == addr then some i else gettgt_from ts addr (i + 1)

unfoldable pub gettgt : Slots → ℕ → Option ℕ
gettgt ts addr = gettgt_from ts addr 0

-- The first empty slot, or the table's length.
abbrev pub first_null : Slots → ℕ
first_null [] = 0
first_null (none ∷ ts) = 0
first_null (some t ∷ ts) = suc (first_null ts)

-- `tgt` is an index, so moving the table leaves it alone.
unfoldable pub grow_targets : Slots → List Bool → Option Slots × List Bool
grow_targets ts allocs =
    let (ok, rest) = next_alloc allocs in
    (if ok then some (ts ++ replicate (length ts) none) else none, rest)

-- The table as `addtgt` needs it, one that has an empty slot.
unfoldable pub with_room : Slots → List Bool → Option Slots × List Bool
unfolding grow_targets
with_room ts allocs =
    if first_null ts == length ts then grow_targets ts allocs else (some ts, allocs)

abbrev pub add_to : Option Slots → Slots → ℕ → ℕ → ℕ → List Bool → Option ℕ × Slots × List Bool
add_to none ts i addr nframes allocs = (none, ts, allocs)
add_to (some us) ts i addr nframes allocs =
    let (ok, rest) = next_alloc allocs in
    if ok then (some i, set us i (some (new_target addr nframes)), rest) else (none, us, rest)

-- The new target's slot, or none where memory lacks, and the table.
unfoldable pub addtgt : Slots → ℕ → ℕ → List Bool → Option ℕ × Slots × List Bool
unfolding with_room
addtgt ts addr nframes allocs =
    let (room, rest) = with_room ts allocs in add_to room ts (first_null ts) addr nframes rest

abbrev pub least_bcnt : Slots → ℕ → ℕ
least_bcnt [] bcnt = bcnt
least_bcnt (none ∷ ts) bcnt = bcnt
least_bcnt (some t ∷ ts) bcnt =
    least_bcnt ts (if bcnt == 0 || ltb t.minbcnt bcnt then t.minbcnt else bcnt)

-- What `setdbcnt` makes `maxbcnt`.
unfoldable pub setdbcnt : Slots → ℕ
setdbcnt ts = least_bcnt ts 0

abbrev pub set_minbcnt : AoeTgt → Option (List AoeIf × ℕ) → Option AoeTgt
set_minbcnt t none = none
set_minbcnt t (some (ifs, least)) = some (record t { ifs = ifs; minbcnt = least })

-- `setifbcnt` on the target; none is the early return.
unfoldable pub setifbcnt : AoeTgt → ℕ → ℕ → Option AoeTgt
setifbcnt t nd bcnt = set_minbcnt t (place t.ifs (some nd) bcnt bcnt)

-- `count_targets`: the targets, and those without taint.
abbrev pub count_untainted : Slots → ℕ
count_untainted [] = 0
count_untainted (none ∷ ts) = 0
count_untainted (some t ∷ ts) = (if t.taint == 0 then 1 else 0) + count_untainted ts

unfoldable pub count_targets : Slots → ℕ × ℕ
count_targets ts = (first_null ts, count_untainted ts)

-- `f` at every target up to the first empty slot.
abbrev pub each_target : (AoeTgt → AoeTgt) → Slots → Slots
each_target f [] = []
each_target f (none ∷ ts) = none ∷ ts
each_target f (some t ∷ ts) = some (f t) ∷ each_target f ts

unfoldable pub aoecmd_cleanslate : AoeDev → AoeDev
aoecmd_cleanslate d = record d {
  rttavg = rttavg_init;
  rttdev = rttdev_init;
  maxbcnt = 0;
  targets = each_target aoecmd_wreset d.targets;
}

-- `f` at the target in a slot.
abbrev pub at_slot : (AoeTgt → AoeTgt) → Slots → ℕ → Slots
at_slot f [] i = []
at_slot f (none ∷ ts) zero = none ∷ ts
at_slot f (some t ∷ ts) zero = some (f t) ∷ ts
at_slot f (t ∷ ts) (suc i) = t ∷ at_slot f ts i
