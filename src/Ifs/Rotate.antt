-- ===== src/Ifs/Rotate.antt =====
-- `ifrotate` goes round the interfaces in use.
use aoe.Prelude.{◌+◌, ◌≤◌, ◌<◌, ◌≡◌, some, length, arith, ltb, if◌then◌else◌}
use aoe.Types.{AoeTgt, naoeifs}
use aoe.Ifs.{ifrotate}
use aoe.Ifs.Packed.{in_use, IsPacked, in_use-le-length, get_or-in_use, get_or-not_in_use}

-- With a packed table of at most NAOEIFS entries and some interface in use, `ifrotate` succeeds: it
-- takes the next interface in use, and goes back to the first behind the last, or where `ifp`
-- was not at an interface in use.
pub ifrotate-in_use :
    (t : AoeTgt)
    → IsPacked t.ifs
    → length t.ifs ≤ naoeifs
    → 0 < in_use t.ifs
    → ifrotate t ≡ some (record t { ifp = if ltb (t.ifp + 1) (in_use t.ifs) then t.ifp + 1 else 0 })
unfolding ifrotate
ifrotate-in_use t k l h = ground (
  arith,
  in_use-le-length t.ifs,
  get_or-in_use t.ifs 0,
  get_or-in_use t.ifs (t.ifp + 1),
  get_or-not_in_use t.ifs (t.ifp + 1) k,
)
