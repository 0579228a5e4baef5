-- ===== src/Minors.antt =====
-- The minor numbers of devices, aoedev.c: `minor_get_dyn`, `minor_get_static`, `minor_get`,
-- `minor_free`. The bitmap `used_minors` is a list of Booleans, as many as N_DEVS; `parts` is
-- AOE_PARTITIONS, which the build sets, and `find_first_zero_bit` is the kernel's.
pub mod Grants
use aoe.Prelude.{
  ℕ, ◌+◌, ◌*◌, ◌/◌, ◌≤◌, ◌<◌, ◌≡◌, Bool, true, false, Option, none, some, List, leb, if◌then◌else◌,
  length, get_or, set,
}

-- What the kernel documents: the place of the first bit that is clear, or the bitmap's size.
pub record FirstZero (find_first_zero_bit : List Bool → ℕ) : Type 0 where
  pub bound : (used : List Bool) → find_first_zero_bit used ≤ length used
  pub below : (used : List Bool) (i : ℕ) → i < find_first_zero_bit used → get_or used i true ≡ true
  pub clear :
      (used : List Bool)
      → find_first_zero_bit used < length used
      → get_or used (find_first_zero_bit used) true ≡ false

-- What the calls return: whether they succeed, `*sysminor`, and the bitmap.
abbrev pub Grant : Type 0
Grant = Bool × ℕ × List Bool

unfoldable pub minor_get_dyn : (List Bool → ℕ) → ℕ → List Bool → Grant
minor_get_dyn find parts used =
    let n = find used in
    if leb (length used) n then (false, n * parts, used) else (true, n * parts, set used n true)

abbrev pub npershelf : ℕ
npershelf = 16

-- `sysminor` is what `*sysminor` was before, which the early exits leave.
unfoldable pub minor_get_static : ℕ → List Bool → ℕ → ℕ → ℕ → Grant
minor_get_static parts used sysminor aoemaj aoemin =
    let n = aoemaj * npershelf + aoemin in
    if leb npershelf aoemin
    then (false, sysminor, used)
    else if leb (length used) n
    then (false, sysminor, used)
    else if get_or used n true
    then (false, n * parts, used)
    else (true, n * parts, set used n true)

unfoldable pub minor_get : (List Bool → ℕ) → Bool → ℕ → List Bool → ℕ → ℕ → ℕ → Grant
unfolding minor_get_dyn minor_get_static
minor_get find aoe_dyndevs parts used sysminor aoemaj aoemin =
    if aoe_dyndevs
    then minor_get_dyn find parts used
    else minor_get_static parts used sysminor aoemaj aoemin

-- `none` is the BUG_ON.
unfoldable pub minor_free : ℕ → List Bool → ℕ → Option (List Bool)
minor_free parts used minor =
    let n = minor / parts in if leb (length used) n then none else some (set used n false)
