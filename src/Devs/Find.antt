-- ===== src/Devs/Find.antt =====
-- The list of devices keeps one device for an address, and one for a minor number: `aoedev_by_aoeaddr`.
use aoe.Prelude.{
  ℕ, zero, suc, ◌+◌, ◌≤◌, ◌≡◌, refl, ap, Bool, true, false, Option, none, some, List, [], ◌∷◌,
  arith, ◌==◌, ◌&&◌, if◌then◌else◌, get_elem?, count, Bool-cases, inl, inr,
}
use aoe.Types.{AoeDev, Env, next_alloc}
use aoe.Minors.{minor_get}
use aoe.Devs.{
  Driver, new_device, next, find_device, at_device, get_ref, new_at, by_found, aoedev_by_aoeaddr,
}

abbrev pub has_address : ℕ → ℕ → AoeDev → Bool
has_address maj min d = d.aoemajor == maj && d.aoeminor == min

missed :
    (c : Bool) (x : ℕ × Bool) (o : Option (ℕ × Bool)) (n : ℕ)
    → (if c then some x else next o) ≡ none
    → (o ≡ none → n ≡ 0)
    → (if c then 1 else 0) + n ≡ 0
missed true x o n h k = absurd (cc h)
missed false x none n h k = omega (arith, k refl)
missed false x (some r) n h k = absurd (cc h)

pub not_found :
    (maj min : ℕ) (ds : List AoeDev)
    → find_device maj min ds ≡ none
    → count (has_address maj min) ds ≡ 0
not_found maj min [] h = refl
not_found maj min (d ∷ ds) h =
    missed (has_address maj min d) (0, d.flags.tkill) (find_device maj min ds)
      (count (has_address maj min) ds) h (not_found maj min ds)

-- A device of the list that has the address.
abbrev pub Found : ℕ → ℕ → List AoeDev → ℕ × Bool → Type 0
Found maj min ds (i, b) =
    (d : AoeDev) × (get_elem? ds i ≡ some d) × (has_address maj min d ≡ true) × (d.flags.tkill ≡ b)

abbrev AnyFound : ℕ → ℕ → List AoeDev → Option (ℕ × Bool) → Type 0
AnyFound maj min ds none = Unit
AnyFound maj min ds (some r) = Found maj min ds r

found_next :
    (maj min : ℕ) (d : AoeDev) (ds : List AoeDev) (o : Option (ℕ × Bool))
    → AnyFound maj min ds o
    → AnyFound maj min (d ∷ ds) (next o)
found_next maj min d ds none h = tt
found_next maj min d ds (some r) h = h

found_here :
    (maj min : ℕ) (d : AoeDev) (ds : List AoeDev) (c : Bool) (o : Option (ℕ × Bool))
    → has_address maj min d ≡ c
    → AnyFound maj min (d ∷ ds) o
    → AnyFound maj min (d ∷ ds) (if c then some (0, d.flags.tkill) else o)
found_here maj min d ds true o e h = (d, refl, e, refl)
found_here maj min d ds false o e h = h

found : (maj min : ℕ) (ds : List AoeDev) → AnyFound maj min ds (find_device maj min ds)
found maj min [] = tt
found maj min (d ∷ ds) =
    found_here maj min d ds (has_address maj min d) (next (find_device maj min ds)) refl
      (found_next maj min d ds (find_device maj min ds) (found maj min ds))

get_elem-get_ref :
    (ds : List AoeDev) (i : ℕ) (d : AoeDev)
    → get_elem? ds i ≡ some d
    → get_elem? (at_device get_ref i ds) i ≡ some (get_ref d)
get_elem-get_ref [] i d h = absurd (cc h)
get_elem-get_ref (x ∷ ds) zero d h =
    ap (λ (o : Option AoeDev). elim o [ none ↦ none | some y ↦ some (get_ref y) ]) h
get_elem-get_ref (x ∷ ds) (suc i) d h = get_elem-get_ref ds i d h

-- What the caller gets: nothing, and then the list is as it was; or the place of a device that has
-- the address, is not being killed, and has one more reference than the list had for it.
abbrev pub Answer : ℕ → ℕ → List AoeDev → Option ℕ × Driver → Type 0
Answer maj min ds (none, drv) = drv.devlist ≡ ds
Answer maj min ds (some i, drv) =
    (d : AoeDev) × (get_elem? drv.devlist i ≡ some d)
    × (has_address maj min d ≡ true)
    × (d.flags.tkill ≡ false)
    × (1 ≤ d.ref)

is_own : (maj min : ℕ) → (maj == maj && min == min) ≡ true
is_own maj min = ground arith

new_at-Answer :
    (maj min : ℕ) (g : Bool × ℕ × List Bool) (drv : Driver)
    → Answer maj min drv.devlist (new_at maj min g drv)
unfolding new_at
new_at-Answer maj min (false, n, used) drv = refl
new_at-Answer maj min (true, n, used) drv =
    let rest = (next_alloc drv.kern.allocs).1 in
    elim (Bool-cases (next_alloc drv.kern.allocs).0) [
      | inl y ↦ rw y (elim (Bool-cases (next_alloc rest).0) [
        | inl z ↦ rw z (new_device n maj min, refl, is_own maj min, refl, ground arith)
        | inr z ↦ rw z refl
      ])
      | inr y ↦ rw y refl
    ]

by_found-Answer :
    (e : Env) (maj min : ℕ) (do_alloc : Bool) (o : Option (ℕ × Bool)) (drv : Driver)
    → AnyFound maj min drv.devlist o
    → Answer maj min drv.devlist (by_found e maj min do_alloc o drv)
unfolding by_found
by_found-Answer e maj min do_alloc (some (i, true)) drv h = refl
by_found-Answer e maj min do_alloc (some (i, false)) drv h =
    (get_ref h.0, get_elem-get_ref drv.devlist i h.0 h.1, h.2, h.3, omega arith)
by_found-Answer e maj min false none drv h = refl
by_found-Answer e maj min true none drv h =
    new_at-Answer maj min
      (minor_get e.find_first_zero_bit e.aoe_dyndevs e.aoe_partitions drv.used_minors 0 maj min) drv

-- `aoedev_by_aoeaddr` answers with a live device of the address asked for, to which it holds a
-- reference, or it answers NULL and leaves the list.
pub aoedev_by_aoeaddr_lem :
    (e : Env) (maj min : ℕ) (do_alloc : Bool) (drv : Driver)
    → Answer maj min drv.devlist (aoedev_by_aoeaddr e maj min do_alloc drv)
unfolding aoedev_by_aoeaddr
aoedev_by_aoeaddr_lem e maj min do_alloc drv =
    by_found-Answer e maj min do_alloc (find_device maj min drv.devlist) drv
      (found maj min drv.devlist)
