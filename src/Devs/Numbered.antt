-- ===== src/Devs/Numbered.antt =====
-- The list keeps one device for an address, and one for a minor number: `aoedev_by_aoeaddr`.
use aoe.Prelude.{
  ℕ, zero, suc, ◌+◌, ◌/◌, ◌≤◌, ◌<◌, ◌≡◌, refl, sym, Bool, true, false, Option, none, some, List, [],
  ◌∷◌, arith, ◌==◌, ◌&&◌, if◌then◌else◌, length, get_or, set, count, Bool-cases, inl, inr,
}
use aoe.Types.{AoeDev, Env, next_alloc}
use aoe.Minors.{FirstZero, minor_get}
use aoe.Minors.Grants.{Granted, Outcome, minor_get_lem}
use aoe.Devs.{
  Driver, new_device, find_device, at_device, get_ref, new_at, by_found, aoedev_by_aoeaddr,
}
use aoe.Devs.Find.{has_address, not_found}

-- No two devices have an address in common.
abbrev pub IsDistinct : List AoeDev → Type 0
IsDistinct ds = (maj min : ℕ) → count (has_address maj min) ds ≤ 1

abbrev pub has_number : ℕ → ℕ → AoeDev → Bool
has_number parts n d = d.sysminor / parts == n

abbrev pub bit : List Bool → ℕ → ℕ
bit used n = if get_or used n false then 1 else 0

-- A number whose bit is clear belongs to no device, one whose bit is set to one at most.
abbrev pub IsNumbered : ℕ → List Bool → List AoeDev → Type 0
IsNumbered parts used ds = (n : ℕ) → count (has_number parts n) ds ≤ bit used n

count-get_ref :
    (p : AoeDev → Bool) (ds : List AoeDev) (i : ℕ)
    → ((d : AoeDev) → p (get_ref d) ≡ p d)
    → count p (at_device get_ref i ds) ≡ count p ds
count-get_ref p [] i h = refl
count-get_ref p (d ∷ ds) zero h = rw (h d) refl
count-get_ref p (d ∷ ds) (suc i) h = omega (arith, count-get_ref p ds i h)

-- Both, of a driver's list.
pub record IsOrderly (parts : ℕ) (drv : Driver) : Type 0 where
  pub distinct : IsDistinct drv.devlist
  pub numbered : IsNumbered parts drv.used_minors drv.devlist

IsDistinct-new :
    (maj min n : ℕ) (ds : List AoeDev)
    → IsDistinct ds
    → count (has_address maj min) ds ≡ 0
    → IsDistinct (new_device n maj min ∷ ds)
IsDistinct-new maj min n ds h z a b = elim (Bool-cases (maj == a && min == b)) [
  | inl y ↦
      let p : maj ≡ a = ground arith in
      let q : min ≡ b = ground arith in
      let none_yet : count (has_address a b) ds ≡ 0 = rw (sym p, sym q) z in
      rw (y, none_yet) (ground arith)
  | inr k ↦ rw k (ground (arith, h a b))
]

bit-set :
    (used : List Bool) (n m : ℕ)
    → n < length used
    → get_or used n true ≡ false
    → bit used m + (if n == m then 1 else 0) ≡ bit (set used n true) m
bit-set [] n m l z = absurd (omega arith)
bit-set (u ∷ us) zero zero l z = rw z (ground arith)
bit-set (u ∷ us) zero (suc m) l z = ground arith
bit-set (u ∷ us) (suc n) zero l z = ground arith
bit-set (u ∷ us) (suc n) (suc m) l z = let h = bit-set us n m (omega arith) z in ground (arith, h)

IsNumbered-new :
    (parts maj min minor : ℕ) (used used' : List Bool) (ds : List AoeDev)
    → Granted parts used minor used'
    → IsNumbered parts used ds
    → IsNumbered parts used' (new_device minor maj min ∷ ds)
IsNumbered-new parts maj min minor used used' ds g h n =
    rw (g.taken) (omega (arith, h n, bit-set used (minor / parts) n g.inside g.free))

module _ (parts maj min : ℕ) where
  kept_list :
      (drv : Driver) (minor : ℕ) (used' : List Bool)
      → Granted parts drv.used_minors minor used'
      → IsNumbered parts drv.used_minors drv.devlist
      → IsNumbered parts used' drv.devlist
  kept_list drv minor used' g h n =
      rw g.taken (omega (arith, h n, bit-set drv.used_minors (minor / parts) n g.inside g.free))

  new_at-IsOrderly :
      (g : Bool × ℕ × List Bool) (drv : Driver)
      → Outcome parts drv.used_minors g
      → count (has_address maj min) drv.devlist ≡ 0
      → IsOrderly parts drv
      → IsOrderly parts (new_at maj min g drv).1
  unfolding new_at
  new_at-IsOrderly (false, n, used) drv g z h = record {
    distinct = h.distinct;
    numbered = rw g h.numbered;
  }
  new_at-IsOrderly (true, n, used) drv g z h =
      let (ok, rest) = next_alloc drv.kern.allocs in
      let kept = kept_list drv n used g h.numbered in
      elim (Bool-cases ok) [
        | inl y ↦ rw y (elim (Bool-cases (next_alloc rest).0) [
          | inl w ↦ rw w (record {
            distinct = IsDistinct-new maj min n drv.devlist h.distinct z;
            numbered = IsNumbered-new parts maj min n drv.used_minors used drv.devlist g h.numbered;
          })
          | inr w ↦ rw w (record { distinct = h.distinct; numbered = kept })
        ])
        | inr y ↦ rw y (record { distinct = h.distinct; numbered = kept })
      ]

by_found-IsOrderly :
    (e : Env) (maj min : ℕ) (do_alloc : Bool) (o : Option (ℕ × Bool)) (drv : Driver)
    → FirstZero e.find_first_zero_bit
    → 0 < e.aoe_partitions
    → (o ≡ none → count (has_address maj min) drv.devlist ≡ 0)
    → IsOrderly e.aoe_partitions drv
    → IsOrderly e.aoe_partitions (by_found e maj min do_alloc o drv).1
unfolding by_found
by_found-IsOrderly e maj min do_alloc (some (i, true)) drv f p z h = h
by_found-IsOrderly e maj min do_alloc (some (i, false)) drv f p z h = record {
  distinct = λ a b. rw (count-get_ref (has_address a b) drv.devlist i (λ d. refl)) (h.distinct a b);
  numbered = λ n.
      rw (count-get_ref (has_number e.aoe_partitions n) drv.devlist i (λ d. refl)) (h.numbered n);
}
by_found-IsOrderly e maj min false none drv f p z h = h
by_found-IsOrderly e maj min true none drv f p z h =
    new_at-IsOrderly e.aoe_partitions maj min
      (minor_get e.find_first_zero_bit e.aoe_dyndevs e.aoe_partitions drv.used_minors 0 maj min) drv
      (minor_get_lem e.find_first_zero_bit e.aoe_dyndevs e.aoe_partitions drv.used_minors 0 maj min
        f p)
      (z refl) h

-- `aoedev_by_aoeaddr` keeps the list orderly: no two devices have the same address, and a minor
-- number belongs to one device at most, and to none while its bit is clear. It asks that the
-- kernel's search of the bitmap does what it documents, and that a device has partitions.
pub aoedev_by_aoeaddr-IsOrderly :
    (e : Env) (maj min : ℕ) (do_alloc : Bool) (drv : Driver)
    → FirstZero e.find_first_zero_bit
    → 0 < e.aoe_partitions
    → IsOrderly e.aoe_partitions drv
    → IsOrderly e.aoe_partitions (aoedev_by_aoeaddr e maj min do_alloc drv).1
unfolding aoedev_by_aoeaddr
aoedev_by_aoeaddr-IsOrderly e maj min do_alloc drv f p h =
    by_found-IsOrderly e maj min do_alloc (find_device maj min drv.devlist) drv f p
      (not_found maj min drv.devlist) h
