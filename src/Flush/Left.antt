-- ===== src/Flush/Left.antt =====
-- What a flush leaves, told apart from its passes.
use aoe.Prelude.{
  ℕ, ◌/◌, ◌≡◌, ◌⊎◌, refl, Bool, true, false, some, List, [], ◌∷◌, arith, ◌||◌, length, set, All,
  Bool-cases, inl, inr,
}
use aoe.Types.{AoeDev, Env}
use aoe.Devs.{Driver}
use aoe.Flush.{
  Wanted, exiting, specified, all_idle, down_idle, user_req, is_idle, is_doomed, scheduled, worked,
  flush,
}
use aoe.Flush.Kept.{IsSettled, leaves, staying, given_back, sweep_lem}
use aoe.Flush.Worked.{scheduled-IsSettled}

-- Nobody uses the device, and nothing is under way with it.
abbrev pub IsIdle : AoeDev → Type 0
IsIdle d =
    (d.flags.gdalloc ≡ false)
    × (d.flags.newsize ≡ false)
    × (d.flags.tkill ≡ false)
    × (d.nopen ≡ 0)
    × (d.ref ≡ 0)

-- The device is of those that the flush is for.
abbrev pub IsMeant : Wanted → AoeDev → Type 0
IsMeant exiting d = Unit
IsMeant (specified s) d = user_req s d ≡ true
IsMeant all_idle d = IsIdle d
IsMeant down_idle d = (d.flags.up ≡ false) × IsIdle d

-- It goes: it is meant, or an earlier flush has marked it.
abbrev pub Goes : Wanted → AoeDev → Type 0
Goes w d = IsMeant w d ⊎ (d.flags.tkill ≡ true)

-- A flush of the devices `ds` leaves `rest`, and of the minor numbers that are in use, `used'`.
abbrev pub Flushed : ℕ → Wanted → List AoeDev → List Bool → List AoeDev → List Bool → Type 0
Flushed parts w [] used rest used' = (rest ≡ []) × (used' ≡ used)
Flushed parts w (d ∷ ds) used rest used' =
    (Goes w d × Flushed parts w ds (set used (d.sysminor / parts) false) rest used')
    ⊎ ((¬ Goes w d)
        × (rest' : List AoeDev) × (rest ≡ d ∷ rest')
        × Flushed parts w ds used rest' used')

IsIdle-iff : (d : AoeDev) → (is_idle d ≡ true → IsIdle d) × (IsIdle d → is_idle d ≡ true)
IsIdle-iff d = ((λ h. ground (arith, h)), (λ h. ground (arith, h.0, h.1, h.2, h.3, h.4)))

meant : (w : Wanted) (d : AoeDev) → is_doomed w d ≡ true → IsMeant w d
meant exiting d h = tt
meant (specified s) d h = h
meant all_idle d h = (IsIdle-iff d).0 h
meant down_idle d h = (ground (arith, h), (IsIdle-iff d).0 (ground (arith, h)))

doomed : (w : Wanted) (d : AoeDev) → IsMeant w d → is_doomed w d ≡ true
doomed exiting d h = refl
doomed (specified s) d h = h
doomed all_idle d h = (IsIdle-iff d).1 h
doomed down_idle d h = let idle = (IsIdle-iff d).1 h.1 in rw (h.0, idle) refl

leaves-Goes : (w : Wanted) (d : AoeDev) → leaves w d ≡ true → Goes w d
leaves-Goes w d h = elim (Bool-cases (is_doomed w d)) [
  | inl y ↦ inl (meant w d y)
  | inr n ↦ inr (either n h)
]
  where
    either : {b c : Bool} → b ≡ false → (b || c) ≡ true → c ≡ true
    either {b} {c} n h = ground (arith, n, h)

leaves-not : (w : Wanted) (d : AoeDev) → leaves w d ≡ false → ¬ Goes w d
leaves-not w d h (inl m) = ground (arith, h, doomed w d m)
leaves-not w d h (inr t) = ground (arith, h, t)

left :
    (e : Env) (w : Wanted) (ds : List AoeDev) (used : List Bool)
    → Flushed e.aoe_partitions w ds used (staying w ds) (given_back e w ds used)
left e w [] used = (refl, refl)
left e w (d ∷ ds) used =
    let parts = e.aoe_partitions in
    elim (Bool-cases (leaves w d)) [
      | inl y ↦ inl (leaves-Goes w d y, rw y (left e w ds (set used (d.sysminor / parts) false)))
      | inr n ↦ inr (leaves-not w d n, staying w ds, rw n refl, rw n (left e w ds used))
    ]

-- Where no other flush is at work and every device's number is inside the bitmap, `flush` comes to
-- its end without a BUG. Of the devices as the scheduled work leaves them, those that it is for go,
-- and those that an earlier flush has marked: at exit all are meant, open or not; of a name, all that
-- `user_req` takes for it, open or not; otherwise those that nobody uses and with which nothing is
-- under way, unless the user asked for all, only where they are down. The others stay, in their
-- order and with nothing changed, and of the minor numbers those of the devices that go are free.
pub flush_lem :
    (e : Env) (w : Wanted) (drv : Driver)
    → All (IsSettled e (length drv.used_minors)) drv.devlist
    → (drv' : Driver) × (flush e w drv ≡ some drv')
      × Flushed e.aoe_partitions w
          (scheduled e drv.devlist drv.kern).0
          drv.used_minors
          drv'.devlist
          drv'.used_minors
unfolding flush
flush_lem e w drv h =
    let ds = (scheduled e drv.devlist drv.kern).0 in
    let settled = scheduled-IsSettled e (length drv.used_minors) drv.devlist drv.kern h in
    let r = sweep_lem e w (worked e drv) settled in
    (
      record {
        devlist = staying w ds;
        kern = r.0;
        used_minors = given_back e w ds drv.used_minors;
      },
      r.1,
      left e w ds drv.used_minors,
    )
