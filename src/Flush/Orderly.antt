-- ===== src/Flush/Orderly.antt =====
-- A flush leaves the list of devices orderly.
use aoe.Prelude.{
  ℕ, zero, suc, ◌+◌, ◌/◌, ◌≤◌, ◌≡◌, Bool, false, some, List, [], ◌∷◌, arith, ◌==◌, ◌&&◌,
  if◌then◌else◌, length, set, count, All, Bool-cases, inl, inr,
}
use aoe.Types.{AoeDev, Env}
use aoe.Devs.{Driver}
use aoe.Devs.Find.{has_address}
use aoe.Devs.Numbered.{IsOrderly, bit, has_number}
use aoe.Flush.{Wanted, sweep, worked, flush}
use aoe.Flush.Kept.{IsSettled, leaves, staying, given_back, sweep_lem}
use aoe.Flush.Worked.{count-scheduled, scheduled-IsSettled}

count-staying :
    (p : AoeDev → Bool) (w : Wanted) (ds : List AoeDev) → count p (staying w ds) ≤ count p ds
count-staying p w [] = omega arith
count-staying p w (d ∷ ds) = elim (Bool-cases (leaves w d)) [
  | inl y ↦ rw y (omega (arith, count-staying p w ds))
  | inr k ↦ rw k (omega (arith, count-staying p w ds))
]

bit-cleared :
    (used : List Bool) (n m x : ℕ)
    → (if n == m then 1 else 0) + x ≤ bit used m
    → x ≤ bit (set used n false) m
bit-cleared [] n m x h = ground (arith, h)
bit-cleared (u ∷ us) zero zero x h = ground (arith, h)
bit-cleared (u ∷ us) zero (suc m) x h = ground (arith, h)
bit-cleared (u ∷ us) (suc n) zero x h = ground (arith, h)
bit-cleared (u ∷ us) (suc n) (suc m) x h = bit-cleared us n m x (ground (arith, h))

-- `more` counts what stands before.
count-given_back :
    (e : Env) (w : Wanted) (ds : List AoeDev) (used : List Bool) (more m : ℕ)
    → more + count (has_number e.aoe_partitions m) ds ≤ bit used m
    → more + count (has_number e.aoe_partitions m) (staying w ds) ≤ bit (given_back e w ds used) m
count-given_back e w [] used more m h = h
count-given_back e w (d ∷ ds) used more m h =
    let parts = e.aoe_partitions in
    let n = d.sysminor / parts in
    let c = count (has_number parts m) ds in
    let one : ℕ = if n == m then 1 else 0 in
    elim (Bool-cases (leaves w d)) [
      | inl y ↦ rw y (
          count-given_back e w ds (set used n false) more m
            (bit-cleared used n m (more + c) (omega (arith, h))))
      | inr k ↦ rw k (omega (arith, count-given_back e w ds used (more + one) m (omega (arith, h))))
    ]

sweep-IsOrderly :
    (e : Env) (w : Wanted) (drv : Driver)
    → All (IsSettled e (length drv.used_minors)) drv.devlist
    → IsOrderly e.aoe_partitions drv
    → (drv' : Driver) × (sweep e w drv ≡ some drv') × IsOrderly e.aoe_partitions drv'
sweep-IsOrderly e w drv h o =
    let r = sweep_lem e w drv h in
    let used' = given_back e w drv.devlist drv.used_minors in
    (
      record { devlist = staying w drv.devlist; kern = r.0; used_minors = used' },
      r.1,
      record {
        distinct =
            λ a b. omega (arith, o.distinct a b, count-staying (has_address a b) w drv.devlist);
        numbered = λ n.
            let q =
              count-given_back e w drv.devlist drv.used_minors 0 n (omega (arith, o.numbered n)) in
            omega (arith, q);
      },
    )

worked-IsOrderly :
    (e : Env) (drv : Driver)
    → IsOrderly e.aoe_partitions drv
    → IsOrderly e.aoe_partitions (worked e drv)
worked-IsOrderly e drv o =
    let parts = e.aoe_partitions in
    record {
      distinct = λ a b.
          rw (count-scheduled (λ c. c.1 == a && c.2 == b) e drv.devlist drv.kern) (o.distinct a b);
      numbered =
          λ n. rw (count-scheduled (λ c. c.0 / parts == n) e drv.devlist drv.kern) (o.numbered n);
    }

-- Where no other flush is at work and every device's number is inside the bitmap, a flush keeps the
-- list orderly: a number that it gives back belongs to none of the devices that stay.
pub flush-IsOrderly :
    (e : Env) (w : Wanted) (drv : Driver)
    → All (IsSettled e (length drv.used_minors)) drv.devlist
    → IsOrderly e.aoe_partitions drv
    → (drv' : Driver) × (flush e w drv ≡ some drv') × IsOrderly e.aoe_partitions drv'
unfolding flush
flush-IsOrderly e w drv h o =
    sweep-IsOrderly e w (worked e drv)
      (scheduled-IsSettled e (length drv.used_minors) drv.devlist drv.kern h)
      (worked-IsOrderly e drv o)
