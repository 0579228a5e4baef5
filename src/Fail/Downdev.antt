-- ===== src/Fail/Downdev.antt =====
-- What is left of a device that has failed.
use aoe.Prelude.{
  ℕ, zero, suc, ◌≡◌, refl, ap, sym, ◌∙◌, Bool, false, Option, none, some, List, [], ◌∷◌, arith,
  length, ◌⊎◌, inl, inr, ◌++◌, ltb, if◌then◌else◌,
}
use mathlib.Core.Path.{subst}
use aoe.Types.{Frame, Request, State, Env, nfactive}
use aoe.Targets.{Slots, first_null, each_target}
use aoe.Targets.Bytes.{Every}
use aoe.Frames.{on_dev}
use aoe.Frames.Hash.{Buckets, active, IsHashedFrom}
use aoe.Frames.Quiet.{bare}
use aoe.Frames.View.{view}
use aoe.Tgt.{aoecmd_wreset}
use aoe.Send.Account.{Balanced, IsBalanced, nothing_more, HasInterface, nout_in, is_of}
use aoe.Blk.{fail_queue, fail_pending}
use aoe.Fail.{
  downdev_frames, aoe_failip, reset_target, emptied, empty_lists, all_frames, no_capacity,
  aoedev_downdev,
}
use aoe.Fail.Held.{
  Holding, held, Keeps, IsDown, Keeps-IsDown, held-downdev_frames, held-aoe_failip,
  held-fail_pending,
}

bare-reset : (ts : Slots) → bare (each_target reset_target ts) ≡ each_target reset_target (bare ts)
unfolding aoecmd_wreset
bare-reset [] = refl
bare-reset (none ∷ ts) = refl
bare-reset (some t ∷ ts) = ap (λ x. bare (some (reset_target t) ∷ []) ++ x) (bare-reset ts)

drained :
    (o : Option (List Request)) (s : State)
    → o ≡ s.dev.blkq
    → ((fail_queue o s).dev.blkq ≡ none) ⊎ ((fail_queue o s).dev.blkq ≡ some [])
unfolding fail_queue
drained none s q = inl (sym q)
drained (some q) s e = inr refl

held_reset :
    (s0 s1 : State)
    → Keeps s0 s1
    → held (on_dev (λ d. record d { targets = each_target reset_target d.targets }) s1) ≡ (
      s0.dev.flags,
      s0.dev.rexmitq,
      s0.dev.factive,
      each_target reset_target (bare s0.dev.targets),
      s0.dev.sysminor,
      s0.dev.capacity,
    )
held_reset s0 s1 k =
    ap (λ ts. (s1.dev.flags, s1.dev.rexmitq, s1.dev.factive, ts, s1.dev.sysminor, s1.dev.capacity))
      (bare-reset s1.dev.targets)
    ∙ ap (λ (h : Holding). (h.0, h.1, h.2, each_target reset_target h.3, h.4, h.5)) k

pub aoedev_downdev_lem :
    (e : Env) (s : State)
    → let d = (aoedev_downdev e s).dev in
      (d.flags ≡ record s.dev.flags { up = false })
      × (d.rexmitq ≡ [])
      × (d.factive ≡ empty_lists s.dev.factive)
      × (bare d.targets ≡ each_target reset_target (bare s.dev.targets))
      × ((d.blkq ≡ none) ⊎ (d.blkq ≡ some []))
      × (d.sysminor ≡ s.dev.sysminor)
      × (d.capacity ≡ no_capacity s.dev.capacity)
unfolding aoedev_downdev fail_pending
aoedev_downdev_lem e s =
    let fs = all_frames s.dev.factive ++ s.dev.rexmitq in
    let s0 = on_dev emptied s in
    let s1 = downdev_frames e fs s0 in
    let s2 = on_dev (λ d. record d { targets = each_target reset_target d.targets }) s1 in
    let s3 = aoe_failip e s2 in
    let k1 = held-downdev_frames e fs s0 refl in
    let down : IsDown s2 = Keeps-IsDown s0 s1 refl k1 in
    let k3 = held-fail_pending s3 ∙ held-aoe_failip e s2 down in
    let k = k3 ∙ held_reset s0 s1 k1 in
    (
      ap (λ (h : Holding). h.0) k,
      ap (λ (h : Holding). h.1) k,
      ap (λ (h : Holding). h.2) k,
      ap (λ (h : Holding). h.3) k,
      drained s3.dev.blkq s3 refl,
      ap (λ (h : Holding). h.4) k,
      ap (λ (h : Holding). no_capacity h.5) k,
    )

bare_at_front : (ts : Slots) → first_null (bare ts) ≡ first_null ts
bare_at_front [] = refl
bare_at_front (none ∷ ts) = refl
bare_at_front (some t ∷ ts) = ap suc (bare_at_front ts)

nothing_out :
    (ts : Slots) (i : ℕ)
    → nout_in (each_target reset_target ts) i ≡ (if ltb i (first_null ts) then 0 else nout_in ts i)
nothing_out [] i = ground arith
nothing_out (none ∷ ts) i = ground arith
nothing_out (some t ∷ ts) zero = ground arith
nothing_out (some t ∷ ts) (suc i) = ground (arith, nothing_out ts i)

first_null-reset : (ts : Slots) → first_null (each_target reset_target ts) ≡ first_null ts
first_null-reset [] = refl
first_null-reset (none ∷ ts) = refl
first_null-reset (some t ∷ ts) = ap suc (first_null-reset ts)

wired-reset :
    (ts : Slots) → Every HasInterface ts → Every HasInterface (each_target reset_target ts)
unfolding aoecmd_wreset
wired-reset [] w = tt
wired-reset (none ∷ ts) w = tt
wired-reset (some t ∷ ts) w = (w.0, wired-reset ts w.1)

active-emptied : (p : Frame → Bool) (bs : Buckets) → active p (empty_lists bs) ≡ 0
active-emptied p [] = refl
active-emptied p (b ∷ bs) = omega (arith, active-emptied p bs)

length-emptied : (bs : Buckets) → length (empty_lists bs) ≡ length bs
length-emptied [] = refl
length-emptied (b ∷ bs) = ap suc (length-emptied bs)

IsHashedFrom-emptied : (n : ℕ) (bs : Buckets) → IsHashedFrom n (empty_lists bs)
IsHashedFrom-emptied n [] = tt
IsHashedFrom-emptied n (b ∷ bs) = (tt, IsHashedFrom-emptied (suc n) bs)

-- A device with nothing outstanding and no active frame is in balance.
Balanced-reset :
    (ts : Slots) (bs : Buckets)
    → Every HasInterface ts
    → length bs ≡ nfactive
    → Balanced nothing_more (each_target reset_target ts, empty_lists bs)
Balanced-reset ts bs w l = record {
  hashed = (length-emptied bs ∙ l, IsHashedFrom-emptied 0 bs);
  wired = wired-reset ts w;
  nouts = λ i h. ground (arith, nothing_out ts i, first_null-reset ts, active-emptied (is_of i) bs);
}

-- A failed device is in balance again, whatever was outstanding and wherever its active frames stood.
pub aoedev_downdev-Balanced :
    (e : Env) (s : State)
    → Every HasInterface (bare s.dev.targets)
    → length s.dev.factive ≡ nfactive
    → IsBalanced (aoedev_downdev e s)
aoedev_downdev-Balanced e s w l =
    let r = aoedev_downdev_lem e s in
    let same : view (aoedev_downdev e s)
        ≡ (each_target reset_target (bare s.dev.targets), empty_lists s.dev.factive) =
      ap (λ ts. (ts, (aoedev_downdev e s).dev.factive)) r.3
      ∙ ap (λ bs. (each_target reset_target (bare s.dev.targets), bs)) r.2 in
    subst (Balanced nothing_more) (sym same) (Balanced-reset (bare s.dev.targets) s.dev.factive w l)
