-- ===== src/Timer/Account.antt =====
-- The timer keeps the account of outstanding commands.
use aoe.Prelude.{
  ℕ, zero, suc, ◌+◌, ◌-◌, ◌*◌, ◌%◌, ◌/◌, ◌^◌, ◌<◌, ◌≡◌, refl, ap, ◌∙◌, Bool, true, false, Option,
  none, some, List, [], ◌∷◌, ◌++◌, arith, length, count, count-append, All, if◌then◌else◌, ◌==◌,
  ◌&&◌, ◌||◌, not, ltb, get_or, modify, Bool-cases, inl, inr,
}
use aoe.Prelude.Int.{char_dec}
use aoe.Types.{AoeTgt, AoeIf, Frame, State, Env, zero_if, nfactive}
use aoe.Clock.{rto}
use aoe.Ifs.{getif, ejectif, is_null}
use aoe.Tgt.{scorn, note_loss}
use aoe.Targets.{Slots, at_slot, first_null}
use aoe.Frames.{on_dev, on_target}
use aoe.Frames.Hash.{Buckets, active, IsHashedFrom}
use aoe.Frames.Quiet.{bare}
use aoe.Frames.View.{view}
use aoe.Frames.Newframe.{first_null-bare}
use aoe.Send.{nout_dec}
use aoe.Send.Account.{
  Balanced, IsBalanced, HasInterface, nout_in, is_of, wired-at_slot, first_null-at_slot,
}
use aoe.Rexmit.Account.{rexmit_deferred-Balanced, choice-Balanced}
use aoe.Work.{aoeblk_request}
use aoe.Work.Account.{aoeblk_request-Balanced}
use aoe.Fail.{aoedev_downdev}
use aoe.Fail.Downdev.{aoedev_downdev-Balanced}
use aoe.Timer.{
  split_expired, collect, is_dead, is_slow, blame, sent_on, scorned, charge, charged, expire,
  splice, expire_all, has_queue, kick, rexmit_timer,
}

split-count :
    (e : Env) (n : ℕ) (p : Frame → Bool) (fs : List Frame)
    → count p fs ≡ count p (split_expired e n fs).0 + count p (split_expired e n fs).1
split-count e n p [] = refl
split-count e n p (f ∷ fs) = ground (arith, split-count e n p fs)

split-All :
    (e : Env) (n m : ℕ) (fs : List Frame)
    → All (λ f. f.tag % nfactive ≡ m) fs
    → All (λ f. f.tag % nfactive ≡ m) (split_expired e n fs).1
split-All e n m [] h = tt
split-All e n m (f ∷ fs) h = ground (arith, split-All e n m fs)

-- What `collect` takes and what it leaves are all the active frames, and the rest stays hashed.
collect-active :
    (e : Env) (n : ℕ) (p : Frame → Bool) (bs : Buckets)
    → active p bs ≡ count p (collect e n bs).0 + active p (collect e n bs).1
collect-active e n p [] = refl
collect-active e n p (b ∷ bs) = omega (
  arith,
  collect-active e n p bs,
  split-count e n p b,
  count-append p (split_expired e n b).0 (collect e n bs).0,
)

collect-length : (e : Env) (n : ℕ) (bs : Buckets) → length (collect e n bs).1 ≡ length bs
collect-length e n [] = refl
collect-length e n (b ∷ bs) = ap suc (collect-length e n bs)

collect-IsHashedFrom :
    (e : Env) (n m : ℕ) (bs : Buckets) → IsHashedFrom m bs → IsHashedFrom m (collect e n bs).1
collect-IsHashedFrom e n m [] h = tt
collect-IsHashedFrom e n m (b ∷ bs) h =
    (split-All e n m b h.0, collect-IsHashedFrom e n (suc m) bs h.1)

-- Blaming an interface leaves the target one, and its count.
blame-nout : (o : Option ℕ) (t : AoeTgt) → (blame o t).nout ≡ t.nout
unfolding blame
blame-nout none t = refl
blame-nout (some i) t = ground arith

ejectif-keeps :
    (ps : List AoeIf) (i : ℕ)
    → is_null (get_or ps 0 zero_if).nd ≡ false
    → ((i ≡ 0) → is_null (get_or ps 1 zero_if).nd ≡ false)
    → is_null (get_or (ejectif ps i) 0 zero_if).nd ≡ false
unfolding ejectif
ejectif-keeps [] i h k = h
ejectif-keeps (p ∷ []) zero h k = k refl
ejectif-keeps (p ∷ q ∷ ps) zero h k = k refl
ejectif-keeps (p ∷ []) (suc i) h k = h
ejectif-keeps (p ∷ q ∷ ps) (suc i) h k = h

pub modified-nd :
    (g : AoeIf → AoeIf) (ps : List AoeIf) (i j : ℕ)
    → ((p : AoeIf) → (g p).nd ≡ p.nd)
    → (get_or (modify g ps i) j zero_if).nd ≡ (get_or ps j zero_if).nd
modified-nd g [] i j h = refl
modified-nd g (p ∷ ps) zero zero h = h p
modified-nd g (p ∷ ps) zero (suc j) h = refl
modified-nd g (p ∷ ps) (suc i) zero h = refl
modified-nd g (p ∷ ps) (suc i) (suc j) h = modified-nd g ps i j h

blame-HasInterface : (o : Option ℕ) (t : AoeTgt) → HasInterface t → HasInterface (blame o t)
unfolding blame
blame-HasInterface none t w = w
blame-HasInterface (some i) t w =
    let lost = ((get_or t.ifs i zero_if).lost + 1) % 2 ^ 64 in
    let g = λ (p : AoeIf). record p { lost = lost } in
    let ifs = modify g t.ifs i in
    let first : is_null (get_or ifs 0 zero_if).nd ≡ false =
      rw (modified-nd g t.ifs i 0 (λ p. refl)) w in
    let second = modified-nd g t.ifs i 1 (λ p. refl) in
    elim (Bool-cases
      (ltb (t.nframes * 2) lost && (not (i == 0) || not (is_null (get_or t.ifs 1 zero_if).nd)))) [
        | inl y ↦ rw y (ejectif-keeps ifs i first (λ z. rw second (ground arith)))
        | inr n ↦ rw n first
      ]

-- Neither the count of a target nor its having an interface is lost.
abbrev Kept : AoeTgt → AoeTgt → Type 0
Kept t u = (u.nout ≡ t.nout) × (HasInterface t → HasInterface u)

Kept-either : (c : Bool) (t u v : AoeTgt) → Kept t u → Kept t v → Kept t (if c then u else v)
Kept-either true t u v k l = k
Kept-either false t u v k l = l

scorned-Kept : (slow : Bool) (t : AoeTgt) → Kept t (scorned slow t)
unfolding scorned scorn
scorned-Kept true t = (refl, λ w. w)
scorned-Kept false t = (refl, λ w. w)

note_loss-Kept : (t : AoeTgt) → Kept t (note_loss t)
unfolding note_loss
note_loss-Kept t =
    let t' = record t { lost = (t.lost + 1) % 2 ^ 64 } in
    let t'' = record t' { ssthresh = t.maxout / 2; maxout = 1 } in
    Kept-either (t.maxout == 1) t t' t'' (refl, λ w. w) (refl, λ w. w)

charge-Kept : (f : Frame) (t : AoeTgt) → Kept t (charge f t)
unfolding charge
charge-Kept f t =
    let t' = record t { nout_probes = char_dec t.nout_probes } in
    let o = getif t (sent_on f.skb) in
    Kept-either f.probe t t' (blame o t) (refl, λ w. w) (blame-nout o t, blame-HasInterface o t)

charged-Kept : (e : Env) (u : ℕ) (f : Frame) (t : AoeTgt) → Kept t (charged e u f t)
unfolding charged
charged-Kept e u f t =
    let t1 = scorned (is_slow e u f) t in
    let k1 = scorned-Kept (is_slow e u f) t in
    let k2 = note_loss-Kept t1 in
    let k3 = charge-Kept f (note_loss t1) in (k3.0 ∙ k2.0 ∙ k1.0, λ w. k3.1 (k2.1 (k1.1 w)))

-- A target with one command less outstanding.
nout_in-less :
    (g : AoeTgt → AoeTgt) (ts : Slots) (i j : ℕ)
    → i < first_null ts
    → ((t : AoeTgt) → (g t).nout ≡ (t.nout + 2 ^ 16 - 1) % 2 ^ 16)
    → nout_in (bare (at_slot g ts j)) i
      ≡ (if j == i then (nout_in (bare ts) i + 2 ^ 16 - 1) % 2 ^ 16 else nout_in (bare ts) i)
nout_in-less g [] i j l h = absurd (omega arith)
nout_in-less g (none ∷ ts) i j l h = absurd (omega arith)
nout_in-less g (some t ∷ ts) zero zero l h = h t
nout_in-less g (some t ∷ ts) zero (suc j) l h = ground arith
nout_in-less g (some t ∷ ts) (suc i) zero l h = ground arith
nout_in-less g (some t ∷ ts) (suc i) (suc j) l h =
    ground (arith, nout_in-less g ts i j (omega arith) h)

-- The frames that have left the hash, by their slots, and are still counted.
abbrev pub pending : List Frame → ℕ → ℕ
pending fs i = count (is_of i) fs

pub dec-Balanced :
    (g : AoeTgt → AoeTgt) (f : Frame) (fs : List Frame) (s : State)
    → ((t : AoeTgt) → (g t).nout ≡ (t.nout + 2 ^ 16 - 1) % 2 ^ 16)
    → ((t : AoeTgt) → HasInterface t → HasInterface (g t))
    → Balanced (pending (f ∷ fs)) (view s)
    → Balanced (pending fs) (view (on_target g f.t s))
dec-Balanced g f fs s n w b =
    let same = first_null-at_slot g s.dev.targets f.t in
    record {
      hashed = b.hashed;
      wired = wired-at_slot g s.dev.targets f.t w b.wired;
      nouts = λ i l. ground (
        arith,
        nout_in-less g s.dev.targets i f.t (omega (arith, same, first_null-bare s.dev.targets)) n,
        b.nouts i (omega (arith, same)),
      );
    }

expire-Balanced :
    (e : Env) (u : ℕ) (f : Frame) (fs : List Frame) (s : State)
    → Balanced (pending (f ∷ fs)) (view s)
    → Balanced (pending fs) (view (expire e u f s))
unfolding expire
expire-Balanced e u f fs s b =
    dec-Balanced (λ t. nout_dec (charged e u f t)) f fs
      (on_dev (λ d. record d { rexmitq = d.rexmitq ++ f ∷ [] }) s)
      (λ t. ap (λ (x : ℕ). (x + 2 ^ 16 - 1) % 2 ^ 16) (charged-Kept e u f t).0)
      (λ t. (charged-Kept e u f t).1) b

length-splice : (fs : List Frame) (bs : Buckets) → length (splice fs bs) ≡ length bs
length-splice fs [] = refl
length-splice fs (b ∷ bs) = refl

expire_all-Balanced :
    (e : Env) (u : ℕ) (fs : List Frame) (s : State)
    → Balanced (pending fs) (view s)
    → IsBalanced (expire_all e u fs s)
unfolding expire_all
expire_all-Balanced e u [] s b = rexmit_deferred-Balanced e s b
expire_all-Balanced e u (f ∷ fs) s b =
    let s' = on_dev (λ d. record d { factive = splice (f ∷ fs) d.factive }) s in
    choice-Balanced (is_dead e f) (aoedev_downdev e s') (expire_all e u fs (expire e u f s))
      (aoedev_downdev-Balanced e s' b.wired (length-splice (f ∷ fs) s.dev.factive ∙ b.hashed.0))
      (expire_all-Balanced e u fs (expire e u f s) (expire-Balanced e u f fs s b))

kick-Balanced : (e : Env) (s : State) → IsBalanced s → IsBalanced (kick e s)
unfolding kick
kick-Balanced e s b =
    let s' = on_dev (λ d. record d { flags = record d.flags { kickme = false } }) s in
    choice-Balanced (s.dev.flags.kickme && has_queue s.dev.blkq) (aoeblk_request e s') s
      (aoeblk_request-Balanced e s' b) b

collected :
    (e : Env) (n : ℕ) (s : State)
    → IsBalanced s
    → Balanced
        (pending (collect e n s.dev.factive).0)
        (view (on_dev (λ d. record d { factive = (collect e n s.dev.factive).1 }) s))
collected e n s b = record {
  hashed = (
    collect-length e n s.dev.factive ∙ b.hashed.0,
    collect-IsHashedFrom e n 0 s.dev.factive b.hashed.1,
  );
  wired = b.wired;
  nouts = λ i l. ground (arith, b.nouts i l, collect-active e n (is_of i) s.dev.factive);
}

-- The timer keeps each target's count of outstanding commands equal to the number of its frames in
-- the hash, in an expiry that scorns targets, ejects interfaces and sends frames again, and in
-- the failure of the device, whichever of its frames has waited too long; it never leaves a target
-- without an interface.
pub rexmit_timer-Balanced : (e : Env) (s : State) → IsBalanced s → IsBalanced (rexmit_timer e s)
unfolding rexmit_timer
rexmit_timer-Balanced e s b =
    let n = rto s.dev.rttavg s.dev.rttdev in
    let r = collect e n s.dev.factive in
    let u = first_null s.dev.targets in
    let s' = on_dev (λ d. record d { factive = r.1 }) s in
    let s'' = expire_all e u r.0 s' in
    choice-Balanced s.dev.flags.tkill s (kick e s'') b
      (kick-Balanced e s'' (expire_all-Balanced e u r.0 s' (collected e n s b)))
