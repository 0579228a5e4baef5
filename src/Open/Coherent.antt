-- ===== src/Open/Coherent.antt =====
-- A device stays coherent whatever happens to it.
use aoe.Prelude.{
  choose, ℕ, ◌+◌, ◌-◌, ◌%◌, ◌^◌, ◌==◌, ap, ◌≡◌, refl, ◌∙◌, Bool, true, false, Option, none, some,
  List, [], ◌∷◌, arith, if◌then◌else◌, leb, length,
}
use mathlib.Core.Path.{subst}
use aoe.Types.{AoeDev, DevFlags, State, Kern, Env}
use aoe.Fail.{aoedev_downdev, no_capacity}
use aoe.Fail.Downdev.{aoedev_downdev_lem}
use aoe.Devs.{new_device}
use aoe.Flush.{
  Wanted, specified, all_idle, down_idle, is_doomed, is_idle, is_same, taken, wanted, kill,
}
use aoe.Flush.Name.{user_req-none}
use aoe.Flush.Kept.{kill-flags}
use aoe.Frames.{on_dev}
use aoe.Rsp.{aoedev_put}
use aoe.Devs.{get_ref}
use aoe.Cfg.{aoecmd_cfg}
use aoe.Open.{aoeblk_open, aoeblk_release, is_open_to_all, in_making, is_in_making}
use aoe.Open.Life.{
  Phase, resting, building, showing, referenced, dropped, opened, released, opened_at, Event,
  identifies, begins, fails, shows, finishes, tells_size, goes_down, flushes, Life, flushed, live,
  lives, Agrees, Making, IsCoherent,
}
use aoe.Open.Parts.{
  Making-same, ident-IsCoherent, begin-IsCoherent, publish-IsCoherent, fail-IsCoherent,
  finish-IsCoherent, newsize-IsCoherent,
}

-- A device that goes down, and may be marked to go.
Agrees-down :
    (f : DevFlags) (o : Option ℕ) (k : Bool)
    → Agrees f o
    → Agrees (record f { up = false; tkill = k }) (no_capacity o)
Agrees-down f none k a = (refl, a.1)
Agrees-down f (some n) k a = a

making_down :
    (f : DevFlags) (o : Option ℕ) (k : Bool)
    → k ≡ false
    → in_making f o ≡ true
    → in_making (record f { up = false; tkill = k }) (no_capacity o) ≡ true
making_down f none k e m = rw e (ground (arith, m))
making_down f (some n) k e m = absurd (ground (arith, m))

downed-Making :
    (p : Phase) (f : DevFlags) (o : Option ℕ) (k : Bool) (d d' : AoeDev)
    → in_making f o ≡ is_in_making d
    → is_in_making d' ≡ in_making (record f { up = false; tkill = k }) (no_capacity o)
    → (p ≡ building → k ≡ false)
    → Making p d
    → Making p d'
downed-Making resting f o k d d' e e' h m = tt
downed-Making building f o k d d' e e' h m = e' ∙ making_down f o k (h refl) (e ∙ m)
downed-Making showing f o k d d' e e' h m = tt

downed :
    (s s' : State) (p : Phase) (k : Bool)
    → s'.dev.flags ≡ record s.dev.flags { up = false; tkill = k }
    → s'.dev.capacity ≡ no_capacity s.dev.capacity
    → (p ≡ building → k ≡ false)
    → IsCoherent (s, p)
    → IsCoherent (s', p)
downed s s' p k f o h c = record {
  agrees = rw (f, o) (Agrees-down s.dev.flags s.dev.capacity k c.agrees);
  making =
      downed-Making p s.dev.flags s.dev.capacity k s.dev s'.dev refl (rw (f, o) refl) h c.making;
}

disk_in_making : (f : DevFlags) (o : Option ℕ) → in_making f o ≡ true → o ≡ none
disk_in_making f none m = refl
disk_in_making f (some n) m = absurd (ground (arith, m))

flags_in_making :
    (f : DevFlags) (o : Option ℕ) → in_making f o ≡ true → (f.tkill ≡ false) × (f.gdalloc ≡ true)
flags_in_making f o m = ground (arith, m)

idle_in_making : (d : AoeDev) → is_in_making d ≡ true → is_idle d ≡ false
idle_in_making d m = rw ((flags_in_making d.flags d.capacity m).1) refl

-- A device in the making is no user's to flush.
spared : (text : List ℕ) (d : AoeDev) → is_in_making d ≡ true → is_doomed (wanted text) d ≡ false
spared text d m =
    let buf = taken 16 text in
    let idle = idle_in_making d m in
    let goal = λ (w : Wanted). is_doomed w d ≡ false in
    choose goal (leb 3 (length text))
      (if is_same 3 buf (97 ∷ 108 ∷ 108 ∷ []) then all_idle else specified buf) down_idle
      (λ y.
        choose goal (is_same 3 buf (97 ∷ 108 ∷ 108 ∷ [])) all_idle (specified buf) (λ z. idle)
          (λ z. user_req-none buf d (disk_in_making d.flags d.capacity m)))
      (λ y. rw idle (ground arith))

down-IsCoherent :
    (e : Env) (s : State) (p : Phase) → IsCoherent (s, p) → IsCoherent (aoedev_downdev e s, p)
down-IsCoherent e s p c =
    let r = aoedev_downdev_lem e s in
    downed s (aoedev_downdev e s) p s.dev.flags.tkill r.0 r.6
      (λ q.
        (flags_in_making s.dev.flags s.dev.capacity (subst (λ p'. Making p' s.dev) q c.making)).0)
      c

kill-capacity : (e : Env) (s : State) → (kill e s).dev.capacity ≡ no_capacity s.dev.capacity
unfolding kill
kill-capacity e s = (aoedev_downdev_lem e s).6

flush-IsCoherent :
    (e : Env) (text : List ℕ) (s : State) (p : Phase)
    → IsCoherent (s, p)
    → IsCoherent (flushed e text s, p)
flush-IsCoherent e text s p c =
    choose (λ s'. IsCoherent (s', p)) (is_doomed (wanted text) s.dev) (kill e s) s
      (λ y.
        downed s (kill e s) p true (kill-flags e s) (kill-capacity e s)
          (λ q. absurd (cc (y, spared text s.dev (subst (λ p'. Making p' s.dev) q c.making)))) c)
      (λ n. c)

-- References and users change neither the flags nor the disk.
same-IsCoherent :
    (s s' : State) (p : Phase)
    → s'.dev.flags ≡ s.dev.flags
    → s'.dev.capacity ≡ s.dev.capacity
    → IsCoherent (s, p)
    → IsCoherent (s', p)
same-IsCoherent s s' p f o c = record {
  agrees = rw (f, o) c.agrees;
  making =
      Making-same p s.dev s'.dev
        (ap (λ g. in_making g s'.dev.capacity) f ∙ ap (in_making s.dev.flags) o) c.making;
}

open-IsCoherent :
    (s : State) (p : Phase) → IsCoherent (s, p) → IsCoherent (opened_at (aoeblk_open s.dev) s, p)
unfolding aoeblk_open
open-IsCoherent s p c =
    choose (λ o. IsCoherent (opened_at o s, p)) (is_open_to_all s.dev)
      (some (record s.dev { nopen = (s.dev.nopen + 1) % 2 ^ 16 })) none
      (λ y.
        same-IsCoherent s (record s { dev = record s.dev { nopen = (s.dev.nopen + 1) % 2 ^ 16 } }) p
          refl refl c)
      (λ n. c)

release-IsCoherent :
    (e : Env) (is_aoe_netif : ℕ → Bool) (netdevs : List ℕ) (s : State) (p : Phase)
    → IsCoherent (s, p)
    → IsCoherent (aoeblk_release e is_aoe_netif netdevs s, p)
unfolding aoeblk_release
release-IsCoherent e is_aoe_netif netdevs s p c =
    let n = (s.dev.nopen + 2 ^ 16 - 1) % 2 ^ 16 in
    let s' = on_dev (λ d. record d { nopen = n }) s in
    let k = aoecmd_cfg e is_aoe_netif netdevs s.dev.aoemajor s.dev.aoeminor s.kern in
    choose (λ t. IsCoherent (t, p)) (n == 0) (record s' { kern = k }) s'
      (λ y. same-IsCoherent s (record s' { kern = k }) p refl refl c)
      (λ m. same-IsCoherent s s' p refl refl c)

live-IsCoherent : (e : Env) (v : Event) (l : Life) → IsCoherent l → IsCoherent (live e v l)
unfolding live
live-IsCoherent e (identifies id) (s, p) c = ident-IsCoherent id s p c
live-IsCoherent e begins (s, resting) c = begin-IsCoherent s c
live-IsCoherent e begins (s, building) c = c
live-IsCoherent e begins (s, showing) c = c
live-IsCoherent e fails (s, resting) c = c
live-IsCoherent e fails (s, building) c = fail-IsCoherent s c
live-IsCoherent e fails (s, showing) c = c
live-IsCoherent e shows (s, resting) c = c
live-IsCoherent e shows (s, building) c = publish-IsCoherent s c
live-IsCoherent e shows (s, showing) c = c
live-IsCoherent e finishes (s, resting) c = c
live-IsCoherent e finishes (s, building) c = c
live-IsCoherent e finishes (s, showing) c = finish-IsCoherent s c
live-IsCoherent e tells_size (s, p) c = newsize-IsCoherent s p c
live-IsCoherent e goes_down (s, p) c = down-IsCoherent e s p c
live-IsCoherent e (flushes text) (s, p) c = flush-IsCoherent e text s p c
live-IsCoherent e referenced (s, p) c = same-IsCoherent s (on_dev get_ref s) p refl refl c
live-IsCoherent e dropped (s, p) c = same-IsCoherent s (on_dev aoedev_put s) p refl refl c
live-IsCoherent e opened (s, p) c = open-IsCoherent s p c
live-IsCoherent e (released is_aoe_netif netdevs) (s, p) c =
    release-IsCoherent e is_aoe_netif netdevs s p c

lives-IsCoherent : (e : Env) (vs : List Event) (l : Life) → IsCoherent l → IsCoherent (lives e vs l)
unfolding lives
lives-IsCoherent e [] l c = c
lives-IsCoherent e (v ∷ vs) l c = lives-IsCoherent e vs (live e v l) (live-IsCoherent e v l c)

fresh-IsCoherent :
    (n maj min : ℕ) (k : Kern)
    → IsCoherent (record { dev = new_device n maj min; kern = k }, resting)
fresh-IsCoherent n maj min k = record { agrees = (refl, refl); making = tt }

-- Whatever happens to a new device, in any order and as often as it may, short of the module's exit,
-- be it identified, built, down, referenced, opened, released or flushed:
-- a device without a disk is neither up nor has a new size to tell, a device with a disk is not
-- waiting for one, and whenever `aoeblk_gdalloc` comes back from its allocations none of its
-- WARN_ONs fires.
pub lives_lem :
    (e : Env) (vs : List Event) (n maj min : ℕ) (k : Kern)
    → IsCoherent (lives e vs (record { dev = new_device n maj min; kern = k }, resting))
lives_lem e vs n maj min k =
    lives-IsCoherent e vs (record { dev = new_device n maj min; kern = k }, resting)
      (fresh-IsCoherent n maj min k)
