-- ===== src/Open/Life.antt =====
-- The life of a device's disk: identification, the parts of `aoeblk_gdalloc`, new sizes, failures
-- and flushes, in any order.
use aoe.Prelude.{ℕ, ◌≡◌, Bool, true, false, Option, none, some, List, [], ◌∷◌, if◌then◌else◌}
use aoe.Types.{AoeDev, DevFlags, State, Env}
use aoe.Frames.{on_dev}
use aoe.Fail.{aoedev_downdev}
use aoe.Ident.{ataid_complete, sleepwork_newsize}
use aoe.Flush.{is_doomed, wanted, user_req, kill}
use aoe.Rsp.{aoedev_put}
use aoe.Devs.{get_ref}
use aoe.Open.{aoeblk_open, aoeblk_release, gd_begin, gd_fail, gd_publish, no_gd_now, is_in_making}

-- Where the device's work stands: between two runs, behind the first part of `aoeblk_gdalloc`, or
-- behind the second.
pub data Phase : Type 0 where
  resting : Phase
  building : Phase
  showing : Phase

-- What may happen to a device: it is identified, its work starts, fails to allocate, shows the disk,
-- ends or tells a new size; the device fails; the user writes a text to the flush file; somebody
-- takes or drops a reference, opens the device or releases it.
pub data Event : Type 0 where
  identifies : List ℕ → Event
  begins : Event
  fails : Event
  shows : Event
  finishes : Event
  tells_size : Event
  goes_down : Event
  flushes : List ℕ → Event
  referenced : Event
  dropped : Event
  opened : Event
  released : (ℕ → Bool) → List ℕ → Event

abbrev pub Life : Type 0
Life = State × Phase

abbrev pub begun : State → Bool × AoeDev → Life
begun s (true, d) = (record s { dev = d }, building)
begun s (false, d) = (s, resting)

-- What the first pass of `flush` does to the device. The work that `flush` waits for before it is
-- events that come before this one.
abbrev pub flushed : Env → List ℕ → State → State
flushed e text s = if is_doomed (wanted text) s.dev then kill e s else s

-- An open that is refused changes nothing.
abbrev pub opened_at : Option AoeDev → State → State
opened_at none s = s
opened_at (some d) s = record s { dev = d }

-- One event. A part of the work comes only where the part before it is done.
unfoldable pub live : Env → Event → Life → Life
unfolding ataid_complete gd_begin gd_fail gd_publish sleepwork_newsize aoedev_downdev kill user_req
    aoeblk_open aoeblk_release
live e (identifies id) (s, p) = (ataid_complete id s, p)
live e begins (s, resting) = begun s (gd_begin s.dev)
live e begins (s, p) = (s, p)
live e fails (s, building) = (gd_fail s, resting)
live e fails (s, p) = (s, p)
live e shows (s, building) = (on_dev gd_publish s, showing)
live e shows (s, p) = (s, p)
live e finishes (s, showing) = (on_dev no_gd_now s, resting)
live e finishes (s, p) = (s, p)
live e tells_size (s, p) = (on_dev sleepwork_newsize s, p)
live e goes_down (s, p) = (aoedev_downdev e s, p)
live e (flushes text) (s, p) = (flushed e text s, p)
live e referenced (s, p) = (on_dev get_ref s, p)
live e dropped (s, p) = (on_dev aoedev_put s, p)
live e opened (s, p) = (opened_at (aoeblk_open s.dev) s, p)
live e (released is_aoe_netif netdevs) (s, p) = (aoeblk_release e is_aoe_netif netdevs s, p)

unfoldable pub lives : Env → List Event → Life → Life
unfolding live
lives e [] l = l
lives e (v ∷ vs) l = lives e vs (live e v l)

-- A device without a disk is neither up nor has a new size, one with a disk is not waiting for it.
abbrev pub Agrees : DevFlags → Option ℕ → Type 0
Agrees f none = (f.up ≡ false) × (f.newsize ≡ false)
Agrees f (some n) = f.gdalloc ≡ false

-- While the disk is built, what the WARN_ONs test holds.
abbrev pub Making : Phase → AoeDev → Type 0
Making resting d = Unit
Making building d = is_in_making d ≡ true
Making showing d = Unit

pub record IsCoherent (l : Life) : Type 0 where
  pub agrees : Agrees l.0.dev.flags l.0.dev.capacity
  pub making : Making l.1 l.0.dev
