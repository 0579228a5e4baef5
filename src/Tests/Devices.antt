-- ===== src/Tests/Devices.antt =====
-- The end of commands, identification, config responses and the list of devices at concrete states.
use aoe.Prelude.{
  ℕ, zero, suc, ◌*◌, ◌/◌, ◌%◌, ◌≤◌, ◌<◌, ◌≡◌, All, ◌↔◌, ◌⊎◌, refl, Bool, true, false, some, List,
  [], ◌∷◌, ◌&&◌, arith, replicate, get_or, count, ◌==◌, if◌then◌else◌,
}
use aoe.Types.{AoeDev, Frame, State, default_bcnt}
use aoe.Tests.{
  a_dev, a_state, an_env, slots, active_frame, a_response, first_zero-FirstZero, a_state-IsBalanced,
}
use aoe.Frames.{newframe}
use aoe.Frames.Quiet.{bare}
use aoe.Frames.Chosen.{Chosen, newframe-Chosen}
use aoe.Send.Account.{IsBalanced}
use aoe.Io.{ktiocomplete, aoe_flush_iocq}
use aoe.Io.Account.{ktiocomplete-Balanced, flush_iocq-Balanced}
use aoe.Ident.{le16, geometry_of, ataid_complete}
use aoe.Ident.Due.{IsIdentified, lba48_cylinders, ataid_complete_lem}
use aoe.Cfg.{rsp_bcnt}
use aoe.Cfg.Size.{Fits, rsp_bcnt_lem}
use aoe.Devs.{Driver, aoedev_by_aoeaddr}
use aoe.Devs.Numbered.{IsOrderly, aoedev_by_aoeaddr-IsOrderly}
use aoe.Open.Life.{
  Event, dropped, opened, released, tells_size, identifies, begins, shows, flushes, finishes,
  goes_down, IsCoherent, resting, lives,
}
use aoe.Open.Coherent.{lives_lem}
use aoe.Devs.{new_device}
use aoe.Flush.{all_idle, user_req, scheduled, flush}
use aoe.Flush.Name.{Begins, unit_name, user_req_lem}
use aoe.Flush.Left.{Flushed, flush_lem}
use aoe.Flush.Orderly.{flush-IsOrderly}

newframe-Chosen_example : Chosen (bare slots) (newframe an_env a_state)
newframe-Chosen_example = newframe-Chosen an_env a_state (tt, (tt, tt))

-- The frame of a command that has been answered.
abbrev pub answered_frame : Frame
answered_frame = record active_frame { r_skb = some a_response }

ktiocomplete-Balanced_example : IsBalanced (ktiocomplete an_env answered_frame a_state)
ktiocomplete-Balanced_example =
    ktiocomplete-Balanced an_env answered_frame a_state a_state-IsBalanced

abbrev two_completions : State
two_completions = record a_state {
  kern = record a_state.kern { completions = answered_frame ∷ answered_frame ∷ [] };
}

flush_iocq-Balanced_example : IsBalanced (aoe_flush_iocq an_env two_completions)
flush_iocq-Balanced_example = flush_iocq-Balanced an_env two_completions a_state-IsBalanced

-- An identification whose bytes are all set.
abbrev an_ident : List ℕ
an_ident = replicate 512 255

lba48_cylinders_example : (geometry_of an_ident).cylinders ≤ 4
unfolding le16
lba48_cylinders_example = lba48_cylinders an_ident refl

ataid_complete_lem_example : IsIdentified an_ident a_state (ataid_complete an_ident a_state)
ataid_complete_lem_example = ataid_complete_lem an_ident a_state (bytes 512)
  where
    bytes : (n : ℕ) → All (λ b. b < 256) (replicate n 255)
    bytes zero = tt
    bytes (suc n) = (omega arith, bytes n)

rsp_bcnt_lem_example :
    ((rsp_bcnt 1500 16 ≡ default_bcnt) × ((n : ℕ) → Fits 1500 16 n → n ≡ 0))
    ⊎ ((n : ℕ) × (rsp_bcnt 1500 16 ≡ n * 512)
        × (1 ≤ n)
        × (n ≤ 127)
        × Fits 1500 16 n
        × ((m : ℕ) → Fits 1500 16 m → m ≤ n))
rsp_bcnt_lem_example = rsp_bcnt_lem 1500 16 (omega arith) (omega arith)

-- Interfaces 1 and 3 of three.
abbrev odd : ℕ → Bool
odd n = n % 2 == 1

-- An idle device with the minor number 1, and one in use with 0.
abbrev an_idle_dev : AoeDev
an_idle_dev = record a_dev { sysminor = 16; aoeminor = 3; nopen = 0 }

abbrev pub a_driver : Driver
a_driver = record {
  devlist = an_idle_dev ∷ a_dev ∷ [];
  kern = a_state.kern;
  used_minors = true ∷ true ∷ false ∷ false ∷ [];
}

a_driver-IsOrderly : IsOrderly 16 a_driver
a_driver-IsOrderly = record { distinct = one_each; numbered = one_number }
  where
    one_each :
        (maj min : ℕ) → count (λ d. d.aoemajor == maj && d.aoeminor == min) a_driver.devlist ≤ 1
    one_each maj min = ground arith

    one_number :
        (n : ℕ)
        → count (λ d. d.sysminor / 16 == n) a_driver.devlist
          ≤ (if get_or a_driver.used_minors n false then 1 else 0)
    one_number zero = omega arith
    one_number (suc zero) = omega arith
    one_number (suc (suc n)) = ground arith

aoedev_by_aoeaddr-IsOrderly_example : IsOrderly 16 (aoedev_by_aoeaddr an_env 1 4 true a_driver).1
aoedev_by_aoeaddr-IsOrderly_example =
    aoedev_by_aoeaddr-IsOrderly an_env 1 4 true a_driver first_zero-FirstZero (omega arith)
      a_driver-IsOrderly

-- "e1."
user_req_lem_example :
    (user_req (101 ∷ 49 ∷ 46 ∷ []) a_dev ≡ true) ↔ Begins (101 ∷ 49 ∷ 46 ∷ []) (unit_name a_dev)
user_req_lem_example =
    user_req_lem (101 ∷ 49 ∷ 46 ∷ []) a_dev 2000 (omega arith, (omega arith, (omega arith, tt)))
      (omega arith) refl

flush_lem_example :
    (drv' : Driver) × (flush an_env all_idle a_driver ≡ some drv')
    × Flushed 16 all_idle
        (scheduled an_env a_driver.devlist a_driver.kern).0
        a_driver.used_minors
        drv'.devlist
        drv'.used_minors
flush_lem_example =
    flush_lem an_env all_idle a_driver ((refl, refl, omega arith), ((refl, refl, omega arith), tt))

flush-IsOrderly_example :
    (drv' : Driver) × (flush an_env all_idle a_driver ≡ some drv') × IsOrderly 16 drv'
flush-IsOrderly_example =
    flush-IsOrderly an_env all_idle a_driver
      ((refl, refl, omega arith), ((refl, refl, omega arith), tt)) a_driver-IsOrderly

-- A disk that is flushed while it is made, is shown, opened, fails and is identified again, and goes.
abbrev a_life : List Event
a_life =
    identifies an_ident
    ∷ dropped
    ∷ begins
    ∷ flushes (97 ∷ 108 ∷ 108 ∷ [])
    ∷ shows
    ∷ opened
    ∷ goes_down
    ∷ finishes
    ∷ identifies an_ident
    ∷ released (λ nd. true) []
    ∷ tells_size
    ∷ flushes (97 ∷ 108 ∷ 108 ∷ [])
    ∷ []

lives_lem_example :
    IsCoherent
      (lives an_env a_life (record { dev = new_device 0 1 2; kern = a_state.kern }, resting))
lives_lem_example = lives_lem an_env a_life 0 1 2 a_state.kern
