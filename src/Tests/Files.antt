-- ===== src/Tests/Files.antt =====
-- A disk's files, its debugging, a completion thread's round, and the transmitter at concrete states.
use aoe.Prelude.{
  ℕ, ◌≡◌, ◌≤◌, ◌<◌, refl, true, false, none, some, List, [], ◌∷◌, arith, length, ◌++◌, map, Among,
  IsDistinct,
}
use aoe.Tests.{a_dev, a_state, an_env, a_response, active_frame, near, an_skb, a_state-IsBalanced}
use aoe.Tests.Devices.{answered_frame}
use aoe.Types.{Skb, zero_ata}
use aoe.Net.Transmit.{Transmitter, tx, aoenet_xmit}
use aoe.Net.Transmit.Fifo.{with_flag, tx_lem}
use aoe.Io.Loop.{Thread, Load, ktio}
use aoe.Io.Loop.Bounds.{Ends, ktio_lem}
use aoe.Show.{aoedisk_show_netif}
use aoe.Show.Netif.{IsReached, show_netif_lem}
use aoe.Dbg.{Timeval, devinit_begin, devinit_end, aoedbg_rtt, aoedbg_undbg}
use aoe.Dbg.Tidy.{
  World, IsTidy, DbgStep, begins, opens, rtt, undbg, killed, dbg_steps, Cleared, dbg_steps-IsTidy,
}

-- One frame is done, another comes meanwhile, and two are done in a round.
abbrev a_load : Load
a_load = record { aoe_maxioc = 2; ncpus = 4; arrive = λ i. answered_frame ∷ []; starts = λ i. true }

abbrev a_thread : Thread
a_thread = record { active = true ∷ false ∷ false ∷ false ∷ []; state = a_state }

ktio_lem_example : Ends a_load (ktio 2 an_env a_load 0 (answered_frame ∷ []) a_thread)
ktio_lem_example =
    ktio_lem an_env a_load (answered_frame ∷ []) a_thread (omega arith) a_state-IsBalanced

show_netif_lem_example :
    IsDistinct (aoedisk_show_netif a_dev)
    × (length (aoedisk_show_netif a_dev) ≤ 8)
    × ((x : ℕ) → Among x (aoedisk_show_netif a_dev) → IsReached x a_dev.targets)
    × (length (aoedisk_show_netif a_dev) < 8
        → (x : ℕ) → IsReached x a_dev.targets
        → Among x (aoedisk_show_netif a_dev))
show_netif_lem_example = show_netif_lem a_dev

abbrev a_time : Timeval
a_time = record { sec = 100; usec = 999999 }

-- The channel is opened while a response comes and the device is marked.
abbrev dbg_events : List DbgStep
dbg_events =
    let r =
      rtt a_time (record { sec = 101; usec = 5 }) a_dev a_response.hdr a_response.ata
        (some (active_frame, near)) 700 in
    begins true true ∷ r ∷ killed ∷ opens true ∷ r ∷ undbg ∷ begins true true ∷ []

abbrev no_debug : World
no_debug = (
  false,
  record { dbg = none; tkill = false; objects = 0; channels = 0; written = []; faulted = false },
)

dbg_steps-IsTidy_example :
    IsTidy (dbg_steps dbg_events no_debug) × Cleared (dbg_steps dbg_events no_debug)
unfolding devinit_begin devinit_end aoedbg_rtt aoedbg_undbg
dbg_steps-IsTidy_example =
    dbg_steps-IsTidy dbg_events no_debug (tt, (tt, (tt, (tt, (tt, (refl, (tt, tt)))))))
      ((refl, refl), refl)

-- A packet waits, and two writes come.
abbrev a_transmitter : Transmitter
a_transmitter = record { skbtxq = an_skb ∷ []; memalloc = false; handed = []; warned = [] }

abbrev two_writes : List Skb
two_writes = let w = record an_skb { ata = record zero_ata { write = true } } in w ∷ w ∷ []

tx_lem_example :
    let y =
      tx
        (record { drops = λ s. true; net_ratelimit = λ s. true })
        (aoenet_xmit two_writes a_transmitter) in
    (y.skbtxq ≡ [])
    × (y.handed ≡ [] ++ map (with_flag false) ((an_skb ∷ []) ++ two_writes))
    × (y.memalloc ≡ false)
tx_lem_example =
    tx_lem (record { drops = λ s. true; net_ratelimit = λ s. true }) two_writes a_transmitter
